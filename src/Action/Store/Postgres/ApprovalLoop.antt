-- ===== src/Action/Store/Postgres/ApprovalLoop.antt =====
-- The approval loop over the in-memory and over the PostgreSQL decision store.
use shelfwise.Prelude.{
  String, Bool, true, ◌≡◌, refl, ap, ap₂, All, ◌≢◌, false, Option, none, some, List, [], ◌∷◌,
  text_key, ==_ne, lookup, insert, HasDistinctKeys,
}
use shelfwise.Prelude.Table.{Table}
use shelfwise.Prelude.Results.{Result, ok}
use shelfwise.Action.Store.{text, Decision, Store, is_final, transition, approve, reject, reviewed}
use shelfwise.Action.Store.Review.{transition-open}
use shelfwise.Action.Store.Finality.{Call, upsert_call, approve_call, reject_call, annotate_call}
use shelfwise.Action.Store.Postgres.{DecisionRow, pg_get, pg_transition, pg_approve, pg_reject}
use shelfwise.Action.Store.Postgres.Rows.{IsReviewStatus, HasTimes}
use shelfwise.Action.Store.Postgres.Calls.{answer, pg_answer}
use shelfwise.Action.Store.Postgres.Agreement.{
  Agrees, review-Agrees, annotate-Agrees, upsert-Agrees,
}

module _ (is_time : String → Bool) where
  -- What the callers of both stores keep: an upsert gives a review status, an annotation neither a
  -- status nor a `created_at`, and the times that are given are texts that the database reads.
  abbrev pub IsProper : Call → Type 0
  IsProper (upsert_call decision now) =
      HasDistinctKeys decision
      × ((s : String) × (lookup "status" decision ≡ some (text s)) × IsReviewStatus s)
      × HasTimes is_time decision
      × (is_time now ≡ true)
  IsProper (approve_call id reviewer now) = is_time now ≡ true
  IsProper (reject_call id reviewer now) = is_time now ≡ true
  IsProper (annotate_call id fields now) =
      (lookup "status" fields ≡ none) × (lookup "created_at" fields ≡ none) × (is_time now ≡ true)

pub answers : List Call → Store → List (Result (Option Decision)) × Store
answers [] s = ([], s)
answers (c ∷ cs) s = let (r, s') = answer c s in let (rs, s'') = answers cs s' in (r ∷ rs, s'')

module _ (T : Table String DecisionRow) (is_time : String → Bool) where
  answer-Agrees :
      (c : Call) (s : Store) (t : T.Rows)
      → IsProper is_time c
      → Agrees T is_time s t
      → let (r, s') = answer c s in
        let (r', t') = pg_answer T is_time c t in (r ≡ r') × Agrees T is_time s' t'
  unfolding approve reject pg_approve pg_reject answer pg_answer
  answer-Agrees (upsert_call decision now) s t (distinct, (st, e, h), times, n) a =
      upsert-Agrees T is_time decision now st s t distinct (e, h) times n a
  answer-Agrees (approve_call id reviewer now) s t n a =
      let (e, a') = review-Agrees T is_time id "approved" reviewer now s t refl n a in (ap ok e, a')
  answer-Agrees (reject_call id reviewer now) s t n a =
      let (e, a') = review-Agrees T is_time id "rejected" reviewer now s t refl n a in (ap ok e, a')
  answer-Agrees (annotate_call id fields now) s t (no_status, no_time, n) a =
      let (e, a') = annotate-Agrees T is_time id fields now s t no_status no_time n a in
      (ap ok e, a')

  pub pg_answers : List Call → T.Rows → List (Result (Option Decision)) × T.Rows
  pg_answers [] t = ([], t)
  pg_answers (c ∷ cs) t =
      let (r, t') = pg_answer T is_time c t in let (rs, t'') = pg_answers cs t' in (r ∷ rs, t'')

  -- Any calls of upsert, approve, reject and annotate, from stores that agree, have the same answers
  -- from the in-memory store and from PostgreSQL, exceptions included, and leave stores that agree:
  -- as long as upserted decisions have distinct fields and a status that is pending, approved or
  -- rejected, annotations leave the status and `created_at` alone, and the times that are given, and
  -- those of the clock, are texts that the database reads.
  pub decision_stores_agree :
      (cs : List Call) (s : Store) (t : T.Rows)
      → All (IsProper is_time) cs
      → Agrees T is_time s t
      → let (rs, s') = answers cs s in
        let (rs', t') = pg_answers cs t in (rs ≡ rs') × Agrees T is_time s' t'
  unfolding answers pg_answers
  decision_stores_agree [] s t p a = (refl, a)
  decision_stores_agree (c ∷ cs) s t p a =
      let (e, a') = answer-Agrees c s t p.0 a in
      let (es, a'') = decision_stores_agree cs (answer c s).1 (pg_answer T is_time c t).1 p.1 a' in
      (ap₂ (λ r rs. r ∷ rs) e es, a'')

module _ (T : Table String DecisionRow) where
  -- On a stored decision whose status is neither pending nor final the stores part ways: the
  -- in-memory store records the review, PostgreSQL answers with the decision as it was and stores
  -- nothing.
  pub transition_diverges :
      (id status reviewer now : String) (s : Store) (t : T.Rows) (row : DecisionRow)
      → T.find id t ≡ some row
      → lookup id s ≡ some row.payload
      → is_final row.payload ≡ false
      → row.status ≢ "pending"
      → (transition id status reviewer now s ≡ (
        some (reviewed status reviewer now row.payload),
        insert id (reviewed status reviewer now row.payload) s,
      ))
        × (pg_transition T id status reviewer now t ≡ (some row.payload, t))
  unfolding pg_transition pg_get
  transition_diverges id status reviewer now s t row e known open_ not_pending = (
    transition-open id status reviewer now s row.payload known open_,
    rw (e, open_, e, ==_ne not_pending, e) refl,
  )
