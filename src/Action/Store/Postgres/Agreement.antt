-- ===== src/Action/Store/Postgres/Agreement.antt =====
-- The relation between both decision stores, operation by operation.
use shelfwise.Prelude.{
  String, Bool, ◌≡◌, refl, sym, ap, subst, Bool-cases, Option-cases, inl, inr, true, false, Option,
  none, some, [], ◌∷◌, arith, text_key, ◌==◌, ==_iff, ==_refl, Key-cases, or_else, lookup, insert,
  update, HasDistinctKeys, lookup-insert, lookup-update-none,
}
use shelfwise.Prelude.Text.{truthy}
use shelfwise.Prelude.Table.{Table}
use shelfwise.Prelude.Results.{ok}
use shelfwise.Action.Store.{
  text, Decision, Store, id_of, merged, is_final, is_final_status, unless_empty, upsert, annotate,
  transition, reviewed,
}
use shelfwise.Action.Store.Review.{
  lookup-reviewed, transition-final, transition-open, transition-unknown,
}
use shelfwise.Action.Store.Finality.{upsert_call}
use shelfwise.Action.Store.Postgres.{
  DecisionRow, row_of, payload_of, set_payload, undecided, is_dated, pg_get, pg_upsert, pg_annotate,
  pg_transition,
}
use shelfwise.Action.Store.Postgres.Rows.{
  HasStatus, column_status, lookup-merged, HasTimes, IsSound, merged-is_dated, is_dated-HasTimes,
  reviewed-HasTimes, annotated-HasTimes,
}
use shelfwise.Action.Store.Postgres.Calls.{answer, pg_answer}

unless_empty_or : (d : Decision) → or_else (unless_empty (some d)) d ≡ d
unless_empty_or [] = refl
unless_empty_or (e ∷ d) = refl

module _ (T : Table String DecisionRow) (is_time : String → Bool) where
  -- Both hold the same decisions, all with a review status that the status column repeats and with
  -- times that the database reads.
  pub record Agrees (s : Store) (t : T.Rows) : Type 0 where
    pub same : (id : String) → lookup id s ≡ payload_of (T.find id t)
    pub in_sync : (id : String) (row : DecisionRow) → T.find id t ≡ some row → IsSound is_time row

  -- Writing the same decision on both sides keeps the agreement.
  write-Agrees :
      (id : String) (row : DecisionRow) (s : Store) (t : T.Rows)
      → Agrees s t
      → IsSound is_time row
      → Agrees (insert id row.payload s) (T.write id row t)
  write-Agrees id row s t a h = record {
    same = λ j. ground (arith, a.same j, lookup-insert id j row.payload s, T.find-write id j row t);
    in_sync = λ j old f. elim (Key-cases j id) [
      | inl own ↦
          let same_row : row ≡ old = ground (arith, own, T.find-write id j row t, ==_refl id) in
          subst (λ (r : DecisionRow). IsSound is_time r) same_row h
      | inr other ↦ a.in_sync j old (ground (arith, T.find-write id j row t))
    ];
  }

  is_pending :
      (id : String) (s : Store) (t : T.Rows) (row : DecisionRow)
      → Agrees s t
      → T.find id t ≡ some row
      → is_final row.payload ≡ false
      → (row.status == "pending") ≡ true
  is_pending id s t row a e open_ =
      ground (arith, (a.in_sync id row e).0, ==_iff row.status "pending")

  pub review-Agrees :
      (id status reviewer now : String) (s : Store) (t : T.Rows)
      → is_final_status status ≡ true
      → is_time now ≡ true
      → Agrees s t
      → let (d, s') = transition id status reviewer now s in
        let (d', t') = pg_transition T id status reviewer now t in (d ≡ d') × Agrees s' t'
  unfolding pg_transition pg_get
  review-Agrees id status reviewer now s t f n a = elim (Option-cases (T.find id t)) [
    | inl e ↦
        rw (transition-unknown id status reviewer now s (ground (arith, a.same id)), e) (refl, a)
    | inr (row, e) ↦ elim (Bool-cases (is_final row.payload)) [
      | inl done ↦
          rw
            (
              transition-final id status reviewer now s row.payload (ground (arith, a.same id))
                  done,
              e,
              done,
            )
            (refl, a)
      | inr open_ ↦
          let d = reviewed status reviewer now row.payload in
          let st : lookup "status" d ≡ some (text status) =
            lookup-reviewed status reviewer now row.payload "status" in
          rw
            (
              transition-open id status reviewer now s row.payload (ground (arith, a.same id))
                  open_,
              e,
              open_,
              e,
              is_pending id s t row a e open_,
            )
            (
              refl,
              write-Agrees id (set_payload T d row) s t a (
                column_status d status st (inr f),
                reviewed-HasTimes is_time status reviewer now row.payload n (a.in_sync id row e).1,
              ),
            )
    ]
  ]

  pub annotate-Agrees :
      (id : String) (fields : Decision) (now : String) (s : Store) (t : T.Rows)
      → lookup "status" fields ≡ none
      → lookup "created_at" fields ≡ none
      → is_time now ≡ true
      → Agrees s t
      → let (d, s') = annotate id fields now s in
        let (d', t') = pg_annotate T id fields now t in (d ≡ d') × Agrees s' t'
  unfolding annotate pg_annotate pg_get
  annotate-Agrees id fields now s t no_status no_time n a = elim (Option-cases (T.find id t)) [
    | inl e ↦ rw (a.same id, e) (refl, a)
    | inr (row, e) ↦
        let d = insert "updated_at" (text now) (update row.payload fields) in
        let st : lookup "status" d ≡ some (text row.status) = ground (
          arith,
          lookup-insert "updated_at" "status" (text now) (update row.payload fields),
          lookup-update-none "status" row.payload fields,
          (a.in_sync id row e).0,
        ) in
        rw (a.same id, e, e)
          (
            refl,
            write-Agrees id (set_payload T d row) s t a (
              column_status d row.status st (a.in_sync id row e).0.1,
              annotated-HasTimes is_time fields now row.payload no_time n (a.in_sync id row e).1,
            ),
          )
  ]

  -- The row that was written is the one that is read.
  read_back_row :
      (id : String) (row : DecisionRow) (t : T.Rows)
      → ok (some row.payload)
        ≡ ok (some (or_else (unless_empty (payload_of (T.find id (T.write id row t)))) row.payload))
  read_back_row id row t =
      rw (T.find-write id id row t, ==_refl id)
        (ap (λ x. ok (some x)) (sym (unless_empty_or row.payload)))

  -- The row of a merged decision, whatever its `created_at` column.
  merged-IsSound :
      (decision : Decision) (now st created : String) (o : Option Decision)
      → HasDistinctKeys decision
      → HasStatus decision st
      → is_dated is_time (merged o decision now) ≡ true
      → IsSound is_time (record (row_of (merged o decision now)) { created_at = created })
  unfolding row_of
  merged-IsSound decision now st created o distinct h dated =
      let d = merged o decision now in
      (
        column_status d st (lookup-merged o decision now st distinct h.0) h.1,
        is_dated-HasTimes is_time d dated,
      )

  pub upsert-Agrees :
      (decision : Decision) (now st : String) (s : Store) (t : T.Rows)
      → HasDistinctKeys decision
      → HasStatus decision st
      → HasTimes is_time decision
      → is_time now ≡ true
      → Agrees s t
      → let (r, s') = answer (upsert_call decision now) s in
        let (r', t') = pg_answer T is_time (upsert_call decision now) t in (r ≡ r') × Agrees s' t'
  unfolding answer pg_answer upsert pg_upsert pg_get row_of lookup
  upsert-Agrees decision now st s t distinct h times n a =
      let id = id_of decision in
      elim (Bool-cases (truthy id)) [
        | inr bad ↦ rw bad (refl, a)
        | inl good ↦ elim (Option-cases (T.find id t)) [
          | inl e ↦
              let dated = merged-is_dated is_time none decision now distinct (refl, refl) times n in
              let d = merged none decision now in
              let row = row_of d in
              rw (good, a.same id, e, e, dated)
                (
                  read_back_row id row t,
                  write-Agrees id row s t a
                      (merged-IsSound decision now st row.created_at none distinct h dated),
                )
          | inr (old, e) ↦ elim (Bool-cases (is_final old.payload)) [
            | inl done ↦ rw (good, a.same id, e, done) (refl, a)
            | inr open_ ↦
                let sound = a.in_sync id old e in
                let may_write : undecided old ≡ true = ground (arith, sound.0) in
                let d = merged (some old.payload) decision now in
                let dated =
                  merged-is_dated is_time (some old.payload) decision now distinct sound.1 times
                    n in
                let row : DecisionRow = record (row_of d) { created_at = old.created_at } in
                rw (good, a.same id, e, open_, e, may_write, dated)
                  (
                    read_back_row id row t,
                    write-Agrees id row s t a (
                        merged-IsSound decision now st old.created_at (some old.payload) distinct h
                          dated),
                  )
          ]
        ]
      ]
