-- ===== src/Action/Store/Postgres/Calls.antt =====
-- The calls of the approval loop over both stores, with their answers.
use shelfwise.Prelude.{String, Bool, Option, some, text_key}
use shelfwise.Prelude.Table.{Table}
use shelfwise.Prelude.Results.{Result, ok, err}
use shelfwise.Action.Store.{Decision, Store, upsert, annotate, approve, reject}
use shelfwise.Action.Store.Finality.{Call, upsert_call, approve_call, reject_call, annotate_call}
use shelfwise.Action.Store.Postgres.{DecisionRow, pg_upsert, pg_annotate, pg_approve, pg_reject}

-- The answer of an upsert, with the store that it leaves.
abbrev pub answered : {S : Type 0} → Result (Decision × S) → S → Result (Option Decision) × S
answered (ok (d, s')) s = (ok (some d), s')
answered (err e) s = (err e, s)

-- The answer of a call, with the store after it.
unfoldable pub answer : Call → Store → Result (Option Decision) × Store
answer (upsert_call decision now) s = answered (upsert decision now s) s
answer (approve_call id reviewer now) s = let (d, s') = approve id reviewer now s in (ok d, s')
answer (reject_call id reviewer now) s = let (d, s') = reject id reviewer now s in (ok d, s')
answer (annotate_call id fields now) s = let (d, s') = annotate id fields now s in (ok d, s')

module _ (T : Table String DecisionRow) (is_time : String → Bool) where
  unfoldable pub pg_answer : Call → T.Rows → Result (Option Decision) × T.Rows
  pg_answer (upsert_call decision now) t = answered (pg_upsert T is_time decision now t) t
  pg_answer (approve_call id reviewer now) t =
      let (d, t') = pg_approve T id reviewer now t in (ok d, t')
  pg_answer (reject_call id reviewer now) t =
      let (d, t') = pg_reject T id reviewer now t in (ok d, t')
  pg_answer (annotate_call id fields now) t =
      let (d, t') = pg_annotate T id fields now t in (ok d, t')
