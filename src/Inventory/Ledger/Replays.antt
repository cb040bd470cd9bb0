-- ===== src/Inventory/Ledger/Replays.antt =====
-- Events that are projected again, after any other calls of the ledger.
use shelfwise.Prelude.{
  String, ◌≡◌, refl, inl, inr, none, some, List, [], ◌∷◌, arith, text_key, pair_key, ==_iff,
  ==_refl, Option-cases, lookup, lookup-insert,
}
use shelfwise.Prelude.Results.{Result, Result-cases, ok, err}
use shelfwise.Inventory.Positions.{Draft}
use shelfwise.Inventory.Projection.{StockEvent, Projection, projection_input, Receipt, duplicate}
use shelfwise.Inventory.Application.{apply_projection}
use shelfwise.Inventory.Ledger.{Ledger, ReceiptKey, upsert, projected, project_event}

-- One call that changes the ledger.
pub data Call : Type 0 where
  upsert_call : Draft → String → Call
  event_call : StockEvent → String → Call

abbrev or_same : {A : Type 0} → Result (A × Ledger) → Ledger → Ledger
or_same (ok (a, l')) l = l'
or_same (err e) l = l

-- The ledger after a call; one that raises leaves it.
abbrev pub after : Ledger → Call → Ledger
after l (upsert_call draft now) = or_same (upsert draft now l) l
after l (event_call e now) = or_same (project_event e now l) l

unfoldable pub run : Ledger → List Call → Ledger
run l [] = l
run l (c ∷ cs) = run (after l c) cs

-- A recorded receipt stays.
after_keeps :
    (key : ReceiptKey) (r : Receipt) (l : Ledger) (c : Call)
    → lookup key l.receipts ≡ some r
    → lookup key (after l c).receipts ≡ some r
unfolding upsert project_event
after_keeps key r l (upsert_call draft now) h = ground arith
after_keeps key r l (event_call e now) h = elim (Option-cases (projection_input e)) [
  | inl n ↦ ground arith
  | inr (p, input) ↦
      let own : ReceiptKey = (p.tenant_id, p.event_id) in
      elim (Option-cases (lookup own l.receipts)) [
        | inr (old, seen) ↦ ground arith
        | inl new ↦ elim (Result-cases (apply_projection l.positions p now)) [
          | inr (x, failed) ↦ ground arith
          | inl (a, done) ↦ ground (arith, lookup-insert own key a.0 l.receipts, ==_iff key own)
        ]
      ]
]

run_keeps :
    (key : ReceiptKey) (r : Receipt) (l : Ledger) (cs : List Call)
    → lookup key l.receipts ≡ some r
    → lookup key (run l cs).receipts ≡ some r
unfolding run
run_keeps key r l [] h = h
run_keeps key r l (c ∷ cs) h = run_keeps key r (after l c) cs (after_keeps key r l c h)

-- An event that was projected for the first time has its receipt in the ledger.
recorded :
    (e : StockEvent) (now : String) (l l' : Ledger) (p : Projection) (r : Receipt)
    → projection_input e ≡ some p
    → lookup (p.tenant_id, p.event_id) l.receipts ≡ none
    → project_event e now l ≡ ok (projected r, l')
    → lookup (p.tenant_id, p.event_id) l'.receipts ≡ some r
unfolding project_event
recorded e now l l' p r input new h = elim (Result-cases (apply_projection l.positions p now)) [
  | inr (x, failed) ↦ absurd (ground arith)
  | inl (a, done) ↦
      let own : ReceiptKey = (p.tenant_id, p.event_id) in
      ground (arith, lookup-insert own own a.0 l.receipts, ==_refl own)
]

-- Once an event that was not projected before has been projected, projecting it again, after any
-- upserts and events, answers with the receipt of the first time, marked as a duplicate, and leaves
-- the ledger as it is.
pub projected_once :
    (e : StockEvent) (now later : String) (l l' : Ledger) (p : Projection) (r : Receipt)
    (cs : List Call)
    → projection_input e ≡ some p
    → lookup (p.tenant_id, p.event_id) l.receipts ≡ none
    → project_event e now l ≡ ok (projected r, l')
    → project_event e later (run l' cs)
      ≡ ok (projected (record r { status = duplicate }), run l' cs)
unfolding project_event
projected_once e now later l l' p r cs input new h =
    let kept = run_keeps (p.tenant_id, p.event_id) r l' cs (recorded e now l l' p r input new h) in
    rw (input, kept) refl
