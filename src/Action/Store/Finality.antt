-- ===== src/Action/Store/Finality.antt =====
-- Decisions with a final status, over calls of the store.
use shelfwise.Prelude.{
  String, ◌≡◌, ◌⊎◌, Bool-cases, Option-cases, inl, inr, true, false, Option, none, some, List, [],
  ◌∷◌, arith, text_key, ==_iff, ==_refl, Key-cases, lookup, insert, update, lookup-insert,
  lookup-update-none,
}
use shelfwise.Prelude.Text.{truthy}
use shelfwise.Prelude.Results.{Result, ok, err}
use shelfwise.Action.Store.{
  Value, text, Decision, Store, id_of, merged, is_final, is_final_value, upsert, annotate,
  transition, approve, reject, reviewed,
}

-- One call that changes the store, with its arguments.
pub data Call : Type 0 where
  upsert_call : Decision → String → Call
  approve_call reject_call : String → String → String → Call
  annotate_call : String → Decision → String → Call

abbrev or_same : Result (Decision × Store) → Store → Store
or_same (ok (d, s')) s = s'
or_same (err e) s = s

-- The store after a call; one that raises leaves it.
pub after : Store → Call → Store
after s (upsert_call decision now) = or_same (upsert decision now s) s
after s (approve_call id reviewer now) = (approve id reviewer now s).1
after s (reject_call id reviewer now) = (reject id reviewer now s).1
after s (annotate_call id fields now) = (annotate id fields now s).1

pub run : Store → List Call → Store
run s [] = s
run s (c ∷ cs) = run (after s c) cs

-- The annotations among the calls name neither the status nor the review.
abbrev pub SparesReview : List Call → Type 0
SparesReview [] = Unit
SparesReview (annotate_call id fields now ∷ cs) =
    (lookup "status" fields ≡ none) × (lookup "review" fields ≡ none) × SparesReview cs
SparesReview (c ∷ cs) = SparesReview cs

-- The store has the decision, final, with this status and this review.
abbrev pub IsSettled : String → Option Value → Option Value → Store → Type 0
IsSettled id status review s =
    (d : Decision) × (lookup id s ≡ some d)
    × (lookup "status" d ≡ status)
    × (lookup "review" d ≡ review)

-- An upsert that changes the store merges into a decision that is not final.
after_upsert :
    (s : Store) (decision : Decision) (now : String)
    → (after s (upsert_call decision now) ≡ s)
      ⊎ (((d : Decision) → lookup (id_of decision) s ≡ some d → is_final d ≡ false)
          × (after s (upsert_call decision now)
              ≡ insert (id_of decision) (merged (lookup (id_of decision) s) decision now) s))
unfolding after upsert
after_upsert s decision now = elim (Bool-cases (truthy (id_of decision))) [
  | inr bad ↦ inl (ground arith)
  | inl good ↦ elim (Option-cases (lookup (id_of decision) s)) [
    | inl new ↦ inr (λ d e. cc, ground arith)
    | inr (old, known) ↦ elim (Bool-cases (is_final old)) [
      | inl done ↦ inl (ground arith)
      | inr pending ↦ inr (λ d e. ground arith, ground arith)
    ]
  ]
]

module _ (id : String) (status review : Option Value) (final : is_final_value status ≡ true) where
  review_keeps :
      (s : Store) (j outcome reviewer now : String)
      → IsSettled id status review s
      → IsSettled id status review (transition j outcome reviewer now s).1
  unfolding transition
  review_keeps s j outcome reviewer now (d, known, st, rv) = elim (Option-cases (lookup j s)) [
    | inl e ↦ (d, ground arith, st, rv)
    | inr (d', e) ↦ (
      d,
      ground (arith, ==_iff id j, lookup-insert j id (reviewed outcome reviewer now d') s),
      st,
      rv,
    )
  ]

  annotate_keeps :
      (s : Store) (j : String) (fields : Decision) (now : String)
      → lookup "status" fields ≡ none
      → lookup "review" fields ≡ none
      → IsSettled id status review s
      → IsSettled id status review (annotate j fields now s).1
  unfolding annotate
  annotate_keeps s j fields now no_status no_review (d, known, st, rv) =
      let changed = λ (e : Decision). insert "updated_at" (text now) (update e fields) in
      elim (Key-cases id j) [
        | inl same ↦ (
          changed d,
          ground (arith, same, lookup-insert j id (changed d) s, ==_refl id),
          ground (
            arith,
            lookup-insert "updated_at" "status" (text now) (update d fields),
            lookup-update-none "status" d fields,
          ),
          ground (
            arith,
            lookup-insert "updated_at" "review" (text now) (update d fields),
            lookup-update-none "review" d fields,
          ),
        )
        | inr other ↦ elim (Option-cases (lookup j s)) [
          | inl e ↦ (d, ground arith, st, rv)
          | inr (d', e) ↦ (d, ground (arith, lookup-insert j id (changed d') s), st, rv)
        ]
      ]

  upsert_keeps :
      (s : Store) (decision : Decision) (now : String)
      → IsSettled id status review s
      → IsSettled id status review (after s (upsert_call decision now))
  upsert_keeps s decision now (d, known, st, rv) = elim (after_upsert s decision now) [
    | inl same ↦ rw same (d, known, st, rv)
    | inr (open_, e) ↦ elim (Key-cases id (id_of decision)) [
      | inl own ↦ absurd (ground (arith, own, open_ d))
      | inr other ↦ rw e (
        d,
        ground (
          arith,
          lookup-insert (id_of decision) id (merged (lookup (id_of decision) s) decision now) s,
        ),
        st,
        rv,
      )
    ]
  ]

  after_keeps :
      (s : Store) (c : Call)
      → SparesReview (c ∷ [])
      → IsSettled id status review s
      → IsSettled id status review (after s c)
  unfolding after approve reject
  after_keeps s (upsert_call decision now) spares h = upsert_keeps s decision now h
  after_keeps s (approve_call j reviewer now) spares h = review_keeps s j "approved" reviewer now h
  after_keeps s (reject_call j reviewer now) spares h = review_keeps s j "rejected" reviewer now h
  after_keeps s (annotate_call j fields now) spares h =
      annotate_keeps s j fields now spares.0 spares.1 h

  -- A decision that is approved or rejected keeps its status and its review through any calls:
  -- upserts of the same decision and further reviews included, as long as no annotation among them
  -- names the status or the review.
  pub terminal_states_protected :
      (s : Store) (cs : List Call)
      → SparesReview cs
      → IsSettled id status review s
      → IsSettled id status review (run s cs)
  unfolding run
  terminal_states_protected s [] spares h = h
  terminal_states_protected s (upsert_call decision now ∷ cs) spares h =
      terminal_states_protected (after s (upsert_call decision now)) cs spares
        (after_keeps s (upsert_call decision now) tt h)
  terminal_states_protected s (approve_call j reviewer now ∷ cs) spares h =
      terminal_states_protected (after s (approve_call j reviewer now)) cs spares
        (after_keeps s (approve_call j reviewer now) tt h)
  terminal_states_protected s (reject_call j reviewer now ∷ cs) spares h =
      terminal_states_protected (after s (reject_call j reviewer now)) cs spares
        (after_keeps s (reject_call j reviewer now) tt h)
  terminal_states_protected s (annotate_call j fields now ∷ cs) spares h =
      terminal_states_protected (after s (annotate_call j fields now)) cs spares.2
        (after_keeps s (annotate_call j fields now) (spares.0, spares.1, tt) h)
