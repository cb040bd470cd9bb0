-- ===== src/Inventory/Ledger/Validity.antt =====
-- The validity of positions, call by call.
use shelfwise.Prelude.{
  ℕ, ◌+◌, ◌-◌, min, String, ◌≡◌, refl, sym, subst, ◌⊎◌, inl, inr, false, none, List, [], ◌∷◌, arith,
  text_key, pair_key, ◌==◌, leb, Bool-cases, Option-cases, lookup, insert, insert-HasDistinctKeys,
  All,
}
use shelfwise.Prelude.Text.{truthy, strip}
use shelfwise.Prelude.Text.Strip.{strip_again}
use shelfwise.Prelude.Results.{Result, Result-cases, ok, err, value_error}
use shelfwise.Inventory.Positions.{
  Draft, Position, PositionKey, position_key, key_of, Positions, required, non_negative, position,
}
use shelfwise.Inventory.Projection.{
  EventKind, stock_update, sale, Projection, projection_input, Receipt,
}
use shelfwise.Inventory.Application.{
  sold, sold_draft, stock_draft, matching, quantity_at, deduct, amount, apply_stock, apply_sale,
  apply_projection,
}
use shelfwise.Inventory.Application.Sales.{IsSound, required-ok}
use shelfwise.Inventory.Ledger.{Ledger, upsert, project_event}
use shelfwise.Inventory.Ledger.Accounts.{IsValid, applied_sale}
use shelfwise.Inventory.Ledger.Replays.{Call, upsert_call, event_call, after, run}

-- A result, where there is one, has the property.
abbrev pub Returns : {A : Type 0} → (A → Type 0) → Result A → Type 0
Returns P (ok a) = P a
Returns P (err x) = Unit

required-err : (s : String) → truthy (strip s) ≡ false → required s ≡ err value_error
unfolding required
required-err s h = rw h refl

position-IsSound : (d : Draft) (now : String) → Returns IsSound (position d now)
unfolding position
position-IsSound d now = elim (Bool-cases (truthy (strip d.tenant_id))) [
  | inr e ↦ rw (required-err d.tenant_id e) tt
  | inl a ↦ elim (Bool-cases (truthy (strip d.sku))) [
    | inr e ↦ rw (required-ok d.tenant_id a, required-err d.sku e) tt
    | inl b ↦ elim (Bool-cases (truthy (strip d.location_type))) [
      | inr e ↦
          rw (required-ok d.tenant_id a, required-ok d.sku b, required-err d.location_type e) tt
      | inl c ↦ elim (Bool-cases (truthy (strip d.location_id))) [
        | inr e ↦
            rw
              (
                required-ok d.tenant_id a,
                required-ok d.sku b,
                required-ok d.location_type c,
                required-err d.location_id e,
              )
              tt
        | inl f ↦ elim (Bool-cases (truthy (strip d.state))) [
          | inr e ↦
              rw
                (
                  required-ok d.tenant_id a,
                  required-ok d.sku b,
                  required-ok d.location_type c,
                  required-ok d.location_id f,
                  required-err d.state e,
                )
                tt
          | inl g ↦ elim (Bool-cases (truthy (strip d.source_reference))) [
            | inr e ↦
                rw
                  (
                    required-ok d.tenant_id a,
                    required-ok d.sku b,
                    required-ok d.location_type c,
                    required-ok d.location_id f,
                    required-ok d.state g,
                    required-err d.source_reference e,
                  )
                  tt
            | inl h ↦
                rw
                  (
                    required-ok d.tenant_id a,
                    required-ok d.sku b,
                    required-ok d.location_type c,
                    required-ok d.location_id f,
                    required-ok d.state g,
                    required-ok d.source_reference h,
                  )
                  (elim (Result-cases (non_negative d.quantity)) [
                    | inr (x, e) ↦ rw e tt
                    | inl (n, e) ↦ rw e (record {
                      tenant = strip_again d.tenant_id;
                      tenant_full = a;
                      sku = strip_again d.sku;
                      sku_full = b;
                      location = strip_again d.location_id;
                      location_full = f;
                      type_full = rw (strip_again d.location_type) c;
                      state_full = rw (strip_again d.state) g;
                    })
                  ])
          ]
        ]
      ]
    ]
  ]
]

insert-IsSound :
    (k : PositionKey) (q : Position) (d : Positions)
    → IsSound q
    → All (λ (e : PositionKey × Position). IsSound e.1) d
    → All (λ (e : PositionKey × Position). IsSound e.1) (insert k q d)
unfolding insert
insert-IsSound k q [] s h = (s, tt)
insert-IsSound k q ((j, r) ∷ d) s h = elim (Bool-cases (k == j)) [
  | inl e ↦ rw e (s, h.1)
  | inr e ↦ rw e (h.0, insert-IsSound k q d s h.1)
]

insert-IsValid :
    (k : PositionKey) (q : Position) (d : Positions)
    → IsSound q
    → IsValid d
    → IsValid (insert k q d)
insert-IsValid k q d s v = record {
  distinct = insert-HasDistinctKeys k q d v.distinct;
  sound = insert-IsSound k q d s v.sound;
}

returned : {A : Type 0} (P : A → Type 0) (r : Result A) (a : A) → Returns P r → r ≡ ok a → P a
returned P (ok b) a h e = subst P (ground arith) h
returned P (err x) a h e = absurd (ground arith)

sold-IsSound :
    (p : Projection) (c : Position) (left : ℕ) (now : String) → Returns IsSound (sold p c left now)
unfolding sold
sold-IsSound p c left now = position-IsSound (sold_draft p c left now) now

deduct-IsValid :
    (p : Projection) (ks : List PositionKey) (remaining updated : ℕ) (now : String) (d : Positions)
    → IsValid d
    → Returns (λ (x : ℕ × ℕ × Positions). IsValid x.2) (deduct p ks remaining updated now d)
unfolding deduct
deduct-IsValid p [] remaining updated now d v = v
deduct-IsValid p (k ∷ ks) remaining updated now d v = elim (Bool-cases (leb remaining 0)) [
  | inl stop ↦ elim (Option-cases (lookup k d)) [
    | inl e ↦ rw (e, deduct, stop) v
    | inr (c, e) ↦ rw (e, deduct, stop) v
  ]
  | inr on ↦ elim (Option-cases (lookup k d)) [
    | inl e ↦ rw (e, deduct, on) tt
    | inr (c, e) ↦ elim (Bool-cases (leb (min c.quantity remaining) 0)) [
      | inl empty ↦ rw (e, deduct, on, empty) (deduct-IsValid p ks remaining updated now d v)
      | inr takes ↦ elim (Result-cases (sold p c (c.quantity - min c.quantity remaining) now)) [
        | inr (x, raised) ↦ rw (e, deduct, on, takes, raised) tt
        | inl (q, made) ↦
            rw (e, deduct, on, takes, made)
              (deduct-IsValid p ks (remaining - min c.quantity remaining) (updated + 1) now
                (insert k q d)
                (insert-IsValid k q d (returned IsSound _ q (sold-IsSound p c _ now) made) v))
      ]
    ]
  ]
]

-- What an event leaves is valid.
abbrev LeavesValid : Receipt × Positions → Type 0
LeavesValid x = IsValid x.1

apply_sale-IsValid :
    (p : Projection) (ks : List PositionKey) (before : ℕ) (now : String) (d : Positions)
    → IsValid d
    → Returns LeavesValid (apply_sale d p ks before now)
unfolding apply_sale
apply_sale-IsValid p [] before now d v = v
apply_sale-IsValid p (k ∷ ks) before now d v =
    elim (Result-cases (deduct p (k ∷ ks) (amount p) 0 now d)) [
      | inr (x, e) ↦ rw e tt
      | inl (left, e) ↦ rw e (
          returned (λ (x : ℕ × ℕ × Positions). IsValid x.2) _ left
            (deduct-IsValid p (k ∷ ks) (amount p) 0 now d v) e)
    ]

apply_stock-IsValid :
    (p : Projection) (before : ℕ) (now : String) (d : Positions)
    → IsValid d
    → Returns LeavesValid (apply_stock d p before now)
unfolding apply_stock
apply_stock-IsValid p before now d v = elim (Result-cases (position (stock_draft p) now)) [
  | inr (x, e) ↦ rw e tt
  | inl (q, e) ↦ rw e (
      insert-IsValid (key_of q) q d (returned IsSound _ q (position-IsSound (stock_draft p) now) e)
        v)
]

EventKind-cases : (k : EventKind) → (k ≡ stock_update) ⊎ (k ≡ sale)
EventKind-cases stock_update = inl refl
EventKind-cases sale = inr refl

applied_stock :
    (p : Projection) (d : Positions) (now : String)
    → p.issue ≡ none
    → p.event_type ≡ stock_update
    → apply_projection d p now ≡ apply_stock d p (quantity_at (matching p d) d) now
unfolding apply_projection
applied_stock p d now fine kind = rw (fine, kind) refl

apply_projection-IsValid :
    (p : Projection) (now : String) (d : Positions)
    → IsValid d
    → Returns LeavesValid (apply_projection d p now)
unfolding apply_projection
apply_projection-IsValid p now d v = elim (Option-cases p.issue) [
  | inr (issue, e) ↦ rw e v
  | inl e ↦ elim (EventKind-cases p.event_type) [
    | inl k ↦
        subst (Returns LeavesValid) (sym (applied_stock p d now e k))
          (apply_stock-IsValid p (quantity_at (matching p d) d) now d v)
    | inr k ↦
        subst (Returns LeavesValid) (sym (applied_sale p d now e k))
          (apply_sale-IsValid p (matching p d) (quantity_at (matching p d) d) now d v)
  ]
]

after-IsValid : (l : Ledger) (c : Call) → IsValid l.positions → IsValid (after l c).positions
unfolding upsert project_event
after-IsValid l (upsert_call draft now) v = elim (Result-cases (position draft now)) [
  | inr (x, e) ↦ rw e v
  | inl (q, e) ↦ rw e (
      insert-IsValid (key_of q) q l.positions (returned IsSound _ q (position-IsSound draft now) e)
        v)
]
after-IsValid l (event_call event now) v = elim (Option-cases (projection_input event)) [
  | inl e ↦ rw e v
  | inr (p, e) ↦ elim (Option-cases (lookup (p.tenant_id, p.event_id) l.receipts)) [
    | inr (r, seen) ↦ rw (e, seen) v
    | inl new ↦ elim (Result-cases (apply_projection l.positions p now)) [
      | inr (x, failed) ↦ rw (e, new, failed) v
      | inl (a, done) ↦
          rw (e, new, done)
            (returned LeavesValid _ a (apply_projection-IsValid p now l.positions v) done)
    ]
  ]
]

-- From valid positions, such as none, all upserts and events leave valid positions: no key stands
-- twice, and the tenant, the sku and the location of every position are stripped texts that are not
-- empty.
pub run-IsValid : (l : Ledger) (cs : List Call) → IsValid l.positions → IsValid (run l cs).positions
unfolding run
run-IsValid l [] v = v
run-IsValid l (c ∷ cs) v = run-IsValid (after l c) cs (after-IsValid l c v)
