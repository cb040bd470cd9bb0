-- ===== src/Inventory/Application/Sales.antt =====
-- What a sale takes from the shelf.
use shelfwise.Prelude.{
  ℕ, ◌+◌, ◌-◌, min, String, ◌≡◌, refl, ◌∙◌, ap, inl, inr, true, some, List, [], ◌∷◌, arith,
  text_key, leb, eqb, if◌then◌else◌, Bool-cases, lookup, insert, lookup-insert, All,
}
use shelfwise.Prelude.Text.{truthy, or_text, strip}
use shelfwise.Prelude.Results.{ok}
use shelfwise.Inventory.Positions.{
  Position, PositionKey, position_key, Positions, required, position,
}
use shelfwise.Inventory.Projection.{Projection}
use shelfwise.Inventory.Application.{is_at, quantity_at, sold, deduct}
use shelfwise.Inventory.Application.Stock.{on_hand, on_hand-insert}
use shelfwise.Inventory.Application.Keys.{IsFresh, HasNoRepeats, Finds}

-- The texts of a position that `_position` has returned: stripped, and not empty.
pub record IsSound (q : Position) : Type 0 where
  pub tenant : strip q.tenant_id ≡ q.tenant_id
  pub tenant_full : truthy q.tenant_id ≡ true
  pub sku : strip q.sku ≡ q.sku
  pub sku_full : truthy q.sku ≡ true
  pub location : strip q.location_id ≡ q.location_id
  pub location_full : truthy q.location_id ≡ true
  pub type_full : truthy (strip q.location_type) ≡ true
  pub state_full : truthy (strip q.state) ≡ true

pub required-ok : (s : String) → truthy (strip s) ≡ true → required s ≡ ok (strip s)
unfolding required
required-ok s h = rw h refl

still_full :
    (c : Position) (after : ℕ)
    → IsSound c
    → truthy (strip (if eqb after 0 then "depleted" else c.state)) ≡ true
still_full c after s = elim (Bool-cases (eqb after 0)) [
  | inl e ↦ rw e (unfold strip in refl)
  | inr e ↦ rw e s.state_full
]

module _ (p : Projection) (full : truthy (strip p.event_id) ≡ true) where
  -- The position that a sale leaves is where it was, with the quantity that is left.
  sold-lem :
      (c : Position) (after : ℕ) (now : String)
      → IsSound c
      → (q : Position) × (sold p c after now ≡ ok q)
        × (q.quantity ≡ after)
        × (is_at p.tenant_id p.sku p.location_id q ≡ is_at p.tenant_id p.sku p.location_id c)
  unfolding sold position
  sold-lem c after now s =
      let state = if eqb after 0 then "depleted" else c.state in
      let kept : truthy (strip state) ≡ true = still_full c after s in
      (
        record {
          tenant_id = strip c.tenant_id;
          sku = strip c.sku;
          location_type = strip c.location_type;
          location_id = strip c.location_id;
          bin_id = strip (or_text c.bin_id "unassigned");
          quantity = after;
          state = strip state;
          source_reference = strip p.event_id;
          updated_at = or_text now now;
        },
        rw
            (
              required-ok c.tenant_id (rw s.tenant s.tenant_full),
              required-ok c.sku (rw s.sku s.sku_full),
              required-ok c.location_type s.type_full,
              required-ok c.location_id (rw s.location s.location_full),
              required-ok state kept,
              required-ok p.event_id full,
            )
            refl,
        refl,
        rw (s.tenant, s.sku, s.location) refl,
      )

  -- A key that finds a sound position of the event.
  abbrev pub IsReady : Positions → PositionKey → Type 0
  IsReady = Finds (is_at p.tenant_id p.sku p.location_id) IsSound

  insert-IsReady :
      (k : PositionKey) (q : Position) (d : Positions) (ks : List PositionKey)
      → IsFresh k ks
      → All (IsReady d) ks
      → All (IsReady (insert k q d)) ks × (quantity_at ks (insert k q d) ≡ quantity_at ks d)
  insert-IsReady k q d [] f h = (tt, refl)
  insert-IsReady k q d (j ∷ ks) f h =
      let (c, found, there, s) = h.0 in
      let (rest, same) = insert-IsReady k q d ks f.1 h.1 in
      let found' : lookup j (insert k q d) ≡ some c = ground (arith, lookup-insert k j q d, f.0) in
      (((c, found', there, s), rest), rw (found', found) (omega (arith, same)))

  abbrev pub stock : Positions → ℕ
  stock = on_hand p.tenant_id p.sku p.location_id

  -- The loop takes what is wanted as far as the positions go.
  pub deduct-lem :
      (ks : List PositionKey) (remaining updated : ℕ) (now : String) (d : Positions)
      → HasNoRepeats ks
      → All (IsReady d) ks
      → (updated' : ℕ) × (d' : Positions) × (deduct p ks remaining updated now d
          ≡ ok (remaining - quantity_at ks d, updated', d'))
        × (stock d' + min remaining (quantity_at ks d) ≡ stock d)
  unfolding deduct
  deduct-lem [] remaining updated now d n h =
      (updated, d, ap (λ x. ok (x, updated, d)) (omega arith), omega arith)
  deduct-lem (k ∷ ks) remaining updated now d n h =
      let (c, found, there, s) = h.0 in
      elim (Bool-cases (leb remaining 0)) [
        | inl none_left ↦ (
          updated,
          d,
          rw (found, deduct, none_left) (ap (λ x. ok (x, updated, d)) (ground arith)),
          rw found (ground arith),
        )
        | inr some_left ↦ elim (Bool-cases (leb (min c.quantity remaining) 0)) [
          | inl empty ↦
              let (u, d', e, kept) = deduct-lem ks remaining updated now d n.1 h.1 in
              (
                u,
                d',
                rw (found, deduct, some_left, empty) (e ∙ ap (λ x. ok (x, u, d')) (ground arith)),
                rw found (ground (arith, kept)),
              )
          | inr takes ↦
              let taken = min c.quantity remaining in
              let (q, made, quantity, place) = sold-lem c (c.quantity - taken) now s in
              let (ready, same) = insert-IsReady k q d ks n.0 h.1 in
              let (u, d', e, kept) =
                deduct-lem ks (remaining - taken) (updated + 1) now (insert k q d) n.1 ready in
              let moved = on_hand-insert p.tenant_id p.sku p.location_id k q d in
              let after_take : stock (insert k q d) + c.quantity ≡ stock d + (c.quantity - taken) =
                ground (arith, moved, found, there, place, quantity) in
              (
                u,
                d',
                rw (found, deduct, some_left, takes, made)
                    (e ∙ ap (λ x. ok (x, u, d')) (ground (arith, same))),
                rw found (ground (arith, kept, same, after_take)),
              )
        ]
      ]
