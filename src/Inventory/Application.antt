-- ===== src/Inventory/Application.antt =====
-- src/shelfwise_inventory/store.py: `_apply_projection` and its two branches. The clock is read once
-- for an event.
pub mod Stock
pub mod Keys
pub mod Sales
use shelfwise.Prelude.{
  ℕ, zero, suc, ◌+◌, ◌-◌, min, String, Bool, true, false, not, ◌&&◌, ◌||◌, Option, none, some, List,
  [], ◌∷◌, map, text_key, pair_key, ◌==◌, if◌then◌else◌, or_else, Dict, lookup, insert, keep_if,
  leb, eqb,
}
use shelfwise.Prelude.Text.{truthy, or_text, strip, lower, text_leb}
use shelfwise.Prelude.Sort.{sort}
use shelfwise.Prelude.Results.{Result, ok, err, runtime_error, ◌>>=◌}
use shelfwise.Runtime.Provenance.{operational_twin, value}
use shelfwise.Inventory.Positions.{
  ℤ, pos, negsuc, Draft, Position, position, PositionKey, position_key, key_of, Positions,
}
use shelfwise.Inventory.Projection.{
  StockEvent, EventKind, stock_update, sale, Projection, Receipt, receipt, Status,
  stock_position_replaced, missing_inventory_baseline, sale_applied, sale_partially_applied,
}

-- Whether a position is of this tenant, sku and location.
abbrev pub is_at : String → String → String → Position → Bool
is_at tenant sku location q = q.tenant_id == tenant && q.sku == sku && q.location_id == location

abbrev by_bin : PositionKey → PositionKey → Bool
by_bin a b = text_leb a.bin_id b.bin_id

-- The keys of the positions that an event is about, by bin.
unfoldable pub matching : Projection → Positions → List PositionKey
matching p d =
    sort by_bin (map (λ e. e.0) (keep_if (λ e. is_at p.tenant_id p.sku p.location_id e.1) d))

abbrev pub quantity_of : Option Position → ℕ
quantity_of none = 0
quantity_of (some q) = q.quantity

-- `sum(int(positions[key]["quantity"]) for key in matching)`
abbrev pub quantity_at : List PositionKey → Positions → ℕ
quantity_at [] d = 0
quantity_at (k ∷ ks) d = quantity_of (lookup k d) + quantity_at ks d

-- `int(projection["quantity"])`; without an issue the quantity is a natural number.
abbrev pub amount : Projection → ℕ
amount p = elim p.quantity [ some (pos n) ↦ n | _ ↦ 0 ]

-- The position that a stock update gives.
abbrev pub stock_draft : Projection → Draft
stock_draft p = record {
  tenant_id = p.tenant_id;
  sku = p.sku;
  location_type = p.location_type;
  location_id = p.location_id;
  bin_id = p.bin_id;
  quantity = pos (amount p);
  state = p.stock_state;
  source_reference = p.event_id;
  updated_at = "";
}

-- `_apply_stock_projection`. The replaced quantity is one of those that `before` adds up, so the
-- subtraction does not stop at 0.
unfoldable pub apply_stock : Positions → Projection → ℕ → String → Result (Receipt × Positions)
unfolding position
apply_stock d p before now = do
  q ← position (stock_draft p) now
  ok (
    receipt p stock_position_replaced (some before)
        (some (before - quantity_of (lookup (key_of q) d) + amount p)) 0 1 now,
    insert (key_of q) q d,
  )

-- The position that a sale leaves of `current`.
abbrev pub sold_draft : Projection → Position → ℕ → String → Draft
sold_draft p current after now = record {
  tenant_id = current.tenant_id;
  sku = current.sku;
  location_type = current.location_type;
  location_id = current.location_id;
  bin_id = current.bin_id;
  quantity = pos after;
  state = if eqb after 0 then "depleted" else current.state;
  source_reference = p.event_id;
  updated_at = now;
}

-- `_position` of that.
unfoldable pub sold : Projection → Position → ℕ → String → Result Position
unfolding position
sold p current after now = position (sold_draft p current after now) now

-- The loop over the matching keys: what remains, the count of updates, the positions. A key that
-- the dictionary lacks raises.
unfoldable pub deduct :
    Projection → List PositionKey → ℕ → ℕ → String → Positions → Result (ℕ × ℕ × Positions)
deduct p [] remaining updated now d = ok (remaining, updated, d)
deduct p (k ∷ ks) remaining updated now d = elim (lookup k d) [
  | none ↦ if leb remaining 0 then ok (remaining, updated, d) else err runtime_error
  | some current ↦
      if leb remaining 0
      then ok (remaining, updated, d)
      else if leb (min current.quantity remaining) 0
      then deduct p ks remaining updated now d
      else sold p current (current.quantity - min current.quantity remaining) now >>= λ q.
          deduct p ks (remaining - min current.quantity remaining) (updated + 1) now (insert k q d)
]

abbrev pub sale_receipt : Projection → ℕ → String → ℕ × ℕ × Positions → Receipt × Positions
sale_receipt p before now (remaining, updated, d) = (
  receipt p (if eqb remaining 0 then sale_applied else sale_partially_applied) (some before)
      (some (before - (amount p - remaining))) remaining updated now,
  d,
)

-- `_apply_sale_projection`
unfoldable pub apply_sale :
    Positions → Projection → List PositionKey → ℕ → String → Result (Receipt × Positions)
unfolding deduct
apply_sale d p [] before now =
    ok (receipt p missing_inventory_baseline (some 0) (some 0) (amount p) 0 now, d)
apply_sale d p (k ∷ ks) before now = do
  left ← deduct p (k ∷ ks) (amount p) 0 now d
  ok (sale_receipt p before now left)

apply_kind : EventKind → Positions → Projection → String → Result (Receipt × Positions)
unfolding apply_stock apply_sale matching
apply_kind stock_update d p now = apply_stock d p (quantity_at (matching p d) d) now
apply_kind sale d p now = apply_sale d p (matching p d) (quantity_at (matching p d) d) now

apply_unless : Option Status → Positions → Projection → String → Result (Receipt × Positions)
unfolding apply_kind
apply_unless (some issue) d p now = ok (receipt p issue none none 0 0 now, d)
apply_unless none d p now = apply_kind p.event_type d p now

-- `_apply_projection`
unfoldable pub apply_projection : Positions → Projection → String → Result (Receipt × Positions)
unfolding apply_unless
apply_projection d p now = apply_unless p.issue d p now
