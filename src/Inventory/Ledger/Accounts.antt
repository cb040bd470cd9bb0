-- ===== src/Inventory/Ledger/Accounts.antt =====
-- The receipts of sales and the stock on hand.
use shelfwise.Prelude.{
  ℕ, ◌-◌, ◌≤◌, String, ◌≡◌, refl, subst, ap, ◌∙◌, true, none, some, List, [], ◌∷◌, arith, text_key,
  pair_key, lookup, insert, HasDistinctKeys, All,
}
use shelfwise.Prelude.Text.{truthy, or_text, strip}
use shelfwise.Prelude.Text.Strip.{strip_again}
use shelfwise.Prelude.Results.{ok}
use shelfwise.Inventory.Positions.{pos, Position, PositionKey, position_key, Positions}
use shelfwise.Inventory.Projection.{
  StockEvent, sale, Projection, projection_of, projection_input, projected_kind, missing_issue,
  Receipt, receipt, missing_inventory_baseline,
}
use shelfwise.Inventory.Application.{
  matching, quantity_at, amount, apply_sale, apply_projection, sale_receipt,
}
use shelfwise.Inventory.Application.Stock.{on_hand, before_is_on_hand}
use shelfwise.Inventory.Application.Keys.{HasNoRepeats, matching-HasNoRepeats, matching-Finds}
use shelfwise.Inventory.Application.Sales.{IsSound, IsReady, deduct-lem}
use shelfwise.Inventory.Ledger.{Ledger, projected, project_event}

-- Every position has sound texts, and no key stands twice.
pub record IsValid (d : Positions) : Type 0 where
  pub distinct : HasDistinctKeys d
  pub sound : All (λ (e : PositionKey × Position). IsSound e.1) d

-- What a sale of `n` pieces, with `b` on hand before and `after` on hand afterwards, is told.
pub record TellsSale (n b after : ℕ) (r : Receipt) : Type 0 where
  pub before_told : r.before_quantity ≡ some b
  pub after_told : r.after_quantity ≡ some after
  pub unfulfilled_told : r.unfulfilled_quantity ≡ n - b
  pub stock_left : after ≡ b - n

module _ (p : Projection) (full : truthy (strip p.event_id) ≡ true) where
  sale_of_keys :
      (ks : List PositionKey) (d : Positions) (now : String)
      → HasNoRepeats ks
      → All (IsReady p full d) ks
      → quantity_at ks d ≡ on_hand p.tenant_id p.sku p.location_id d
      → (r : Receipt) × (d' : Positions) × (apply_sale d p ks (quantity_at ks d) now ≡ ok (r, d'))
        × TellsSale
            (amount p)
            (on_hand p.tenant_id p.sku p.location_id d)
            (on_hand p.tenant_id p.sku p.location_id d')
            r
  unfolding apply_sale
  sale_of_keys [] d now n h total = (
    receipt p missing_inventory_baseline (some 0) (some 0) (amount p) 0 now,
    d,
    refl,
    record {
      before_told = ap some total;
      after_told = ap some total;
      unfulfilled_told = omega (arith, total);
      stock_left = omega (arith, total);
    },
  )
  sale_of_keys (k ∷ ks) d now n h total =
      let before = quantity_at (k ∷ ks) d in
      let (u, d', e, kept) = deduct-lem p full (k ∷ ks) (amount p) 0 now d n h in
      let left = amount p - before in
      (
        (sale_receipt p before now (left, u, d')).0,
        d',
        rw e refl,
        record {
          before_told = ap some total;
          after_told = ap some (omega (arith, total, kept));
          unfulfilled_told = omega (arith, total);
          stock_left = omega (arith, total, kept);
        },
      )

pub applied_sale :
    (p : Projection) (d : Positions) (now : String)
    → p.issue ≡ none
    → p.event_type ≡ sale
    → apply_projection d p now ≡ apply_sale d p (matching p d) (quantity_at (matching p d) d) now
unfolding apply_projection
applied_sale p d now fine kind = rw (fine, kind) refl

projected_new :
    (e : StockEvent) (p : Projection) (now : String) (l : Ledger) (a : Receipt × Positions)
    → projection_input e ≡ some p
    → lookup (p.tenant_id, p.event_id) l.receipts ≡ none
    → apply_projection l.positions p now ≡ ok a
    → project_event e now l
      ≡ ok (
        projected a.0,
        record { positions = a.1; receipts = insert (p.tenant_id, p.event_id) a.0 l.receipts },
      )
unfolding project_event
projected_new e p now l a input new applied = rw (input, new, applied) refl

-- A sale of `n` pieces whose fields are all there.
pub record IsSale (e : StockEvent) (n : ℕ) : Type 0 where
  pub kind : projected_kind e ≡ some sale
  pub fields : missing_issue e ≡ none
  pub pieces : e.quantity ≡ some (pos n)
  pub some_pieces : 1 ≤ n

-- A sale that was not projected before, on positions that are valid, is applied: its receipt tells
-- the stock on hand of its tenant, sku and location before and after it, nothing is sold that was
-- not there, and what could not be fulfilled is what was asked for beyond the stock on hand.
pub sale_accounts :
    (e : StockEvent) (n : ℕ) (now : String) (l : Ledger)
    → IsSale e n
    → IsValid l.positions
    → lookup (strip e.tenant_id, strip e.id) l.receipts ≡ none
    → let stock =
        on_hand (strip e.tenant_id) (strip e.sku) (strip (or_text e.location_id e.location)) in
      (r : Receipt) × (l' : Ledger) × (project_event e now l ≡ ok (projected r, l'))
      × TellsSale n (stock l.positions) (stock l'.positions) r
unfolding projection_input
sale_accounts e n now l s v new =
    let p = projection_of e sale in
    let d = l.positions in
    let named : truthy (strip e.id) ≡ true = ground (arith, s.fields) in
    let full : truthy (strip p.event_id) ≡ true = rw (strip_again e.id) named in
    let (r, d', done, tells) =
      sale_of_keys p full (matching p d) d now (matching-HasNoRepeats p d v.distinct)
        (matching-Finds p d IsSound v.distinct v.sound) (before_is_on_hand p d v.distinct) in
    let fine : p.issue ≡ none = ground (arith, s.pieces, s.fields, s.some_pieces) in
    let asked : amount p ≡ n = rw s.pieces refl in
    let applied = applied_sale p d now fine refl ∙ done in
    (
      r,
      record { positions = d'; receipts = insert (strip e.tenant_id, strip e.id) r l.receipts },
      projected_new e p now l (r, d') (rw s.kind refl) new applied,
      subst
          (λ m.
            TellsSale m (on_hand p.tenant_id p.sku p.location_id d)
              (on_hand p.tenant_id p.sku p.location_id d') r)
          asked tells,
    )
