-- ===== src/Orders/Ledger/Suppression.antt =====
-- What `coverage` reports for a sku.
use shelfwise.Prelude.{
  ℕ, ◌+◌, ◌≡◌, refl, sym, inl, inr, ap, Bool-cases, String, Option, none, some, or_else, lookup,
  insert, lookup-insert, lookup-nil, ◌==◌, ==_iff, Key-cases, text_key, Dict, List, [], ◌∷◌, ◌++◌,
  append-nil, append_assoc, map, keep_if, arith, true, ◌&&◌,
}
use shelfwise.Orders.Shipments.{Order}
use shelfwise.Orders.Ledger.{
  Orders, orders_of, is_awaited, Tally, no_tally, with_order, eta_list, earliest, Coverage,
  close_tally, tally, coverage,
}

-- The orders that a recommendation for the sku has to wait for.
abbrev pub awaited : String → List Order → List Order
awaited sku os = keep_if (λ o. is_awaited o && sku == o.sku) os

abbrev pub total_remaining : List Order → ℕ
total_remaining [] = 0
total_remaining (o ∷ os) = o.remaining_units + total_remaining os

abbrev pub all_etas : List Order → List ℕ
all_etas [] = []
all_etas (o ∷ os) = eta_list o.eta ++ all_etas os

-- What these orders of one sku come to; nothing where there are none.
abbrev pub summary : List Order → Option Coverage
summary [] = none
summary (o ∷ os) = some (record {
  remaining_units = total_remaining (o ∷ os);
  eta = earliest (all_etas (o ∷ os));
  order_ids = map (λ x. x.order_id) (o ∷ os);
})

-- A tally with more orders counted in.
abbrev extended : Option Tally → List Order → Option Tally
extended t [] = t
extended t (o ∷ os) = extended (some (with_order o (or_else t no_tally))) os

tally_lem :
    (sku : String) (os : List Order) (c : Dict String Tally)
    → lookup sku (tally os c) ≡ extended (lookup sku c) (awaited sku os)
unfolding tally
tally_lem sku [] c = refl
tally_lem sku (o ∷ os) c = elim (Bool-cases (is_awaited o)) [
  | inl e ↦ elim (Key-cases sku o.sku) [
    | inl same ↦
        let hit : (sku == o.sku) ≡ true = (==_iff sku o.sku).1 same in
        let alike : lookup o.sku c ≡ lookup sku c = ap (λ (x : String). lookup x c) (sym same) in
        let t = with_order o (or_else (lookup o.sku c) no_tally) in
        rw (e, tally_lem sku os (insert o.sku t c), lookup-insert o.sku sku t c, hit, alike) refl
    | inr other ↦
        let t = with_order o (or_else (lookup o.sku c) no_tally) in
        rw (e, tally_lem sku os (insert o.sku t c), lookup-insert o.sku sku t c, other) refl
  ]
  | inr e ↦ rw e (tally_lem sku os c)
]

extended_lem :
    (t : Tally) (os : List Order)
    → extended (some t) os
      ≡ some (record {
        remaining_units = t.remaining_units + total_remaining os;
        etas = t.etas ++ all_etas os;
        order_ids = t.order_ids ++ map (λ x. x.order_id) os;
      })
extended_lem t [] = rw (append-nil t.etas, append-nil t.order_ids) (ground arith)
extended_lem t (o ∷ os) = ground (
  arith,
  extended_lem (with_order o t) os,
  append_assoc t.etas (eta_list o.eta) (all_etas os),
  append_assoc t.order_ids (o.order_id ∷ []) (map (λ (x : Order). x.order_id) os),
)

abbrev closed : Option Tally → Option Coverage
closed none = none
closed (some t) = some (close_tally t)

lookup-closed :
    (sku : String) (c : Dict String Tally)
    → lookup sku (map (λ e. (e.0, close_tally e.1)) c) ≡ closed (lookup sku c)
unfolding lookup
lookup-closed sku [] = refl
lookup-closed sku ((i, t) ∷ c) = ground (arith, lookup-closed sku c)

closed-extended : (os : List Order) → closed (extended none os) ≡ summary os
closed-extended [] = refl
closed-extended (o ∷ os) = rw (extended_lem (with_order o no_tally) os) (ground arith)

-- For every sku, `coverage` reports what the awaited orders of that sku come to: the sum of their
-- remaining units, the earliest of their arrival times and their ids in the order of the ledger;
-- and nothing exactly where no order of the sku is awaited.
pub coverage_is_summary :
    (tenant : String) (domain : Option String) (sku : String) (l : Orders)
    → lookup sku (coverage tenant domain l) ≡ summary (awaited sku (orders_of tenant domain l))
unfolding coverage
coverage_is_summary tenant domain sku l =
    rw
      (
        lookup-closed sku (tally (orders_of tenant domain l) []),
        tally_lem sku (orders_of tenant domain l) [],
        lookup-nil {V = Tally} sku,
      )
      (closed-extended (awaited sku (orders_of tenant domain l)))
