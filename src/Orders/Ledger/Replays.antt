-- ===== src/Orders/Ledger/Replays.antt =====
-- An event that is observed twice.
use shelfwise.Prelude.{
  ◌≡◌, refl, inl, inr, Bool-cases, Option-cases, Option, none, some, lookup, insert, lookup-insert,
  Key, ==_refl, Dict, [], ◌∷◌, arith,
}
use shelfwise.Orders.Shipments.{
  ShipmentEvent, Shipment, shipment_payload, Order, is_stale, order_record, order_key, key_of,
}
use shelfwise.Orders.Ledger.{Orders, observe_event}

insert-insert {ℓ κ} :
    {K : Type ℓ} {V : Type κ} ⦃k : Key K⦄ (i : K) (v : V) (d : Dict K V)
    → insert i v (insert i v d) ≡ insert i v d
unfolding insert
insert-insert i v [] = rw (==_refl i) refl
insert-insert i v ((j, w) ∷ d) = ground (arith, insert-insert i v d)

order_record-again :
    (e : ShipmentEvent) (s : Shipment) (o : Option Order)
    → order_record e s (some (order_record e s o)) ≡ order_record e s o
unfolding order_record
order_record-again e s none = ground arith
order_record-again e s (some existing) = elim (Bool-cases (is_stale e.ts existing)) [
  | inl stale ↦ rw (stale, stale) refl
  | inr fresh ↦ rw fresh (ground arith)
]

-- An event that is observed a second time, right after the first, has the same answer and changes
-- nothing.
pub observing_twice :
    (e : ShipmentEvent) (l : Orders) → observe_event e (observe_event e l).1 ≡ observe_event e l
unfolding observe_event
observing_twice e l = elim (Option-cases (shipment_payload e)) [
  | inl p ↦ rw p refl
  | inr (s, p) ↦
      rw
        (
          p,
          lookup-insert (key_of e s) (key_of e s) (order_record e s (lookup (key_of e s) l)) l,
          ==_refl (key_of e s),
          order_record-again e s (lookup (key_of e s) l),
          insert-insert (key_of e s) (order_record e s (lookup (key_of e s) l)) l,
        )
        refl
]
