-- ===== src/Orders/Ledger/Progress.antt =====
-- What observed shipments do to the orders: the counts of a stored order, and how they move.
use shelfwise.Prelude.{
  ◌≤◌, ◌<◌, ◌-◌, ◌≡◌, refl, sym, subst, inl, inr, Bool-cases, Option-cases, Option, none, some,
  lookup, insert, lookup-insert, lookup-nil, ==_refl, Key-cases, List, [], ◌∷◌, arith,
}
use shelfwise.Orders.Shipments.{
  ShipmentEvent, Shipment, shipment_payload, Order, open_, fulfilled, is_stale, order_record,
  OrderKey, order_key, key_of,
}
use shelfwise.Orders.Ledger.{Orders, init, observe_event, observe_events}

-- The order stands under its own key, its remaining units are the ordered less the received ones, and
-- it is fulfilled where as many were received as ordered and open where fewer were.
pub record IsAccounted (key : OrderKey) (o : Order) : Type 0 where
  pub keyed :
      key ≡ record { tenant_id = o.tenant_id; data_domain = o.data_domain; order_id = o.order_id }
  pub remaining : o.remaining_units ≡ o.ordered_units - o.received_units
  pub fulfilled_if : o.ordered_units ≤ o.received_units → o.status ≡ fulfilled
  pub open_if : o.received_units < o.ordered_units → o.status ≡ open_
  pub dated : o.updated_at ≡ o.event_ts

abbrev pub HoldsOf : (OrderKey → Order → Type 0) → Orders → Type 0
HoldsOf P l = (key : OrderKey) (o : Order) → lookup key l ≡ some o → P key o

abbrev pub IsLedger : Orders → Type 0
IsLedger l = HoldsOf IsAccounted l

pub insert-HoldsOf :
    (P : OrderKey → Order → Type 0) (key : OrderKey) (o : Order) (l : Orders)
    → P key o
    → HoldsOf P l
    → HoldsOf P (insert key o l)
insert-HoldsOf P key o l p h j q e = elim (Key-cases j key) [
  | inl same ↦
      let found : lookup j (insert key o l) ≡ some o =
        rw (lookup-insert key j o l, same, ==_refl key) refl in
      let alike : o ≡ q = ground (arith, found, e) in
      subst (λ (x : Order). P j x) alike (subst (λ (x : OrderKey). P x o) (sym same) p)
  | inr other ↦
      let found : lookup j l ≡ some q = ground (arith, lookup-insert key j o l, e, other) in
      h j q found
]

pub order_record-IsAccounted :
    (e : ShipmentEvent) (s : Shipment) (o : Option Order)
    → ((old : Order) → o ≡ some old → IsAccounted (key_of e s) old)
    → IsAccounted (key_of e s) (order_record e s o)
unfolding order_record
order_record-IsAccounted e s none h = record {
  keyed = refl;
  remaining = refl;
  fulfilled_if = λ p. ground (arith, p);
  open_if = λ p. ground (arith, p);
  dated = refl;
}
order_record-IsAccounted e s (some existing) h = elim (Bool-cases (is_stale e.ts existing)) [
  | inl stale ↦ rw stale (h existing refl)
  | inr fresh ↦ rw fresh (record {
    keyed = refl;
    remaining = refl;
    fulfilled_if = λ p. ground (arith, p);
    open_if = λ p. ground (arith, p);
    dated = refl;
  })
]

pub observe_event-IsLedger :
    (e : ShipmentEvent) (l : Orders) → IsLedger l → IsLedger (observe_event e l).1
unfolding observe_event
observe_event-IsLedger e l h = elim (Option-cases (shipment_payload e)) [
  | inl p ↦ rw p h
  | inr (s, p) ↦ rw p (
      insert-HoldsOf IsAccounted (key_of e s) (order_record e s (lookup (key_of e s) l)) l
        (order_record-IsAccounted e s (lookup (key_of e s) l) (h (key_of e s))) h)
]

observe_events-IsLedger :
    (es : List ShipmentEvent) (l : Orders) → IsLedger l → IsLedger (observe_events es l)
unfolding observe_events
observe_events-IsLedger [] l h = h
observe_events-IsLedger (e ∷ es) l h =
    observe_events-IsLedger es (observe_event e l).1 (observe_event-IsLedger e l h)

pub init-IsLedger : IsLedger init
init-IsLedger key o e = ground (arith, e, lookup-nil {V = Order} key)

-- A later state of an order: no fewer units received, and no older event.
pub record Advances (a b : Order) : Type 0 where
  pub received : a.received_units ≤ b.received_units
  pub newer : a.event_ts ≤ b.event_ts

Advances-trans : (a b c : Order) → Advances a b → Advances b c → Advances a c
Advances-trans a b c p q = record {
  received = omega (arith, p.received, q.received);
  newer = omega (arith, p.newer, q.newer);
}

order_record-Advances :
    (e : ShipmentEvent) (s : Shipment) (o : Order) → Advances o (order_record e s (some o))
unfolding order_record
order_record-Advances e s o = elim (Bool-cases (is_stale e.ts o)) [
  | inl stale ↦ rw stale (record { received = omega arith; newer = omega arith })
  | inr fresh ↦ rw fresh (record { received = ground arith; newer = ground (arith, fresh) })
]

-- The order that a key has afterwards, no less advanced than the one it had.
abbrev pub Later : OrderKey → Order → Orders → Type 0
Later key o l = (later : Order) × (lookup key l ≡ some later) × Advances o later

observe_event-Later :
    (e : ShipmentEvent) (key : OrderKey) (o : Order) (l : Orders)
    → lookup key l ≡ some o
    → Later key o (observe_event e l).1
unfolding observe_event
observe_event-Later e key o l h = elim (Option-cases (shipment_payload e)) [
  | inl p ↦ rw p (o, h, record { received = omega arith; newer = omega arith })
  | inr (s, p) ↦ elim (Key-cases key (key_of e s)) [
    | inl same ↦
        let found : lookup (key_of e s) l ≡ some o =
          subst (λ (k : OrderKey). lookup k l ≡ some o) same h in
        rw p (
          order_record e s (some o),
          rw
              (
                lookup-insert (key_of e s) key (order_record e s (lookup (key_of e s) l)) l,
                same,
                ==_refl (key_of e s),
                found,
              )
              refl,
          order_record-Advances e s o,
        )
    | inr other ↦
        rw (p, lookup-insert (key_of e s) key (order_record e s (lookup (key_of e s) l)) l, other)
          (o, h, record { received = omega arith; newer = omega arith })
  ]
]

orders_only_advance :
    (es : List ShipmentEvent) (key : OrderKey) (o : Order) (l : Orders)
    → lookup key l ≡ some o
    → Later key o (observe_events es l)
unfolding observe_events
orders_only_advance [] key o l h = (o, h, record { received = omega arith; newer = omega arith })
orders_only_advance (e ∷ es) key o l h =
    let (mid, at_mid, first) = observe_event-Later e key o l h in
    let (last, at_last, rest) = orders_only_advance es key mid (observe_event e l).1 at_mid in
    (last, at_last, Advances-trans o mid last first rest)

-- Observed events keep, of every order in the ledger, that it stands under its own key, that its
-- remaining units are the ordered less the received ones, that it is fulfilled where at least as many
-- units were received as ordered and open where fewer were, and that it was updated at the time of
-- its event. In whatever order they come they take no order out, lower no received units, and put no
-- older event's state in place of a newer one's.
pub orders_are_accounted :
    (es : List ShipmentEvent) (l : Orders)
    → IsLedger l
    → IsLedger (observe_events es l)
      × ((key : OrderKey) (o : Order) → lookup key l ≡ some o → Later key o (observe_events es l))
orders_are_accounted es l h =
    (observe_events-IsLedger es l h, λ key o there. orders_only_advance es key o l there)
