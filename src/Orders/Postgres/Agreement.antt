-- ===== src/Orders/Postgres/Agreement.antt =====
-- The in-memory and the PostgreSQL ledger, event by event.
use shelfwise.Prelude.{
  Bool, ◌≤◌, ◌&&◌, All, map, subst, ap, ◌≡◌, refl, ◌∙◌, inl, inr, Bool-cases, Option-cases, Option,
  none, some, List, [], ◌∷◌, leb, true, lookup, insert, lookup-insert, lookup-nil, ==_refl, arith,
}
use shelfwise.Prelude.Table.{Table}
use shelfwise.Orders.Shipments.{
  ShipmentEvent, Shipment, shipment_payload, Order, is_stale, order_record, OrderKey, order_key,
  key_of,
}
use shelfwise.Orders.Ledger.{Orders, init, observe_event}
use shelfwise.Orders.Postgres.{counts_fit, pg_store, pg_observe_event, pg_observations}
use shelfwise.Orders.Ledger.Progress.{
  HoldsOf, insert-HoldsOf, IsAccounted, IsLedger, init-IsLedger, order_record-IsAccounted,
  observe_event-IsLedger,
}
use shelfwise.Prelude.Results.{ok}

-- What the in-memory ledger answers.
unfoldable pub observations : List ShipmentEvent → Orders → List (Option Order)
observations [] l = []
observations (e ∷ es) l = (observe_event e l).0 ∷ observations es (observe_event e l).1

-- The conditional update of the database never refuses what `_order_record` built.
order_record-admitted :
    (e : ShipmentEvent) (s : Shipment) (old : Order)
    → old.updated_at ≡ old.event_ts
    → leb old.updated_at (order_record e s (some old)).updated_at ≡ true
unfolding order_record
order_record-admitted e s old dated = elim (Bool-cases (is_stale e.ts old)) [
  | inl stale ↦ rw stale (ground arith)
  | inr fresh ↦ rw fresh (ground (arith, fresh, dated))
]

-- The counts of a shipment that an event reports are 32-bit integers.
abbrev pub reports_fit : Option Shipment → Bool
reports_fit none = true
reports_fit (some s) = leb s.ordered_units 2_147_483_647 && leb s.received_units 2_147_483_647

abbrev pub IsSmall : OrderKey → Order → Type 0
IsSmall key o = (o.ordered_units ≤ 2_147_483_647) × (o.received_units ≤ 2_147_483_647)

order_record-IsSmall :
    (e : ShipmentEvent) (s : Shipment) (o : Option Order)
    → reports_fit (some s) ≡ true
    → ((old : Order) → o ≡ some old → IsSmall (key_of e s) old)
    → IsSmall (key_of e s) (order_record e s o)
unfolding order_record
order_record-IsSmall e s none fit h = (ground (arith, fit), ground (arith, fit))
order_record-IsSmall e s (some old) fit h = elim (Bool-cases (is_stale e.ts old)) [
  | inl stale ↦ rw stale (h old refl)
  | inr fresh ↦
      let small = h old refl in rw fresh (ground (arith, fit, small), ground (arith, fit, small))
]

observe_event-IsSmall :
    (e : ShipmentEvent) (l : Orders)
    → reports_fit (shipment_payload e) ≡ true
    → HoldsOf IsSmall l
    → HoldsOf IsSmall (observe_event e l).1
unfolding observe_event
observe_event-IsSmall e l fit h = elim (Option-cases (shipment_payload e)) [
  | inl p ↦ rw p h
  | inr (s, p) ↦
      let reported : reports_fit (some s) ≡ true = subst (λ o. reports_fit o ≡ true) p fit in
      rw p (
        insert-HoldsOf IsSmall (key_of e s) (order_record e s (lookup (key_of e s) l)) l
          (order_record-IsSmall e s (lookup (key_of e s) l) reported (h (key_of e s))) h)
]

pub init-IsSmall : HoldsOf IsSmall init
init-IsSmall key o e = ground (arith, e, lookup-nil {V = Order} key)

accounted-fits :
    (key : OrderKey) (o : Order) → IsAccounted key o → IsSmall key o → counts_fit o ≡ true
accounted-fits key o h small = ground (arith, h.remaining, small.0, small.1)

module _ (T : Table OrderKey Order) where
  -- Both hold the same orders.
  abbrev pub Agrees : Orders → T.Rows → Type 0
  Agrees l t = (key : OrderKey) → lookup key l ≡ T.find key t

  pub Agrees-init : Agrees init T.no_rows
  Agrees-init key = ground (arith, lookup-nil {V = Order} key, T.find-no_rows key)

  write-Agrees :
      (key : OrderKey) (o : Order) (l : Orders) (t : T.Rows)
      → Agrees l t
      → Agrees (insert key o l) (T.write key o t)
  write-Agrees key o l t a j = ground (arith, a j, lookup-insert key j o l, T.find-write key j o t)

  -- Both ledgers hold the same orders, which are as events of small counts leave them.
  pub record IsAlike (l : Orders) (t : T.Rows) : Type 0 where
    pub agrees : Agrees l t
    pub accounted : IsLedger l
    pub small : HoldsOf IsSmall l

  pub IsAlike-init : IsAlike init T.no_rows
  IsAlike-init = record { agrees = Agrees-init; accounted = init-IsLedger; small = init-IsSmall }

  -- What is stored next fits its columns.
  next-fits :
      (e : ShipmentEvent) (s : Shipment) (l : Orders) (t : T.Rows) (o : Option Order)
      → reports_fit (some s) ≡ true
      → IsAlike l t
      → lookup (key_of e s) l ≡ o
      → counts_fit (order_record e s o) ≡ true
  next-fits e s l t o fit h known =
      let key = key_of e s in
      let there = lookup key l in
      subst (λ q. counts_fit (order_record e s q) ≡ true) known
        (accounted-fits key (order_record e s there)
          (order_record-IsAccounted e s there (h.accounted key))
          (order_record-IsSmall e s there fit (h.small key)))

  observe-Agrees :
      (e : ShipmentEvent) (l : Orders) (t : T.Rows)
      → reports_fit (shipment_payload e) ≡ true
      → IsAlike l t
      → (t' : T.Rows) × ((pg_observe_event T e t ≡ ok ((observe_event e l).0, t'))
          × Agrees (observe_event e l).1 t')
  unfolding observe_event pg_observe_event pg_store
  observe-Agrees e l t fit h = elim (Option-cases (shipment_payload e)) [
    | inl p ↦ rw p (t, (refl, h.agrees))
    | inr (s, p) ↦
        let key = key_of e s in
        let reported : reports_fit (some s) ≡ true = subst (λ o. reports_fit o ≡ true) p fit in
        elim (Option-cases (T.find key t)) [
          | inl none_there ↦
              let o = order_record e s none in
              let known = h.agrees key ∙ none_there in
              let after : T.find key (T.write key o t) ≡ some o =
                rw (T.find-write key key o t, ==_refl key) refl in
              rw (p, known, none_there, next-fits e s l t none reported h known, after)
                (T.write key o t, (refl, write-Agrees key o l t h.agrees))
          | inr (old, there) ↦
              let o = order_record e s (some old) in
              let known = h.agrees key ∙ there in
              let admitted = order_record-admitted e s old (h.accounted key old known).dated in
              let after : T.find key (T.write key o t) ≡ some o =
                rw (T.find-write key key o t, ==_refl key) refl in
              rw (p, known, there, admitted, next-fits e s l t (some old) reported h known, after)
                (T.write key o t, (refl, write-Agrees key o l t h.agrees))
        ]
  ]

  observe-IsAlike :
      (e : ShipmentEvent) (l : Orders) (t t' : T.Rows)
      → reports_fit (shipment_payload e) ≡ true
      → IsAlike l t
      → Agrees (observe_event e l).1 t'
      → IsAlike (observe_event e l).1 t'
  observe-IsAlike e l t t' fit h agrees = record {
    agrees = agrees;
    accounted = observe_event-IsLedger e l h.accounted;
    small = observe_event-IsSmall e l fit h.small;
  }

  -- The in-memory and the PostgreSQL ledger, started with the same orders, whose counts and times are
  -- as events leave them, answer any events alike, as long as the ordered and the received units are
  -- values of the database's 32-bit columns: PostgreSQL never raises, and its test of the times, made
  -- when a row is updated, refuses nothing that the staleness test admits.
  pub ledgers_agree :
      (es : List ShipmentEvent) (l : Orders) (t : T.Rows)
      → All (λ e. reports_fit (shipment_payload e) ≡ true) es
      → IsAlike l t
      → map ok (observations es l) ≡ pg_observations T es t
  unfolding observations pg_observations
  ledgers_agree [] l t fit h = refl
  ledgers_agree (e ∷ es) l t fit h =
      let (t', (same, agrees)) = observe-Agrees e l t fit.0 h in
      rw same (
        ap (λ os. ok (observe_event e l).0 ∷ os)
          (ledgers_agree es (observe_event e l).1 t' fit.1
            (observe-IsAlike e l t t' fit.0 h agrees)))
