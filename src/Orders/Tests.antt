-- ===== src/Orders/Tests.antt =====
-- Tests of the ledger of orders.
use shelfwise.Prelude.{
  ℕ, ◌≡◌, refl, true, false, none, some, List, [], ◌∷◌, map, insert, pos, text_key, lookup,
}
use shelfwise.Prelude.Text.{strip}
use shelfwise.Prelude.Table.{dict_table}
use shelfwise.Runtime.Provenance.{operational_twin}
use shelfwise.Orders.Shipments.{
  no_units, unreadable_units, units, eta_at, ShipmentEvent, shipment_payload, Order, order_record,
  order_key, OrderKey,
}
use shelfwise.Orders.Ledger.{Orders, init, observe_event, observe_events, orders_of, coverage}
use shelfwise.Orders.Ledger.Progress.{
  IsLedger, init-IsLedger, observe_event-IsLedger, Later, orders_are_accounted,
}
use shelfwise.Orders.Ledger.Suppression.{coverage_is_summary}
use shelfwise.Orders.Postgres.{pg_observations, pg_observe_event}
use shelfwise.Orders.Postgres.Agreement.{observations, IsAlike-init, ledgers_agree}
use shelfwise.Prelude.Results.{ok, err, Error}

-- 12 units of milk ordered, none received.
abbrev ordered : ShipmentEvent
ordered = record {
  is_shipment = true;
  tenant_id = "acme";
  data_domain = operational_twin;
  id = "e1";
  ts = 100;
  sku = " milk ";
  order_id = "";
  po_id = "po-7";
  supplier_id = "";
  supplier = "dairy";
  ordered_units = no_units;
  quantity = units (pos 12);
  received_units = no_units;
  eta = eta_at 900;
}

-- 5 of them received, later.
abbrev arrived : ShipmentEvent
arrived = record ordered { id = "e2"; ts = 200; received_units = units (pos 5) }

-- An older report of 9, which comes last.
abbrev late : ShipmentEvent
late = record ordered { id = "e3"; ts = 150; received_units = units (pos 9) }

abbrev no_shipment : ShipmentEvent
no_shipment = record ordered { is_shipment = false }

abbrev reports : List ShipmentEvent
reports = ordered ∷ arrived ∷ no_shipment ∷ late ∷ []

abbrev milk_order : OrderKey
milk_order = record { tenant_id = "acme"; data_domain = "operational_twin"; order_id = "po-7" }

abbrev ledger : Orders
unfolding observe_events observe_event shipment_payload order_record strip lookup insert
ledger = observe_events reports init

abbrev first_ledger : Orders
unfolding observe_event shipment_payload order_record strip lookup insert
first_ledger = (observe_event ordered init).1

abbrev first_order : Order
unfolding observe_event shipment_payload order_record strip lookup insert
first_order =
    order_record ordered
      (record {
        order_id = "po-7";
        sku = "milk";
        supplier_id = "dairy";
        ordered_units = 12;
        received_units = 0;
        eta = some 900;
      })
      none

received_test :
    map {B = ℕ × ℕ}
      (λ (o : Order). (o.received_units, o.remaining_units))
      (orders_of "acme" none ledger)
    ≡ (5, 7) ∷ []
unfolding ledger
received_test = refl

unreadable_test : shipment_payload (record ordered { received_units = unreadable_units }) ≡ none
unfolding shipment_payload
unreadable_test = refl

orders_are_accounted_example :
    IsLedger (observe_events reports first_ledger)
    × ((key : OrderKey) (o : Order)
        → lookup key first_ledger ≡ some o
        → Later key o (observe_events reports first_ledger))
unfolding first_ledger observe_event
orders_are_accounted_example =
    orders_are_accounted reports first_ledger (observe_event-IsLedger ordered init init-IsLedger)

coverage_is_summary_example :
    lookup "milk" (coverage "acme" (some "operational_twin") ledger)
    ≡ some (record { remaining_units = 7; eta = some 900; order_ids = "po-7" ∷ [] })
unfolding ledger
coverage_is_summary_example = coverage_is_summary "acme" (some "operational_twin") "milk" ledger

ledgers_agree_example :
    map ok (observations reports init) ≡ pg_observations (dict_table OrderKey Order) reports []
unfolding shipment_payload strip
ledgers_agree_example =
    ledgers_agree (dict_table OrderKey Order) reports init [] (refl, (refl, (refl, (refl, tt))))
      (IsAlike-init (dict_table OrderKey Order))

too_many_test :
    pg_observations
      (dict_table OrderKey Order)
      (record ordered { quantity = units (pos 2_147_483_648) } ∷ ordered ∷ [])
      []
    ≡ err Error.database_error ∷ ok (some first_order) ∷ []
unfolding pg_observations pg_observe_event shipment_payload strip order_record lookup insert
    first_order
too_many_test = refl
