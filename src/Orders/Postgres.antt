-- ===== src/Orders/Postgres.antt =====
-- src/shelfwise_backend/open_orders.py, class PostgresOpenOrderStore. The ledger's table is a
-- parameter; each method is one step, and the columns are those of the payload that they repeat. The
-- columns of the counts are 32-bit integers: the database raises on a greater count, and keeps its
-- rows.
pub mod Agreement
use shelfwise.Prelude.{
  ℕ, Bool, ◌&&◌, Option, none, some, List, [], ◌∷◌, leb, or_else, if◌then◌else◌,
}
use shelfwise.Prelude.Results.{Result, ok, err, Error}
use shelfwise.Prelude.Table.{Table, insert_or_update}
use shelfwise.Orders.Shipments.{
  ShipmentEvent, Shipment, shipment_payload, Order, order_record, OrderKey, order_key, key_of,
}

-- The greatest value of an `integer` column.
abbrev pub max_integer : ℕ
max_integer = 2_147_483_647

-- The counts are values of their columns.
abbrev pub counts_fit : Order → Bool
counts_fit o =
    leb o.ordered_units max_integer
    && leb o.received_units max_integer
    && leb o.remaining_units max_integer

module _ (T : Table OrderKey Order) where
  -- `_get`
  abbrev pub pg_get : OrderKey → T.Rows → Option Order
  pg_get key t = T.find key t

  -- The insert, and the row that is read after it; `record` where there is none.
  unfoldable pub pg_store : OrderKey → Order → T.Rows → Result (Option Order × T.Rows)
  pg_store key o t =
      let t₁ = insert_or_update T key o (λ old. leb old.updated_at o.updated_at) t in
      if counts_fit o then ok (some (or_else (T.find key t₁) o), t₁) else err Error.database_error

  abbrev pub pg_observe_shipment :
      ShipmentEvent → Option Shipment → T.Rows → Result (Option Order × T.Rows)
  unfolding pg_store
  pg_observe_shipment e none t = ok (none, t)
  pg_observe_shipment e (some s) t =
      pg_store (key_of e s) (order_record e s (pg_get (key_of e s) t)) t

  -- `observe_event`
  unfoldable pub pg_observe_event : ShipmentEvent → T.Rows → Result (Option Order × T.Rows)
  unfolding pg_store
  pg_observe_event e t = pg_observe_shipment e (shipment_payload e) t

  -- The answer, and the rows that are left; those that were there where the database raises.
  abbrev pub answered : Result (Option Order × T.Rows) → T.Rows → Result (Option Order) × T.Rows
  answered (ok (o, t')) t = (ok o, t')
  answered (err x) t = (err x, t)

  -- The answers to events observed one after the other.
  unfoldable pub pg_observations : List ShipmentEvent → T.Rows → List (Result (Option Order))
  pg_observations [] t = []
  pg_observations (e ∷ es) t =
      let (o, t') = answered (pg_observe_event e t) t in o ∷ pg_observations es t'

  -- `clear`
  abbrev pub pg_clear : T.Rows → T.Rows
  pg_clear t = T.no_rows
