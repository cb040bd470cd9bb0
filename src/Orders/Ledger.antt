-- ===== src/Orders/Ledger.antt =====
-- src/shelfwise_backend/open_orders.py, class InMemoryOpenOrderStore, and `validate_limit` of
-- src/shelfwise_storage/pagination.py. The lock makes each method one step.
pub mod Replays
pub mod Progress
pub mod Suppression
pub mod Paging
use shelfwise.Prelude.{
  ℕ, suc, zero, ◌+◌, min, String, Bool, true, false, not, ◌&&◌, ◌||◌, Option, none, some, List, [],
  ◌∷◌, ◌++◌, map, text_key, ◌==◌, leb, ltb, if◌then◌else◌, or_else, is_some, ℤ, pos, negsuc, Dict,
  lookup, insert, keep_if,
}
use shelfwise.Prelude.Sort.{sort}
use shelfwise.Prelude.Results.{Result, ok, err, Error, raise_if, ◌>>◌}
use shelfwise.Orders.Shipments.{
  ShipmentEvent, Shipment, shipment_payload, Order, OrderStatus, open_, fulfilled, order_record,
  OrderKey, order_key, key_of,
}

abbrev pub Orders : Type 0
Orders = Dict OrderKey Order

abbrev pub init : Orders
init = []

abbrev pub store_order : OrderKey → Order → Orders → Option Order × Orders
store_order key o l = (some o, insert key o l)

abbrev pub observe_shipment : ShipmentEvent → Option Shipment → Orders → Option Order × Orders
observe_shipment e none l = (none, l)
observe_shipment e (some s) l =
    store_order (key_of e s) (order_record e s (lookup (key_of e s) l)) l

-- `observe_event`
unfoldable pub observe_event : ShipmentEvent → Orders → Option Order × Orders
observe_event e l = observe_shipment e (shipment_payload e) l

-- Events observed one after the other.
unfoldable pub observe_events : List ShipmentEvent → Orders → Orders
observe_events [] l = l
observe_events (e ∷ es) l = observe_events es (observe_event e l).1

-- `validate_limit` with the default maximum.
unfoldable pub validate_limit : ℤ → Result (Unit {0})
validate_limit (negsuc n) = err Error.value_error
validate_limit (pos n) = raise_if (leb n 0 || ltb 500 n)

-- `data_domain is None or record_domain == data_domain`
abbrev pub in_domain : Option String → OrderKey → Bool
in_domain none key = true
in_domain (some domain) key = key.data_domain == domain

abbrev pub in_scope : String → Option String → OrderKey × Order → Bool
in_scope tenant domain (key, o) = key.tenant_id == tenant && in_domain domain key

abbrev pub orders_of : String → Option String → Orders → List Order
orders_of tenant domain l = map (λ e. e.1) (keep_if (in_scope tenant domain) l)

-- `records[:limit]`
abbrev pub take {ℓ} : {A : Type ℓ} → ℕ → List A → List A
take zero xs = []
take (suc n) [] = []
take (suc n) (x ∷ xs) = x ∷ take n xs

abbrev pub page_size : ℤ → ℕ
page_size (pos n) = n
page_size (negsuc n) = 0

-- Newest first.
abbrev pub is_newer : Order → Order → Bool
is_newer a b = leb b.updated_at a.updated_at

-- `list`
unfoldable pub all : String → Option String → ℤ → Orders → Result (List Order)
unfolding validate_limit
all tenant domain limit l =
    validate_limit limit >> ok (take (page_size limit) (sort is_newer (orders_of tenant domain l)))

-- The sums of `coverage` while it runs.
pub record Tally : Type 0 where
  pub remaining_units : ℕ
  pub etas : List ℕ
  pub order_ids : List String

pub record Coverage : Type 0 where
  pub remaining_units : ℕ
  pub eta : Option ℕ
  pub order_ids : List String

abbrev pub no_tally : Tally
no_tally = record { remaining_units = 0; etas = []; order_ids = [] }

abbrev pub is_open : OrderStatus → Bool
is_open open_ = true
is_open fulfilled = false

abbrev pub is_awaited : Order → Bool
is_awaited o = is_open o.status && ltb 0 o.remaining_units

abbrev pub eta_list : Option ℕ → List ℕ
eta_list none = []
eta_list (some t) = t ∷ []

abbrev pub with_order : Order → Tally → Tally
with_order o t = record {
  remaining_units = t.remaining_units + o.remaining_units;
  etas = t.etas ++ eta_list o.eta;
  order_ids = t.order_ids ++ o.order_id ∷ [];
}

-- The loop of `coverage`.
unfoldable pub tally : List Order → Dict String Tally → Dict String Tally
tally [] c = c
tally (o ∷ os) c =
    tally os (
      if is_awaited o then insert o.sku (with_order o (or_else (lookup o.sku c) no_tally)) c else c)

abbrev pub min_of : ℕ → List ℕ → ℕ
min_of t [] = t
min_of t (u ∷ us) = min_of (min t u) us

abbrev pub earliest : List ℕ → Option ℕ
earliest [] = none
earliest (t ∷ ts) = some (min_of t ts)

abbrev pub close_tally : Tally → Coverage
close_tally t = record {
  remaining_units = t.remaining_units;
  eta = earliest t.etas;
  order_ids = t.order_ids;
}

-- `coverage`
unfoldable pub coverage : String → Option String → Orders → Dict String Coverage
unfolding tally
coverage tenant domain l = map (λ e. (e.0, close_tally e.1)) (tally (orders_of tenant domain l) [])

abbrev pub clear : Orders → Orders
clear l = []
