-- ===== src/Orders/Shipments.antt =====
-- src/shelfwise_backend/open_orders.py: `_shipment_payload`, `_order_record` and what they use. A time
-- is its number of microseconds, so `_event_timestamp` and the reading of its text back are the
-- identity. A field of a payload that is missing or false is the empty text, `no_units` or `no_eta`.
use shelfwise.Prelude.{
  ℕ, ◌-◌, max, String, Bool, true, ◌&&◌, Option, none, some, text_key, ◌==◌, ==_refl, Key, ltb,
  if◌then◌else◌, ℤ, pos, to_ℕ, ◌≡◌, ◌↔◌, subst, arith,
}
use Prim.Native.String.{◌++◌}
use shelfwise.Prelude.Text.{truthy, or_text, strip}
use shelfwise.Runtime.Provenance.{DataDomain, value}

-- A count in a payload: `int()` reads it, or raises.
pub data UnitsField : Type 0 where
  no_units unreadable_units : UnitsField
  units : ℤ → UnitsField

-- An arrival time in a payload: `_parse_eta` reads it, or returns None.
pub data EtaField : Type 0 where
  no_eta unreadable_eta : EtaField
  eta_at : ℕ → EtaField

-- An event, with the fields of its payload that the ledger reads.
pub record ShipmentEvent : Type 0 where
  pub is_shipment : Bool
  pub tenant_id : String
  pub data_domain : DataDomain
  pub id : String
  pub ts : ℕ
  pub sku : String
  pub order_id : String
  pub po_id : String
  pub supplier_id : String
  pub supplier : String
  pub ordered_units : UnitsField
  pub quantity : UnitsField
  pub received_units : UnitsField
  pub eta : EtaField

-- What `_shipment_payload` returns.
pub record Shipment : Type 0 where
  pub order_id : String
  pub sku : String
  pub supplier_id : String
  pub ordered_units : ℕ
  pub received_units : ℕ
  pub eta : Option ℕ

-- `a or b`
abbrev pub or_units : UnitsField → UnitsField → UnitsField
or_units no_units b = b
or_units a b = a

-- `int(field or 0)`, or none where that raises.
abbrev pub int_of : UnitsField → Option ℤ
int_of no_units = some (pos 0)
int_of unreadable_units = none
int_of (units z) = some z

-- None where the payload has an arrival time that cannot be read.
abbrev pub read_eta : EtaField → Option (Option ℕ)
read_eta no_eta = some none
read_eta unreadable_eta = none
read_eta (eta_at t) = some (some t)

abbrev pub shipment_of : ShipmentEvent → ℕ → ℤ → Option ℕ → Shipment
shipment_of e ordered received eta = record {
  order_id = or_text (or_text e.order_id e.po_id) ("po:" ++ e.id);
  sku = strip e.sku;
  supplier_id = or_text (or_text e.supplier_id e.supplier) "unknown";
  ordered_units = ordered;
  received_units = to_ℕ received;
  eta = eta;
}

-- The test of the sku and of the ordered units, and the arrival time.
abbrev pub with_counts : ShipmentEvent → Option ℤ → Option ℤ → Option (Option ℕ) → Option Shipment
with_counts e none received eta = none
with_counts e (some ordered) none eta = none
with_counts e (some ordered) (some received) none = none
with_counts e (some ordered) (some received) (some eta) =
    if truthy (strip e.sku) && ltb 0 (to_ℕ ordered)
    then some (shipment_of e (to_ℕ ordered) received eta)
    else none

-- `_shipment_payload`
unfoldable pub shipment_payload : ShipmentEvent → Option Shipment
shipment_payload e =
    if e.is_shipment
    then with_counts e (int_of (or_units e.ordered_units e.quantity)) (int_of e.received_units)
        (read_eta e.eta)
    else none

pub data OrderStatus : Type 0 where
  open_ fulfilled : OrderStatus

-- What `_order_record` returns.
pub record Order : Type 0 where
  pub tenant_id : String
  pub data_domain : String
  pub order_id : String
  pub sku : String
  pub supplier_id : String
  pub ordered_units : ℕ
  pub received_units : ℕ
  pub eta : Option ℕ
  pub remaining_units : ℕ
  pub status : OrderStatus
  pub source_event_id : String
  pub event_ts : ℕ
  pub updated_at : ℕ

abbrev pub order_status : ℕ → OrderStatus
order_status remaining = if ltb 0 remaining then open_ else fulfilled

-- The record of an event that is not stale, with the units received so far.
abbrev pub fresh_record : ShipmentEvent → Shipment → ℕ → Order
fresh_record e s received = record {
  tenant_id = e.tenant_id;
  data_domain = value e.data_domain;
  order_id = s.order_id;
  sku = s.sku;
  supplier_id = s.supplier_id;
  ordered_units = s.ordered_units;
  received_units = received;
  eta = s.eta;
  remaining_units = s.ordered_units - received;
  status = order_status (s.ordered_units - received);
  source_event_id = e.id;
  event_ts = e.ts;
  updated_at = e.ts;
}

-- `_is_stale_event`
abbrev pub is_stale : ℕ → Order → Bool
is_stale incoming existing = ltb incoming existing.event_ts

-- `_order_record`
unfoldable pub order_record : ShipmentEvent → Shipment → Option Order → Order
order_record e s none = fresh_record e s s.received_units
order_record e s (some existing) =
    if is_stale e.ts existing
    then existing
    else fresh_record e s (max s.received_units existing.received_units)

-- The key `(tenant_id, data_domain, order_id)`.
pub record OrderKey : Type 0 where
  pub tenant_id : String
  pub data_domain : String
  pub order_id : String

abbrev pub same_order : OrderKey → OrderKey → Bool
same_order a b =
    a.tenant_id == b.tenant_id && a.data_domain == b.data_domain && a.order_id == b.order_id

pub same_order_iff : (a b : OrderKey) → (same_order a b ≡ true) ↔ (a ≡ b)
same_order_iff a b = (
  λ h. ground (
    arith,
    text_key.same_iff a.tenant_id b.tenant_id,
    text_key.same_iff a.data_domain b.data_domain,
    text_key.same_iff a.order_id b.order_id,
  ),
  λ h.
      subst (λ (x : OrderKey). same_order a x ≡ true) h
        (ground (arith, ==_refl a.tenant_id, ==_refl a.data_domain, ==_refl a.order_id)),
)

instance abbrev pub order_key : Key OrderKey
order_key = record { same = same_order; same_iff = same_order_iff }

abbrev pub key_of : ShipmentEvent → Shipment → OrderKey
key_of e s = record {
  tenant_id = e.tenant_id;
  data_domain = value e.data_domain;
  order_id = s.order_id;
}
