-- ===== src/Inventory/Projection.antt =====
-- src/shelfwise_inventory/store.py: `_projection_input` and `_projection_receipt`.
use shelfwise.Prelude.{
  ℕ, String, ◌&&◌, Option, none, some, text_key, pair_key, ◌==◌, if◌then◌else◌, leb,
}
use shelfwise.Prelude.Text.{truthy, or_text, strip, lower}
use shelfwise.Runtime.Provenance.{operational_twin, value}
use shelfwise.Inventory.Positions.{ℤ, pos, negsuc, position_key}

-- An event by the fields that the projection reads, as for a position. The quantity is what
-- `_integral_quantity` finds in `on_hand`, or in `quantity` where there is no `on_hand`: none for
-- a value that is not an integral number.
pub record StockEvent : Type 0 where
  pub type : String
  pub data_domain : String
  pub tenant_id : String
  pub id : String
  pub sku : String
  pub location_id : String
  pub location : String
  pub location_type : String
  pub bin_id : String
  pub stock_state : String
  pub quantity : Option ℤ

-- The two types of events that are projected.
pub data EventKind : Type 0 where
  stock_update sale : EventKind

pub data Status : Type 0 where
  missing_projection_fields unsupported_quantity non_positive_sale_quantity
        negative_stock_quantity :
      Status
  stock_position_replaced missing_inventory_baseline sale_applied sale_partially_applied duplicate :
      Status

-- What `_projection_input` returns.
pub record Projection : Type 0 where
  pub tenant_id : String
  pub event_id : String
  pub event_type : EventKind
  pub sku : String
  pub location_id : String
  pub location_type : String
  pub bin_id : String
  pub quantity : Option ℤ
  pub stock_state : String
  pub issue : Option Status

abbrev pub kind_of : String → Option EventKind
kind_of t =
    if t == "stock_update" then some stock_update else if t == "sale" then some sale else none

-- The test of `data_domain` and of the type.
abbrev pub projected_kind : StockEvent → Option EventKind
projected_kind e =
    if strip (or_text e.data_domain (value operational_twin)) == value operational_twin
    then kind_of (lower (strip e.type))
    else none

abbrev pub quantity_issue : EventKind → Option ℤ → Option Status → Option Status
quantity_issue kind none issue = some unsupported_quantity
quantity_issue sale (some (negsuc n)) issue = some non_positive_sale_quantity
quantity_issue sale (some (pos n)) issue =
    if leb n 0 then some non_positive_sale_quantity else issue
quantity_issue stock_update (some (negsuc n)) issue = some negative_stock_quantity
quantity_issue stock_update (some (pos n)) issue = issue

-- The fields without which there is nothing to project.
abbrev pub missing_issue : StockEvent → Option Status
missing_issue e =
    if truthy (strip e.tenant_id)
      && truthy (strip e.id)
      && truthy (strip e.sku)
      && truthy (strip (or_text e.location_id e.location))
    then none
    else some missing_projection_fields

abbrev pub projection_of : StockEvent → EventKind → Projection
projection_of e kind = record {
  tenant_id = strip e.tenant_id;
  event_id = strip e.id;
  event_type = kind;
  sku = strip e.sku;
  location_id = strip (or_text e.location_id e.location);
  location_type = strip (or_text e.location_type "store");
  bin_id = strip (or_text e.bin_id "unassigned");
  quantity = e.quantity;
  stock_state = strip (or_text e.stock_state "available");
  issue = quantity_issue kind e.quantity (missing_issue e);
}

abbrev pub with_kind : StockEvent → Option EventKind → Option Projection
with_kind e none = none
with_kind e (some kind) = some (projection_of e kind)

-- `_projection_input`
unfoldable pub projection_input : StockEvent → Option Projection
projection_input e = with_kind e (projected_kind e)

-- What `_projection_receipt` returns.
pub record Receipt : Type 0 where
  pub tenant_id : String
  pub event_id : String
  pub event_type : EventKind
  pub sku : String
  pub location_id : String
  pub status : Status
  pub requested_quantity : Option ℤ
  pub before_quantity : Option ℕ
  pub after_quantity : Option ℕ
  pub unfulfilled_quantity : ℕ
  pub positions_updated : ℕ
  pub created_at : String

-- `_projection_receipt`
abbrev pub receipt : Projection → Status → Option ℕ → Option ℕ → ℕ → ℕ → String → Receipt
receipt p status before after unfulfilled updated now = record {
  tenant_id = p.tenant_id;
  event_id = p.event_id;
  event_type = p.event_type;
  sku = p.sku;
  location_id = p.location_id;
  status = status;
  requested_quantity = p.quantity;
  before_quantity = before;
  after_quantity = after;
  unfulfilled_quantity = unfulfilled;
  positions_updated = updated;
  created_at = now;
}
