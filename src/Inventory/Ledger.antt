-- ===== src/Inventory/Ledger.antt =====
-- src/shelfwise_inventory/store.py, class InMemoryInventoryPositionStore. The lock makes each
-- method one step.
pub mod Replays
pub mod Accounts
pub mod Validity
use shelfwise.Prelude.{
  ℕ, String, Bool, true, false, ◌&&◌, Option, none, some, List, [], ◌∷◌, map, text_key, pair_key,
  ◌==◌, if◌then◌else◌, Dict, lookup, insert, keep_if,
}
use shelfwise.Prelude.Text.{strip, text_leb}
use shelfwise.Prelude.Sort.{sort}
use shelfwise.Prelude.Results.{Result, ok, err, ◌>>=◌}
use shelfwise.Inventory.Positions.{Draft, Position, position, key_of, Positions, position_key}
use shelfwise.Inventory.Projection.{StockEvent, Projection, projection_input, Receipt, duplicate}
use shelfwise.Inventory.Application.{apply_projection}

-- The tenant and the event's id.
abbrev pub ReceiptKey : Type 0
ReceiptKey = String × String

pub record Ledger : Type 0 where
  pub positions : Positions
  pub receipts : Dict ReceiptKey Receipt

abbrev pub init : Ledger
init = record { positions = []; receipts = [] }

unfoldable pub upsert : Draft → String → Ledger → Result (Position × Ledger)
upsert draft now l = do
  p ← position draft now
  ok (p, record l { positions = insert (key_of p) p l.positions })

-- `sku is None or item["sku"] == sku`
abbrev of_sku : Option String → Position → Bool
of_sku none p = true
of_sku (some sku) p = p.sku == sku

-- The order of `(sku, location_id, bin_id)`.
abbrev by_place : Position → Position → Bool
by_place a b =
    if a.sku == b.sku
    then if a.location_id == b.location_id
      then text_leb a.bin_id b.bin_id
      else text_leb a.location_id b.location_id
    else text_leb a.sku b.sku

-- `list`
unfoldable pub all : String → Option String → Ledger → List Position
all tenant sku l =
    sort by_place
      (keep_if (λ p. p.tenant_id == tenant && of_sku sku p) (map (λ e. e.1) l.positions))

-- What `project_event` returns: that the event was ignored, or a receipt.
pub data Answer : Type 0 where
  ignored : String → Answer
  projected : Receipt → Answer

record_receipt : ReceiptKey → Ledger → Receipt × Positions → Answer × Ledger
record_receipt key l (r, d) =
    (projected r, record { positions = d; receipts = insert key r l.receipts })

project_new : ReceiptKey → Projection → String → Option Receipt → Ledger → Result (Answer × Ledger)
unfolding record_receipt
project_new key p now (some existing) l = ok (projected (record existing { status = duplicate }), l)
project_new key p now none l = do
  applied ← apply_projection l.positions p now
  ok (record_receipt key l applied)

project_input : StockEvent → Option Projection → String → Ledger → Result (Answer × Ledger)
unfolding project_new
project_input e none now l = ok (ignored e.id, l)
project_input e (some p) now l =
    let key : ReceiptKey = (p.tenant_id, p.event_id) in
    project_new key p now (lookup key l.receipts) l

unfoldable pub project_event : StockEvent → String → Ledger → Result (Answer × Ledger)
unfolding project_input
project_event e now l = project_input e (projection_input e) now l

unfoldable pub projection_receipt : String → String → Ledger → Option Receipt
projection_receipt tenant event_id l = lookup (tenant, event_id) l.receipts

abbrev pub clear : Ledger → Ledger
clear l = init
