-- ===== src/Inventory/Tests.antt =====
-- Tests of the inventory.
use shelfwise.Prelude.{
  ℕ, String, ◌≡◌, refl, some, List, [], ◌∷◌, arith, text_key, pair_key, lookup, insert,
}
use shelfwise.Prelude.Text.{strip, lower, or_text}
use shelfwise.Prelude.Results.{ok}
use shelfwise.Prelude.Sort.{sort, place}
use shelfwise.Inventory.Positions.{
  pos, Position, position_key, key_of, Positions, position, required,
}
use shelfwise.Inventory.Projection.{
  StockEvent, sale, projection_of, projection_input, Receipt, sale_partially_applied, duplicate,
}
use shelfwise.Inventory.Application.{apply_projection, apply_sale, matching, deduct, sold}
use shelfwise.Inventory.Application.Stock.{on_hand}
use shelfwise.Inventory.Application.Sales.{IsSound}
use shelfwise.Inventory.Ledger.{Ledger, projected, project_event}
use shelfwise.Inventory.Ledger.Replays.{Call, event_call, run, projected_once}
use shelfwise.Inventory.Ledger.Validity.{run-IsValid}
use shelfwise.Inventory.Ledger.Accounts.{IsValid, IsSale, TellsSale, sale_accounts}

-- Five pieces in the front bin and three in the back bin.
abbrev bin : String → ℕ → Position
bin id n = record {
  tenant_id = "acme";
  sku = "milk";
  location_type = "store";
  location_id = "s1";
  bin_id = id;
  quantity = n;
  state = "available";
  source_reference = "e-0";
  updated_at = "09:00";
}

abbrev shelf : Positions
shelf = (key_of (bin "back" 3), bin "back" 3) ∷ (key_of (bin "front" 5), bin "front" 5) ∷ []

abbrev ledger : Ledger
ledger = record { positions = shelf; receipts = [] }

-- A sale of ten pieces.
abbrev sale_event : StockEvent
sale_event = record {
  type = "SALE";
  data_domain = "";
  tenant_id = "acme";
  id = "e-1";
  sku = " milk ";
  location_id = "";
  location = "s1";
  location_type = "";
  bin_id = "";
  stock_state = "";
  quantity = some (pos 10);
}

abbrev sale_told : Receipt
sale_told = record {
  tenant_id = "acme";
  event_id = "e-1";
  event_type = sale;
  sku = "milk";
  location_id = "s1";
  status = sale_partially_applied;
  requested_quantity = some (pos 10);
  before_quantity = some 8;
  after_quantity = some 0;
  unfulfilled_quantity = 2;
  positions_updated = 2;
  created_at = "10:00";
}

abbrev empty_bin : String → Position
empty_bin id = record (bin id 0) {
  state = "depleted";
  source_reference = "e-1";
  updated_at = "10:00";
}

abbrev sold_out : Ledger
sold_out = record {
  positions =
      (key_of (bin "back" 3), empty_bin "back") ∷ (key_of (bin "front" 5), empty_bin "front") ∷ [];
  receipts = (("acme", "e-1"), sale_told) ∷ [];
}

abbrev calls : List Call
calls = event_call sale_event "11:00" ∷ event_call (record sale_event { id = "e-2" }) "11:01" ∷ []

projected_once_example :
    project_event sale_event "12:00" (run sold_out calls)
    ≡ ok (projected (record sale_told { status = duplicate }), run sold_out calls)
unfolding project_event projection_input strip lower lookup insert apply_projection matching
    apply_sale deduct sold position required sort place
projected_once_example =
    projected_once sale_event "10:00" "12:00" ledger sold_out (projection_of sale_event sale)
      sale_told calls refl refl refl

IsSound-bin : (id : String) (n : ℕ) → IsSound (bin id n)
unfolding strip
IsSound-bin id n = record {
  tenant = refl;
  tenant_full = refl;
  sku = refl;
  sku_full = refl;
  location = refl;
  location_full = refl;
  type_full = refl;
  state_full = refl;
}

IsValid-shelf : IsValid shelf
unfolding lookup
IsValid-shelf = record {
  distinct = (refl, (refl, tt));
  sound = (IsSound-bin "back" 3, (IsSound-bin "front" 5, tt));
}

sale_event-IsSale : IsSale sale_event 10
unfolding strip lower
sale_event-IsSale = record { kind = refl; fields = refl; pieces = refl; some_pieces = omega arith }

sale_accounts_example :
    let stock = on_hand (strip "acme") (strip " milk ") (strip (or_text "" "s1")) in
    (r : Receipt) × (l' : Ledger) × (project_event sale_event "10:00" ledger ≡ ok (projected r, l'))
    × TellsSale 10 (stock ledger.positions) (stock l'.positions) r
unfolding lookup
sale_accounts_example =
    sale_accounts sale_event 10 "10:00" ledger sale_event-IsSale IsValid-shelf refl

run-IsValid_example : IsValid (run ledger calls).positions
run-IsValid_example = run-IsValid ledger calls IsValid-shelf
