-- ===== src/Sourcing.antt =====
-- src/shelfwise_decision_science/sourcing.py: the source that covers a shortage. `Decimal` is not
-- part of the program: its order and its zero are parameters. The texts of a plan's conclusion and
-- `to_dict`, which print decimals, are not modelled.
mod Tests
pub mod Ranking
pub mod Choice
use shelfwise.Prelude.{
  ℕ, ◌-◌, min, String, Bool, true, false, not, ◌&&◌, Option, none, some, List, [], ◌∷◌, map, length,
  keep_if, text_key, ◌==◌, if◌then◌else◌, ltb, or_else, is_some, ℤ, pos, negsuc, ◌≡◌,
}
use Prim.Native.String.{◌++◌}
use shelfwise.Prelude.Text.{text_leb}
use shelfwise.Prelude.Sort.{sort, Ordering}
use shelfwise.Prelude.Results.{Result, ok, err, Error, raise_if, ◌>>=◌, ◌>>◌}

-- What the code relies on of `Decimal`, NaN left aside: the numbers have an order.
pub record Decimals (D : Type 0) : Type 0 where
  pub zero_ : D
  pub le : D → D → Bool
  pub ordering : Ordering le

-- The keys of `_SOURCE_KINDS`.
pub data SourceType : Type 0 where
  branch distribution_center supplier : SourceType

abbrev pub source_type_of : String → Option SourceType
source_type_of s =
    if s == "branch"
    then some branch
    else if s == "distribution_center"
    then some distribution_center
    else if s == "supplier"
    then some supplier
    else none

-- `_ACTION_FOR_KIND`
abbrev pub action_for_kind : SourceType → String
action_for_kind branch = "transfer_from_branch"
action_for_kind distribution_center = "transfer_from_distribution_center"
action_for_kind supplier = "expedite_supplier_order"

-- The arguments of `StockSourceCandidate`.
pub record SourceDraft (D : Type 0) : Type 0 where
  pub source_type : String
  pub source_id : String
  pub available_units : ℤ
  pub distance_km : D
  pub lead_time_hours : D
  pub unit_cost : Option D

-- A candidate that was built, and its `RankedStockSource`, which has the same fields.
pub record StockSourceCandidate (D : Type 0) : Type 0 where
  pub source_type : SourceType
  pub source_id : String
  pub available_units : ℕ
  pub distance_km : D
  pub lead_time_hours : D
  pub unit_cost : Option D

-- A plan, without its conclusion.
pub record StockSourcingPlan (D : Type 0) : Type 0 where
  pub sku : String
  pub units_needed : ℕ
  pub candidates_considered : ℕ
  pub eligible_considered : ℕ
  pub selected_source_type : Option SourceType
  pub selected_source_id : Option String
  pub units_sourced : ℕ
  pub remaining_gap_units : ℕ
  pub recommended_action : String
  pub ranked : List (StockSourceCandidate D)

abbrev pub natural : ℤ → Result ℕ
natural (pos n) = ok n
natural (negsuc n) = err Error.value_error

abbrev pub known_type : Option SourceType → Result SourceType
known_type none = err Error.value_error
known_type (some t) = ok t

module _ {D : Type 0} (dec : Decimals D) where
  open dec use {zero_, le}

  -- `StockSourceCandidate(...)`: `__post_init__` raises, or the candidate is there.
  unfoldable pub candidate : SourceDraft D → Result (StockSourceCandidate D)
  candidate d = do
    source_type ← known_type (source_type_of d.source_type)
    units ← natural d.available_units
    raise_if (not (le zero_ d.distance_km))
    raise_if (le d.lead_time_hours zero_)
    ok (record {
      source_type = source_type;
      source_id = d.source_id;
      available_units = units;
      distance_km = d.distance_km;
      lead_time_hours = d.lead_time_hours;
      unit_cost = d.unit_cost;
    })

  -- The first components in their order, or, where these are the same, the rest.
  abbrev pub then_by : D → D → Bool → Bool
  then_by a b rest = if le a b then if le b a then rest else true else false

  -- The order of `(lead_time_hours, distance_km, unit_cost, source_id)`, a missing cost being zero.
  abbrev pub before : StockSourceCandidate D → StockSourceCandidate D → Bool
  before a b = then_by a.lead_time_hours b.lead_time_hours (
      then_by a.distance_km b.distance_km (
        then_by (or_else a.unit_cost zero_) (or_else b.unit_cost zero_)
          (text_leb a.source_id b.source_id)))

  abbrev pub eligible : List (StockSourceCandidate D) → List (StockSourceCandidate D)
  eligible candidates = keep_if (λ c. ltb 0 c.available_units) candidates

  abbrev pub plan_without_source : String → ℕ → ℕ → StockSourcingPlan D
  plan_without_source sku needed considered = record {
    sku = sku;
    units_needed = needed;
    candidates_considered = considered;
    eligible_considered = 0;
    selected_source_type = none;
    selected_source_id = none;
    units_sourced = 0;
    remaining_gap_units = needed;
    recommended_action = "place_purchase_order";
    ranked = [];
  }

  abbrev pub action_of : SourceType → ℕ → String
  action_of t remaining =
      if ltb 0 remaining
      then action_for_kind t ++ "_and_purchase_order_remainder"
      else action_for_kind t

  abbrev pub plan_from :
      String
      → ℕ
      → List (StockSourceCandidate D)
      → List (StockSourceCandidate D)
      → StockSourcingPlan D
  plan_from sku needed candidates [] = plan_without_source sku needed (length candidates)
  plan_from sku needed candidates (best ∷ others) =
      let sourced = min best.available_units needed in
      record {
        sku = sku;
        units_needed = needed;
        candidates_considered = length candidates;
        eligible_considered = length (eligible candidates);
        selected_source_type = some best.source_type;
        selected_source_id = some best.source_id;
        units_sourced = sourced;
        remaining_gap_units = needed - sourced;
        recommended_action = action_of best.source_type (needed - sourced);
        ranked = best ∷ others;
      }

  unfoldable pub plan_stock_sourcing :
      String → ℤ → List (StockSourceCandidate D) → Result (StockSourcingPlan D)
  plan_stock_sourcing sku (negsuc n) candidates = err Error.value_error
  plan_stock_sourcing sku (pos n) candidates = do
    raise_if (not (ltb 0 n))
    ok (plan_from sku n candidates (sort before (eligible candidates)))
