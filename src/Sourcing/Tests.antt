-- ===== src/Sourcing/Tests.antt =====
-- Tests of sourcing, with distances, hours and costs in whole numbers.
use shelfwise.Prelude.{
  ℕ, ◌≡◌, refl, ◌⊎◌, String, Option, none, some, List, [], ◌∷◌, arith, leb, pos,
}
use shelfwise.Prelude.Sort.{sort, place, Ordering}
use shelfwise.Prelude.Results.{Result, ok, err, Error}
use shelfwise.Sourcing.{
  Decimals, branch, supplier, StockSourceCandidate, candidate, StockSourcingPlan,
  plan_stock_sourcing,
}
use shelfwise.Sourcing.Choice.{IsPlan, plan_stock_sourcing_lem}

leb-Ordering : Ordering leb
leb-Ordering = record {
  total = λ a b h. ground (arith, h);
  trans = λ a b c h k. ground (arith, h, k);
}

abbrev whole : Decimals ℕ
whole = record { zero_ = 0; le = leb; ordering = leb-Ordering }

abbrev nearby : StockSourceCandidate ℕ
nearby = record {
  source_type = branch;
  source_id = "b1";
  available_units = 8;
  distance_km = 10;
  lead_time_hours = 4;
  unit_cost = none;
}

abbrev empty_branch : StockSourceCandidate ℕ
empty_branch = record nearby { source_id = "b0"; available_units = 0; lead_time_hours = 1 }

abbrev dairy : StockSourceCandidate ℕ
dairy = record {
  source_type = supplier;
  source_id = "dairy";
  available_units = 100;
  distance_km = 40;
  lead_time_hours = 24;
  unit_cost = some 9;
}

abbrev sources : List (StockSourceCandidate ℕ)
sources = dairy ∷ empty_branch ∷ nearby ∷ []

abbrev shown : Result (StockSourcingPlan ℕ) → Option String × ℕ × ℕ × String
shown (ok plan) =
    (plan.selected_source_id, plan.units_sourced, plan.remaining_gap_units, plan.recommended_action)
shown (err e) = (none, 0, 0, "")

plan_test :
    shown (plan_stock_sourcing whole "milk" (pos 12) sources)
    ≡ (some "b1", 8, 4, "transfer_from_branch_and_purchase_order_remainder")
unfolding plan_stock_sourcing sort place
plan_test = refl

no_hours_test :
    candidate whole (record {
      source_type = "branch";
      source_id = "b1";
      available_units = pos 8;
      distance_km = 10;
      lead_time_hours = 0;
      unit_cost = none;
    })
    ≡ err Error.value_error
unfolding candidate
no_hours_test = refl

plan_stock_sourcing_lem_example :
    ((plan_stock_sourcing whole "milk" (pos 12) sources ≡ err Error.value_error) × ◌≡◌ {A = ℕ} 12 0)
    ⊎ ((plan : StockSourcingPlan ℕ) × ((plan_stock_sourcing whole "milk" (pos 12) sources ≡ ok plan)
          × IsPlan whole "milk" 12 sources plan))
plan_stock_sourcing_lem_example = plan_stock_sourcing_lem whole "milk" (pos 12) sources
