-- ===== src/Twin/Tests.antt =====
-- src/shelfwise_twin run on a few observations. Floats are stood for by hundredths.
use shelfwise.Prelude.{
  some, ℕ, pos, ◌*◌, ◌/◌, min, max, String, [], ◌∷◌, none, ◌≡◌, refl, text_key, pair_key,
  pair_same_iff, false, ◌==◌, if◌then◌else◌, insert, lookup, arith,
}
use shelfwise.Prelude.Text.{strip, lower}
use shelfwise.Twin.{TwinObservation, reported, predicted}
use shelfwise.Twin.Keys.{property_key, property_of}
use shelfwise.Twin.Store.{TwinStore, init, record_observation, upsert_property}
use shelfwise.Twin.Store.Isolation.{observe, run, IsIsolated, run-IsIsolated}
use shelfwise.Twin.Projector.{
  Floats, default_source_policy, freshness_of, may_replace, state_of, apply, apply_all, duplicate,
  recorded_not_projected, projected,
}
use shelfwise.Twin.Projector.Newest.{IsProjected, apply_all-IsProjected}
use shelfwise.Twin.Projector.Arrival.{Same, RecordedSame, arrival_order_lost}

abbrev hundredths : Floats ℕ
hundredths = record {
  literal =
      λ s. if s == "1.0" then 100 else if s == "0.6" then 60 else if s == "0.0" then 0 else 90;
  times = λ a b. (a * b) / 100;
  min_of = λ a b. min a b;
  max_of = λ a b. max a b;
}

abbrev shelf : String → String → ℕ → ℕ → TwinObservation ℕ ℕ
shelf id system value at = record {
  observation_id = id;
  tenant_id = "acme";
  store_id = "s1";
  twin_id = "urn:shelfwise:shelf";
  property_name = "on_hand";
  lane = reported;
  value = value;
  unit = none;
  observed_at = at;
  ingested_at = at;
  source_system = system;
  source_object_id = "shelf";
  source_sequence = none;
  source_quality = 100;
  schema_version = "v1";
  correlation_id = "c";
  causation_id = none;
  scenario_branch_id = none;
  payload_hash = id;
}

abbrev counted : TwinObservation ℕ ℕ
counted = shelf "obs-0001" " API " 7 50

abbrev scanned : TwinObservation ℕ ℕ
scanned = shelf "obs-0002" "scanner" 9 50

-- The stronger source wins at the same time, and a repeated observation is a duplicate.
abbrev after_scan : TwinStore ℕ ℕ ℕ
after_scan = apply_all hundredths (default_source_policy hundredths) ((60, scanned) ∷ []) init

statuses :
    ((apply hundredths (default_source_policy hundredths) 61 counted after_scan).0.status
      ≡ projected)
    × ((apply hundredths (default_source_policy hundredths) 61 scanned after_scan).0.status
        ≡ duplicate)
    × ((apply hundredths
          (default_source_policy hundredths)
          61
          (shelf "obs-0003" "pos_csv" 1 50)
          after_scan).0.status
        ≡ recorded_not_projected)
unfolding apply apply_all record_observation may_replace default_source_policy strip lower insert
    lookup upsert_property state_of freshness_of
statuses = (refl, refl, refl)

apply_all-IsProjected_example : IsProjected {A = ℕ} hundredths (default_source_policy hundredths) (
    apply_all hundredths
      (default_source_policy hundredths)
      ((60, scanned) ∷ (61, counted) ∷ (62, scanned) ∷ [])
      init)
apply_all-IsProjected_example =
    apply_all-IsProjected hundredths (default_source_policy hundredths)
      ((60, scanned) ∷ (61, counted) ∷ (62, scanned) ∷ [])

-- Two entries of a dictionary, in either order.
two_ways :
    {V : Type 0} (k a b : String × String) (x y : V)
    → (a == b) ≡ false
    → lookup k ((a, x) ∷ (b, y) ∷ []) ≡ lookup k ((b, y) ∷ (a, x) ∷ [])
unfolding lookup
two_ways k a b x y h = ground (arith, pair_same_iff k a, pair_same_iff k b, pair_same_iff a b, h)

recorded_both :
    RecordedSame {A = ℕ} hundredths
      (default_source_policy hundredths)
      (apply_all hundredths
        (default_source_policy hundredths)
        ((60, scanned) ∷ (61, counted) ∷ [])
        init)
      (apply_all hundredths
        (default_source_policy hundredths)
        ((70, counted) ∷ (71, scanned) ∷ [])
        init)
unfolding apply apply_all record_observation may_replace default_source_policy strip lower insert
    lookup upsert_property state_of freshness_of
recorded_both = λ k. two_ways k ("acme", "obs-0002") ("acme", "obs-0001") scanned counted refl

arrival_order_lost_example :
    Same hundredths
      (default_source_policy hundredths)
      (lookup
        (property_of counted)
        (apply_all {A = ℕ} hundredths
          (default_source_policy hundredths)
          ((60, scanned) ∷ (61, counted) ∷ [])
          init).properties)
      (lookup
        (property_of counted)
        (apply_all {A = ℕ} hundredths
          (default_source_policy hundredths)
          ((70, counted) ∷ (71, scanned) ∷ [])
          init).properties)
arrival_order_lost_example =
    arrival_order_lost ℕ hundredths (default_source_policy hundredths)
      ((60, scanned) ∷ (61, counted) ∷ []) ((70, counted) ∷ (71, scanned) ∷ []) recorded_both
      (property_of counted)

abbrev other_shop : TwinObservation ℕ ℕ
other_shop = record counted { tenant_id = "zeta"; lane = predicted; scenario_branch_id = some "b1" }

run-IsIsolated_example :
    IsIsolated {A = ℕ} "acme" none
      (pos 10)
      false
      (run (observe counted ∷ observe other_shop ∷ []) init)
run-IsIsolated_example =
    run-IsIsolated (observe counted ∷ observe other_shop ∷ []) "acme" none (pos 10) false
