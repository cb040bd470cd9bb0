-- ===== src/Twin/Projector.antt =====
-- src/shelfwise_twin/projector.py over the store in memory. The policies and the clock's reading
-- are arguments; a precedence is a natural number, as all that the source sets. Of floats, the
-- operations that the confidence is computed with are parameters.
pub mod Order
pub mod Newest
pub mod Arrival
use shelfwise.Prelude.{
  ℕ, ◌*◌, ◌-◌, String, Bool, true, false, not, Option, none, some, List, [], ◌∷◌, eqb, ltb, leb,
  if◌then◌else◌, text_key, ◌==◌, lookup,
}
use shelfwise.Prelude.Text.{text_leb, strip, lower, or_text}
use shelfwise.Twin.{TwinObservation, TwinPropertyState, FreshnessState, fresh, degraded, stale}
use shelfwise.Twin.Keys.{property_of, property_key}
use shelfwise.Twin.Store.{TwinStore, record_observation, get_property, upsert_property}

pub record SourcePolicy (F : Type 0) : Type 0 where
  pub source_system : String
  pub precedence : ℕ
  pub max_age : ℕ
  pub reliability : F

-- What the code uses of `float`: literals, by their texts, `*`, `min` and `max`.
pub record Floats (F : Type 0) : Type 0 where
  pub literal : String → F
  pub times : F → F → F
  pub min_of : F → F → F
  pub max_of : F → F → F

pub data Status : Type 0 where
  duplicate recorded_not_projected projected : Status

pub record ProjectionResult (V F : Type 0) : Type 0 where
  pub status : Status
  pub observation_id : String
  pub reason : String
  pub state : Option (TwinPropertyState V F)

-- `timedelta(hours=n)`, in microseconds
abbrev pub hours : ℕ → ℕ
hours n = n * 3600000000

module _ {F : Type 0} (floats : Floats F) where
  abbrev policy : String → ℕ → ℕ → String → SourcePolicy F
  policy name precedence age reliability = record {
    source_system = name;
    precedence = precedence;
    max_age = hours age;
    reliability = floats.literal reliability;
  }

  unfoldable pub default_source_policy : String → String → SourcePolicy F
  default_source_policy property_name source_system =
      let normalized = lower (strip source_system) in
      if normalized == "api"
      then policy normalized 10 1 "0.95"
      else if normalized == "manual"
      then policy normalized 15 4 "0.90"
      else if normalized == "scanner"
      then policy normalized 20 12 "0.90"
      else if normalized == "pos_csv"
      then policy normalized 30 24 "0.88"
      else if normalized == "wms_csv"
      then policy normalized 30 12 "0.88"
      else policy (or_text normalized "unknown") 50 24 "0.75"

  unfoldable pub freshness_of : ℕ → ℕ → ℕ → FreshnessState × F
  freshness_of now observed_at max_age =
      let age = now - observed_at in
      if leb age max_age
      then (fresh, floats.literal "1.0")
      else if leb age (max_age * 2)
      then (degraded, floats.literal "0.6")
      else (stale, floats.literal "0.0")

module _ {V F : Type 0} (policy_for : String → String → SourcePolicy F) where
  unfoldable pub may_replace : TwinPropertyState V F → TwinObservation V F → Bool
  may_replace current incoming =
      let incoming_policy = policy_for incoming.property_name incoming.source_system in
      let current_policy = policy_for current.property_name current.source_system in
      if ltb current.observed_at incoming.observed_at
      then true
      else if ltb incoming.observed_at current.observed_at
      then false
      else if not (eqb incoming_policy.precedence current_policy.precedence)
      then ltb incoming_policy.precedence current_policy.precedence
      else not (text_leb incoming.observation_id current.observation_id)

module _ {V F : Type 0} (floats : Floats F) (policy_for : String → String → SourcePolicy F) where
  unfoldable pub state_of : ℕ → TwinObservation V F → TwinPropertyState V F
  unfolding freshness_of
  state_of now o =
      let policy = policy_for o.property_name o.source_system in
      let (freshness, factor) = freshness_of floats now o.observed_at policy.max_age in
      record {
        tenant_id = o.tenant_id;
        twin_id = o.twin_id;
        property_name = o.property_name;
        lane = o.lane;
        value = o.value;
        unit = o.unit;
        observation_id = o.observation_id;
        observed_at = o.observed_at;
        projected_at = now;
        source_system = o.source_system;
        source_quality = o.source_quality;
        confidence = floats.max_of (floats.literal "0.0") (
            floats.min_of (floats.literal "1.0")
              (floats.times (floats.times policy.reliability o.source_quality) factor));
        freshness = freshness;
        scenario_branch_id = o.scenario_branch_id;
      }

module _ {A V F : Type 0} (floats : Floats F) (policy_for : String → String → SourcePolicy F) where
  abbrev pub accept :
      ℕ → TwinObservation V F → TwinStore A V F → ProjectionResult V F × TwinStore A V F
  accept now o s =
      let state = state_of floats policy_for now o in
      (
        record {
          status = projected;
          observation_id = o.observation_id;
          reason = "accepted";
          state = some state;
        },
        upsert_property state s,
      )

  -- What `apply` does with a recorded observation and the current state.
  abbrev pub project :
      ℕ
      → TwinObservation V F
      → Option (TwinPropertyState V F)
      → TwinStore A V F
      → ProjectionResult V F × TwinStore A V F
  project now o none s = accept now o s
  project now o (some current) s = if may_replace policy_for current o then accept now o s else (
    record {
      status = recorded_not_projected;
      observation_id = o.observation_id;
      reason = "older or lower-authority observation";
      state = some current;
    },
    s,
  )

  unfoldable pub apply :
      ℕ → TwinObservation V F → TwinStore A V F → ProjectionResult V F × TwinStore A V F
  apply now o s =
      let (recorded, s') = record_observation o s in
      if recorded then project now o (get_property (property_of o) s') s' else (
        record {
          status = duplicate;
          observation_id = o.observation_id;
          reason = "already recorded";
          state = none;
        },
        s',
      )

  -- Observations one after another, each at a reading of the clock.
  unfoldable pub apply_all : List (ℕ × TwinObservation V F) → TwinStore A V F → TwinStore A V F
  apply_all [] s = s
  apply_all ((now, o) ∷ os) s = apply_all os (apply now o s).1
