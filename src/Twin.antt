-- ===== src/Twin.antt =====
-- src/shelfwise_twin: the digital twin of a shop. This file has the records of models.py. A point
-- of time is the number of its microseconds on one clock; values, attributes and floats are of any types.
mod Tests
pub mod Keys
pub mod Store
pub mod Projector
use shelfwise.Prelude.{ℕ, String, Option, Bool, true, false}

pub data StateLane : Type 0 where
  reported estimated desired predicted : StateLane

-- `StateLane.value`
abbrev pub value_of : StateLane → String
value_of reported = "reported"
value_of estimated = "estimated"
value_of desired = "desired"
value_of predicted = "predicted"

abbrev pub is_predicted : StateLane → Bool
is_predicted predicted = true
is_predicted _ = false

pub data FreshnessState : Type 0 where
  fresh degraded stale unknown : FreshnessState

pub record TwinEntity (A : Type 0) : Type 0 where
  pub twin_id : String
  pub tenant_id : String
  pub store_id : String
  pub entity_type : String
  pub display_name : String
  pub model_version : String
  pub attributes : A
  pub created_at : ℕ
  pub retired_at : Option ℕ

pub record TwinRelationship (A : Type 0) : Type 0 where
  pub relationship_id : String
  pub tenant_id : String
  pub source_twin_id : String
  pub relationship_type : String
  pub target_twin_id : String
  pub attributes : A
  pub valid_from : ℕ
  pub valid_to : Option ℕ

pub record TwinObservation (V F : Type 0) : Type 0 where
  pub observation_id : String
  pub tenant_id : String
  pub store_id : String
  pub twin_id : String
  pub property_name : String
  pub lane : StateLane
  pub value : V
  pub unit : Option String
  pub observed_at : ℕ
  pub ingested_at : ℕ
  pub source_system : String
  pub source_object_id : String
  pub source_sequence : Option String
  pub source_quality : F
  pub schema_version : String
  pub correlation_id : String
  pub causation_id : Option String
  pub scenario_branch_id : Option String
  pub payload_hash : String

pub record TwinPropertyState (V F : Type 0) : Type 0 where
  pub tenant_id : String
  pub twin_id : String
  pub property_name : String
  pub lane : StateLane
  pub value : V
  pub unit : Option String
  pub observation_id : String
  pub observed_at : ℕ
  pub projected_at : ℕ
  pub source_system : String
  pub source_quality : F
  pub confidence : F
  pub freshness : FreshnessState
  pub scenario_branch_id : Option String
