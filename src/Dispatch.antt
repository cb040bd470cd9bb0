-- ===== src/Dispatch.antt =====
-- src/shelfwise_backend/cascade_dispatcher.py: which cascade an event runs, and on which facts. The
-- cascades are any functions of the event and, where they take facts, of the facts' source; their
-- learning store is part of them.
mod Tests
pub mod Boundary
use shelfwise.Prelude.{
  String, Bool, true, false, not, ◌&&◌, ◌||◌, Option, none, some, List, [], ◌∷◌, keep_if, is_some,
  if◌then◌else◌, text_key,
}
use shelfwise.Prelude.Text.{text_leb}
use shelfwise.Prelude.Sort.{sort}
use shelfwise.Prelude.Results.{Error}
use shelfwise.Runtime.Provenance.{
  DataDomain, operational_twin, world_simulation, training_fixture, twin_scenario, value,
}
use shelfwise.Contracts.Json.{Json, null, Members, get}
use shelfwise.Contracts.Events.{
  EventType, scan, sale, cold_chain_alert, stock_update, expiry_entry, supplier_update, shipment,
  recall_notice, inventory_exception,
}
use shelfwise.Contracts.Events.Construction.{Event}

-- What `_facts_for` returns: the world's facts, or a provider of measured ones.
pub data Facts : Type 0 where
  world_facts measured_facts : Facts

-- `_facts_for`
abbrev pub facts_for : DataDomain → Facts
facts_for world_simulation = world_facts
facts_for _ = measured_facts

-- A decision; `X` is what it has beside its causality.
pub record CascadeDecision (X : Type 0) : Type 0 where
  pub caused_by : List Json
  pub tenant_id : Json
  pub data_domain : String
  pub content : X

-- The status of a result, where the dispatcher sets it.
pub data ResultStatus : Type 0 where
  of_cascade ignored ignored_data_domain : ResultStatus
  insufficient_operational_facts : List String → ResultStatus

pub record CascadeResult (X : Type 0) : Type 0 where
  pub decision : Option (CascadeDecision X)
  pub status : ResultStatus
  pub correlation_id : Json
  pub tenant_id : Json
  pub data_domain : String

-- A cascade returns a result, raises MissingOperationalFacts, or raises something else.
pub data Outcome (X : Type 0) : Type 0 where
  no_result : Outcome X
  result : CascadeResult X → Outcome X
  missing_facts : List String → Outcome X
  raised : Error → Outcome X

pub record Cascades (Time X : Type 0) : Type 0 where
  pub recall_cascade : Event Time → Outcome X
  pub inventory_exception_cascade : Event Time → Outcome X
  pub catalog_price_check : Event Time → Outcome X
  pub expiry_risk_check : Event Time → Outcome X
  pub golden_cascade : Event Time → Facts → Outcome X
  pub procurement_cascade : Event Time → Facts → Outcome X
  pub sales_cascade : Event Time → Facts → Outcome X
  pub cold_chain_cascade : Event Time → Facts → Outcome X

-- A result without a decision.
abbrev pub without_decision : {X : Type 0} → ResultStatus → CascadeResult X
without_decision status = record {
  decision = none;
  status = status;
  correlation_id = null;
  tenant_id = null;
  data_domain = "";
}

abbrev pub has_key : String → Members → Bool
has_key key payload = is_some (get key payload)

abbrev pub is_missing : Option Json → Bool
is_missing none = true
is_missing (some null) = true
is_missing _ = false

-- The fields of `_require_operational_context`.
abbrev pub required_fields : EventType → List String
required_fields scan =
    "payday_multiplier" ∷ "cold_chain_area" ∷ "cold_chain_outage_hours"
    ∷ "cold_chain_average_temp_c" ∷ []
required_fields cold_chain_alert =
    "temp_c" ∷ "diagnosis" ∷ "severity" ∷ "predicted_minutes_to_unsafe" ∷ "measured_outage_hours"
    ∷ []
required_fields _ = []

abbrev pub is_dispatched : DataDomain → Bool
is_dispatched operational_twin = true
is_dispatched world_simulation = true
is_dispatched _ = false

module _ {Time : Type 0} where
  abbrev pub missing_of : Event Time → List String
  missing_of e = keep_if (λ field. is_missing (get field e.payload)) (required_fields e.type)

  -- `_is_catalog_price_event`
  abbrev pub is_catalog_price_event : Event Time → Bool
  is_catalog_price_event e =
      has_key "unit_price_cents" e.payload && has_key "catalog_price_cents" e.payload

  -- `_has_partial_catalog_price`
  abbrev pub has_partial_catalog_price : Event Time → Bool
  has_partial_catalog_price e =
      has_key "unit_price_cents" e.payload || has_key "catalog_price_cents" e.payload

module _ {X : Type 0} where
  -- The raise of `_require_operational_context`, or what follows it.
  unfoldable pub require_context : List String → Outcome X → Outcome X
  require_context [] rest = rest
  require_context (field ∷ fields) rest = missing_facts (sort text_leb (field ∷ fields))

module _ {Time X : Type 0} where
  -- The cascades that take facts.
  unfoldable pub run_with_facts : Cascades Time X → Event Time → Facts → EventType → Outcome X
  run_with_facts cs e facts scan = cs.golden_cascade e facts
  run_with_facts cs e facts supplier_update = cs.procurement_cascade e facts
  run_with_facts cs e facts sale = cs.sales_cascade e facts
  run_with_facts cs e facts cold_chain_alert = cs.cold_chain_cascade e facts
  run_with_facts cs e facts _ = no_result

  -- `_require_operational_context` for an operational event, and the cascades that take facts.
  unfoldable pub run_in_domain : Cascades Time X → Event Time → DataDomain → Outcome X
  unfolding run_with_facts require_context
  run_in_domain cs e operational_twin =
      require_context (missing_of e) (run_with_facts cs e (facts_for e.data_domain) e.type)
  run_in_domain cs e _ = run_with_facts cs e (facts_for e.data_domain) e.type

  unfoldable pub run_type : Cascades Time X → Event Time → EventType → Outcome X
  unfolding run_in_domain
  run_type cs e recall_notice = cs.recall_cascade e
  run_type cs e inventory_exception = cs.inventory_exception_cascade e
  run_type cs e expiry_entry = cs.expiry_risk_check e
  run_type cs e sale =
      if is_catalog_price_event e
      then cs.catalog_price_check e
      else if has_partial_catalog_price e
      then no_result
      else run_in_domain cs e e.data_domain
  run_type cs e _ = run_in_domain cs e e.data_domain

  -- `_run`
  unfoldable pub dispatch : Cascades Time X → Event Time → Outcome X
  unfolding run_type
  dispatch cs e =
      if is_dispatched e.data_domain
      then run_type cs e e.type
      else result (without_decision ignored_data_domain)

  abbrev pub stamp_decision : Event Time → Option (CascadeDecision X) → Option (CascadeDecision X)
  stamp_decision e none = none
  stamp_decision e (some d) = some (record d {
    caused_by = e.id ∷ [];
    tenant_id = e.tenant_id;
    data_domain = value e.data_domain;
  })

  unfoldable pub attach_event_causality : CascadeResult X → Event Time → CascadeResult X
  attach_event_causality r e = record r {
    correlation_id = e.correlation_id;
    tenant_id = e.tenant_id;
    data_domain = value e.data_domain;
    decision = stamp_decision e r.decision;
  }

  abbrev pub settle : Event Time → Outcome X → Outcome X
  unfolding attach_event_causality
  settle e no_result = no_result
  settle e (result r) = result (attach_event_causality r e)
  settle e (missing_facts fields) =
      result (attach_event_causality (without_decision (insufficient_operational_facts fields)) e)
  settle e (raised x) = raised x

  -- `CascadeDispatcher.run`
  unfoldable pub run : Cascades Time X → Event Time → Outcome X
  unfolding dispatch settle
  run cs e = settle e (dispatch cs e)

  abbrev pub receipt_of : Event Time → Outcome X → Outcome X
  unfolding attach_event_causality
  receipt_of e no_result = result (attach_event_causality (without_decision ignored) e)
  receipt_of e o = o

  -- `CascadeDispatcher.run_worker`
  unfoldable pub run_worker : Cascades Time X → Event Time → Outcome X
  unfolding run receipt_of
  run_worker cs e = receipt_of e (run cs e)
