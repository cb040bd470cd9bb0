-- ===== src/Dispatch/Tests.antt =====
-- Tests of the dispatcher.
use shelfwise.Prelude.{String, ◌≡◌, refl, some, [], ◌∷◌}
use shelfwise.Prelude.Sort.{sort, place}
use shelfwise.Runtime.Provenance.{operational_twin}
use shelfwise.Contracts.Json.{null, text, no_members, member, get}
use shelfwise.Contracts.Events.{EventType, EventSource}
use shelfwise.Contracts.Events.Construction.{Event}
use shelfwise.Dispatch.{
  Facts, world_facts, measured_facts, ResultStatus, insufficient_operational_facts, Outcome,
  no_result, result, Cascades, without_decision, run_with_facts, require_context, run_in_domain,
  run_type, dispatch, attach_event_causality, run, run_worker,
}
use shelfwise.Dispatch.Boundary.{IsReceipt, AgreeOn, dispatch_keeps_boundary}

-- A cascade whose decision says which facts it saw.
abbrev seeing : String → Event String → Facts → Outcome String
seeing world e world_facts = result (record (without_decision ResultStatus.of_cascade) {
  decision = some (record { caused_by = []; tenant_id = null; data_domain = ""; content = world });
})
seeing world e measured_facts = result (record (without_decision ResultStatus.of_cascade) {
  decision =
      some (record { caused_by = []; tenant_id = null; data_domain = ""; content = "measured" });
})

abbrev silent : Event String → Outcome String
silent e = no_result

abbrev cascades : String → Cascades String String
cascades world = record {
  recall_cascade = silent;
  inventory_exception_cascade = silent;
  catalog_price_check = silent;
  expiry_risk_check = silent;
  golden_cascade = seeing world;
  procurement_cascade = seeing world;
  sales_cascade = seeing world;
  cold_chain_cascade = seeing world;
}

abbrev sold : Event String
sold = record {
  id = text "e1";
  type = EventType.sale;
  ts = "mon";
  actor = text "till-1";
  payload = member "sku" (text "milk") no_members;
  source = EventSource.pos_csv;
  tenant_id = text "acme";
  data_domain = operational_twin;
  correlation_id = text "e1";
  causation_id = null;
  schema_version = text "v1";
}

abbrev warm : Event String
warm = record sold {
  type = EventType.cold_chain_alert;
  payload = member "temp_c" (text "9") no_members;
}

missing_test :
    run (cascades "world") warm
    ≡ result
        (record (without_decision (
          insufficient_operational_facts (
            "diagnosis" ∷ "measured_outage_hours" ∷ "predicted_minutes_to_unsafe" ∷ "severity"
            ∷ []))) {
              correlation_id = text "e1";
              tenant_id = text "acme";
              data_domain = "operational_twin";
            })
unfolding run dispatch run_type run_in_domain require_context run_with_facts attach_event_causality
    sort place get
missing_test = refl

same_but_world : AgreeOn measured_facts (cascades "a") (cascades "b")
same_but_world = record {
  recall_cascade = λ e. refl;
  inventory_exception_cascade = λ e. refl;
  catalog_price_check = λ e. refl;
  expiry_risk_check = λ e. refl;
  golden_cascade = λ e. refl;
  procurement_cascade = λ e. refl;
  sales_cascade = λ e. refl;
  cold_chain_cascade = λ e. refl;
}

dispatch_keeps_boundary_example :
    IsReceipt sold (run_worker (cascades "a") sold)
    × (run_worker (cascades "a") sold ≡ run_worker (cascades "b") sold)
dispatch_keeps_boundary_example =
    dispatch_keeps_boundary (cascades "a") (cascades "b") sold same_but_world
