-- ===== src/Dispatch/Boundary.antt =====
-- The trust boundary between the world's facts and the measured ones.
use shelfwise.Prelude.{◌≡◌, refl, ap, subst, inl, inr, Bool-cases, Option, none, some, [], ◌∷◌}
use shelfwise.Runtime.Provenance.{
  DataDomain, operational_twin, world_simulation, training_fixture, twin_scenario, value,
}
use shelfwise.Contracts.Events.{
  EventType, scan, sale, cold_chain_alert, stock_update, expiry_entry, supplier_update, shipment,
  recall_notice, inventory_exception,
}
use shelfwise.Contracts.Events.Construction.{Event}
use shelfwise.Dispatch.{
  Facts, world_facts, measured_facts, facts_for, without_decision, ignored,
  insufficient_operational_facts, CascadeDecision, CascadeResult, Outcome, no_result, result,
  missing_facts, raised, Cascades, missing_of, require_context, run_with_facts, run_in_domain,
  run_type, is_catalog_price_event, has_partial_catalog_price, is_dispatched, dispatch,
  stamp_decision, attach_event_causality, settle, run, receipt_of, run_worker,
}

-- The facts that an event of this domain may be decided on.
abbrev pub own_facts : DataDomain → Facts
own_facts operational_twin = measured_facts
own_facts world_simulation = world_facts
own_facts training_fixture = measured_facts
own_facts twin_scenario = measured_facts

facts_for-own_facts : (domain : DataDomain) → own_facts domain ≡ facts_for domain
facts_for-own_facts operational_twin = refl
facts_for-own_facts world_simulation = refl
facts_for-own_facts training_fixture = refl
facts_for-own_facts twin_scenario = refl

module _ {Time X : Type 0} where
  -- The decision bears the event's id, tenant and domain.
  abbrev pub IsStampedDecision : Event Time → Option (CascadeDecision X) → Type 0
  IsStampedDecision e none = Unit
  IsStampedDecision e (some d) =
      (d.caused_by ≡ e.id ∷ [])
      × (d.tenant_id ≡ e.tenant_id)
      × (d.data_domain ≡ value e.data_domain)

  abbrev pub IsStamped : Event Time → CascadeResult X → Type 0
  IsStamped e r =
      (r.tenant_id ≡ e.tenant_id)
      × (r.data_domain ≡ value e.data_domain)
      × (r.correlation_id ≡ e.correlation_id)
      × IsStampedDecision e r.decision

  -- A receipt for the event, or an exception that is not one of missing facts.
  abbrev pub IsReceipt : Event Time → Outcome X → Type 0
  IsReceipt e no_result = ⊥
  IsReceipt e (result r) = IsStamped e r
  IsReceipt e (missing_facts fields) = ⊥
  IsReceipt e (raised x) = Unit

  attach-IsStamped :
      (r : CascadeResult X) (e : Event Time) → IsStamped e (attach_event_causality r e)
  unfolding attach_event_causality
  attach-IsStamped r e = (refl, refl, refl, stamped r.decision)
    where
      stamped : (d : Option (CascadeDecision X)) → IsStampedDecision e (stamp_decision e d)
      stamped none = tt
      stamped (some d) = (refl, refl, refl)

  -- The two do the same wherever they take no facts or facts of this source.
  pub record AgreeOn (facts : Facts) (c d : Cascades Time X) : Type 0 where
    pub recall_cascade : (e : Event Time) → c.recall_cascade e ≡ d.recall_cascade e
    pub inventory_exception_cascade :
        (e : Event Time) → c.inventory_exception_cascade e ≡ d.inventory_exception_cascade e
    pub catalog_price_check : (e : Event Time) → c.catalog_price_check e ≡ d.catalog_price_check e
    pub expiry_risk_check : (e : Event Time) → c.expiry_risk_check e ≡ d.expiry_risk_check e
    pub golden_cascade : (e : Event Time) → c.golden_cascade e facts ≡ d.golden_cascade e facts
    pub procurement_cascade :
        (e : Event Time) → c.procurement_cascade e facts ≡ d.procurement_cascade e facts
    pub sales_cascade : (e : Event Time) → c.sales_cascade e facts ≡ d.sales_cascade e facts
    pub cold_chain_cascade :
        (e : Event Time) → c.cold_chain_cascade e facts ≡ d.cold_chain_cascade e facts

  run_with_facts-agree :
      (facts : Facts) (c d : Cascades Time X) (e : Event Time) (type : EventType)
      → AgreeOn facts c d
      → run_with_facts c e facts type ≡ run_with_facts d e facts type
  unfolding run_with_facts
  run_with_facts-agree facts c d e scan a = a.golden_cascade e
  run_with_facts-agree facts c d e sale a = a.sales_cascade e
  run_with_facts-agree facts c d e cold_chain_alert a = a.cold_chain_cascade e
  run_with_facts-agree facts c d e supplier_update a = a.procurement_cascade e
  run_with_facts-agree facts c d e stock_update a = refl
  run_with_facts-agree facts c d e expiry_entry a = refl
  run_with_facts-agree facts c d e shipment a = refl
  run_with_facts-agree facts c d e recall_notice a = refl
  run_with_facts-agree facts c d e inventory_exception a = refl

  run_in_domain-agree :
      (c d : Cascades Time X) (e : Event Time) (domain : DataDomain)
      → AgreeOn (facts_for e.data_domain) c d
      → run_in_domain c e domain ≡ run_in_domain d e domain
  unfolding run_in_domain
  run_in_domain-agree c d e operational_twin a =
      ap (require_context (missing_of e))
        (run_with_facts-agree (facts_for e.data_domain) c d e e.type a)
  run_in_domain-agree c d e world_simulation a =
      run_with_facts-agree (facts_for e.data_domain) c d e e.type a
  run_in_domain-agree c d e training_fixture a =
      run_with_facts-agree (facts_for e.data_domain) c d e e.type a
  run_in_domain-agree c d e twin_scenario a =
      run_with_facts-agree (facts_for e.data_domain) c d e e.type a

  run_type-agree :
      (c d : Cascades Time X) (e : Event Time) (type : EventType)
      → AgreeOn (facts_for e.data_domain) c d
      → run_type c e type ≡ run_type d e type
  unfolding run_type
  run_type-agree c d e recall_notice a = a.recall_cascade e
  run_type-agree c d e inventory_exception a = a.inventory_exception_cascade e
  run_type-agree c d e expiry_entry a = a.expiry_risk_check e
  run_type-agree c d e sale a = elim (Bool-cases (is_catalog_price_event e)) [
    | inl both ↦ rw both (a.catalog_price_check e)
    | inr n ↦ elim (Bool-cases (has_partial_catalog_price e)) [
      | inl partial ↦ rw (n, partial) refl
      | inr neither ↦ rw (n, neither) (run_in_domain-agree c d e e.data_domain a)
    ]
  ]
  run_type-agree c d e scan a = run_in_domain-agree c d e e.data_domain a
  run_type-agree c d e cold_chain_alert a = run_in_domain-agree c d e e.data_domain a
  run_type-agree c d e stock_update a = run_in_domain-agree c d e e.data_domain a
  run_type-agree c d e supplier_update a = run_in_domain-agree c d e e.data_domain a
  run_type-agree c d e shipment a = run_in_domain-agree c d e e.data_domain a

  dispatch-agree :
      (c d : Cascades Time X) (e : Event Time)
      → AgreeOn (facts_for e.data_domain) c d
      → dispatch c e ≡ dispatch d e
  unfolding dispatch
  dispatch-agree c d e a = elim (Bool-cases (is_dispatched e.data_domain)) [
    | inl runs ↦ rw runs (run_type-agree c d e e.type a)
    | inr out ↦ rw out refl
  ]

  settled-IsReceipt : (e : Event Time) (o : Outcome X) → IsReceipt e (receipt_of e (settle e o))
  unfolding settle receipt_of
  settled-IsReceipt e no_result = attach-IsStamped (without_decision ignored) e
  settled-IsReceipt e (result r) = attach-IsStamped r e
  settled-IsReceipt e (missing_facts fields) =
      attach-IsStamped (without_decision (insufficient_operational_facts fields)) e
  settled-IsReceipt e (raised x) = tt

  -- Whatever the cascades are, `run_worker` answers an event with a result that bears the event's
  -- tenant, data domain and correlation id, and so does the decision in it, caused by this event,
  -- unless a cascade raises an exception other than that of missing facts. What it answers depends
  -- on the facts of the event's own domain only: cascades that differ on the other facts alone, the
  -- world's for an operational event and the measured ones for a simulated event, give the same.
  pub dispatch_keeps_boundary :
      (c d : Cascades Time X) (e : Event Time)
      → AgreeOn (own_facts e.data_domain) c d
      → IsReceipt e (run_worker c e) × (run_worker c e ≡ run_worker d e)
  unfolding run_worker run
  dispatch_keeps_boundary c d e a =
      let agree = subst (λ (f : Facts). AgreeOn f c d) (facts_for-own_facts e.data_domain) a in
      (
        settled-IsReceipt e (dispatch c e),
        ap (λ (o : Outcome X). receipt_of e (settle e o)) (dispatch-agree c d e agree),
      )
