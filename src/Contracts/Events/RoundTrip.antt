-- ===== src/Contracts/Events/RoundTrip.antt =====
-- Events written and read again.
use shelfwise.Prelude.{
  ◌≡◌, refl, subst, inl, inr, true, false, not, ◌&&◌, Bool-cases, Option, none, some, if◌then◌else◌,
  text_key, arith,
}
use shelfwise.Prelude.Results.{ok, raise_if, bind-ok}
use shelfwise.Runtime.Provenance.{
  DataDomain, operational_twin, world_simulation, training_fixture, twin_scenario, value,
}
use shelfwise.Runtime.Provenance.Boundary.{normalize-value}
use shelfwise.Contracts.Json.{
  Json, null, boolean, number, text, array, object, Members, get, json_truthy, deepcopy_json-same,
}
use shelfwise.Contracts.Events.{
  EventType, type_value, event_type, EventSource, source_value, event_source, domain_of,
  same_domain, payload_domain_fits, is_synthetic,
}
use shelfwise.Contracts.Events.Construction.{
  Clock, Event, EventDraft, members_of, read_time, zoned, event, draft_of, has_required, parse_wire,
  to_dict, replace_z,
}

event_type-type_value : (t : EventType) → event_type (text (type_value t)) ≡ ok t
unfolding event_type
event_type-type_value EventType.scan = refl
event_type-type_value EventType.sale = refl
event_type-type_value EventType.cold_chain_alert = refl
event_type-type_value EventType.stock_update = refl
event_type-type_value EventType.expiry_entry = refl
event_type-type_value EventType.supplier_update = refl
event_type-type_value EventType.shipment = refl
event_type-type_value EventType.recall_notice = refl
event_type-type_value EventType.inventory_exception = refl

event_source-source_value : (s : EventSource) → event_source (text (source_value s)) ≡ ok s
unfolding event_source
event_source-source_value EventSource.api = refl
event_source-source_value EventSource.manual = refl
event_source-source_value EventSource.pos_csv = refl
event_source-source_value EventSource.scanner = refl
event_source-source_value EventSource.wms_csv = refl

domain_of-value : (d : DataDomain) → domain_of (text (value d)) operational_twin ≡ ok d
unfolding domain_of
domain_of-value operational_twin = rw (normalize-value operational_twin operational_twin) refl
domain_of-value world_simulation = rw (normalize-value world_simulation operational_twin) refl
domain_of-value training_fixture = rw (normalize-value training_fixture operational_twin) refl
domain_of-value twin_scenario = rw (normalize-value twin_scenario operational_twin) refl

module _ {Time : Type 0} (clock : Clock Time) where
  -- What the constructor checks, as it holds of the event.
  pub record IsEvent (e : Event Time) : Type 0 where
    pub has_id : json_truthy e.id ≡ true
    pub has_actor : json_truthy e.actor ≡ true
    pub has_tenant : json_truthy e.tenant_id ≡ true
    pub zone : clock.has_zone e.ts ≡ true
    pub fits : payload_domain_fits (get "data_domain" e.payload) e.data_domain ≡ ok tt
    pub not_synthetic :
        (same_domain e.data_domain operational_twin && is_synthetic e.payload) ≡ false
    pub correlated : json_truthy e.correlation_id ≡ true

  to_dict-IsEvent : (e : Event Time) → IsEvent e → parse_wire clock (to_dict clock e) ≡ ok e
  unfolding parse_wire event to_dict get
  to_dict-IsEvent e h =
      let copied = deepcopy_json-same e.payload in
      rw
        (
          copied,
          h.has_id,
          h.has_actor,
          h.has_tenant,
          clock.fromisoformat-isoformat e.ts,
          h.zone,
          event_type-type_value e.type,
          event_source-source_value e.source,
          domain_of-value e.data_domain,
          h.fits,
          h.not_synthetic,
          h.correlated,
        )
        refl

  zoned-has_zone : (o : Option Time) (t : Time) → zoned clock o ≡ ok t → clock.has_zone t ≡ true
  zoned-has_zone none t h = ground (arith, h)
  zoned-has_zone (some u) t h = elim (Bool-cases (clock.has_zone u)) [
    | inl e ↦
        let same : u ≡ t = ground (arith, h, e) in
        subst (λ (x : Time). clock.has_zone x ≡ true) same e
    | inr e ↦
        let same : clock.in_utc u ≡ t = ground (arith, h, e) in
        subst (λ (x : Time). clock.has_zone x ≡ true) same (clock.in_utc-has_zone u)
  ]

  read_time-has_zone : (j : Json) (t : Time) → read_time clock j ≡ ok t → clock.has_zone t ≡ true
  read_time-has_zone (text s) t h = zoned-has_zone (clock.fromisoformat (replace_z s)) t h
  read_time-has_zone null t h = ground (arith, h)
  read_time-has_zone (boolean b) t h = ground (arith, h)
  read_time-has_zone (number z) t h = ground (arith, h)
  read_time-has_zone (array js) t h = ground (arith, h)
  read_time-has_zone (object ms) t h = ground (arith, h)

  correlation-truthy :
      (own id : Json)
      → json_truthy id ≡ true
      → json_truthy (if json_truthy own then own else id) ≡ true
  correlation-truthy own id h = elim (Bool-cases (json_truthy own)) [
    | inl e ↦ rw (e, e) refl
    | inr e ↦ rw (e, h) refl
  ]

  -- The event that the constructor builds, once all is read and checked.
  abbrev built : EventDraft → Members → Time → EventType → EventSource → DataDomain → Event Time
  built d payload ts type source domain = record {
    id = d.id;
    type = type;
    ts = ts;
    actor = d.actor;
    payload = payload;
    source = source;
    tenant_id = d.tenant_id;
    data_domain = domain;
    correlation_id = if json_truthy d.correlation_id then d.correlation_id else d.id;
    causation_id = d.causation_id;
    schema_version = d.schema_version;
  }

  event-IsEvent : (d : EventDraft) (e : Event Time) → event clock d ≡ ok e → IsEvent e
  unfolding event
  event-IsEvent d e h =
      let (u₁, (id_ok, h₁)) = bind-ok (raise_if (not (json_truthy d.id))) _ e h in
      let (u₂, (actor_ok, h₂)) = bind-ok (raise_if (not (json_truthy d.actor))) _ e h₁ in
      let (u₃, (tenant_ok, h₃)) = bind-ok (raise_if (not (json_truthy d.tenant_id))) _ e h₂ in
      let (payload, (payload_ok, h₄)) = bind-ok (members_of d.payload) _ e h₃ in
      let (ts, (ts_ok, h₅)) = bind-ok (read_time clock d.ts) _ e h₄ in
      let (type, (type_ok, h₆)) = bind-ok (event_type d.type) _ e h₅ in
      let (source, (source_ok, h₇)) = bind-ok (event_source d.source) _ e h₆ in
      let (domain, (domain_ok, h₈)) = bind-ok (domain_of d.data_domain operational_twin) _ e h₇ in
      let (u₉, (fits_ok, h₉)) =
        bind-ok (payload_domain_fits (get "data_domain" payload) domain) _ e h₈ in
      let (u₀, (real_ok, done)) =
        bind-ok (raise_if (same_domain domain operational_twin && is_synthetic payload)) _ e h₉ in
      let same : built d payload ts type source domain ≡ e = ground (arith, done) in
      let has_id : json_truthy d.id ≡ true = ground (arith, id_ok) in
      subst (λ (x : Event Time). IsEvent x) same
        (record {
          has_id = has_id;
          has_actor = ground (arith, actor_ok);
          has_tenant = ground (arith, tenant_ok);
          zone = read_time-has_zone d.ts ts ts_ok;
          fits = fits_ok;
          not_synthetic = ground (arith, real_ok);
          correlated = correlation-truthy d.correlation_id d.id has_id;
        })

  -- `parse_wire` returns what the constructor checked.
  pub parse_wire-IsEvent : (j : Json) (e : Event Time) → parse_wire clock j ≡ ok e → IsEvent e
  unfolding parse_wire
  parse_wire-IsEvent j e h =
      let (ms, (object_ok, h₁)) = bind-ok (members_of j) _ e h in
      let (u, (fields_ok, h₂)) = bind-ok (raise_if (not (has_required clock ms))) _ e h₁ in
      event-IsEvent (draft_of clock ms) e h₂

  -- An event that `parse_wire` read from any value, written by `to_dict`, is read by `parse_wire` as
  -- the same event; so what a value leaves out or spells otherwise is settled at the first reading.
  pub parse_wire-to_dict :
      (j : Json) (e : Event Time)
      → parse_wire clock j ≡ ok e
      → parse_wire clock (to_dict clock e) ≡ ok e
  parse_wire-to_dict j e h = to_dict-IsEvent e (parse_wire-IsEvent j e h)
