-- ===== src/Contracts/Events/Construction.antt =====
-- src/shelfwise_contracts/__init__.py, class Event: the constructor, parse_wire and to_dict. Times
-- and their texts are parameters.
use shelfwise.Prelude.{
  String, Bool, true, not, ◌&&◌, Option, none, some, if◌then◌else◌, or_else, is_some, text_key, ◌≡◌,
  eqb,
}
use Prim.Native.String.{◌++◌}
use Prim.Native.Char.{code}
use shelfwise.Prelude.Results.{Result, ok, err, Error, raise_if, ◌>>=◌, ◌>>◌}
use shelfwise.Runtime.Provenance.{DataDomain, operational_twin, value}
use shelfwise.Contracts.Json.{
  Json, null, text, object, Members, no_members, member, get, json_truthy, deepcopy_json,
}
use shelfwise.Contracts.Events.{
  EventType, type_value, event_type, EventSource, source_value, event_source, domain_of,
  same_domain, payload_domain_fits, is_synthetic,
}

-- `value.replace("Z", "+00:00")`
unfoldable pub replace_z : String → String
replace_z String.[] = ""
replace_z (String.◌∷◌ c s) =
    let rest = replace_z s in if eqb (code c) 90 then "+00:00" ++ rest else String.◌∷◌ c rest

-- What the code relies on of `datetime`: `fromisoformat` and `isoformat`, whether a time has a zone,
-- and the time with the zone UTC put in.
pub record Clock (Time : Type 0) : Type 0 where
  pub fromisoformat : String → Option Time
  pub isoformat : Time → String
  pub has_zone : Time → Bool
  pub in_utc : Time → Time
  pub in_utc-has_zone : (t : Time) → has_zone (in_utc t) ≡ true
  pub fromisoformat-isoformat : (t : Time) → fromisoformat (replace_z (isoformat t)) ≡ some t

pub record Event (Time : Type 0) : Type 0 where
  pub id : Json
  pub type : EventType
  pub ts : Time
  pub actor : Json
  pub payload : Members
  pub source : EventSource
  pub tenant_id : Json
  pub data_domain : DataDomain
  pub correlation_id : Json
  pub causation_id : Json
  pub schema_version : Json

-- The arguments of `Event(...)`.
pub record EventDraft : Type 0 where
  pub id : Json
  pub type : Json
  pub ts : Json
  pub actor : Json
  pub payload : Json
  pub source : Json
  pub tenant_id : Json
  pub data_domain : Json
  pub correlation_id : Json
  pub causation_id : Json
  pub schema_version : Json

abbrev pub members_of : Json → Result Members
members_of (object ms) = ok ms
members_of _ = err Error.value_error

module _ {Time : Type 0} (clock : Clock Time) where
  abbrev pub zoned : Option Time → Result Time
  zoned none = err Error.value_error
  zoned (some t) = ok (if clock.has_zone t then t else clock.in_utc t)

  -- `_datetime`
  abbrev pub read_time : Json → Result Time
  read_time (text s) = zoned (clock.fromisoformat (replace_z s))
  read_time _ = err Error.value_error

  -- `Event(...)`: `__post_init__` raises, or the event is there.
  unfoldable pub event : EventDraft → Result (Event Time)
  event d = do
    raise_if (not (json_truthy d.id))
    raise_if (not (json_truthy d.actor))
    raise_if (not (json_truthy d.tenant_id))
    payload ← members_of d.payload
    ts ← read_time d.ts
    type ← event_type d.type
    source ← event_source d.source
    domain ← domain_of d.data_domain operational_twin
    payload_domain_fits (get "data_domain" payload) domain
    raise_if (same_domain domain operational_twin && is_synthetic payload)
    ok (record {
      id = d.id;
      type = type;
      ts = ts;
      actor = d.actor;
      payload = payload;
      source = source;
      tenant_id = d.tenant_id;
      data_domain = domain;
      correlation_id = if json_truthy d.correlation_id then d.correlation_id else d.id;
      causation_id = d.causation_id;
      schema_version = d.schema_version;
    })

  abbrev pub field_or : String → Json → Members → Json
  field_or key default ms = or_else (get key ms) default

  abbrev pub has_required : Members → Bool
  has_required ms =
      is_some (get "id" ms)
      && is_some (get "type" ms)
      && is_some (get "ts" ms)
      && is_some (get "actor" ms)
      && is_some (get "payload" ms)

  -- The arguments that `parse_wire` passes; the constructor's own defaults are the last three.
  abbrev pub draft_of : Members → EventDraft
  draft_of ms = record {
    id = field_or "id" null ms;
    type = field_or "type" null ms;
    ts = field_or "ts" null ms;
    actor = field_or "actor" null ms;
    payload = field_or "payload" null ms;
    source = field_or "source" (text "api") ms;
    tenant_id = field_or "tenant_id" (text "default") ms;
    data_domain = field_or "data_domain" (text "operational_twin") ms;
    correlation_id = field_or "correlation_id" (text "") ms;
    causation_id = field_or "causation_id" null ms;
    schema_version = field_or "schema_version" (text "v1") ms;
  }

  unfoldable pub parse_wire : Json → Result (Event Time)
  unfolding event
  parse_wire j = do ms ← members_of j; raise_if (not (has_required ms)); event (draft_of ms)

  unfoldable pub to_dict : Event Time → Json
  to_dict e = object (
      member "id" e.id (
        member "type" (text (type_value e.type)) (
          member "ts" (text (clock.isoformat e.ts)) (
            member "actor" e.actor (
              member "payload" (object (deepcopy_json e.payload)) (
                member "source" (text (source_value e.source)) (
                  member "tenant_id" e.tenant_id (
                    member "data_domain" (text (value e.data_domain)) (
                      member "correlation_id" e.correlation_id (
                        member "causation_id" e.causation_id
                          (member "schema_version" e.schema_version no_members)))))))))))
