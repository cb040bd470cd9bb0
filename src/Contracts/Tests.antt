-- ===== src/Contracts/Tests.antt =====
-- Tests of events: a clock whose times are the texts that name them, all of them with a zone.
use shelfwise.Prelude.{◌≡◌, refl, String, true, Option, some, none, if◌then◌else◌, text_key, ◌==◌}
use shelfwise.Prelude.Text.{lower, strip}
use shelfwise.Prelude.Results.{ok, err, Error}
use shelfwise.Runtime.Provenance.{operational_twin, normalize_domain}
use shelfwise.Contracts.Json.{null, boolean, text, object, Members, no_members, member, get}
use shelfwise.Contracts.Events.{EventType, event_type, EventSource, event_source, domain_of}
use shelfwise.Contracts.Events.Construction.{Clock, Event, event, parse_wire, to_dict, replace_z}
use shelfwise.Contracts.Events.RoundTrip.{parse_wire-to_dict}
use shelfwise.Contracts.Events.Lawful.{IsLawful, parse_wire-IsLawful}

-- The days of a week, as times.
data Day : Type 0 where
  monday sunday : Day

abbrev day_name : Day → String
day_name monday = "mon"
day_name sunday = "sun"

abbrev day_named : String → Option Day
day_named s = if s == "mon" then some monday else if s == "sun" then some sunday else none

day_named-day_name : (d : Day) → day_named (replace_z (day_name d)) ≡ some d
unfolding replace_z
day_named-day_name monday = refl
day_named-day_name sunday = refl

abbrev days : Clock Day
days = record {
  fromisoformat = day_named;
  isoformat = day_name;
  has_zone = λ d. true;
  in_utc = λ d. d;
  in_utc-has_zone = λ d. refl;
  fromisoformat-isoformat = day_named-day_name;
}

abbrev payload : Members
payload = member "sku" (text "milk") (member "data_domain" (text " Operational_Twin") no_members)

abbrev wire : Members
wire = member "id" (text "e1") (
    member "type" (text "sale") (
      member "ts" (text "mon")
        (member "actor" (text "till-1") (member "payload" (object payload) no_members))))

abbrev sale_event : Event Day
sale_event = record {
  id = text "e1";
  type = EventType.sale;
  ts = monday;
  actor = text "till-1";
  payload = payload;
  source = EventSource.api;
  tenant_id = text "default";
  data_domain = operational_twin;
  correlation_id = text "e1";
  causation_id = null;
  schema_version = text "v1";
}

synthetic_test :
    parse_wire days
      (object (member "payload" (object (member "synthetic" (boolean true) no_members)) wire))
    ≡ err Error.value_error
unfolding parse_wire event event_type event_source domain_of normalize_domain lower strip get
    replace_z
synthetic_test = refl

parse_wire-to_dict_example : parse_wire days (to_dict days sale_event) ≡ ok sale_event
unfolding parse_wire event event_type event_source domain_of normalize_domain lower strip get
    replace_z
parse_wire-to_dict_example = parse_wire-to_dict days (object wire) sale_event refl

parse_wire-IsLawful_example : IsLawful days sale_event
unfolding parse_wire event event_type event_source domain_of normalize_domain lower strip get
    replace_z
parse_wire-IsLawful_example = parse_wire-IsLawful days (object wire) sale_event refl
