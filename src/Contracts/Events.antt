-- ===== src/Contracts/Events.antt =====
-- src/shelfwise_contracts/__init__.py: the vocabulary of events, and the checks of the class Event
-- that concern it. Every ValueError is `value_error`.
pub mod Lawful
pub mod Construction
pub mod RoundTrip
use shelfwise.Prelude.{
  String, Bool, true, false, not, ◌&&◌, ◌||◌, Option, none, some, if◌then◌else◌, or_else, is_some,
  text_key, ◌==◌, ◌≡◌, eqb,
}
use Prim.Native.String.{◌++◌}
use Prim.Native.Char.{code}
use shelfwise.Prelude.Results.{Result, ok, err, Error, raise_if, ◌>>=◌, ◌>>◌}
use shelfwise.Runtime.Provenance.{
  DataDomain, operational_twin, world_simulation, training_fixture, twin_scenario, value,
  normalize_domain,
}
use shelfwise.Contracts.Json.{
  Json, null, boolean, number, text, array, object, Members, no_members, member, get, json_truthy,
  deepcopy_json,
}

pub data EventType : Type 0 where
  scan sale cold_chain_alert stock_update expiry_entry supplier_update shipment recall_notice
        inventory_exception :
      EventType

abbrev pub type_value : EventType → String
type_value scan = "scan"
type_value sale = "sale"
type_value cold_chain_alert = "cold_chain_alert"
type_value stock_update = "stock_update"
type_value expiry_entry = "expiry_entry"
type_value supplier_update = "supplier_update"
type_value shipment = "shipment"
type_value recall_notice = "recall_notice"
type_value inventory_exception = "inventory_exception"

-- `EventType(value)`
unfoldable pub event_type : Json → Result EventType
event_type (text s) =
    if s == "scan"
    then ok scan
    else if s == "sale"
    then ok sale
    else if s == "cold_chain_alert"
    then ok cold_chain_alert
    else if s == "stock_update"
    then ok stock_update
    else if s == "expiry_entry"
    then ok expiry_entry
    else if s == "supplier_update"
    then ok supplier_update
    else if s == "shipment"
    then ok shipment
    else if s == "recall_notice"
    then ok recall_notice
    else if s == "inventory_exception"
    then ok inventory_exception
    else err Error.value_error
event_type _ = err Error.value_error

pub data EventSource : Type 0 where
  api manual pos_csv scanner wms_csv : EventSource

abbrev pub source_value : EventSource → String
source_value api = "api"
source_value manual = "manual"
source_value pos_csv = "pos_csv"
source_value scanner = "scanner"
source_value wms_csv = "wms_csv"

-- `EventSource(value)`
unfoldable pub event_source : Json → Result EventSource
event_source (text s) =
    if s == "api"
    then ok api
    else if s == "manual"
    then ok manual
    else if s == "pos_csv"
    then ok pos_csv
    else if s == "scanner"
    then ok scanner
    else if s == "wms_csv"
    then ok wms_csv
    else err Error.value_error
event_source _ = err Error.value_error

-- The domain of a text that `normalize_domain` returned: `DataDomain(text)`.
abbrev pub domain_named : String → Result DataDomain
domain_named s =
    if s == "operational_twin"
    then ok operational_twin
    else if s == "world_simulation"
    then ok world_simulation
    else if s == "training_fixture"
    then ok training_fixture
    else if s == "twin_scenario"
    then ok twin_scenario
    else err Error.value_error

-- `DataDomain(normalize_domain(value, default=default))`; the text of a true value that is not a
-- text is that of no domain.
unfoldable pub domain_of : Json → DataDomain → Result DataDomain
domain_of (text s) default = normalize_domain (some s) default >>= domain_named
domain_of j default =
    if json_truthy j then err Error.value_error else normalize_domain none default >>= domain_named

abbrev pub same_domain : DataDomain → DataDomain → Bool
same_domain a b = value a == value b

abbrev pub is_true : Option Json → Bool
is_true (some (boolean b)) = b
is_true _ = false

-- `payload_domain is not None` and another domain than the event's
abbrev pub payload_domain_fits : Option Json → DataDomain → Result (Unit {0})
payload_domain_fits none domain = ok tt
payload_domain_fits (some null) domain = ok tt
payload_domain_fits (some j) domain = do
  named ← domain_of j domain
  raise_if (not (same_domain named domain))

abbrev pub is_synthetic : Members → Bool
is_synthetic payload = is_true (get "synthetic" payload) || is_true (get "synthetic_probe" payload)
