-- ===== src/Runtime/Provenance.antt =====
-- src/shelfwise_runtime/provenance.py: data domains and the two checks at a trust boundary.
pub mod Boundary
use shelfwise.Prelude.{
  String, ◌≡◌, refl, Bool, true, false, ◌||◌, Option, none, some, text_key, ◌==◌, if◌then◌else◌,
  or_else,
}
use shelfwise.Prelude.Text.{or_text, strip, lower}
use shelfwise.Prelude.Results.{Result, ok, err, value_error, ◌>>=◌}

-- `class DataDomain(StrEnum)`
pub data DataDomain : Type 0 where
  operational_twin world_simulation training_fixture twin_scenario : DataDomain

-- `DataDomain.value`
abbrev pub value : DataDomain → String
value operational_twin = "operational_twin"
value world_simulation = "world_simulation"
value training_fixture = "training_fixture"
value twin_scenario = "twin_scenario"

-- `{item.value for item in DataDomain}`
abbrev pub is_domain : String → Bool
is_domain s =
    s == value operational_twin
    || s == value world_simulation
    || s == value training_fixture
    || s == value twin_scenario

-- The candidate of `normalize_domain`: the given text, or the default for None or an empty text.
abbrev pub candidate : Option String → DataDomain → String
candidate v default = lower (strip (or_text (or_else v "") (value default)))

-- `normalize_domain`, for a text or None.
unfoldable pub normalize_domain : Option String → DataDomain → Result String
normalize_domain v default =
    let c = candidate v default in if is_domain c then ok c else err value_error

-- `TRAINING_DOMAINS`
abbrev pub is_training_domain : String → Bool
is_training_domain s = s == value world_simulation || s == value training_fixture

-- `require_training_domain`
unfoldable pub require_training_domain : Option String → Result String
unfolding normalize_domain
require_training_domain v = do
  domain ← normalize_domain v training_fixture
  if is_training_domain domain then ok domain else err value_error
