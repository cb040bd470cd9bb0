-- ===== src/Context.antt =====
-- src/shelfwise_backend/context_budget.py: the tokens that a request's sections may take. The
-- numbers of an allocation and of a window are natural ones. A model window that is not given is
-- `default_model_window`, an allocation that is not given is `default_allocation`.
pub mod Receipts
mod Tests
use shelfwise.Prelude.{
  ℕ, zero, ◌+◌, ◌-◌, ◌/◌, max, String, Bool, true, false, not, Option, none, some, List, [], ◌∷◌,
  map, if◌then◌else◌, ltb, eqb, Dict, text_key,
}
use shelfwise.Prelude.Text.{truthy, strip, len}
use shelfwise.Prelude.Results.{Result, ok, err, raise_if, ◌>>=◌, ◌>>◌}

abbrev pub default_model_window : ℕ
default_model_window = 8192

abbrev pub chars_per_token : ℕ
chars_per_token = 4

unfoldable pub estimate_tokens : String → ℕ
estimate_tokens text =
    let stripped = strip text in
    if truthy stripped then max 1 ((len stripped + chars_per_token - 1) / chars_per_token) else 0

pub record ContextAllocation : Type 0 where
  pub system : ℕ
  pub skill_catalogue : ℕ
  pub tool_schemas : ℕ
  pub pinned_and_summary : ℕ
  pub recent_turns : ℕ
  pub episodes : ℕ
  pub live_evidence : ℕ
  pub tool_results : ℕ
  pub output_reserve : ℕ
  pub safety_margin : ℕ

abbrev pub default_allocation : ContextAllocation
default_allocation = record {
  system = 700;
  skill_catalogue = 500;
  tool_schemas = 1000;
  pinned_and_summary = 700;
  recent_turns = 900;
  episodes = 700;
  live_evidence = 1000;
  tool_results = 900;
  output_reserve = 1200;
  safety_margin = 592;
}

unfoldable pub total : ContextAllocation → ℕ
total a =
    a.system + a.skill_catalogue + a.tool_schemas + a.pinned_and_summary + a.recent_turns
    + a.episodes + a.live_evidence + a.tool_results + a.output_reserve + a.safety_margin

-- `ContextAllocation.validate`
unfoldable pub validate_allocation : ContextAllocation → ℕ → Result (Unit {0})
validate_allocation a model_window = raise_if (not (eqb (total a) model_window))

pub record ContextReceipt : Type 0 where
  pub model_window : ℕ
  pub estimated_input_tokens : ℕ
  pub reserved_output_tokens : ℕ
  pub section_tokens : Dict String ℕ
  pub selected_memory_ids : List String
  pub selected_skill_ids : List String
  pub selected_tools : List String
  pub omitted_counts : Dict String ℕ
  pub truncated : Bool

-- `ContextReceipt.validate`
unfoldable pub validate_receipt : ContextReceipt → Result (Unit {0})
validate_receipt r =
    raise_if (ltb r.model_window (r.estimated_input_tokens + r.reserved_output_tokens))

-- What the request selected for its context.
pub record Selection : Type 0 where
  pub memory_ids : List String
  pub skill_ids : List String
  pub tools : List String
  pub omitted_counts : Dict String ℕ
  pub truncated : Bool

-- `sum(section_tokens.values())`
abbrev pub sum_tokens : Dict String ℕ → ℕ
sum_tokens [] = 0
sum_tokens ((name, n) ∷ d) = n + sum_tokens d

abbrev pub tokens_of : Dict String String → Dict String ℕ
tokens_of sections = map (λ e. (e.0, estimate_tokens e.1)) sections

abbrev pub receipt_of : Dict String String → Selection → ContextAllocation → ℕ → ContextReceipt
receipt_of sections s a model_window = record {
  model_window = model_window;
  estimated_input_tokens = sum_tokens (tokens_of sections);
  reserved_output_tokens = a.output_reserve;
  section_tokens = tokens_of sections;
  selected_memory_ids = s.memory_ids;
  selected_skill_ids = s.skill_ids;
  selected_tools = s.tools;
  omitted_counts = s.omitted_counts;
  truncated = s.truncated;
}

unfoldable pub build_context_receipt :
    Dict String String → Selection → ContextAllocation → ℕ → Result ContextReceipt
unfolding validate_allocation validate_receipt
build_context_receipt sections s a model_window = do
  validate_allocation a model_window
  let receipt = receipt_of sections s a model_window
  validate_receipt receipt
  ok receipt
