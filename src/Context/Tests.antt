-- ===== src/Context/Tests.antt =====
-- Tests of context receipts.
use shelfwise.Prelude.{
  ◌+◌, ◌*◌, ◌≤◌, ◌<◌, ◌≡◌, ◌≢◌, refl, ◌⊎◌, String, false, [], ◌∷◌, Dict, text_key,
}
use shelfwise.Prelude.Text.{strip, len}
use shelfwise.Prelude.Results.{ok, err, Error}
use shelfwise.Context.{
  default_allocation, default_model_window, total, estimate_tokens, Selection, sum_tokens,
  tokens_of, receipt_of, build_context_receipt,
}
use shelfwise.Context.Receipts.{total_len, parts, sum, receipts_fit}

abbrev sections : Dict String String
sections = ("system", "You count stock.") ∷ ("turns", " 12 milk ") ∷ ("episodes", "  ") ∷ []

abbrev selection : Selection
selection = record {
  memory_ids = [];
  skill_ids = [];
  tools = "count_stock" ∷ [];
  omitted_counts = [];
  truncated = false;
}

default_allocation_test : total default_allocation ≡ default_model_window
unfolding total
default_allocation_test = refl

tokens_test : tokens_of sections ≡ ("system", 4) ∷ ("turns", 2) ∷ ("episodes", 0) ∷ []
unfolding estimate_tokens strip len
tokens_test = refl

receipts_fit_example :
    ((build_context_receipt sections selection default_allocation 8192 ≡ err Error.value_error)
      × ((sum (parts default_allocation) ≢ 8192)
          ⊎ (8192 < sum_tokens (tokens_of sections) + default_allocation.output_reserve)))
    ⊎ ((build_context_receipt sections selection default_allocation 8192
          ≡ ok (receipt_of sections selection default_allocation 8192))
        × ((sum (parts default_allocation) ≡ 8192)
            × ((sum_tokens (tokens_of sections) + default_allocation.output_reserve ≤ 8192)
                × (total_len sections + 4 * default_allocation.output_reserve ≤ 4 * 8192))))
receipts_fit_example = receipts_fit sections selection default_allocation 8192
