-- ===== src/Context/Receipts.antt =====
-- Which requests get a receipt.
use shelfwise.Prelude.{
  List, ℕ, ◌+◌, ◌*◌, ◌/◌, ◌≤◌, ◌<◌, ◌≡◌, ◌≢◌, refl, inl, inr, ◌⊎◌, String, Bool-cases, [], ◌∷◌, ltb,
  eqb, ==_iff, ◌-◌, max, Dict, text_key, arith,
}
use shelfwise.Prelude.Text.{truthy, strip, len}
use shelfwise.Prelude.Results.{ok, err, Error}
use shelfwise.Context.{
  ContextAllocation, total, estimate_tokens, Selection, sum_tokens, tokens_of, receipt_of,
  validate_allocation, validate_receipt, build_context_receipt,
}

up_to_fours : (n : ℕ) → n ≤ 4 * max 1 ((n + 4 - 1) / 4)
up_to_fours n = omega arith

-- A text's estimate is no less than its characters, stripped, by four.
estimate_tokens_lem : (s : String) → len (strip s) ≤ 4 * estimate_tokens s
unfolding estimate_tokens len
estimate_tokens_lem s = elim (Bool-cases (truthy (strip s))) [
  | inl e ↦ rw e (up_to_fours (len (strip s)))
  | inr e ↦
      let blank : strip s ≡ "" = ground (arith, ==_iff (strip s) "", e) in
      rw (e, blank) (omega arith)
]

abbrev pub total_len : Dict String String → ℕ
total_len [] = 0
total_len ((name, s) ∷ d) = len (strip s) + total_len d

sum_tokens_lem : (d : Dict String String) → total_len d ≤ 4 * sum_tokens (tokens_of d)
sum_tokens_lem [] = omega arith
sum_tokens_lem ((name, s) ∷ d) = omega (arith, estimate_tokens_lem s, sum_tokens_lem d)

-- All that an allocation sets apart.
abbrev pub parts : ContextAllocation → List ℕ
parts a =
    a.system ∷ a.skill_catalogue ∷ a.tool_schemas ∷ a.pinned_and_summary ∷ a.recent_turns
    ∷ a.episodes ∷ a.live_evidence ∷ a.tool_results ∷ a.output_reserve ∷ a.safety_margin ∷ []

abbrev pub sum : List ℕ → ℕ
sum [] = 0
sum (n ∷ ns) = n + sum ns

total_lem : (a : ContextAllocation) → total a ≡ sum (parts a)
unfolding total
total_lem a = omega arith

-- A receipt is refused exactly where the ten parts of the allocation do not add up to the model
-- window, or the sections' tokens and the output's reserve go over it. So a receipt that is built is
-- of a request whose stripped characters and four for each reserved token are at most four for each
-- token of the window; blanks around a section are not counted.
pub receipts_fit :
    (sections : Dict String String) (s : Selection) (a : ContextAllocation) (window : ℕ)
    → ((build_context_receipt sections s a window ≡ err Error.value_error)
        × ((sum (parts a) ≢ window)
            ⊎ (window < sum_tokens (tokens_of sections) + a.output_reserve)))
      ⊎ ((build_context_receipt sections s a window ≡ ok (receipt_of sections s a window))
          × ((sum (parts a) ≡ window)
              × ((sum_tokens (tokens_of sections) + a.output_reserve ≤ window)
                  × (total_len sections + 4 * a.output_reserve ≤ 4 * window))))
unfolding build_context_receipt validate_allocation validate_receipt
receipts_fit sections s a window = elim (Bool-cases (eqb (total a) window)) [
  | inr e ↦ inl (rw e refl, inl (ground (arith, e, total_lem a)))
  | inl e ↦ elim (Bool-cases (ltb window (sum_tokens (tokens_of sections) + a.output_reserve))) [
    | inl over ↦ inl (rw (e, over) refl, inr (ground (arith, over)))
    | inr under ↦
        let fits : sum_tokens (tokens_of sections) + a.output_reserve ≤ window =
          ground (arith, under) in
        inr (
          rw (e, under) refl,
          (ground (arith, e, total_lem a), (fits, omega (arith, fits, sum_tokens_lem sections))),
        )
  ]
]
