-- ===== src/Sourcing/Choice.antt =====
-- Which source a plan chooses, and how much it covers.
use shelfwise.Prelude.{
  ℕ, ◌+◌, ◌<◌, min, ◌≡◌, refl, sym, ap, ◌∙◌, inl, inr, ◌⊎◌, String, true, Bool-cases, some, List,
  [], ◌∷◌, length, All, text_key, ltb, ℤ, pos, negsuc, to_ℕ, arith, subst, none,
}
use mathlib.Core.List.{Perm}
use Prim.Native.String.{◌++◌}
use shelfwise.Prelude.Sort.{sort, sort-perm, sort-All, length-sort, IsSorted, sort-IsSorted}
use shelfwise.Prelude.Results.{ok, err, Error}
use shelfwise.Sourcing.{
  Decimals, StockSourceCandidate, StockSourcingPlan, before, eligible, plan_from,
  plan_stock_sourcing,
}
use shelfwise.Sourcing.Ranking.{
  before-Ordering, IsBefore, all-IsBefore, with_stock, eligible_lem, has_stock, moved_from,
  action_of-covered, action_of-short,
}

empty_of {ℓ} : {A : Type ℓ} (xs : List A) → length xs ≡ 0 → xs ≡ []
empty_of [] h = refl
empty_of (x ∷ xs) h = ground (arith, h)

module _ {D : Type 0} (dec : Decimals D) where
  -- No source is chosen, and all units are to be bought.
  pub record IsUnsourced (needed : ℕ) (plan : StockSourcingPlan D) : Type 0 where
    pub no_type : plan.selected_source_type ≡ none
    pub no_id : plan.selected_source_id ≡ none
    pub nothing : plan.units_sourced ≡ 0
    pub gap : plan.remaining_gap_units ≡ needed
    pub bought : plan.recommended_action ≡ "place_purchase_order"

  -- The best of the sources is chosen, and what it has not is left over.
  pub record IsChosen (needed : ℕ) (candidates : List (StockSourceCandidate D))
      (plan : StockSourcingPlan D) : Type 0 where
    pub best : StockSourceCandidate D
    pub others : List (StockSourceCandidate D)
    pub ranked : plan.ranked ≡ best ∷ others
    pub selected_type : plan.selected_source_type ≡ some best.source_type
    pub selected_id : plan.selected_source_id ≡ some best.source_id
    pub best_first : All (IsBefore dec best) others
    pub sourced : plan.units_sourced ≡ min best.available_units needed
    pub some_sourced : 0 < plan.units_sourced
    pub covered : plan.units_sourced + plan.remaining_gap_units ≡ needed
    pub moved :
        plan.remaining_gap_units ≡ 0 → plan.recommended_action ≡ moved_from dec best.source_type
    pub moved_and_bought :
        0 < plan.remaining_gap_units
        → plan.recommended_action
          ≡ moved_from dec best.source_type ++ "_and_purchase_order_remainder"

  -- The candidates with stock, in their order, and the choice.
  pub record IsPlan (sku : String) (needed : ℕ) (candidates : List (StockSourceCandidate D))
      (plan : StockSourcingPlan D) : Type 0 where
    pub some_needed : 0 < needed
    pub about :
        (plan.sku ≡ sku)
        × ((plan.units_needed ≡ needed) × (plan.candidates_considered ≡ length candidates))
    pub same_sources : Perm plan.ranked (with_stock dec candidates)
    pub in_order : IsSorted (before dec) plan.ranked
    pub considered : plan.eligible_considered ≡ length plan.ranked
    pub choice :
        (IsUnsourced needed plan × (with_stock dec candidates ≡ []))
        ⊎ IsChosen needed candidates plan

  plan_from-choice :
      (sku : String) (needed : ℕ) (cs ranked : List (StockSourceCandidate D))
      → 0 < needed
      → IsSorted (before dec) ranked
      → All (λ c. ltb 0 c.available_units ≡ true) ranked
      → length ranked ≡ length (eligible dec cs)
      → (IsUnsourced needed (plan_from dec sku needed cs ranked) × (with_stock dec cs ≡ []))
        ⊎ IsChosen needed cs (plan_from dec sku needed cs ranked)
  plan_from-choice sku needed cs [] p s a h = inl (
    record { no_type = refl; no_id = refl; nothing = refl; gap = refl; bought = refl },
    sym (eligible_lem dec cs) ∙ empty_of (eligible dec cs) (sym h),
  )
  plan_from-choice sku needed cs (best ∷ others) p s a h = inr (record {
    best = best;
    others = others;
    ranked = refl;
    selected_type = refl;
    selected_id = refl;
    best_first = all-IsBefore dec best others s.0;
    sourced = refl;
    some_sourced = ground (arith, a.0, p);
    covered = omega arith;
    moved = action_of-covered dec best.source_type _;
    moved_and_bought = action_of-short dec best.source_type _;
  })

  plan_from-same :
      (sku : String) (needed : ℕ) (cs ranked : List (StockSourceCandidate D))
      → (plan_from dec sku needed cs ranked).ranked ≡ ranked
  plan_from-same sku needed cs [] = refl
  plan_from-same sku needed cs (best ∷ others) = refl

  plan_from-about :
      (sku : String) (needed : ℕ) (cs ranked : List (StockSourceCandidate D))
      → let plan = plan_from dec sku needed cs ranked in
        (plan.sku ≡ sku) × ((plan.units_needed ≡ needed) × (plan.candidates_considered ≡ length cs))
  plan_from-about sku needed cs [] = (refl, (refl, refl))
  plan_from-about sku needed cs (best ∷ others) = (refl, (refl, refl))

  plan_from-considered :
      (sku : String) (needed : ℕ) (cs ranked : List (StockSourceCandidate D))
      → length ranked ≡ length (eligible dec cs)
      → (plan_from dec sku needed cs ranked).eligible_considered ≡ length ranked
  plan_from-considered sku needed cs [] h = refl
  plan_from-considered sku needed cs (best ∷ others) h = sym h

  plan_from-IsPlan :
      (sku : String) (needed : ℕ) (cs : List (StockSourceCandidate D))
      → 0 < needed
      → IsPlan sku needed cs (plan_from dec sku needed cs (sort (before dec) (eligible dec cs)))
  plan_from-IsPlan sku needed cs p =
      let ranked = sort (before dec) (eligible dec cs) in
      let sorted = sort-IsSorted (before dec) (before-Ordering dec) (eligible dec cs) in
      let count = length-sort (before dec) (eligible dec cs) in
      let same = plan_from-same sku needed cs ranked in
      record {
        some_needed = p;
        same_sources =
            subst (λ (xs : List (StockSourceCandidate D)). Perm xs (with_stock dec cs)) (sym same)
              (subst (λ (xs : List (StockSourceCandidate D)). Perm ranked xs) (eligible_lem dec cs)
                (sort-perm (before dec) (eligible dec cs)));
        about = plan_from-about sku needed cs ranked;
        in_order =
            subst (λ (xs : List (StockSourceCandidate D)). IsSorted (before dec) xs) (sym same)
              sorted;
        considered =
            plan_from-considered sku needed cs ranked count
            ∙ ap (λ (xs : List (StockSourceCandidate D)). length xs) (sym same);
        choice =
            plan_from-choice sku needed cs ranked p sorted
              (sort-All (before dec) (λ c. ltb 0 c.available_units ≡ true) (eligible dec cs)
                (has_stock dec cs))
              count;
      }

  -- A plan is refused exactly where no unit is needed. Otherwise it ranks the candidates that have any
  -- units, each once, and the first of them comes before each other by lead time, distance, cost and
  -- id. Where there are none no unit is sourced, the gap is all that is needed and a purchase order is
  -- recommended; else the plan takes what the first has, up to what is needed, and the units it takes
  -- and the gap add up to those needed; it recommends the action of the source's type, with the
  -- purchase of the remainder exactly where there is a gap.
  pub plan_stock_sourcing_lem :
      (sku : String) (needed : ℤ) (cs : List (StockSourceCandidate D))
      → ((plan_stock_sourcing dec sku needed cs ≡ err Error.value_error) × (to_ℕ needed ≡ 0))
        ⊎ ((plan : StockSourcingPlan D) × ((plan_stock_sourcing dec sku needed cs ≡ ok plan)
              × IsPlan sku (to_ℕ needed) cs plan))
  unfolding plan_stock_sourcing
  plan_stock_sourcing_lem sku (negsuc n) cs = inl (refl, refl)
  plan_stock_sourcing_lem sku (pos n) cs = elim (Bool-cases (ltb 0 n)) [
    | inr e ↦ inl (rw e refl, ground (arith, e))
    | inl e ↦ inr (
      plan_from dec sku n cs (sort (before dec) (eligible dec cs)),
      (rw e refl, plan_from-IsPlan sku n cs (ground (arith, e))),
    )
  ]
