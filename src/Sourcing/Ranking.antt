-- ===== src/Sourcing/Ranking.antt =====
-- The order of sources, those with stock, and what is done with each.
use shelfwise.Prelude.{
  ℕ, ◌<◌, ◌≡◌, refl, ap, inl, inr, ◌⊎◌, String, Bool, true, false, Bool-cases, List, [], ◌∷◌, All,
  text_key, ltb, or_else, arith, eqb, if◌then◌else◌,
}
use Prim.Native.String.{◌++◌}
use shelfwise.Prelude.Text.{text_leb}
use shelfwise.Prelude.Text.Order.{text_leb-total, text_leb_trans}
use shelfwise.Prelude.Sort.{Ordering}
use shelfwise.Sourcing.{
  Decimals, SourceType, branch, distribution_center, supplier, StockSourceCandidate, then_by,
  before, eligible, action_of,
}

module _ {D : Type 0} (dec : Decimals D) where
  then_by-total :
      (a b : D) (r s : Bool)
      → then_by dec a b r ≡ false
      → (r ≡ false → s ≡ true)
      → then_by dec b a s ≡ true
  then_by-total a b r s h k = ground (arith, dec.ordering.total a b, h, k)

  then_by_trans :
      (a b c : D) (r s t : Bool)
      → (r ≡ true → s ≡ true → t ≡ true)
      → then_by dec a b r ≡ true
      → then_by dec b c s ≡ true
      → then_by dec a c t ≡ true
  then_by_trans a b c r s t f h k =
      ground (
        arith,
        dec.ordering.trans a b c,
        dec.ordering.trans c a b,
        dec.ordering.trans b c a,
        f,
        h,
        k,
      )

  pub before-Ordering : Ordering (before dec)
  before-Ordering = record {
    total = λ a b h. then_by-total a.lead_time_hours b.lead_time_hours _ _ h (λ h₁.
        then_by-total a.distance_km b.distance_km _ _ h₁ (λ h₂.
          then_by-total (or_else a.unit_cost dec.zero_) (or_else b.unit_cost dec.zero_) _ _ h₂
            (λ h₃. text_leb-total a.source_id b.source_id h₃)));
    trans = λ a b c. then_by_trans a.lead_time_hours b.lead_time_hours c.lead_time_hours _ _ _ (
        then_by_trans a.distance_km b.distance_km c.distance_km _ _ _ (
          then_by_trans (or_else a.unit_cost dec.zero_) (or_else b.unit_cost dec.zero_)
            (or_else c.unit_cost dec.zero_) _ _ _
            (text_leb_trans a.source_id b.source_id c.source_id)));
  }

  -- One component is less, or the same, than another.
  abbrev pub IsLess : D → D → Type 0
  IsLess a b = (dec.le a b ≡ true) × (dec.le b a ≡ false)

  abbrev pub IsSame : D → D → Type 0
  IsSame a b = (dec.le a b ≡ true) × (dec.le b a ≡ true)

  abbrev ThenBy : D → D → Type 0 → Type 0
  ThenBy a b P = IsLess a b ⊎ (IsSame a b × P)

  -- A source comes sooner; or as soon and from nearer; or from as near and for less, a missing cost
  -- being zero; or all these are the same and its id is not after the other's.
  abbrev pub IsBefore : StockSourceCandidate D → StockSourceCandidate D → Type 0
  IsBefore a b = ThenBy a.lead_time_hours b.lead_time_hours (
      ThenBy a.distance_km b.distance_km (
        ThenBy (or_else a.unit_cost dec.zero_) (or_else b.unit_cost dec.zero_)
          (text_leb a.source_id b.source_id ≡ true)))

  then_by-ThenBy :
      {P : Type 0} (a b : D) (r : Bool) → (r ≡ true → P) → then_by dec a b r ≡ true → ThenBy a b P
  then_by-ThenBy a b r f h = elim (Bool-cases (dec.le a b)) [
    | inl le ↦ elim (Bool-cases (dec.le b a)) [
      | inl ge ↦ inr ((le, ge), f (ground (arith, h, le, ge)))
      | inr lt ↦ inl (le, lt)
    ]
    | inr gt ↦ absurd (ground (arith, h, gt))
  ]

  before-IsBefore : (a b : StockSourceCandidate D) → before dec a b ≡ true → IsBefore a b
  before-IsBefore a b = then_by-ThenBy a.lead_time_hours b.lead_time_hours _ (
      then_by-ThenBy a.distance_km b.distance_km _
        (then_by-ThenBy (or_else a.unit_cost dec.zero_) (or_else b.unit_cost dec.zero_) _ (λ h. h)))

  pub all-IsBefore :
      (a : StockSourceCandidate D) (cs : List (StockSourceCandidate D))
      → All (λ c. before dec a c ≡ true) cs
      → All (IsBefore a) cs
  all-IsBefore a [] h = tt
  all-IsBefore a (c ∷ cs) h = (before-IsBefore a c h.0, all-IsBefore a cs h.1)

  -- The candidates that have some units.
  pub with_stock : List (StockSourceCandidate D) → List (StockSourceCandidate D)
  with_stock [] = []
  with_stock (c ∷ cs) =
      let rest = with_stock cs in if eqb c.available_units 0 then rest else c ∷ rest

  pub eligible_lem : (cs : List (StockSourceCandidate D)) → eligible dec cs ≡ with_stock cs
  unfolding with_stock
  eligible_lem [] = refl
  eligible_lem (c ∷ cs) = elim (Bool-cases (eqb c.available_units 0)) [
    | inl e ↦
        let none_there : ltb 0 c.available_units ≡ false = ground (arith, e) in
        rw (e, none_there) (eligible_lem cs)
    | inr e ↦
        let some_there : ltb 0 c.available_units ≡ true = ground (arith, e) in
        rw (e, some_there) (ap (λ (xs : List (StockSourceCandidate D)). c ∷ xs) (eligible_lem cs))
  ]

  -- What is done with a source of each type.
  abbrev pub moved_from : SourceType → String
  moved_from branch = "transfer_from_branch"
  moved_from distribution_center = "transfer_from_distribution_center"
  moved_from supplier = "expedite_supplier_order"

  pub action_of-covered : (t : SourceType) (n : ℕ) → n ≡ 0 → action_of dec t n ≡ moved_from t
  action_of-covered branch n h = ground (arith, h)
  action_of-covered distribution_center n h = ground (arith, h)
  action_of-covered supplier n h = ground (arith, h)

  pub action_of-short :
      (t : SourceType) (n : ℕ)
      → 0 < n
      → action_of dec t n ≡ moved_from t ++ "_and_purchase_order_remainder"
  action_of-short branch n h = ground (arith, h)
  action_of-short distribution_center n h = ground (arith, h)
  action_of-short supplier n h = ground (arith, h)

  pub has_stock :
      (cs : List (StockSourceCandidate D))
      → All (λ c. ltb 0 c.available_units ≡ true) (eligible dec cs)
  has_stock [] = tt
  has_stock (c ∷ cs) = ground (arith, has_stock cs)
