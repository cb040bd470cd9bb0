-- ===== src/Inventory/Application/Stock.antt =====
-- The stock on hand of one tenant, sku and location, and what the positions add up to.
use shelfwise.Prelude.{
  ℕ, ◌+◌, String, ◌≡◌, refl, ◌∙◌, inl, inr, Bool, Option, none, some, List, [], ◌∷◌, map, arith,
  text_key, ◌==◌, ==_iff, ==_refl, if◌then◌else◌, Bool-cases, lookup, insert, HasDistinctKeys,
  keep_if, All,
}
use shelfwise.Prelude.Sort.{place, sort}
use shelfwise.Inventory.Positions.{Position, PositionKey, position_key, Positions}
use shelfwise.Inventory.Projection.{Projection}
use shelfwise.Inventory.Application.{is_at, by_bin, matching, quantity_at}

module _ (tenant sku location : String) where
  abbrev pub weight : Position → ℕ
  weight q = if is_at tenant sku location q then q.quantity else 0

  abbrev pub weight_of : Option Position → ℕ
  weight_of none = 0
  weight_of (some q) = weight q

  -- What the positions of the tenant, the sku and the location add up to.
  abbrev pub on_hand : Positions → ℕ
  on_hand [] = 0
  on_hand ((k, q) ∷ d) = weight q + on_hand d

  pub on_hand-insert :
      (k : PositionKey) (q : Position) (d : Positions)
      → on_hand (insert k q d) + weight_of (lookup k d) ≡ on_hand d + weight q
  unfolding insert lookup
  on_hand-insert k q [] = omega arith
  on_hand-insert k q ((j, r) ∷ d) = elim (Bool-cases (k == j)) [
    | inl e ↦ rw e (omega arith)
    | inr e ↦ rw e (omega (arith, on_hand-insert k q d))
  ]

-- Each entry is the one that its key finds.
abbrev pub IsFound : Positions → PositionKey × Position → Type 0
IsFound d e = lookup e.0 d ≡ some e.1

IsFound-cons :
    (k : PositionKey) (q : Position) (d es : Positions)
    → lookup k d ≡ none
    → All (IsFound d) es
    → All (IsFound ((k, q) ∷ d)) es
unfolding lookup
IsFound-cons k q d [] new h = tt
IsFound-cons k q d ((j, r) ∷ es) new h =
    (ground (arith, h.0, ==_iff j k), IsFound-cons k q d es new h.1)

pub All-IsFound : (d : Positions) → HasDistinctKeys d → All (IsFound d) d
unfolding lookup
All-IsFound [] h = tt
All-IsFound ((k, q) ∷ d) h =
    (ground (arith, ==_refl k), IsFound-cons k q d d h.0 (All-IsFound d h.1))

quantity_at-place :
    (le : PositionKey → PositionKey → Bool) (x : PositionKey) (ks : List PositionKey)
    (d : Positions)
    → quantity_at (place le x ks) d ≡ quantity_at (x ∷ ks) d
unfolding place
quantity_at-place le x [] d = refl
quantity_at-place le x (k ∷ ks) d = elim (Bool-cases (le x k)) [
  | inl e ↦ rw e refl
  | inr e ↦ rw e (omega (arith, quantity_at-place le x ks d))
]

quantity_at-sort :
    (le : PositionKey → PositionKey → Bool) (ks : List PositionKey) (d : Positions)
    → quantity_at (sort le ks) d ≡ quantity_at ks d
unfolding sort
quantity_at-sort le [] d = refl
quantity_at-sort le (k ∷ ks) d =
    omega (arith, quantity_at-place le k (sort le ks) d, quantity_at-sort le ks d)

module _ (tenant sku location : String) where
  quantity_at-entries :
      (d es : Positions)
      → All (IsFound d) es
      → quantity_at (map (λ e. e.0) (keep_if (λ e. is_at tenant sku location e.1) es)) d
        ≡ on_hand tenant sku location es
  quantity_at-entries d [] h = refl
  quantity_at-entries d ((k, q) ∷ es) h = elim (Bool-cases (is_at tenant sku location q)) [
    | inl e ↦ rw (e, h.0) (omega (arith, quantity_at-entries d es h.1))
    | inr e ↦ rw e (omega (arith, quantity_at-entries d es h.1))
  ]

-- What `_apply_projection` adds up before it changes anything is the stock on hand.
pub before_is_on_hand :
    (p : Projection) (d : Positions)
    → HasDistinctKeys d
    → quantity_at (matching p d) d ≡ on_hand p.tenant_id p.sku p.location_id d
unfolding matching
before_is_on_hand p d h =
    quantity_at-sort by_bin _ d
    ∙ quantity_at-entries p.tenant_id p.sku p.location_id d d (All-IsFound d h)
