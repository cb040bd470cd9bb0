-- ===== src/Inventory/Application/Keys.antt =====
-- The keys of the positions that an event is about.
use shelfwise.Prelude.{
  ◌≡◌, inl, inr, Bool, true, false, none, some, List, [], ◌∷◌, map, arith, text_key, ◌==◌, ==_iff,
  Bool-cases, lookup, HasDistinctKeys, keep_if, All,
}
use shelfwise.Prelude.Sort.{place, sort, place-All, sort-All}
use shelfwise.Inventory.Positions.{Position, PositionKey, position_key, Positions}
use shelfwise.Inventory.Projection.{Projection}
use shelfwise.Inventory.Application.{is_at, by_bin, matching}
use shelfwise.Inventory.Application.Stock.{IsFound, All-IsFound}

-- None of the keys is this one.
abbrev pub IsFresh : PositionKey → List PositionKey → Type 0
IsFresh k ks = All (λ j. (j == k) ≡ false) ks

abbrev pub HasNoRepeats : List PositionKey → Type 0
HasNoRepeats [] = Unit
HasNoRepeats (k ∷ ks) = IsFresh k ks × HasNoRepeats ks

place-HasNoRepeats :
    (le : PositionKey → PositionKey → Bool) (x : PositionKey) (ks : List PositionKey)
    → IsFresh x ks
    → HasNoRepeats ks
    → HasNoRepeats (place le x ks)
unfolding place
place-HasNoRepeats le x [] f h = (tt, tt)
place-HasNoRepeats le x (k ∷ ks) f h = elim (Bool-cases (le x k)) [
  | inl e ↦ rw e (f, h)
  | inr e ↦
      let apart : (x == k) ≡ false = ground (arith, f.0, ==_iff x k, ==_iff k x) in
      rw e (place-All le (λ j. (j == k) ≡ false) x ks apart h.0, place-HasNoRepeats le x ks f.1 h.1)
]

sort-HasNoRepeats :
    (le : PositionKey → PositionKey → Bool) (ks : List PositionKey)
    → HasNoRepeats ks
    → HasNoRepeats (sort le ks)
unfolding sort
sort-HasNoRepeats le [] h = tt
sort-HasNoRepeats le (k ∷ ks) h =
    place-HasNoRepeats le k (sort le ks) (sort-All le (λ j. (j == k) ≡ false) ks h.0)
      (sort-HasNoRepeats le ks h.1)

module _ (wanted : Position → Bool) where
  abbrev pub keys_of : Positions → List PositionKey
  keys_of d = map (λ e. e.0) (keep_if (λ e. wanted e.1) d)

  keys_of-IsFresh : (k : PositionKey) (d : Positions) → lookup k d ≡ none → IsFresh k (keys_of d)
  unfolding lookup
  keys_of-IsFresh k [] h = tt
  keys_of-IsFresh k ((j, q) ∷ d) h = elim (Bool-cases (k == j)) [
    | inl e ↦ absurd (ground arith)
    | inr e ↦
        let rest = keys_of-IsFresh k d (ground arith) in
        elim (Bool-cases (wanted q)) [
          | inl w ↦ rw w (ground (arith, ==_iff k j, ==_iff j k), rest)
          | inr w ↦ rw w rest
        ]
  ]

  keys_of-HasNoRepeats : (d : Positions) → HasDistinctKeys d → HasNoRepeats (keys_of d)
  keys_of-HasNoRepeats [] h = tt
  keys_of-HasNoRepeats ((k, q) ∷ d) h = elim (Bool-cases (wanted q)) [
    | inl w ↦ rw w (keys_of-IsFresh k d h.0, keys_of-HasNoRepeats d h.1)
    | inr w ↦ rw w (keys_of-HasNoRepeats d h.1)
  ]

  -- The key finds a wanted position that has the property.
  abbrev pub Finds : (Position → Type 0) → Positions → PositionKey → Type 0
  Finds P d k = (q : Position) × (lookup k d ≡ some q) × (wanted q ≡ true) × P q

  keys_of-Finds :
      (P : Position → Type 0) (d es : Positions)
      → All (IsFound d) es
      → All (λ e. P e.1) es
      → All (Finds P d) (keys_of es)
  keys_of-Finds P d [] f h = tt
  keys_of-Finds P d ((k, q) ∷ es) f h = elim (Bool-cases (wanted q)) [
    | inl w ↦ rw w ((q, f.0, w, h.0), keys_of-Finds P d es f.1 h.1)
    | inr w ↦ rw w (keys_of-Finds P d es f.1 h.1)
  ]

module _ (p : Projection) (d : Positions) where
  pub matching-HasNoRepeats : HasDistinctKeys d → HasNoRepeats (matching p d)
  unfolding matching
  matching-HasNoRepeats h =
      sort-HasNoRepeats by_bin _ (keys_of-HasNoRepeats (is_at p.tenant_id p.sku p.location_id) d h)

  pub matching-Finds :
      (P : Position → Type 0)
      → HasDistinctKeys d
      → All (λ e. P e.1) d
      → All (Finds (is_at p.tenant_id p.sku p.location_id) P d) (matching p d)
  unfolding matching
  matching-Finds P h s =
      sort-All by_bin _ _
        (keys_of-Finds (is_at p.tenant_id p.sku p.location_id) P d d (All-IsFound d h) s)
