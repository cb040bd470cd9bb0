-- ===== src/Relations/Fuel.antt =====
-- The fuel of the search in src/shelfwise_decision_science/relations.py. A path that can be
-- extended by r steps stands for `rounds b r` rounds.
use shelfwise.Prelude.{
  ℕ, zero, suc, ◌-◌, ◌+◌, ◌*◌, ◌≤◌, ◌<◌, String, ◌≡◌, Option, none, some, ◌⊎◌, inl, inr, ap, List,
  [], ◌∷◌, ◌++◌, map, length, keep_if, text_key, ◌==◌, Bool-cases, leb, lookup, or_else, arith,
  refl, length-append, length-keep_if,
}
use shelfwise.Prelude.Text.{text_leb}
use shelfwise.Prelude.Sort.{length-sort}
use shelfwise.Relations.{
  Relation, RelationStore, Search, elem, set_of, related, has_predicate, extended, follow, visit,
  search, paths, relation_count, rounds, last_of,
}

length-set_of : (xs : List String) → length (set_of xs) ≤ length xs
unfolding set_of
length-set_of [] = omega arith
length-set_of (x ∷ xs) = ground (arith, length-set_of xs)

length-map : {A B : Type 0} (f : A → B) (xs : List A) → length (map f xs) ≡ length xs
length-map f [] = refl
length-map f (x ∷ xs) = ground (arith, length-map f xs)

length-lookup :
    (out : RelationStore) (node : String)
    → length (or_else (lookup node out) []) ≤ relation_count out
unfolding lookup
length-lookup [] node = omega arith
length-lookup ((n, rs) ∷ out) node = ground (arith, length-lookup out node)

pub length-related :
    (out : RelationStore) (node : String) (p : Option String)
    → length (related out node p) ≤ relation_count out
unfolding related
length-related out node p =
    let kept = keep_if (has_predicate p) (or_else (lookup node out) []) in
    let objects = map (λ (r : Relation). r.object) kept in
    omega (
      arith,
      length-sort text_leb (set_of objects),
      length-set_of objects,
      length-map (λ (r : Relation). r.object) kept,
      length-keep_if (has_predicate p) (or_else (lookup node out) []),
      length-lookup out node,
    )

pub List-cases : {A : Type 0} (xs : List A) → (xs ≡ []) ⊎ ((x : A) × (ys : List A) × (xs ≡ x ∷ ys))
List-cases [] = inl refl
List-cases (x ∷ xs) = inr (x, xs, refl)

mul_le : (m n k : ℕ) → m ≤ n → m * k ≤ n * k
mul_le m n k h = grind arith

module _ (b max_hops : ℕ) where
  -- The rounds that the paths of a queue take.
  abbrev work : List (List String) → ℕ
  work [] = 0
  work (path ∷ paths) = rounds b (suc max_hops - length path) + work paths

  work-append : (ps qs : List (List String)) → work (ps ++ qs) ≡ work ps + work qs
  work-append [] qs = omega arith
  work-append (p ∷ ps) qs = omega (arith, work-append ps qs)

  work-follow :
      (target : String) (path nodes : List String) (s : Search)
      → work (follow target path nodes s).queue
        ≤ work s.queue + length nodes * rounds b (max_hops - length path)
  unfolding follow
  work-follow target path [] s = omega arith
  work-follow target path (node ∷ nodes) s =
      let w = rounds b (max_hops - length path) in
      let longer = extended path node in
      let queued = record s { queue = s.queue ++ longer ∷ [] } in
      let found = record s { found = s.found ++ longer ∷ [] } in
      let size : length longer ≡ suc (length path) =
        omega (arith, length-append path (node ∷ [])) in
      let same : rounds b (suc max_hops - length longer) ≡ w =
        ap (rounds b) (omega (arith, size)) in
      let grown : work (s.queue ++ longer ∷ []) ≡ work s.queue + w =
        omega (arith, work-append s.queue (longer ∷ []), same) in
      let more : w + length nodes * w ≡ suc (length nodes) * w = grind arith in
      let first = work-follow target path nodes s in
      let second = work-follow target path nodes found in
      let third = work-follow target path nodes queued in
      elim (Bool-cases (elem node path)) [
        | inl e ↦ rw e (omega (arith, first, more))
        | inr e ↦ rw e (elim (Bool-cases (node == target)) [
          | inl f ↦ rw f (omega (arith, second, more))
          | inr f ↦ rw f (omega (arith, third, more, grown))
        ])
      ]

  rounds_pos : (hops : ℕ) → 1 ≤ rounds b hops
  rounds_pos zero = omega arith
  rounds_pos (suc h) = omega arith

module _ (out : RelationStore) (target : String) (max_hops : ℕ) where
  abbrev total : List (List String) → ℕ
  total = work (relation_count out) max_hops

  work-visit :
      (path : List String) (s : Search)
      → total (visit out target max_hops path s).queue
        < rounds (relation_count out) (suc max_hops - length path) + total s.queue
  unfolding visit
  work-visit path s =
      let b = relation_count out in
      let nodes = related out (last_of "" path) none in
      elim (Bool-cases (leb max_hops (length path - 1))) [
        | inl e ↦ rw e (omega (arith, rounds_pos b max_hops (suc max_hops - length path)))
        | inr e ↦
            let w = rounds b (max_hops - length path) in
            let fits : length path ≤ max_hops = ground arith in
            let left : suc max_hops - length path ≡ suc (max_hops - length path) = omega arith in
            let all : length nodes * w ≤ b * w =
              mul_le (length nodes) b w (length-related out (last_of "" path) none) in
            rw (e, left) (omega (arith, work-follow b max_hops target path nodes s, all))
      ]

  search_ends :
      (fuel : ℕ) (s : Search)
      → total s.queue ≤ fuel
      → (found : List (List String)) × (search out target max_hops fuel s ≡ some found)
  unfolding search
  search_ends zero s h = elim (List-cases s.queue) [
    | inl e ↦ (s.found, rw e refl)
    | inr (path, rest, e) ↦ absurd (
        omega (
          arith,
          ap total e,
          rounds_pos (relation_count out) max_hops (suc max_hops - length path),
        ))
  ]
  search_ends (suc fuel) s h = elim (List-cases s.queue) [
    | inl e ↦ (s.found, rw e refl)
    | inr (path, rest, e) ↦
        let popped : Search = record { found = s.found; queue = rest } in
        let (found, ends) =
          search_ends fuel (visit out target max_hops path popped)
            (omega (arith, work-visit path popped, ap total e)) in
        (found, rw e ends)
  ]

-- `paths` returns: the rounds that it is given are enough for any store, pair of nodes and number of steps.
pub paths_terminates :
    (out : RelationStore) (source target : String) (max_hops : ℕ)
    → (found : List (List String)) × (paths out source target max_hops ≡ some found)
unfolding paths
paths_terminates out source target max_hops =
    let b = relation_count out in
    let start : rounds b (suc max_hops - 1) ≡ rounds b max_hops = ap (rounds b) (omega arith) in
    search_ends out target max_hops (rounds b max_hops)
      (record { found = []; queue = (source ∷ []) ∷ [] }) (omega (arith, start))
