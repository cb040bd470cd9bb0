-- ===== src/Relations/Routes.antt =====
-- What the search in src/shelfwise_decision_science/relations.py finds, as a test of one path: a
-- path of the queue leads to the paths that `completes` accepts after it.
pub mod Exact
use shelfwise.Prelude.{
  ℕ, zero, suc, ◌-◌, ◌+◌, ◌≤◌, ◌<◌, String, Bool, true, false, not, ◌&&◌, ◌||◌, ◌≡◌, Option, none,
  some, ◌⊎◌, inl, inr, ap, List, [], ◌∷◌, ◌++◌, length, Key, text_key, ◌==◌, Bool-cases,
  if◌then◌else◌, Option-cases, leb, arith, refl, ◌∙◌, length-append, ==_iff,
}
use shelfwise.Relations.Fuel.{List-cases}
use shelfwise.Relations.Prefixes.{after, is_last, step_off, after-extended, same-extended}
use shelfwise.Relations.{
  RelationStore, Search, elem, related, extended, follow, visit, search, paths, last_of, path_key,
  rounds, relation_count,
}

abbrev pub any {ℓ} : {A : Type ℓ} → (A → Bool) → List A → Bool
any p [] = false
any p (x ∷ xs) = p x || any p xs

any-append :
    {A : Type 0} (p : A → Bool) (xs ys : List A) → any p (xs ++ ys) ≡ (any p xs || any p ys)
any-append p [] ys = refl
any-append p (x ∷ xs) ys = ground (arith, any-append p xs ys)

elem-append :
    {A : Type 0} ⦃k : Key A⦄ (x : A) (xs ys : List A) → elem x (xs ++ ys) ≡ (elem x xs || elem x ys)
elem-append x [] ys = refl
elem-append x (y ∷ xs) ys = ground (arith, elem-append x xs ys)

abbrev pub is_nil : List String → Bool
is_nil [] = true
is_nil (x ∷ xs) = false

module _ (out : RelationStore) (target : String) (max_hops : ℕ) where
  -- The search finds the path followed by these nodes, when it takes the path from the queue.
  unfoldable pub completes : List String → List String → Bool
  completes path [] = false
  completes path (node ∷ nodes) =
      let rest = completes (extended path node) nodes in
      not (leb max_hops (length path - 1))
      && elem node (related out (last_of "" path) none)
      && not (elem node path)
      && (if node == target then is_nil nodes else rest)

  abbrev pub settles : List String → Option (List String) → Bool
  settles path none = false
  settles path (some nodes) = completes path nodes

  abbrev leads : List String → List String → Bool
  leads p path = settles path (after path p)

  -- The search has found the path, or will find it.
  abbrev reaches : List String → Search → Bool
  reaches p s = elem p s.found || any (leads p) s.queue

  -- What becomes of a neighbour.
  abbrev goes_to : List String → List String → String → Bool
  goes_to p path node =
      not (elem node path)
      && (if node == target then p == extended path node else leads p (extended path node))

  reaches-follow :
      (p path nodes : List String) (s : Search)
      → reaches p (follow target path nodes s) ≡ (reaches p s || any (goes_to p path) nodes)
  unfolding follow
  reaches-follow p path [] s = ground arith
  reaches-follow p path (node ∷ nodes) s =
      let longer = extended path node in
      elim (Bool-cases (elem node path)) [
        | inl e ↦ rw e (ground (arith, reaches-follow p path nodes s))
        | inr e ↦ rw e (elim (Bool-cases (node == target)) [
          | inl f ↦ rw f (
              ground (
                arith,
                reaches-follow p path nodes (record s { found = s.found ++ longer ∷ [] }),
                elem-append p s.found (longer ∷ []),
              ))
          | inr f ↦ rw f (
              ground (
                arith,
                reaches-follow p path nodes (record s { queue = s.queue ++ longer ∷ [] }),
                any-append (leads p) s.queue (longer ∷ []),
              ))
        ])
      ]

  -- Whether a neighbour is the next node of the path that is asked for, and leads to its end.
  verdict : List String → Option (List String) → String → Bool
  verdict path (some (z ∷ zs)) node =
      z == node
      && not (elem z path)
      && (if z == target then is_nil zs else completes (extended path z) zs)
  verdict path _ node = false

  goes_to-last :
      (path : List String) (node : String) (o : Option (List String))
      → (not (elem node path)
          && (if node == target
              then is_last node o
              else settles (extended path node) (step_off node o)))
        ≡ verdict path o node
  unfolding verdict completes
  goes_to-last path node none = ground arith
  goes_to-last path node (some []) = ground arith
  goes_to-last path node (some (z ∷ [])) = ground (arith, ==_iff z node)
  goes_to-last path node (some (z ∷ w ∷ zs)) = ground (arith, ==_iff z node)

  goes_to_lem :
      (p path : List String) (node : String)
      → goes_to p path node ≡ verdict path (after path p) node
  goes_to_lem p path node =
      rw (same-extended path node p, after-extended path node p)
        (goes_to-last path node (after path p))

  abbrev onward : List String → Option (List String) → List String → Bool
  onward path (some (z ∷ zs)) nodes =
      elem z nodes
      && not (elem z path)
      && (if z == target then is_nil zs else completes (extended path z) zs)
  onward path _ nodes = false

  any-verdict :
      (path : List String) (o : Option (List String)) (nodes : List String)
      → any (verdict path o) nodes ≡ onward path o nodes
  unfolding verdict
  any-verdict path none [] = refl
  any-verdict path (some []) [] = refl
  any-verdict path (some (z ∷ zs)) [] = refl
  any-verdict path none (node ∷ nodes) = any-verdict path none nodes
  any-verdict path (some []) (node ∷ nodes) = any-verdict path (some []) nodes
  any-verdict path (some (z ∷ zs)) (node ∷ nodes) =
      ground (arith, any-verdict path (some (z ∷ zs)) nodes)

  any-goes_to :
      (p path nodes : List String)
      → any (goes_to p path) nodes ≡ any (verdict path (after path p)) nodes
  any-goes_to p path [] = refl
  any-goes_to p path (node ∷ nodes) =
      ground (arith, goes_to_lem p path node, any-goes_to p path nodes)

  settles-onward :
      (path : List String) (o : Option (List String))
      → (not (leb max_hops (length path - 1)) && onward path o (related out (last_of "" path) none))
        ≡ settles path o
  unfolding completes
  settles-onward path none = ground arith
  settles-onward path (some []) = ground arith
  settles-onward path (some (z ∷ zs)) = ground arith

  reaches-visit :
      (p path : List String) (s : Search)
      → reaches p (visit out target max_hops path s) ≡ (reaches p s || leads p path)
  unfolding visit
  reaches-visit p path s =
      let nodes = related out (last_of "" path) none in
      elim (Bool-cases (leb max_hops (length path - 1))) [
        | inl e ↦ rw e (ground (arith, settles-onward path (after path p)))
        | inr e ↦ rw e (
            ground (
              arith,
              reaches-follow p path nodes s,
              any-goes_to p path nodes,
              any-verdict path (after path p) nodes,
              settles-onward path (after path p),
            ))
      ]

  search-found :
      (p : List String) (fuel : ℕ) (s : Search) (found : List (List String))
      → search out target max_hops fuel s ≡ some found
      → elem p found ≡ reaches p s
  unfolding search
  search-found p zero s found h = elim (List-cases s.queue) [
    | inl e ↦ rw e (ground (arith, (rw e at h)))
    | inr (path, rest, e) ↦ absurd (ground (arith, (rw e at h)))
  ]
  search-found p (suc fuel) s found h = elim (List-cases s.queue) [
    | inl e ↦ rw e (ground (arith, (rw e at h)))
    | inr (path, rest, e) ↦
        let popped : Search = record { found = s.found; queue = rest } in
        rw e (
          ground (
            arith,
            search-found p fuel (visit out target max_hops path popped) found (rw e at h),
            reaches-visit p path popped,
          ))
  ]

pub paths-completes :
    (out : RelationStore) (source target : String) (max_hops : ℕ) (found : List (List String))
    (p : List String)
    → paths out source target max_hops ≡ some found
    → elem p found ≡ settles out target max_hops (source ∷ []) (after (source ∷ []) p)
unfolding paths
paths-completes out source target max_hops found p h = ground (
  arith,
  search-found out target max_hops p (rounds (relation_count out) max_hops)
      (record { found = []; queue = (source ∷ []) ∷ [] }) found h,
)
