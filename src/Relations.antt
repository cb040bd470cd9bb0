-- ===== src/Relations.antt =====
-- src/shelfwise_decision_science/relations.py: the relations between nodes, and the search for
-- paths. A negative `max_hops` acts as 0. A node's path is never empty, so the default of `last_of`
-- is not seen. `recommend_suppliers`, which computes with decimals, is not modelled.
mod Tests
pub mod Fuel
pub mod Prefixes
pub mod Routes
use shelfwise.Prelude.{
  ℕ, zero, suc, ◌-◌, ◌+◌, ◌*◌, String, Bool, true, false, not, ◌&&◌, ◌||◌, ◌≡◌, ◌↔◌, ◌<◌, Option,
  none, some, List, [], ◌∷◌, ◌++◌, map, length, keep_if, text_key, Key, ◌==◌, if◌then◌else◌, ltb,
  leb, or_else, Dict, lookup, insert, arith, refl, ==_iff,
}
use shelfwise.Prelude.Text.{text_leb}
use shelfwise.Prelude.Sort.{sort}

pub record Relation : Type 0 where
  pub subject : String
  pub predicate : String
  pub object : String

-- `RelationStore._out`
abbrev pub RelationStore : Type 0
RelationStore = Dict String (List Relation)

unfoldable pub add : RelationStore → Relation → RelationStore
add out relation =
    insert relation.subject (or_else (lookup relation.subject out) [] ++ relation ∷ []) out

-- `node in path`
abbrev pub elem {ℓ} : {A : Type ℓ} ⦃k : Key A⦄ → A → List A → Bool
elem x [] = false
elem x (y ∷ ys) = x == y || elem x ys

-- `set(xs)`, in some order
unfoldable pub set_of : List String → List String
set_of [] = []
set_of (x ∷ xs) = let rest = set_of xs in if elem x rest then rest else x ∷ rest

-- The test of a relation in `related`.
abbrev pub has_predicate : Option String → Relation → Bool
has_predicate none relation = true
has_predicate (some p) relation = relation.predicate == p

unfoldable pub related : RelationStore → String → Option String → List String
unfolding set_of
related out node predicate = sort text_leb (
    set_of (map (λ r. r.object) (keep_if (has_predicate predicate) (or_else (lookup node out) []))))

-- `path[-1]`
abbrev pub last_of : String → List String → String
last_of d [] = d
last_of d (x ∷ xs) = last_of x xs

abbrev pub extended : List String → String → List String
extended path node = path ++ node ∷ []

-- What the loop keeps: the paths found, and the queue.
pub record Search : Type 0 where
  pub found : List (List String)
  pub queue : List (List String)

-- The `for` loop over the neighbours of a path's end.
unfoldable pub follow : String → List String → List String → Search → Search
follow target path [] s = s
follow target path (node ∷ nodes) s =
    if elem node path
    then follow target path nodes s
    else if node == target
    then follow target path nodes (record s { found = s.found ++ extended path node ∷ [] })
    else follow target path nodes (record s { queue = s.queue ++ extended path node ∷ [] })

-- The body of the `while` loop, with `path` taken from the queue.
unfoldable pub visit : RelationStore → String → ℕ → List String → Search → Search
unfolding follow
visit out target max_hops path s =
    if leb max_hops (length path - 1)
    then s
    else follow target path (related out (last_of "" path) none) s

-- The `while` loop, with fuel; `none` is a loop cut short.
unfoldable pub search : RelationStore → String → ℕ → ℕ → Search → Option (List (List String))
unfolding visit
search out target max_hops zero s = elim s.queue [ [] ↦ some s.found | _ ∷ _ ↦ none ]
search out target max_hops (suc fuel) s = elim s.queue [
  | [] ↦ some s.found
  | path ∷ rest ↦
      search out target max_hops fuel
        (visit out target max_hops path (record { found = s.found; queue = rest }))
]

-- The number of relations of a store.
abbrev pub relation_count : RelationStore → ℕ
relation_count [] = 0
relation_count ((node, relations) ∷ out) = length relations + relation_count out

-- The rounds that a path takes which can be extended `hops` times, with its extensions, where no
-- node has more than `b` neighbours.
abbrev pub rounds : ℕ → ℕ → ℕ
rounds b zero = 1
rounds b (suc hops) = suc (b * rounds b hops)

unfoldable pub paths : RelationStore → String → String → ℕ → Option (List (List String))
unfolding search
paths out source target max_hops =
    search out target max_hops (rounds (relation_count out) max_hops)
      (record { found = []; queue = (source ∷ []) ∷ [] })

-- Each element is after one that a relation leads from.
abbrev pub IsWalk : RelationStore → String → List String → Type 0
IsWalk out node [] = Unit
IsWalk out node (next ∷ nodes) = (elem next (related out node none) ≡ true) × IsWalk out next nodes

-- No element of the second list is in the first, or twice in the second.
abbrev pub IsFresh : List String → List String → Type 0
IsFresh path [] = Unit
IsFresh path (node ∷ nodes) = (elem node path ≡ false) × IsFresh (extended path node) nodes

-- A path that the search should find: it leads from the source to the target along relations, in
-- at least one step and at most `max_hops`, and meets no node twice.
pub record IsRoute (out : RelationStore) (source target : String) (max_hops : ℕ)
    (path : List String) : Type 0 where
  pub next : String
  pub nodes : List String
  pub starts : path ≡ source ∷ next ∷ nodes
  pub walks : IsWalk out source (next ∷ nodes)
  pub simple : IsFresh [] path
  pub ends : last_of next nodes ≡ target
  pub short : length nodes < max_hops

-- Equality of paths.
abbrev same_path : List String → List String → Bool
same_path [] [] = true
same_path (x ∷ xs) (y ∷ ys) = x == y && same_path xs ys
same_path _ _ = false

pub same_path_iff : (p q : List String) → (same_path p q ≡ true) ↔ (p ≡ q)
same_path_iff [] [] = (λ h. refl, λ h. refl)
same_path_iff [] (y ∷ ys) = (λ h. ground (arith, h), λ h. ground (arith, h))
same_path_iff (x ∷ xs) [] = (λ h. ground (arith, h), λ h. ground (arith, h))
same_path_iff (x ∷ xs) (y ∷ ys) = (
  λ h. ground (arith, ==_iff x y, same_path_iff xs ys, h),
  λ h. ground (arith, ==_iff x y, same_path_iff xs ys, h),
)

instance abbrev pub path_key : Key (List String)
path_key = record { same = same_path; same_iff = same_path_iff }
