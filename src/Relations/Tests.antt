-- ===== src/Relations/Tests.antt =====
-- src/shelfwise_decision_science/relations.py run on a small store.
use shelfwise.Prelude.{String, true, List, [], ◌∷◌, some, ◌≡◌, ◌↔◌, refl, text_key, insert, lookup}
use shelfwise.Prelude.Sort.{sort}
use shelfwise.Relations.{
  RelationStore, add, related, paths, search, visit, follow, set_of, elem, IsRoute, path_key,
}
use shelfwise.Relations.Fuel.{paths_terminates}
use shelfwise.Relations.Routes.Exact.{paths_iff}

abbrev linked : RelationStore → String → String → RelationStore
linked out a b = add out (record { subject = a; predicate = "supplied_by"; object = b })

-- A square with a way back.
abbrev square : RelationStore
square = linked (linked (linked (linked (linked [] "a" "c") "a" "b") "b" "d") "c" "d") "d" "a"

-- The paths of a search come out in order of length, then by name.
paths-square : paths square "a" "d" 3 ≡ some (("a" ∷ "b" ∷ "d" ∷ []) ∷ ("a" ∷ "c" ∷ "d" ∷ []) ∷ [])
unfolding paths search visit follow related set_of add insert lookup sort
paths-square = refl

no_way_round : paths square "a" "a" 3 ≡ some []
unfolding paths search visit follow related set_of add insert lookup sort
no_way_round = refl

paths_terminates_example : (found : List (List String)) × (paths square "a" "d" 3 ≡ some found)
paths_terminates_example = paths_terminates square "a" "d" 3

paths_iff_example :
    (found : List (List String)) × (paths square "a" "d" 3 ≡ some found)
    × ((p : List String) → (elem p found ≡ true) ↔ IsRoute square "a" "d" 3 p)
paths_iff_example = paths_iff square "a" "d" 3
