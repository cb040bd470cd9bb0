-- ===== src/Relations/Prefixes.antt =====
-- Beginnings of paths, for src/shelfwise_decision_science/relations.py.
use shelfwise.Prelude.{
  String, Bool, false, ◌≡◌, Option, none, some, List, [], ◌∷◌, text_key, ◌==◌, if◌then◌else◌, arith,
  refl, ==_iff,
}
use shelfwise.Relations.{extended, path_key}

-- What follows the first list in the second, where it begins with it.
unfoldable pub after : List String → List String → Option (List String)
after [] p = some p
after (x ∷ xs) [] = none
after (x ∷ xs) (y ∷ ys) = if x == y then after xs ys else none

-- Whether what follows is one node, and this one.
abbrev pub is_last : String → Option (List String) → Bool
is_last y (some (z ∷ [])) = z == y
is_last y _ = false

abbrev pub step_off : String → Option (List String) → Option (List String)
step_off y (some (z ∷ zs)) = if z == y then some zs else none
step_off y _ = none

pub after-extended :
    (q : List String) (y : String) (p : List String)
    → after (extended q y) p ≡ step_off y (after q p)
unfolding after
after-extended [] y [] = refl
after-extended [] y (z ∷ zs) = ground (arith, ==_iff y z, ==_iff z y)
after-extended (x ∷ q) y [] = refl
after-extended (x ∷ q) y (z ∷ p) = ground (arith, after-extended q y p)

pub same-extended :
    (q : List String) (y : String) (p : List String) → (p == extended q y) ≡ is_last y (after q p)
unfolding after
same-extended [] y [] = refl
same-extended [] y (z ∷ []) = ground arith
same-extended [] y (z ∷ w ∷ zs) = ground arith
same-extended (x ∷ q) y [] = refl
same-extended (x ∷ q) y (z ∷ p) = ground (arith, same-extended q y p, ==_iff x z, ==_iff z x)
