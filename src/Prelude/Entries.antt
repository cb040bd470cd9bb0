-- ===== src/Prelude/Entries.antt =====
-- What holds of all entries of a dictionary or elements of a list, after they are changed or kept.
use mathlib.Core.Path.{◌≡◌, subst}
use mathlib.Core.Logic.{inl, inr}
use mathlib.Core.Bool.{Bool, true}
use mathlib.Core.List.{List, [], ◌∷◌, map}
use shelfwise.Prelude.Tests.{Bool-cases}
use shelfwise.Prelude.Keys.{Key, ◌==◌, ==_iff}
use shelfwise.Prelude.Lists.{All, keep_if}
use shelfwise.Prelude.Assoc.{Dict, insert, set_default, contains}

module _ {K V : Type 0} ⦃k : Key K⦄ (P : K × V → Type 0) where
  pub All-insert : (j : K) (v : V) (d : Dict K V) → P (j, v) → All P d → All P (insert j v d)
  unfolding insert
  All-insert j v [] p h = (p, tt)
  All-insert j v ((i, w) ∷ d) p h = elim (Bool-cases (j == i)) [
    | inl e ↦ rw e (subst (λ z. P (z, v)) ((==_iff j i).0 e) p, h.1)
    | inr e ↦ rw e (h.0, All-insert j v d p h.1)
  ]

  pub All-set_default :
      (j : K) (v : V) (d : Dict K V) → P (j, v) → All P d → All P (set_default j v d)
  unfolding set_default
  All-set_default j v d p h = elim (Bool-cases (contains j d)) [
    | inl e ↦ rw e h
    | inr e ↦ rw e (All-insert j v d p h)
  ]

-- The kept elements pass the test, and have what all had.
pub All-kept :
    {A : Type 0} (P Q : A → Type 0) (p : A → Bool) (xs : List A)
    → ((x : A) → P x → p x ≡ true → Q x)
    → All P xs
    → All Q (keep_if p xs)
All-kept P Q p [] f h = tt
All-kept P Q p (x ∷ xs) f h = elim (Bool-cases (p x)) [
  | inl e ↦ rw e (f x h.0 e, All-kept P Q p xs f h.1)
  | inr e ↦ rw e (All-kept P Q p xs f h.1)
]

pub All-map :
    {A B : Type 0} (P : B → Type 0) (f : A → B) (xs : List A)
    → All (λ x. P (f x)) xs
    → All P (map f xs)
All-map P f [] h = tt
All-map P f (x ∷ xs) h = (h.0, All-map P f xs h.1)
