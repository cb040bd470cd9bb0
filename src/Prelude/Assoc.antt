-- ===== src/Prelude/Assoc.antt =====
-- Python's `dict`: an association list in insertion order. The operations are shut outside this
-- module's users; `lookup` is known by its laws.
use mathlib.Core.Path.{◌≡◌, refl}
use mathlib.Core.Logic.{inl, inr}
use mathlib.Core.Bool.{Bool}
use mathlib.Core.Option.{Option, none, some}
use mathlib.Core.List.{List, [], ◌∷◌}
use native.Mathlib.Omega.{arith}
use shelfwise.Prelude.Tests.{if◌then◌else◌, is_some, or_else, Option-cases, Bool-cases}
use shelfwise.Prelude.Keys.{Key, ◌==◌}

abbrev pub Dict {ℓ κ} : Type ℓ → Type κ → Type (ℓ ⊔ κ)
Dict K V = List (K × V)

-- The first value that is there.
abbrev pub either_of {ℓ} : {A : Type ℓ} → Option A → Option A → Option A
either_of none o = o
either_of (some a) o = some a

module _ {ℓ κ} {K : Type ℓ} {V : Type κ} ⦃k : Key K⦄ where
  -- `d.get(key)`
  unfoldable pub lookup : K → Dict K V → Option V
  lookup j [] = none
  lookup j ((i, v) ∷ d) = if j == i then some v else lookup j d

  -- `d[key] = value`: in place for a key that is there, at the end for a new one
  unfoldable pub insert : K → V → Dict K V → Dict K V
  insert j v [] = (j, v) ∷ []
  insert j v ((i, w) ∷ d) = if j == i then (i, v) ∷ d else (i, w) ∷ insert j v d

  -- `d.pop(key, None)`, `del d[key]`
  unfoldable pub remove : K → Dict K V → Dict K V
  remove j [] = []
  remove j ((i, w) ∷ d) = let rest = remove j d in if j == i then rest else (i, w) ∷ rest

  -- `key in d`
  abbrev pub contains : K → Dict K V → Bool
  contains j d = is_some (lookup j d)

  -- `d.setdefault(key, value)`
  unfoldable pub set_default : K → V → Dict K V → Dict K V
  set_default j v d = if contains j d then d else insert j v d

  -- No key stands twice: what every Python dictionary guarantees.
  abbrev pub HasDistinctKeys : Dict K V → Type κ
  HasDistinctKeys [] = Unit
  HasDistinctKeys ((i, v) ∷ d) = (lookup i d ≡ none) × HasDistinctKeys d

  -- `d.update(e)`
  unfoldable pub update : Dict K V → Dict K V → Dict K V
  update d [] = d
  update d ((i, v) ∷ e) = update (insert i v d) e

  pub lookup-nil : (j : K) → lookup j [] ≡ none
  unfolding lookup
  lookup-nil j = refl

  pub lookup-insert :
      (i j : K) (v : V) (d : Dict K V)
      → lookup j (insert i v d) ≡ (if j == i then some v else lookup j d)
  unfolding lookup insert
  lookup-insert i j v [] = refl
  lookup-insert i j v ((h, w) ∷ d) =
      ground (arith, k.same_iff i h, k.same_iff j h, k.same_iff j i, lookup-insert i j v d)

  pub lookup-remove :
      (i j : K) (d : Dict K V) → lookup j (remove i d) ≡ (if j == i then none else lookup j d)
  unfolding lookup remove
  lookup-remove i j [] = ground arith
  lookup-remove i j ((h, w) ∷ d) =
      ground (arith, k.same_iff i h, k.same_iff j h, k.same_iff j i, lookup-remove i j d)

  -- `setdefault` keeps a value that is there, and changes no other key.
  pub lookup-set_default :
      (i j : K) (v : V) (d : Dict K V)
      → lookup j (set_default i v d)
        ≡ (if j == i then some (or_else (lookup i d) v) else lookup j d)
  unfolding set_default
  lookup-set_default i j v d = elim (Option-cases (lookup i d)) [
    | inl e ↦ ground (arith, e, lookup-insert i j v d)
    | inr (w, e) ↦ ground (arith, e, k.same_iff j i)
  ]

  -- `update` leaves a key that the other dictionary lacks.
  pub lookup-update-none :
      (j : K) (d e : Dict K V) → lookup j e ≡ none → lookup j (update d e) ≡ lookup j d
  unfolding update lookup
  lookup-update-none j d [] h = refl
  lookup-update-none j d ((i, v) ∷ e) h =
      ground (arith, lookup-update-none j (insert i v d) e, lookup-insert i j v d, k.same_iff j i)

  -- The last value given for a key wins.
  pub lookup-update :
      (j : K) (d e : Dict K V)
      → HasDistinctKeys e
      → lookup j (update d e) ≡ either_of (lookup j e) (lookup j d)
  unfolding update lookup
  lookup-update j d [] h = refl
  lookup-update j d ((i, v) ∷ e) h =
      ground
        (arith, lookup-update j (insert i v d) e h.1, lookup-insert i j v d, k.same_iff j i, h.0)

  pub insert-HasDistinctKeys :
      (i : K) (v : V) (d : Dict K V) → HasDistinctKeys d → HasDistinctKeys (insert i v d)
  unfolding insert lookup
  insert-HasDistinctKeys i v [] h = (refl, tt)
  insert-HasDistinctKeys i v ((j, w) ∷ d) h = elim (Bool-cases (i == j)) [
    | inl e ↦ rw e h
    | inr e ↦ rw e (
      ground (arith, h.0, k.same_iff i j, k.same_iff j i, lookup-insert i j v d),
      insert-HasDistinctKeys i v d h.1,
    )
  ]
