-- ===== src/Prelude/Text/Strip.antt =====
-- `strip` takes nothing from a text that it has stripped.
use Prim.Native.Char.{code}
use Prim.Native.String.{String}
use mathlib.Core.Path.{◌≡◌, refl, ◌∙◌, ap}
use mathlib.Core.Logic.{inl, inr}
use mathlib.Core.Bool.{Bool, true, false, ◌&&◌}
use native.Mathlib.Omega.{arith}
use text.Mathlib.Text.{◌==◌}
use shelfwise.Prelude.Tests.{if◌then◌else◌, Bool-cases}
use shelfwise.Prelude.Text.{strip, lstrip, rstrip, is_space}

rstrip_again : (s : String) → rstrip (rstrip s) ≡ rstrip s
unfolding rstrip
rstrip_again String.[] = refl
rstrip_again (String.◌∷◌ c s) = elim (Bool-cases (is_space (code c) && rstrip s == "")) [
  | inl e ↦ rw e refl
  | inr e ↦ rw e (rw (rstrip_again s, e) refl)
]

-- The text is empty or begins with a character that is not white space.
starts_full : String → Bool
starts_full String.[] = true
starts_full (String.◌∷◌ c s) = if is_space (code c) then false else true

lstrip-starts : (s : String) → starts_full (lstrip s) ≡ true
unfolding lstrip starts_full
lstrip-starts String.[] = refl
lstrip-starts (String.◌∷◌ c s) = elim (Bool-cases (is_space (code c))) [
  | inl e ↦ rw e (lstrip-starts s)
  | inr e ↦ rw e (rw e refl)
]

lstrip-rstrip : (s : String) → starts_full s ≡ true → lstrip (rstrip s) ≡ rstrip s
unfolding lstrip rstrip starts_full
lstrip-rstrip String.[] h = refl
lstrip-rstrip (String.◌∷◌ c s) h = elim (Bool-cases (is_space (code c))) [
  | inl e ↦ absurd (ground arith)
  | inr e ↦ rw e (rw e refl)
]

pub strip_again : (s : String) → strip (strip s) ≡ strip s
unfolding strip
strip_again s = ap rstrip (lstrip-rstrip (lstrip s) (lstrip-starts s)) ∙ rstrip_again (lstrip s)
