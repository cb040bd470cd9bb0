-- ===== src/Prelude/Text/Order.antt =====
-- The order of texts by code points.
use Prim.Native.Nat.{ℕ, Ordering, compare as compare_ℕ}
use Prim.Native.Char.{Char, code}
use Prim.Native.String.{String, compare, then as after}
use Prim.Native.String.compare
use mathlib.Core.Path.{◌≡◌, refl, ap, ◌∙◌}
use mathlib.Core.Bool.{Bool, true, false}
use text.Mathlib.Text.{◌==◌, is_eq}
use text.Mathlib.TextEquality.{eq_iff}
use native.Mathlib.Omega.{arith}
use shelfwise.Prelude.Tests.{eqb, ltb, if◌then◌else◌}
use shelfwise.Prelude.Text.{text_leb}

ordered : Ordering → Bool
ordered o = elim o [ Ordering.gt ↦ false | _ ↦ true ]

ordered-then :
    (m n : ℕ) (o : Ordering)
    → ordered (after (compare_ℕ m n) o) ≡ (if eqb m n then ordered o else ltb m n)
unfolding ordered
ordered-then m n o = ground arith

text_leb-cons :
    (c d : Char) (s t : String)
    → text_leb (String.◌∷◌ c s) (String.◌∷◌ d t)
      ≡ (if eqb (code c) (code d) then text_leb s t else ltb (code c) (code d))
unfolding ordered
text_leb-cons c d s t =
    let step : compare (String.◌∷◌ c s) (String.◌∷◌ d t)
        ≡ after (compare_ℕ (code c) (code d)) (compare s t) =
      compare.cons-cons c d s t in
    ap (λ o. ordered o) step ∙ ordered-then (code c) (code d) (compare s t)

text_leb-nil : (t : String) → text_leb "" t ≡ true
unfolding ordered
text_leb-nil String.[] =
    let step : compare "" "" ≡ Ordering.eq = compare.nil-nil in ap (λ o. ordered o) step
text_leb-nil (String.◌∷◌ d t) =
    let step : compare "" (String.◌∷◌ d t) ≡ Ordering.lt = compare.nil-cons d t in
    ap (λ o. ordered o) step

text_leb-cons-nil : (c : Char) (s : String) → text_leb (String.◌∷◌ c s) "" ≡ false
unfolding ordered
text_leb-cons-nil c s =
    let step : compare (String.◌∷◌ c s) "" ≡ Ordering.gt = compare.cons-nil c s in
    ap (λ o. ordered o) step

pub text_leb-total : (s t : String) → text_leb s t ≡ false → text_leb t s ≡ true
text_leb-total String.[] t h = ground (arith, text_leb-nil t, h)
text_leb-total (String.◌∷◌ c s) String.[] h = text_leb-nil (String.◌∷◌ c s)
text_leb-total (String.◌∷◌ c s) (String.◌∷◌ d t) h =
    ground (arith, text_leb-cons c d s t, text_leb-cons d c t s, text_leb-total s t, h)

pub text_leb_trans :
    (s t u : String) → text_leb s t ≡ true → text_leb t u ≡ true → text_leb s u ≡ true
text_leb_trans String.[] t u h k = text_leb-nil u
text_leb_trans (String.◌∷◌ c s) String.[] u h k = ground (arith, text_leb-cons-nil c s, h)
text_leb_trans (String.◌∷◌ c s) (String.◌∷◌ d t) String.[] h k =
    ground (arith, text_leb-cons-nil d t, k)
text_leb_trans (String.◌∷◌ c s) (String.◌∷◌ d t) (String.◌∷◌ e u) h k = ground (
  arith,
  text_leb-cons c d s t,
  text_leb-cons d e t u,
  text_leb-cons c e s u,
  text_leb_trans s t u,
  h,
  k,
)

equal-then :
    (m n : ℕ) (o : Ordering)
    → is_eq (after (compare_ℕ m n) o) ≡ (if eqb m n then is_eq o else false)
equal-then m n o = ground arith

same-cons :
    (c d : Char) (s t : String)
    → (String.◌∷◌ c s == String.◌∷◌ d t) ≡ (if eqb (code c) (code d) then s == t else false)
same-cons c d s t =
    let step : compare (String.◌∷◌ c s) (String.◌∷◌ d t)
        ≡ after (compare_ℕ (code c) (code d)) (compare s t) =
      compare.cons-cons c d s t in
    ap (λ o. is_eq o) step ∙ equal-then (code c) (code d) (compare s t)

same_of_leb : (s t : String) → text_leb s t ≡ true → text_leb t s ≡ true → (s == t) ≡ true
same_of_leb String.[] String.[] h k = refl
same_of_leb String.[] (String.◌∷◌ d t) h k = absurd (ground (arith, text_leb-cons-nil d t, k))
same_of_leb (String.◌∷◌ c s) String.[] h k = absurd (ground (arith, text_leb-cons-nil c s, h))
same_of_leb (String.◌∷◌ c s) (String.◌∷◌ d t) h k =
    ground (
      arith,
      text_leb-cons c d s t,
      text_leb-cons d c t s,
      same-cons c d s t,
      same_of_leb s t,
      h,
      k,
    )

pub text_leb_antisym : (s t : String) → text_leb s t ≡ true → text_leb t s ≡ true → s ≡ t
text_leb_antisym s t h k = (eq_iff s t).0 (same_of_leb s t h k)
