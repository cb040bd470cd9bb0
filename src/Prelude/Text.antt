-- ===== src/Prelude/Text.antt =====
-- What the program uses of Python's `str`: truth, `strip`, `lower` and the order by code points.
pub mod Strip
pub mod Order
use Prim.Native.Nat.{ℕ, zero, suc, ◌-◌, ◌/◌, ◌%◌, Ordering}
use Prim.Native.Char.{Char, code, nul}
use Prim.Native.String.{String, compare, ◌++◌}
use mathlib.Core.Path.{◌≡◌, refl}
use mathlib.Core.Bool.{Bool, true, false, not, ◌&&◌, ◌||◌}
use text.Mathlib.Text.{◌==◌}
use shelfwise.Prelude.Tests.{eqb, ltb, leb, if◌then◌else◌}

-- `bool(s)`
abbrev pub truthy : String → Bool
truthy s = not (s == "")

-- `s or d`
abbrev pub or_text : String → String → String
or_text s d = if truthy s then s else d

-- `len(s)`
unfoldable pub len : String → ℕ
len String.[] = 0
len (String.◌∷◌ c s) = suc (len s)

-- `str.isspace` of one code point.
abbrev is_space : ℕ → Bool
is_space c =
    leb 9 c && leb c 13
    || leb 28 c && leb c 32
    || eqb c 133
    || eqb c 160
    || eqb c 5760
    || leb 8192 c && leb c 8202
    || eqb c 8232
    || eqb c 8233
    || eqb c 8239
    || eqb c 8287
    || eqb c 12288

lstrip : String → String
lstrip String.[] = ""
lstrip (String.◌∷◌ c s) = let rest = lstrip s in if is_space (code c) then rest else String.◌∷◌ c s

rstrip : String → String
rstrip String.[] = ""
rstrip (String.◌∷◌ c s) =
    let rest = rstrip s in if is_space (code c) && rest == "" then "" else String.◌∷◌ c rest

-- `s.strip()`
unfoldable pub strip : String → String
unfolding lstrip rstrip
strip s = rstrip (lstrip s)

-- The character of `s` at position `n`, or `d` past the end.
letter_at : String → ℕ → Char → Char
letter_at String.[] n d = d
letter_at (String.◌∷◌ c s) zero d = c
letter_at (String.◌∷◌ c s) (suc n) d = letter_at s n d

-- `str.lower` on the letters A to Z and on the Kelvin sign, the one other character whose lower
-- case is a single ASCII letter; other characters are left as they are.
lower_char : Char → Char
unfolding letter_at
lower_char c =
    let n = code c in
    if leb 65 n && leb n 90
    then letter_at "abcdefghijklmnopqrstuvwxyz" (n - 65) c
    else if eqb n 8490
    then letter_at "k" 0 c
    else c

unfoldable pub lower : String → String
unfolding lower_char
lower String.[] = ""
lower (String.◌∷◌ c s) = String.◌∷◌ (lower_char c) (lower s)

-- `a <= b` on texts.
abbrev pub text_leb : String → String → Bool
text_leb a b = elim (compare a b) [ Ordering.gt ↦ false | _ ↦ true ]

strip_example : lower (strip "  Stock_Update ") ≡ "stock_update"
unfolding strip lower
strip_example = refl

-- The digit of a number below ten.
digit : ℕ → String
digit n = String.◌∷◌ (letter_at "0123456789" n nul) ""

-- The digits of `n` with fuel; `n` itself is fuel enough, since a division by ten makes it smaller.
decimal : ℕ → ℕ → String
unfolding digit letter_at
decimal zero n = digit n
decimal (suc f) n =
    let front = decimal f (n / 10) in if ltb n 10 then digit n else front ++ digit (n % 10)

-- `str(n)` of a natural number
unfoldable pub show : ℕ → String
unfolding decimal
show n = decimal n n

show_example : show 4070 ≡ "4070"
unfolding show
show_example = refl
