-- ===== src/Gateway/Spotlight.antt =====
-- src/shelfwise_backend/security/gateway.py: untrusted text is cleaned and fenced before a language
-- model sees it.
pub mod Fences
use shelfwise.Prelude.{ℕ, zero, suc, String, Bool, true, false, ◌||◌, ◌&&◌, if◌then◌else◌, eqb, leb}
use Prim.Native.Char.{Char, code}
use Prim.Native.String.{◌++◌}
use shelfwise.Contracts.Json.{
  Json, Items, Members, null, boolean, number, text, array, object, no_items, item, no_members,
  member,
}

-- `_ZERO_WIDTH`, of one code point
abbrev pub is_zero_width : ℕ → Bool
is_zero_width n =
    leb 8203 n && leb n 8207
    || leb 8288 n && leb n 8292
    || eqb n 65279
    || eqb n 173
    || leb 8234 n && leb n 8238

-- `_CONTROL`, of one code point
abbrev pub is_control : ℕ → Bool
is_control n = leb n 8 || eqb n 11 || eqb n 12 || leb 14 n && leb n 31 || eqb n 127

-- `re.sub(pattern, "", text)`, for a pattern of one character
unfoldable pub without : (ℕ → Bool) → String → String
without p String.[] = ""
without p (String.◌∷◌ c s) =
    let rest = without p s in if p (code c) then rest else String.◌∷◌ c rest

-- `text.replace(old, new)`, for the code point of one character
unfoldable pub replaced : ℕ → Char → String → String
replaced old new String.[] = ""
replaced old new (String.◌∷◌ c s) =
    String.◌∷◌ (if eqb (code c) old then new else c) (replaced old new s)

-- `text[:n]`
unfoldable pub first_of : ℕ → String → String
first_of zero s = ""
first_of (suc n) String.[] = ""
first_of (suc n) (String.◌∷◌ c s) = String.◌∷◌ c (first_of n s)

abbrev pub open_bracket : ℕ
open_bracket = 10214

abbrev pub close_bracket : ℕ
close_bracket = 10215

unfoldable pub cleaned : String → String
unfolding without replaced
cleaned s =
    replaced close_bracket ")"
      (replaced open_bracket "(" (without is_control (without is_zero_width s)))

abbrev pub fenced : String → String
fenced body = "⟦DATA⟧" ++ (body ++ "⟦/DATA⟧")

unfoldable pub spotlight : ℕ → String → String
unfolding cleaned first_of
spotlight max_len s = fenced (first_of max_len (cleaned s))

-- `_MAX_FIELD`
abbrev pub max_field : ℕ
max_field = 500

unfoldable mutual
  unfolding spotlight

  -- `_fence_value`
  pub fence_value : Json → Json
  fence_value null = null
  fence_value (boolean b) = boolean b
  fence_value (number z) = number z
  fence_value (text s) = text (spotlight max_field s)
  fence_value (array js) = array (fence_items js)
  fence_value (object ms) = object (fence_context ms)

  pub fence_items : Items → Items
  fence_items no_items = no_items
  fence_items (item j js) = item (fence_value j) (fence_items js)

  pub fence_context : Members → Members
  fence_context no_members = no_members
  fence_context (member k v ms) = member k (fence_value v) (fence_context ms)
