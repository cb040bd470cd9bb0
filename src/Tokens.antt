-- ===== src/Tokens.antt =====
-- src/shelfwise_backend/tenant.py and account_tokens.py: signed tokens. Bytes, JSON's texts, base64
-- and the keyed digest are not part of the program: a record of functions stands for them. A clock's
-- reading is an argument, in seconds.
mod Tests
pub mod Parts
pub mod Signed
pub mod Sessions
pub mod Separation
pub mod Guards
pub mod Accounts
use shelfwise.Prelude.{
  ℕ, zero, suc, ◌-◌, ◌%◌, String, Bool, true, false, not, ◌&&◌, Option, none, some, List, [], ◌∷◌,
  eqb, ltb, leb, if◌then◌else◌, text_key, ◌==◌, ℤ, pos, negsuc,
}
use Prim.Native.Char.{Char, code}
use Prim.Native.String.{◌++◌}
use shelfwise.Prelude.Text.{len, strip, truthy}
use shelfwise.Prelude.Results.{Result, ok, err, Error, raise_if, ◌>>=◌, ◌>>◌}
use shelfwise.Contracts.Json.{
  Json, Members, null, boolean, number, text, array, object, member, no_members, get,
}

-- What the code calls of `json`, `base64`, `hmac` and `int`.
pub record Codec (B : Type 0) : Type 0 where
  -- `json.dumps(value, separators=(",", ":"), sort_keys=True).encode("utf-8")`
  pub dumps : Members → B
  -- `json.loads(raw.decode("utf-8"))`, or nothing where it raises
  pub loads : B → Option Json
  -- `base64.urlsafe_b64encode(raw).decode("utf-8")`
  pub b64encode : B → String
  -- `base64.urlsafe_b64decode(value.encode("utf-8"))`, or nothing where it raises
  pub b64decode : String → Option B
  -- `hmac.new(key, message, sha256).digest()`
  pub digest : String → String → B
  -- `int(text)`, or nothing where it raises
  pub int_of_text : String → Option ℤ

abbrev pub is_char : ℕ → Char → Bool
is_char n c = eqb (code c) n

abbrev pub dot : ℕ
dot = 46

abbrev pub equals_sign : ℕ
equals_sign = 61

-- `text * n`
abbrev pub repeated : String → ℕ → String
repeated s zero = ""
repeated s (suc n) = s ++ repeated s n

-- `value.rstrip("=")`
unfoldable pub drop_padding : String → String
drop_padding String.[] = ""
drop_padding (String.◌∷◌ c s) =
    let rest = drop_padding s in
    if is_char equals_sign c && rest == "" then "" else String.◌∷◌ c rest

-- `-n % 4`
abbrev pub missing_of : ℕ → ℕ
missing_of n = (4 - n % 4) % 4

-- `_pad`
abbrev pub pad : String → String
pad value = value ++ repeated "=" (missing_of (len value))

abbrev pub in_front : Char → List String → List String
in_front c [] = String.◌∷◌ c "" ∷ []
in_front c (part ∷ parts) = String.◌∷◌ c part ∷ parts

-- `token.split(".")`
unfoldable pub split_dots : String → List String
split_dots String.[] = "" ∷ []
split_dots (String.◌∷◌ c s) =
    let rest = split_dots s in if is_char dot c then "" ∷ rest else in_front c rest

abbrev pub is_ascii : String → Bool
is_ascii String.[] = true
is_ascii (String.◌∷◌ c s) = ltb (code c) 128 && is_ascii s

-- `hmac.compare_digest` of two texts, which raises `TypeError` unless both are ASCII.
unfoldable pub compare_digest : String → String → Result Bool
compare_digest a b = if is_ascii a && is_ascii b then ok (a == b) else err Error.type_error

abbrev pub members_of : Json → Result Members
members_of (object ms) = ok ms
members_of _ = err Error.value_error

abbrev pub or_value_error : {A : Type 0} → Option A → Result A
or_value_error none = err Error.value_error
or_value_error (some a) = ok a

abbrev pub header_claims : Members
header_claims = member "alg" (text "HS256") (member "typ" (text "JWT") no_members)

abbrev pub joined : String → String → String
joined header_raw payload_raw = header_raw ++ ("." ++ payload_raw)

abbrev pub is_before : ℤ → ℕ → Bool
is_before (pos n) now = ltb n now
is_before (negsuc n) now = true

-- `payload.get(key) == value`, for a text
abbrev pub has_text : Option Json → String → Bool
has_text (some (text s)) value = s == value
has_text _ value = false

module _ {B : Type 0} (codec : Codec B) where
  unfoldable pub loads_of : String → Result Members
  loads_of value = or_value_error (codec.b64decode (pad value)) >>= λ raw.
      or_value_error (codec.loads raw) >>= members_of

  unfoldable pub dumps_of : Members → String
  dumps_of value = drop_padding (codec.b64encode (codec.dumps value))

  unfoldable pub sign : String → String → String
  sign signing_input secret = drop_padding (codec.b64encode (codec.digest secret signing_input))

  unfoldable pub encode_hs256_token : Members → String → String
  encode_hs256_token claims secret =
      let signing_input = joined (dumps_of header_claims) (dumps_of claims) in
      signing_input ++ ("." ++ sign signing_input secret)

  -- `int(value)` of a JSON value that is not `None`
  abbrev pub int_of : Json → Result ℤ
  int_of (number z) = ok z
  int_of (boolean true) = ok (pos 1)
  int_of (boolean false) = ok (pos 0)
  int_of (text s) = or_value_error (codec.int_of_text s)
  int_of _ = err Error.type_error

  -- The check of `exp`.
  abbrev pub check_exp : Option Json → ℕ → Result (Unit {0})
  check_exp none now = ok tt
  check_exp (some null) now = ok tt
  check_exp (some exp) now = int_of exp >>= λ z. raise_if (is_before z now)

  -- What follows a token of three parts.
  abbrev pub decode_parts : String → String → String → String → ℕ → Result Members
  decode_parts header_raw payload_raw signature_raw secret now = do
    header ← loads_of header_raw
    raise_if (not (has_text (get "alg" header) "HS256"))
    equal ← compare_digest (sign (joined header_raw payload_raw) secret) signature_raw
    raise_if (not equal)
    payload ← loads_of payload_raw
    check_exp (get "exp" payload) now
    ok payload

  abbrev pub decode_split : List String → String → ℕ → Result Members
  decode_split (header_raw ∷ payload_raw ∷ signature_raw ∷ []) secret now =
      decode_parts header_raw payload_raw signature_raw secret now
  decode_split _ secret now = err Error.value_error

  unfoldable pub decode_hs256_claims : String → String → ℕ → Result Members
  decode_hs256_claims token secret now =
      raise_if (not (truthy secret)) >> decode_split (split_dots token) secret now

-- A text with more than white space in it, without the white space around it.
abbrev pub full_text : Option Json → Result String
full_text (some (text value)) = raise_if (not (truthy (strip value))) >> ok (strip value)
full_text _ = err Error.value_error

-- `_required_string`, and `_required_claim`
unfoldable pub required_string : Members → String → Result String
required_string payload field_name = full_text (get field_name payload)
