-- ===== src/Tokens/Parts.antt =====
-- The text of a token of src/shelfwise_backend/tenant.py: its parts, and base64 without padding.
use shelfwise.Prelude.{
  ℕ, zero, suc, String, Bool, true, not, ◌&&◌, ◌≡◌, refl, sym, ap, ◌∙◌, some, [], ◌∷◌, arith,
  ==_refl, text_key,
}
use Prim.Native.Char.{Char}
use Prim.Native.String.{◌++◌}
use text.Mathlib.TextLemmas.{nil-append, cons-append}
use shelfwise.Prelude.Text.{len}
use shelfwise.Prelude.Results.{ok, ◌>>=◌}
use shelfwise.Tokens.{
  Codec, is_char, dot, equals_sign, repeated, drop_padding, missing_of, pad, split_dots, is_ascii,
  compare_digest, dumps_of, loads_of, or_value_error, members_of, sign,
}
use shelfwise.Contracts.Json.{Members}

-- No character of the text has this code.
abbrev pub lacks : ℕ → String → Bool
lacks n String.[] = true
lacks n (String.◌∷◌ c s) = not (is_char n c) && lacks n s

pub split_dots-plain : (s : String) → lacks dot s ≡ true → split_dots s ≡ s ∷ []
unfolding split_dots
split_dots-plain String.[] h = refl
split_dots-plain (String.◌∷◌ c s) h = ground (arith, h, split_dots-plain s)

pub one_front : (c : Char) (t : String) → String.◌∷◌ c "" ++ t ≡ String.◌∷◌ c t
one_front c t = cons-append c "" t ∙ ap (String.◌∷◌ c) (nil-append t)

split_dots-dot : (t : String) → split_dots ("." ++ t) ≡ "" ∷ split_dots t
unfolding split_dots
split_dots-dot t = rw (one_front "." t) refl

pub split_dots-join :
    (s t : String) → lacks dot s ≡ true → split_dots (s ++ ("." ++ t)) ≡ s ∷ split_dots t
unfolding split_dots
split_dots-join String.[] t h = rw (nil-append ("." ++ t)) (split_dots-dot t)
split_dots-join (String.◌∷◌ c s) t h =
    rw (cons-append c s ("." ++ t)) (ground (arith, h, split_dots-join s t))

drop_padding-repeated : (n : ℕ) → drop_padding (repeated "=" n) ≡ ""
unfolding drop_padding
drop_padding-repeated zero = refl
drop_padding-repeated (suc n) = rw (one_front "=" (repeated "=" n), drop_padding-repeated n) refl

drop_padding-append :
    (s : String) (n : ℕ) → lacks equals_sign s ≡ true → drop_padding (s ++ repeated "=" n) ≡ s
unfolding drop_padding
drop_padding-append String.[] n h = rw (nil-append (repeated "=" n)) (drop_padding-repeated n)
drop_padding-append (String.◌∷◌ c s) n h =
    rw (cons-append c s (repeated "=" n)) (ground (arith, h, drop_padding-append s n))

-- What is documented of base64: characters of an alphabet with neither `.` nor `=`, padded with `=`
-- to a multiple of four, which decoding turns into the same bytes.
pub record IsBase64 {B : Type 0} (codec : Codec B) : Type 0 where
  pub body : B → String
  pub no_dot : (b : B) → lacks dot (body b) ≡ true
  pub no_equals_sign : (b : B) → lacks equals_sign (body b) ≡ true
  pub ascii : (b : B) → is_ascii (body b) ≡ true
  pub padded : (b : B) → codec.b64encode b ≡ body b ++ repeated "=" (missing_of (len (body b)))
  pub decodes : (b : B) → codec.b64decode (codec.b64encode b) ≡ some b

module _ {B : Type 0} (codec : Codec B) (base64 : IsBase64 codec) where
  body-encode : (b : B) → drop_padding (codec.b64encode b) ≡ base64.body b
  body-encode b = rw (base64.padded b) (
      drop_padding-append (base64.body b) (missing_of (len (base64.body b)))
        (base64.no_equals_sign b))

  pub dumps_of-body : (claims : Members) → dumps_of codec claims ≡ base64.body (codec.dumps claims)
  unfolding dumps_of
  dumps_of-body claims = body-encode (codec.dumps claims)

  pub sign-body : (t secret : String) → sign codec t secret ≡ base64.body (codec.digest secret t)
  unfolding sign
  sign-body t secret = body-encode (codec.digest secret t)

  -- Reading what was written is reading the JSON text that was written.
  pub loads_of-dumps_of :
      (claims : Members)
      → loads_of codec (dumps_of codec claims)
        ≡ (or_value_error (codec.loads (codec.dumps claims)) >>= members_of)
  unfolding loads_of
  loads_of-dumps_of claims =
      let whole : pad (dumps_of codec claims) ≡ codec.b64encode (codec.dumps claims) =
        rw (dumps_of-body claims) (sym (base64.padded (codec.dumps claims))) in
      rw (whole, base64.decodes (codec.dumps claims)) refl

pub compare_digest_self : (s : String) → is_ascii s ≡ true → compare_digest s s ≡ ok true
unfolding compare_digest
compare_digest_self s h = ground (arith, h, ==_refl s)
