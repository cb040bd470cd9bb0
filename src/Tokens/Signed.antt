-- ===== src/Tokens/Signed.antt =====
-- The signed tokens of src/shelfwise_backend/tenant.py: what is decoded is what was encoded, and
-- only under the secret that it was signed with.
use shelfwise.Prelude.{
  ℕ, String, Bool, true, false, not, ◌&&◌, ◌≡◌, refl, sym, ap, ◌∙◌, some, List, [], ◌∷◌, arith, inl,
  inr, Bool-cases, ==_iff, text_key,
}
use Prim.Native.String.{◌++◌}
use text.Mathlib.TextLemmas.{append_assoc}
use shelfwise.Prelude.Text.{truthy}
use shelfwise.Prelude.Results.{ok, raise_if, ◌>>◌, bind-ok}
use shelfwise.Tokens.{
  Codec, joined, header_claims, split_dots, is_ascii, compare_digest, has_text, check_exp, dumps_of,
  loads_of, sign, encode_hs256_token, decode_hs256_claims, decode_split, decode_parts, dot,
}
use shelfwise.Tokens.Parts.{
  lacks, IsBase64, split_dots-plain, split_dots-join, dumps_of-body, sign-body, loads_of-dumps_of,
  compare_digest_self,
}
use shelfwise.Contracts.Json.{Members, object, get}

-- The JSON text of these claims is read back, with the same value under every name.
pub record IsReadBack {B : Type 0} (codec : Codec B) (claims : Members) : Type 0 where
  pub back : Members
  pub read : codec.loads (codec.dumps claims) ≡ some (object back)
  pub same : (key : String) → get key back ≡ get key claims

module _ {B : Type 0} (codec : Codec B) (base64 : IsBase64 codec) where
  loads_of-back :
      (claims : Members) (r : IsReadBack codec claims)
      → loads_of codec (dumps_of codec claims) ≡ ok r.back
  loads_of-back claims r = rw (loads_of-dumps_of codec base64 claims, r.read) refl

  -- A text made of three encoded parts is split into them.
  split_dots-token :
      (claims : Members) (secret : String)
      → split_dots (encode_hs256_token codec claims secret)
        ≡ dumps_of codec header_claims
          ∷ dumps_of codec claims
          ∷ sign codec (joined (dumps_of codec header_claims) (dumps_of codec claims)) secret
          ∷ []
  unfolding encode_hs256_token
  split_dots-token claims secret =
      let header = dumps_of codec header_claims in
      let payload = dumps_of codec claims in
      let signature = sign codec (joined header payload) secret in
      let shape : joined header payload ++ ("." ++ signature)
          ≡ header ++ ("." ++ (payload ++ ("." ++ signature))) =
        append_assoc header ("." ++ payload) ("." ++ signature)
        ∙ ap (λ t. header ++ t) (append_assoc "." payload ("." ++ signature)) in
      let plain_header : lacks dot header ≡ true =
        rw (dumps_of-body codec base64 header_claims) (base64.no_dot (codec.dumps header_claims)) in
      let plain_payload : lacks dot payload ≡ true =
        rw (dumps_of-body codec base64 claims) (base64.no_dot (codec.dumps claims)) in
      let plain_signature : lacks dot signature ≡ true =
        rw (sign-body codec base64 (joined header payload) secret)
          (base64.no_dot (codec.digest secret (joined header payload))) in
      ap split_dots shape
      ∙ split_dots-join header (payload ++ ("." ++ signature)) plain_header
      ∙ ap (λ parts. header ∷ parts) (split_dots-join payload signature plain_payload)
      ∙ ap (λ parts. header ∷ payload ∷ parts) (split_dots-plain signature plain_signature)

  pub decode-encode :
      (claims : Members) (secret : String) (now : ℕ) (h : IsReadBack codec header_claims)
      (r : IsReadBack codec claims)
      → truthy secret ≡ true
      → decode_hs256_claims codec (encode_hs256_token codec claims secret) secret now
        ≡ (check_exp codec (get "exp" claims) now >> ok r.back)
  unfolding decode_hs256_claims get
  decode-encode claims secret now h r present =
      let header = dumps_of codec header_claims in
      let input = joined header (dumps_of codec claims) in
      let ascii : is_ascii (sign codec input secret) ≡ true =
        rw (sign-body codec base64 input secret) (base64.ascii (codec.digest secret input)) in
      rw
        (
          present,
          split_dots-token claims secret,
          loads_of-back header_claims h,
          h.same "alg",
          compare_digest_self (sign codec input secret) ascii,
          loads_of-back claims r,
          r.same "exp",
        )
        refl

-- What the token must be for its claims to be accepted.
pub record IsAuthentic {B : Type 0} (codec : Codec B) (token secret : String) (now : ℕ)
    (claims : Members) : Type 0 where
  pub header_raw : String
  pub payload_raw : String
  pub header : Members
  pub keyed : truthy secret ≡ true
  pub parts :
      split_dots token
      ≡ header_raw ∷ payload_raw ∷ sign codec (joined header_raw payload_raw) secret ∷ []
  pub header_read : loads_of codec header_raw ≡ ok header
  pub algorithm : has_text (get "alg" header) "HS256" ≡ true
  pub payload_read : loads_of codec payload_raw ≡ ok claims
  pub current : check_exp codec (get "exp" claims) now ≡ ok tt

raise_if-ok : (t : Bool) → raise_if (not t) ≡ ok tt → t ≡ true
raise_if-ok true h = refl
raise_if-ok false h = absurd (ground (arith, h))

compare_digest-true : (a b : String) → compare_digest a b ≡ ok true → a ≡ b
unfolding compare_digest
compare_digest-true a b h = elim (Bool-cases (is_ascii a && is_ascii b)) [
  | inl e ↦ (==_iff a b).0 (ground (arith, (rw e at h)))
  | inr e ↦ absurd (ground (arith, (rw e at h)))
]

module _ {B : Type 0} (codec : Codec B) (secret : String) (now : ℕ) (claims : Members) where
  decode_parts-IsAuthentic :
      (token h p s : String)
      → truthy secret ≡ true
      → split_dots token ≡ h ∷ p ∷ s ∷ []
      → decode_parts codec h p s secret now ≡ ok claims
      → IsAuthentic codec token secret now claims
  decode_parts-IsAuthentic token h p s keyed parts e =
      let (header, (read, e₁)) = bind-ok (loads_of codec h) _ claims e in
      let (u, (alg, e₂)) =
        bind-ok (raise_if (not (has_text (get "alg" header) "HS256"))) _ claims e₁ in
      let (equal, (compared, e₃)) =
        bind-ok (compare_digest (sign codec (joined h p) secret) s) _ claims e₂ in
      let (u', (signed, e₄)) = bind-ok (raise_if (not equal)) _ claims e₃ in
      let (payload, (payload_read, e₅)) = bind-ok (loads_of codec p) _ claims e₄ in
      let (u'', (fresh, done)) = bind-ok (check_exp codec (get "exp" payload) now) _ claims e₅ in
      let same : payload ≡ claims = ground (arith, done) in
      let matches : sign codec (joined h p) secret ≡ s =
        compare_digest-true (sign codec (joined h p) secret) s
          (compared ∙ ap ok (raise_if-ok equal signed)) in
      record {
        header_raw = h;
        payload_raw = p;
        header = header;
        keyed = keyed;
        parts = parts ∙ ap (λ z. h ∷ p ∷ z ∷ []) (sym matches);
        header_read = read;
        algorithm = raise_if-ok (has_text (get "alg" header) "HS256") alg;
        payload_read = payload_read ∙ ap ok same;
        current = sym (ap (λ z. check_exp codec (get "exp" z) now) same) ∙ fresh;
      }

  decode_split-IsAuthentic :
      (token : String) (parts : List String)
      → truthy secret ≡ true
      → split_dots token ≡ parts
      → decode_split codec parts secret now ≡ ok claims
      → IsAuthentic codec token secret now claims
  decode_split-IsAuthentic token (h ∷ p ∷ s ∷ []) keyed e d =
      decode_parts-IsAuthentic token h p s keyed e d
  decode_split-IsAuthentic token [] keyed e d = absurd (ground (arith, d))
  decode_split-IsAuthentic token (h ∷ []) keyed e d = absurd (ground (arith, d))
  decode_split-IsAuthentic token (h ∷ p ∷ []) keyed e d = absurd (ground (arith, d))
  decode_split-IsAuthentic token (h ∷ p ∷ s ∷ x ∷ xs) keyed e d = absurd (ground (arith, d))

-- A token whose claims are accepted has three parts, the last of which is the signature of the
-- first two under the secret; its header names HS256, and it has not expired.
pub decode-IsAuthentic :
    {B : Type 0} (codec : Codec B) (token secret : String) (now : ℕ) (claims : Members)
    → decode_hs256_claims codec token secret now ≡ ok claims
    → IsAuthentic codec token secret now claims
unfolding decode_hs256_claims
decode-IsAuthentic codec token secret now claims h =
    let (u, (keyed, d)) = bind-ok (raise_if (not (truthy secret))) _ claims h in
    decode_split-IsAuthentic codec secret now claims token (split_dots token)
      (raise_if-ok (truthy secret) keyed) refl d
