-- ===== src/Tokens/Accounts.antt =====
-- src/shelfwise_backend/account_tokens.py: tokens for one purpose. The nonce is an argument; the hex
-- digest and the text of a time are parameters.
use shelfwise.Prelude.{
  ℕ, ◌+◌, ◌≤◌, String, Bool, true, false, not, ◌≡◌, refl, if◌then◌else◌, ltb, text_key, ◌==◌, pos,
  some, arith, inl, inr, Bool-cases,
}
use shelfwise.Prelude.Text.{truthy, strip}
use shelfwise.Prelude.Results.{Result, ok, err, Error, raise_if, ◌>>=◌, ◌>>◌}
use shelfwise.Contracts.Json.{Members, text, number, member, no_members, get}
use shelfwise.Tokens.{
  Codec, encode_hs256_token, decode_hs256_claims, has_text, required_string, header_claims,
}
use shelfwise.Tokens.Parts.{IsBase64}
use shelfwise.Tokens.Signed.{IsReadBack, decode-encode}

pub data AccountTokenPurpose : Type 0 where
  activation password_reset : AccountTokenPurpose

abbrev pub purpose_text : AccountTokenPurpose → String
purpose_text activation = "activation"
purpose_text password_reset = "password_reset"

pub record IssuedAccountToken : Type 0 where
  pub token : String
  pub token_hash : String
  pub expires_at : String

pub record AccountTokenClaims : Type 0 where
  pub tenant_id : String
  pub account_id : String

-- `sha256(text.encode("utf-8")).hexdigest()` and `fromtimestamp(n, tz=UTC).isoformat()`
pub record Stamps : Type 0 where
  pub token_digest : String → String
  pub isoformat : ℕ → String

-- The claims of a token.
abbrev pub account_claims : AccountTokenPurpose → String → String → String → ℕ → Members
account_claims purpose tenant_id account_id nonce expires =
    member "purpose" (text (purpose_text purpose)) (
      member "tenant_id" (text tenant_id) (
        member "account_id" (text account_id)
          (member "nonce" (text nonce) (member "exp" (number (pos expires)) no_members))))

module _ {B : Type 0} (codec : Codec B) where
  unfoldable pub issue_account_token :
      Stamps
      → AccountTokenPurpose
      → String
      → String
      → String
      → ℕ
      → String
      → ℕ
      → Result IssuedAccountToken
  issue_account_token stamps purpose tenant_id account_id secret lifetime_seconds nonce now =
      let expires = now + lifetime_seconds in
      let token =
        encode_hs256_token codec (account_claims purpose tenant_id account_id nonce expires)
          secret in
      raise_if (not (truthy secret))
      >> raise_if (ltb lifetime_seconds 60)
      >> ok (record {
        token = token;
        token_hash = stamps.token_digest token;
        expires_at = stamps.isoformat expires;
      })

  unfoldable pub verify_account_token :
      String → AccountTokenPurpose → String → ℕ → Result AccountTokenClaims
  verify_account_token token purpose secret now = do
    claims ← decode_hs256_claims codec token secret now
    raise_if (not (has_text (get "purpose" claims) (purpose_text purpose)))
    tenant_id ← required_string claims "tenant_id"
    account_id ← required_string claims "account_id"
    nonce ← required_string claims "nonce"
    ok (record { tenant_id = tenant_id; account_id = account_id })

-- `purpose == other`
abbrev pub same_purpose : AccountTokenPurpose → AccountTokenPurpose → Bool
same_purpose activation activation = true
same_purpose password_reset password_reset = true
same_purpose _ _ = false

-- What `verify_account_token` says of an issued token.
abbrev pub verdict_on : Bool → Bool → String → String → Result AccountTokenClaims
verdict_on expired matches tenant_id account_id =
    if expired
    then err Error.value_error
    else if matches
    then ok (record { tenant_id = strip tenant_id; account_id = strip account_id })
    else err Error.value_error

pub required_string-read :
    (claims back : Members) (name value : String)
    → get name back ≡ get name claims
    → get name claims ≡ some (text value)
    → truthy (strip value) ≡ true
    → required_string back name ≡ ok (strip value)
unfolding required_string
required_string-read claims back name value same at full = rw (same, at, full) refl

purpose-matches :
    (p q : AccountTokenPurpose) → (purpose_text p == purpose_text q) ≡ same_purpose q p
purpose-matches activation activation = refl
purpose-matches activation password_reset = refl
purpose-matches password_reset activation = refl
purpose-matches password_reset password_reset = refl

matched :
    (same : Bool) (tenant_id account_id : String)
    → (raise_if (not same)
        >> ok (record { tenant_id = strip tenant_id; account_id = strip account_id }))
      ≡ verdict_on false same tenant_id account_id
matched true tenant_id account_id = refl
matched false tenant_id account_id = refl

-- A token that is issued for a named tenant and account is accepted, under the same secret, until
-- the second it expires in and for its own purpose only; what is read from it are the names it was
-- issued for, without the space around them.
pub verify-issue :
    {B : Type 0} (codec : Codec B) (base64 : IsBase64 codec) (stamps : Stamps)
    (p q : AccountTokenPurpose) (tenant_id account_id secret nonce : String)
    (lifetime now later : ℕ)
    → IsReadBack codec header_claims
    → IsReadBack codec (account_claims p tenant_id account_id nonce (now + lifetime))
    → truthy secret ≡ true
    → 60 ≤ lifetime
    → truthy (strip tenant_id) ≡ true
    → truthy (strip account_id) ≡ true
    → truthy (strip nonce) ≡ true
    → (issue_account_token codec stamps p tenant_id account_id secret lifetime nonce now
        >>= λ issued. verify_account_token codec issued.token q secret later)
      ≡ verdict_on (ltb (now + lifetime) later) (same_purpose q p) tenant_id account_id
unfolding issue_account_token verify_account_token get
verify-issue codec base64 stamps p q tenant_id account_id secret nonce lifetime now later h r
      present long tenant account fresh =
    let claims = account_claims p tenant_id account_id nonce (now + lifetime) in
    let long' : ltb lifetime 60 ≡ false = ground arith in
    let decoded = decode-encode codec base64 claims secret later h r present in
    rw (present, long', decoded)
      (elim (Bool-cases (ltb (now + lifetime) later)) [
        | inl e ↦ rw e refl
        | inr e ↦ rw e (
            rw
              (
                r.same "purpose",
                purpose-matches p q,
                required_string-read claims r.back "tenant_id" tenant_id (r.same "tenant_id") refl
                    tenant,
                required_string-read claims r.back "account_id" account_id (r.same "account_id")
                    refl account,
                required_string-read claims r.back "nonce" nonce (r.same "nonce") refl fresh,
              )
              (matched (same_purpose q p) tenant_id account_id))
      ])
