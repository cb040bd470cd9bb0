-- ===== src/Tokens/Separation.antt =====
-- The two kinds of tokens of src/shelfwise_backend, tenant.py and account_tokens.py, which one secret
-- signs.
use shelfwise.Prelude.{
  ℕ, String, true, ◌≡◌, refl, Option, none, some, text_key, ltb, ℤ, inl, inr, Bool-cases,
}
use shelfwise.Prelude.Text.{truthy, strip}
use shelfwise.Prelude.Results.{err, value_error}
use shelfwise.Contracts.Json.{Members, get}
use shelfwise.Tokens.{Codec, encode_hs256_token, header_claims, required_string}
use shelfwise.Tokens.Parts.{IsBase64}
use shelfwise.Tokens.Signed.{IsReadBack, decode-encode}
use shelfwise.Tokens.Accounts.{
  AccountTokenPurpose, account_claims, verify_account_token, required_string-read,
}
use shelfwise.Tokens.Sessions.{TenantContext, tenant_context_from_jwt}
use shelfwise.Tokens.Sessions.Roundtrip.{session_claims, exp-claims}

required_string-missing :
    (claims back : Members) (name : String)
    → get name back ≡ get name claims
    → get name claims ≡ none
    → required_string back name ≡ err value_error
unfolding required_string
required_string-missing claims back name same at = rw (same, at) refl

purpose-session :
    (ctx : TenantContext) (v : Option ℤ) (n : ℕ)
    → get "purpose" (session_claims (record ctx { session_version = v }) n) ≡ none
unfolding get
purpose-session ctx none n = refl
purpose-session ctx (some v) n = refl

module _ {B : Type 0} (codec : Codec B) (base64 : IsBase64 codec) (secret : String) (now : ℕ)
    (h : IsReadBack codec header_claims) (present : truthy secret ≡ true) where
  account_is_no_session :
      (p : AccountTokenPurpose) (tenant_id account_id nonce : String) (expires : ℕ)
      → IsReadBack codec (account_claims p tenant_id account_id nonce expires)
      → truthy (strip tenant_id) ≡ true
      → tenant_context_from_jwt codec
          (encode_hs256_token codec (account_claims p tenant_id account_id nonce expires) secret)
          secret
          now
        ≡ err value_error
  unfolding tenant_context_from_jwt get
  account_is_no_session p tenant_id account_id nonce expires r tenant =
      let claims = account_claims p tenant_id account_id nonce expires in
      rw (decode-encode codec base64 claims secret now h r present)
        (elim (Bool-cases (ltb expires now)) [
          | inl e ↦ rw e refl
          | inr e ↦
              rw
                (
                  e,
                  required_string-read claims r.back "tenant_id" tenant_id (r.same "tenant_id") refl
                      tenant,
                  required_string-missing claims r.back "user_id" (r.same "user_id") refl,
                )
                refl
        ])

  session_is_no_account :
      (q : AccountTokenPurpose) (ctx : TenantContext) (expires : ℕ)
      → IsReadBack codec (session_claims ctx expires)
      → verify_account_token codec
          (encode_hs256_token codec (session_claims ctx expires) secret)
          q
          secret
          now
        ≡ err value_error
  unfolding verify_account_token
  session_is_no_account q ctx expires r =
      let claims = session_claims ctx expires in
      rw
        (
          decode-encode codec base64 claims secret now h r present,
          exp-claims ctx ctx.session_version expires,
        )
        (elim (Bool-cases (ltb expires now)) [
          | inl e ↦ rw e refl
          | inr e ↦ rw (e, r.same "purpose", purpose-session ctx ctx.session_version expires) refl
        ])

-- An account token raises a `ValueError` where a session is expected, and the token of a session
-- where an account token is expected, though the same secret signs both.
pub tokens_kept_apart :
    {B : Type 0} (codec : Codec B) (base64 : IsBase64 codec) (secret : String)
    (now expires ends : ℕ) (p q : AccountTokenPurpose) (tenant_id account_id nonce : String)
    (ctx : TenantContext)
    → IsReadBack codec header_claims
    → IsReadBack codec (account_claims p tenant_id account_id nonce expires)
    → IsReadBack codec (session_claims ctx ends)
    → truthy secret ≡ true
    → truthy (strip tenant_id) ≡ true
    → (tenant_context_from_jwt codec
          (encode_hs256_token codec (account_claims p tenant_id account_id nonce expires) secret)
          secret
          now
        ≡ err value_error)
      × (verify_account_token codec
            (encode_hs256_token codec (session_claims ctx ends) secret)
            q
            secret
            now
          ≡ err value_error)
tokens_kept_apart codec base64 secret now expires ends p q tenant_id account_id nonce ctx h r s
      present tenant =
    (
      account_is_no_session codec base64 secret now h present p tenant_id account_id nonce expires r
          tenant,
      session_is_no_account codec base64 secret now h present q ctx ends s,
    )
