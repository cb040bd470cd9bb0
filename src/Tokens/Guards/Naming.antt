-- ===== src/Tokens/Guards/Naming.antt =====
-- Whom a bearer token names, for the guards of src/shelfwise_backend/deps.py.
use shelfwise.Prelude.{
  ℕ, String, ◌≡◌, refl, ap, ◌∙◌, Option, none, some, text_key, arith, inl, inr, Option-cases,
}
use shelfwise.Prelude.Text.{strip}
use shelfwise.Prelude.Results.{ok, ◌>>=◌, bind-ok}
use shelfwise.Contracts.Json.{Members, get}
use shelfwise.Tokens.{Codec, decode_hs256_claims, required_string}
use shelfwise.Tokens.Signed.{IsAuthentic, decode-IsAuthentic}
use shelfwise.Tokens.Sessions.{
  TenantContext, role_of, version_of, tenant_context_from_jwt, verify_bearer_token, remove_prefix,
}

-- A token that says whom the context is for.
pub record IsNamedBy {B : Type 0} (codec : Codec B) (authorization : Option String)
    (secret : String) (now : ℕ) (ctx : TenantContext) : Type 0 where
  pub header : String
  pub token : String
  pub claims : Members
  pub sent : authorization ≡ some header
  pub bearer : remove_prefix "Bearer " header ≡ some token
  pub authentic : IsAuthentic codec (strip token) secret now claims
  pub tenant : required_string claims "tenant_id" ≡ ok ctx.tenant_id
  pub user : required_string claims "user_id" ≡ ok ctx.user_id
  pub role : (required_string claims "role" >>= role_of) ≡ ok ctx.role

module _ {B : Type 0} (codec : Codec B) (secret : String) (now : ℕ) where
  jwt-IsNamedBy :
      (header token : String) (ctx : TenantContext)
      → remove_prefix "Bearer " header ≡ some token
      → tenant_context_from_jwt codec (strip token) secret now ≡ ok ctx
      → IsNamedBy codec (some header) secret now ctx
  unfolding tenant_context_from_jwt
  jwt-IsNamedBy header token ctx b h =
      let (claims, (decoded, h₁)) =
        bind-ok (decode_hs256_claims codec (strip token) secret now) _ ctx h in
      let (tenant, (tenant_read, h₂)) = bind-ok (required_string claims "tenant_id") _ ctx h₁ in
      let (user, (user_read, h₃)) = bind-ok (required_string claims "user_id") _ ctx h₂ in
      let (value, (value_read, h₄)) = bind-ok (required_string claims "role") _ ctx h₃ in
      let (role, (role_read, h₅)) = bind-ok (role_of value) _ ctx h₄ in
      let (version, (version_read, done)) =
        bind-ok (version_of codec (get "session_version" claims)) _ ctx h₅ in
      record {
        header = header;
        token = token;
        claims = claims;
        sent = refl;
        bearer = b;
        authentic = decode-IsAuthentic codec (strip token) secret now claims decoded;
        tenant = tenant_read ∙ ap ok (ground (arith, done));
        user = user_read ∙ ap ok (ground (arith, done));
        role = rw (value_read) (role_read ∙ ap ok (ground (arith, done)));
      }

  pub bearer-IsNamedBy :
      (authorization : Option String) (ctx : TenantContext)
      → verify_bearer_token codec authorization secret now ≡ ok ctx
      → IsNamedBy codec authorization secret now ctx
  unfolding verify_bearer_token
  bearer-IsNamedBy none ctx h = absurd (ground (arith, h))
  bearer-IsNamedBy (some header) ctx h = elim (Option-cases (remove_prefix "Bearer " header)) [
    | inl e ↦ absurd (ground (arith, (rw e at h)))
    | inr (token, e) ↦ jwt-IsNamedBy header token ctx e (rw e at h)
  ]
