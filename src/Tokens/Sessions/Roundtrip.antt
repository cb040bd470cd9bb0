-- ===== src/Tokens/Sessions/Roundtrip.antt =====
-- The sessions of src/shelfwise_backend/tenant.py, written and read again.
use shelfwise.Prelude.{
  ℕ, String, Bool, true, false, ◌≡◌, refl, Option, none, some, text_key, ltb, if◌then◌else◌, ℤ, pos,
  inl, inr, Bool-cases,
}
use shelfwise.Prelude.Text.{truthy, strip}
use shelfwise.Prelude.Results.{Result, ok, err, Error}
use shelfwise.Contracts.Json.{Members, number, member, no_members, get}
use shelfwise.Tokens.{Codec, encode_hs256_token, header_claims}
use shelfwise.Tokens.Parts.{IsBase64}
use shelfwise.Tokens.Signed.{IsReadBack, decode-encode}
use shelfwise.Tokens.Accounts.{required_string-read}
use shelfwise.Tokens.Sessions.{
  Role, TenantContext, role_value, role_of, token_claims, version_of, is_positive,
  tenant_context_from_jwt, owner, executive, manager, inventory, analyst, auditor,
}

role_of-value : (r : Role) → role_of (role_value r) ≡ ok r
unfolding role_of
role_of-value owner = refl
role_of-value executive = refl
role_of-value manager = refl
role_of-value inventory = refl
role_of-value analyst = refl
role_of-value auditor = refl

role-full : (r : Role) → truthy (strip (role_value r)) ≡ true
unfolding strip
role-full owner = refl
role-full executive = refl
role-full manager = refl
role-full inventory = refl
role-full analyst = refl
role-full auditor = refl

role-strip : (r : Role) → strip (role_value r) ≡ role_value r
unfolding strip
role-strip owner = refl
role-strip executive = refl
role-strip manager = refl
role-strip inventory = refl
role-strip analyst = refl
role-strip auditor = refl

-- There is no version, or a positive one.
abbrev pub IsVersion : Option ℤ → Type 0
IsVersion none = Unit
IsVersion (some version) = is_positive version ≡ true

-- The claims of a session that ends.
abbrev pub session_claims : TenantContext → ℕ → Members
session_claims ctx expires = token_claims ctx (member "exp" (number (pos expires)) no_members)

pub exp-claims :
    (ctx : TenantContext) (v : Option ℤ) (n : ℕ)
    → get "exp" (session_claims (record ctx { session_version = v }) n) ≡ some (number (pos n))
unfolding get
exp-claims ctx none n = refl
exp-claims ctx (some v) n = refl

version-claims :
    {B : Type 0} (codec : Codec B) (ctx : TenantContext) (v : Option ℤ) (n : ℕ)
    → IsVersion v
    → version_of codec
        (get "session_version" (session_claims (record ctx { session_version = v }) n))
      ≡ ok v
unfolding get
version-claims codec ctx none n h = refl
version-claims codec ctx (some v) n h = rw h refl

-- What a session's token says at a later time.
abbrev pub session_read : Bool → TenantContext → Result TenantContext
session_read expired ctx =
    if expired
    then err Error.value_error
    else ok (record ctx {
      tenant_id = strip ctx.tenant_id;
      user_id = strip ctx.user_id;
      password_change_required = false;
    })

-- The token of a session carries its tenant, its user, its role and its version, until the second it
-- expires in; no token carries that the password must be changed.
pub session-roundtrip :
    {B : Type 0} (codec : Codec B) (base64 : IsBase64 codec) (ctx : TenantContext) (secret : String)
    (expires now : ℕ)
    → IsReadBack codec header_claims
    → IsReadBack codec (session_claims ctx expires)
    → truthy secret ≡ true
    → truthy (strip ctx.tenant_id) ≡ true
    → truthy (strip ctx.user_id) ≡ true
    → IsVersion ctx.session_version
    → tenant_context_from_jwt codec
        (encode_hs256_token codec (session_claims ctx expires) secret)
        secret
        now
      ≡ session_read (ltb expires now) ctx
unfolding tenant_context_from_jwt get
session-roundtrip codec base64 ctx secret expires now h r present tenant user version =
    let claims = session_claims ctx expires in
    let exp = exp-claims ctx ctx.session_version expires in
    let kept = version-claims codec ctx ctx.session_version expires version in
    rw (decode-encode codec base64 claims secret now h r present, exp)
      (elim (Bool-cases (ltb expires now)) [
        | inl e ↦ rw e refl
        | inr e ↦
            rw
              (
                e,
                required_string-read claims r.back "tenant_id" ctx.tenant_id (r.same "tenant_id")
                    refl tenant,
                required_string-read claims r.back "user_id" ctx.user_id (r.same "user_id") refl
                    user,
                required_string-read claims r.back "role" (role_value ctx.role) (r.same "role") refl
                    (role-full ctx.role),
                role-strip ctx.role,
                role_of-value ctx.role,
                r.same "session_version",
                kept,
              )
              refl
      ])
