-- ===== src/Tokens/Sessions.antt =====
-- The sessions of src/shelfwise_backend/tenant.py: contexts of tenants and the tokens that carry
-- them. The environment's values are arguments.
pub mod Roundtrip
use shelfwise.Prelude.{
  ℕ, String, Bool, true, false, Option, none, some, eqb, leb, if◌then◌else◌, text_key, ◌==◌, ℤ, pos,
  negsuc,
}
use Prim.Native.Char.{code}
use shelfwise.Prelude.Text.{truthy, or_text, strip}
use shelfwise.Prelude.Results.{Result, ok, err, Error, raise_if, ◌>>=◌, ◌>>◌}
use shelfwise.Contracts.Json.{Json, Members, null, text, number, member, no_members, get}
use shelfwise.Tokens.{Codec, decode_hs256_claims, required_string, int_of}

pub data Role : Type 0 where
  owner executive manager inventory analyst auditor : Role

abbrev pub role_value : Role → String
role_value owner = "owner"
role_value executive = "executive"
role_value manager = "manager"
role_value inventory = "inventory"
role_value analyst = "analyst"
role_value auditor = "auditor"

-- `Role(value)`
unfoldable pub role_of : String → Result Role
role_of s =
    if s == "owner"
    then ok owner
    else if s == "executive"
    then ok executive
    else if s == "manager"
    then ok manager
    else if s == "inventory"
    then ok inventory
    else if s == "analyst"
    then ok analyst
    else if s == "auditor"
    then ok auditor
    else err Error.value_error

pub record TenantContext : Type 0 where
  pub tenant_id : String
  pub user_id : String
  pub role : Role
  pub session_version : Option ℤ
  pub password_change_required : Bool

-- `to_dict`, before the members that follow it.
abbrev pub to_dict : TenantContext → Members → Members
to_dict ctx rest =
    member "tenant_id" (text ctx.tenant_id)
      (member "user_id" (text ctx.user_id) (member "role" (text (role_value ctx.role)) rest))

abbrev pub version_claim : Option ℤ → Members → Members
version_claim none rest = rest
version_claim (some version) rest = member "session_version" (number version) rest

-- `token_claims`, before the members that follow it.
abbrev pub token_claims : TenantContext → Members → Members
token_claims ctx rest = to_dict ctx (version_claim ctx.session_version rest)

-- `os.getenv(a) or os.getenv(b) or "local"`
unfoldable pub default_tenant_context : String → String → TenantContext
default_tenant_context shelfwise_tenant_id tenant_id = record {
  tenant_id = or_text (strip (or_text shelfwise_tenant_id (or_text tenant_id "local"))) "local";
  user_id = "local";
  role = owner;
  session_version = none;
  password_change_required = false;
}

abbrev pub is_positive : ℤ → Bool
is_positive (pos n) = leb 1 n
is_positive (negsuc n) = false

-- What follows the prefix in the text, where it begins with it.
unfoldable pub remove_prefix : String → String → Option String
remove_prefix String.[] s = some s
remove_prefix (String.◌∷◌ c p) String.[] = none
remove_prefix (String.◌∷◌ c p) (String.◌∷◌ d s) =
    let rest = remove_prefix p s in if eqb (code c) (code d) then rest else none

module _ {B : Type 0} (codec : Codec B) where
  -- The session's version, of the payload's value.
  abbrev pub version_of : Option Json → Result (Option ℤ)
  version_of none = ok none
  version_of (some null) = ok none
  version_of (some raw) = do
    version ← int_of codec raw
    raise_if (if is_positive version then false else true)
    ok (some version)

  unfoldable pub tenant_context_from_jwt : String → String → ℕ → Result TenantContext
  tenant_context_from_jwt token secret now = do
    payload ← decode_hs256_claims codec token secret now
    tenant_id ← required_string payload "tenant_id"
    user_id ← required_string payload "user_id"
    value ← required_string payload "role"
    role ← role_of value
    session_version ← version_of (get "session_version" payload)
    ok (record {
      tenant_id = tenant_id;
      user_id = user_id;
      role = role;
      session_version = session_version;
      password_change_required = false;
    })

  abbrev pub verify_bearer : Option String → String → ℕ → Result TenantContext
  verify_bearer none secret now = err Error.value_error
  verify_bearer (some token) secret now = tenant_context_from_jwt (strip token) secret now

  unfoldable pub verify_bearer_token : Option String → String → ℕ → Result TenantContext
  verify_bearer_token none secret now = err Error.value_error
  verify_bearer_token (some authorization) secret now =
      verify_bearer (remove_prefix "Bearer " authorization) secret now
