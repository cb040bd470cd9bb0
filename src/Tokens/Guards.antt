-- ===== src/Tokens/Guards.antt =====
-- The guards of requests in src/shelfwise_backend/deps.py. The environment, the request's headers
-- and cookie, and the store of accounts are arguments.
pub mod Naming
pub mod Admission
use shelfwise.Prelude.{
  ℕ, String, Bool, true, false, not, ◌&&◌, ◌||◌, Option, none, some, List, [], ◌∷◌, if◌then◌else◌,
  text_key, ◌==◌, ℤ, pos, negsuc, eqb,
}
use Prim.Native.String.{◌++◌}
use shelfwise.Prelude.Text.{truthy, strip, lower}
use shelfwise.Prelude.Results.{Result, ok, err, Error, value_error, ◌>>=◌}
use shelfwise.Gateway.Throttle.{rate_limit_identity}
use shelfwise.Tokens.{Codec, compare_digest}
use shelfwise.Tokens.Sessions.{
  Role, TenantContext, role_value, default_tenant_context, verify_bearer_token,
}

-- What the account store knows of an account.
pub record Account : Type 0 where
  pub active : Bool
  pub session_version : ℤ
  pub must_change_password : Bool

-- What a dependency does: it passes a value on, answers with a status, or raises.
pub data Guarded (A : Type 0) : Type 0 where
  pass : A → Guarded A
  status : ℕ → Guarded A
  raised : Error → Guarded A

pub record Request : Type 0 where
  pub path : String
  pub authorization : Option String
  pub cookie : Option String

-- What is read from the environment.
pub record Environment : Type 0 where
  pub app_env : String
  pub auth_mode : String
  pub tenant_auth_secret : String
  pub shelfwise_tenant_id : String
  pub tenant_id : String
  pub api_key : String
  pub worker_api_key : String

abbrev pub trimmed : String → String
trimmed s = lower (strip s)

unfoldable pub is_production_deployment : Environment → Bool
is_production_deployment env =
    let name = trimmed env.app_env in
    name == "production" || name == "prod" || name == "staging" || name == "stage"

-- `_auth_mode`
abbrev pub auth_mode_of : Environment → String
auth_mode_of env = trimmed env.auth_mode

abbrev pub full : Option String → Option String
full none = none
full (some s) = if truthy s then some s else none

abbrev pub as_bearer : Option String → Option String
as_bearer none = none
as_bearer (some token) = if truthy token then some ("Bearer " ++ token) else none

-- `_request_authorization`
unfoldable pub request_authorization : Request → Option String → Option String
request_authorization request authorization = elim (full authorization) [
  | some a ↦ some a
  | none ↦ elim (full request.authorization) [ some a ↦ some a | none ↦ as_bearer request.cookie ]
]

abbrev pub same_version : ℤ → ℤ → Bool
same_version (pos m) (pos n) = eqb m n
same_version (negsuc m) (negsuc n) = eqb m n
same_version _ _ = false

abbrev pub is_set : Option ℤ → Bool
is_set none = false
is_set (some version) = true

-- What `current_tenant_context` does with what it has verified.
abbrev pub respond : String → Result TenantContext → Guarded TenantContext
respond path (err value_error) = status 401
respond path (err e) = raised e
respond path (ok context) =
    if is_set context.session_version
      && not (path == "/auth/change-password")
      && context.password_change_required
    then status 403
    else pass context

abbrev pub has_role : Role → List Role → Bool
has_role r [] = false
has_role r (a ∷ rest) = role_value r == role_value a || has_role r rest

abbrev pub of_role : List Role → Guarded TenantContext → Guarded TenantContext
of_role allowed (pass ctx) = if has_role ctx.role allowed then pass ctx else status 403
of_role allowed answer = answer

abbrev pub or_unauthenticated : Result TenantContext → Guarded String
or_unauthenticated (ok context) = pass context.tenant_id
or_unauthenticated (err value_error) = pass "__unauthenticated__"
or_unauthenticated (err e) = raised e

-- The check of a session's version against its account.
abbrev pub checked : TenantContext → ℤ → Option Account → Result TenantContext
checked context version none = err value_error
checked context version (some account) =
    if account.active && same_version account.session_version version
    then ok (record context { password_change_required = account.must_change_password })
    else err value_error

abbrev pub current_session :
    (String → String → Option Account) → TenantContext → Option ℤ → Result TenantContext
current_session get_by_id context none = ok context
current_session get_by_id context (some version) =
    checked context version (get_by_id context.tenant_id context.user_id)

-- `f"tenant:{...}"`
abbrev pub of_tenant : Guarded String → Guarded String
of_tenant (pass tenant_id) = pass ("tenant:" ++ tenant_id)
of_tenant answer = answer

module _ {B : Type 0} (codec : Codec B) (get_by_id : String → String → Option Account)
    (env : Environment) (now : ℕ) where
  unfoldable pub verified_tenant_context : Option String → Result TenantContext
  verified_tenant_context authorization = do
    context ← verify_bearer_token codec authorization env.tenant_auth_secret now
    current_session get_by_id context context.session_version

  unfoldable pub current_tenant_context : Request → Option String → Guarded TenantContext
  current_tenant_context request authorization =
      if auth_mode_of env == "off"
      then pass (default_tenant_context env.shelfwise_tenant_id env.tenant_id)
      else if not (auth_mode_of env == "jwt")
      then status 500
      else respond request.path
          (verified_tenant_context (request_authorization request authorization))

  -- A route behind `require_role(*allowed)`.
  unfoldable pub require_role : List Role → Request → Option String → Guarded TenantContext
  require_role allowed request authorization =
      of_role allowed (current_tenant_context request authorization)

  -- `_tenant_id_from_request`
  unfoldable pub tenant_id_from_request : Request → Guarded String
  tenant_id_from_request request =
      if not (auth_mode_of env == "jwt")
      then pass (default_tenant_context env.shelfwise_tenant_id env.tenant_id).tenant_id
      else or_unauthenticated (verified_tenant_context (request_authorization request none))

  -- `_write_rate_limit_identity`, of the request's API key and host too
  unfoldable pub write_rate_limit_identity :
      Request → Option String → Option String → Guarded String
  write_rate_limit_identity request supplied host =
      if not (auth_mode_of env == "jwt")
      then pass (rate_limit_identity env.api_key supplied host)
      else of_tenant (tenant_id_from_request request)

abbrev pub is_text : Option String → String → Bool
is_text none s = false
is_text (some t) s = t == s

abbrev pub of_comparison : Result Bool → Guarded (Unit {0})
of_comparison (ok true) = pass tt
of_comparison (ok false) = status 401
of_comparison (err e) = raised e

module _ (env : Environment) where
  unfoldable pub write_path_guard : Option String → Guarded (Unit {0})
  write_path_guard x_api_key =
      if truthy env.api_key && not (is_text x_api_key env.api_key) then status 401 else pass tt

  abbrev pub compare_worker_key : Option String → Guarded (Unit {0})
  compare_worker_key none = status 401
  compare_worker_key (some key) =
      if truthy key then of_comparison (compare_digest key env.worker_api_key) else status 401

  unfoldable pub worker_internal_guard : Option String → Guarded (Unit {0})
  worker_internal_guard x_worker_key =
      if not (is_production_deployment env)
      then pass tt
      else if not (truthy env.worker_api_key)
      then status 503
      else compare_worker_key x_worker_key
