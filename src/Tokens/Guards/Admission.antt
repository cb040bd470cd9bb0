-- ===== src/Tokens/Guards/Admission.antt =====
-- Who passes the guards of src/shelfwise_backend/deps.py.
use shelfwise.Prelude.{
  ℕ, String, true, false, ◌&&◌, ◌≡◌, refl, sym, ap, subst, ◌∙◌, Option, none, some, List, text_key,
  ◌==◌, ==_iff, ℤ, arith, ◌⊎◌, inl, inr, Bool-cases, Option-cases,
}
use shelfwise.Prelude.Results.{
  ok, err, Error, value_error, runtime_error, type_error, handler_error, database_error,
  Result-cases,
}
use shelfwise.Tokens.{Codec}
use shelfwise.Tokens.Sessions.{Role, TenantContext, verify_bearer_token}
use shelfwise.Tokens.Guards.{
  Account, Request, Environment, Guarded, pass, status, raised, request_authorization, auth_mode_of,
  has_role, of_role, same_version, current_session, verified_tenant_context, respond,
  current_tenant_context, require_role,
}
use shelfwise.Tokens.Guards.Naming.{IsNamedBy, bearer-IsNamedBy}

-- The session is of no account, or of an active one at the same version whose password need not be
-- changed, unless this is the request that changes it.
abbrev pub IsCurrent :
    (String → String → Option Account) → String → TenantContext → Option ℤ → Type 0
IsCurrent get_by_id path ctx none = Unit
IsCurrent get_by_id path ctx (some version) =
    (account : Account) × (get_by_id ctx.tenant_id ctx.user_id ≡ some account)
    × (account.active ≡ true)
    × (same_version account.session_version version ≡ true)
    × ((path ≡ "/auth/change-password") ⊎ (account.must_change_password ≡ false))

-- What the context says of whom it is for.
abbrev SamePerson : TenantContext → TenantContext → Type 0
SamePerson a b = (a.tenant_id ≡ b.tenant_id) × (a.user_id ≡ b.user_id) × (a.role ≡ b.role)

-- What an answer that passes was given.
respond-pass :
    (path : String) (base ctx : TenantContext) (v : ℤ)
    → base.session_version ≡ some v
    → respond path (ok base) ≡ pass ctx
    → (base ≡ ctx) × ((path ≡ "/auth/change-password") ⊎ (base.password_change_required ≡ false))
respond-pass path base ctx v e h = elim (Bool-cases (path == "/auth/change-password")) [
  | inl f ↦ (ground (arith, e, f, h), inl ((==_iff path "/auth/change-password").0 f))
  | inr f ↦ elim (Bool-cases base.password_change_required) [
    | inl k ↦ absurd (ground (arith, e, f, k, h))
    | inr k ↦ (ground (arith, e, f, k, h), inr k)
  ]
]

module _ (get_by_id : String → String → Option Account) (path : String) where
  -- What the version check and the answer leave of the session.
  respond-IsCurrent :
      (base ctx : TenantContext) (v : Option ℤ)
      → base.session_version ≡ v
      → respond path (current_session get_by_id base v) ≡ pass ctx
      → SamePerson base ctx × (ctx.session_version ≡ v) × IsCurrent get_by_id path ctx v
  respond-IsCurrent base ctx none e h =
      let same : base ≡ ctx = ground (arith, e, h) in
      (
        (ap (λ z. z.tenant_id) same, ap (λ z. z.user_id) same, ap (λ z. z.role) same),
        ap (λ z. z.session_version) (sym same) ∙ e,
        tt,
      )
  respond-IsCurrent base ctx (some v) e h =
      elim (Option-cases (get_by_id base.tenant_id base.user_id)) [
        | inl f ↦ absurd (ground (arith, (rw f at h)))
        | inr (account, f) ↦
            elim (Bool-cases (account.active && same_version account.session_version v)) [
              | inl k ↦
                  let context = record base {
                    password_change_required = account.must_change_password;
                  } in
                  let (same, free) = respond-pass path context ctx v e (rw (f, k) at h) in
                  let at : get_by_id ctx.tenant_id ctx.user_id ≡ some account =
                    ap (λ z. get_by_id z.tenant_id z.user_id) (sym same) ∙ f in
                  (
                    (ap (λ z. z.tenant_id) same, ap (λ z. z.user_id) same, ap (λ z. z.role) same),
                    ap (λ z. z.session_version) (sym same) ∙ e,
                    (account, at, ground (arith, k), ground (arith, k), free),
                  )
              | inr k ↦ absurd (ground (arith, (rw (f, k) at h)))
            ]
      ]

not_passed : (path : String) (e : Error) (ctx : TenantContext) → respond path (err e) ≡ pass ctx → ⊥
not_passed path value_error ctx h = ground (arith, h)
not_passed path runtime_error ctx h = ground (arith, h)
not_passed path type_error ctx h = ground (arith, h)
not_passed path handler_error ctx h = ground (arith, h)
not_passed path database_error ctx h = ground (arith, h)

of_role-pass :
    (allowed : List Role) (g : Guarded TenantContext) (ctx : TenantContext)
    → of_role allowed g ≡ pass ctx
    → (has_role ctx.role allowed ≡ true) × (g ≡ pass ctx)
of_role-pass allowed (pass x) ctx h = elim (Bool-cases (has_role x.role allowed)) [
  | inl e ↦
      let same : x ≡ ctx = ground (arith, (rw e at h)) in
      (ap (λ z. has_role z.role allowed) (sym same) ∙ e, ap pass same)
  | inr e ↦ absurd (ground (arith, (rw e at h)))
]
of_role-pass allowed (status n) ctx h = absurd (ground (arith, h))
of_role-pass allowed (raised e) ctx h = absurd (ground (arith, h))

module _ {B : Type 0} (codec : Codec B) (get_by_id : String → String → Option Account)
    (env : Environment) (now : ℕ) where
  -- What `require_role` lets through.
  pub record IsAdmitted (allowed : List Role) (request : Request) (authorization : Option String)
      (ctx : TenantContext) : Type 0 where
    pub named :
        IsNamedBy codec (request_authorization request authorization) env.tenant_auth_secret now ctx
    pub permitted : has_role ctx.role allowed ≡ true
    pub current : IsCurrent get_by_id request.path ctx ctx.session_version

  verified-IsAdmitted :
      (allowed : List Role) (request : Request) (authorization : Option String)
      (ctx : TenantContext)
      → has_role ctx.role allowed ≡ true
      → respond request.path (
          verified_tenant_context codec get_by_id env now
            (request_authorization request authorization))
        ≡ pass ctx
      → IsAdmitted allowed request authorization ctx
  unfolding verified_tenant_context
  verified-IsAdmitted allowed request authorization ctx permitted h =
      let sent = request_authorization request authorization in
      elim (Result-cases (verify_bearer_token codec sent env.tenant_auth_secret now)) [
        | inl (base, e) ↦
            let (person, version, current) =
              respond-IsCurrent get_by_id request.path base ctx base.session_version refl
                (rw e at h) in
            let n = bearer-IsNamedBy codec env.tenant_auth_secret now sent base e in
            record {
              named = record {
                header = n.header;
                token = n.token;
                claims = n.claims;
                sent = n.sent;
                bearer = n.bearer;
                authentic = n.authentic;
                tenant = n.tenant ∙ ap ok person.0;
                user = n.user ∙ ap ok person.1;
                role = n.role ∙ ap ok person.2;
              };
              permitted = permitted;
              current = subst (λ v. IsCurrent get_by_id request.path ctx v) (sym version) current;
            }
        | inr (error, e) ↦ absurd (not_passed request.path error ctx (rw e at h))
      ]

-- Where tokens are on, a request that passes `require_role` carries a signed token that has not
-- expired and names the tenant, the user and an allowed role; and if the token has a version, the
-- account is active at that version and has no password to change, but to change it.
pub require_role-IsAdmitted :
    {B : Type 0} (codec : Codec B) (get_by_id : String → String → Option Account)
    (env : Environment) (now : ℕ) (allowed : List Role) (request : Request)
    (authorization : Option String) (ctx : TenantContext)
    → auth_mode_of env ≡ "jwt"
    → require_role codec get_by_id env now allowed request authorization ≡ pass ctx
    → IsAdmitted codec get_by_id env now allowed request authorization ctx
unfolding require_role current_tenant_context
require_role-IsAdmitted codec get_by_id env now allowed request authorization ctx mode h =
    let (permitted, answer) =
      of_role-pass allowed
        (respond request.path (
          verified_tenant_context codec get_by_id env now
            (request_authorization request authorization)))
        ctx (rw mode at h) in
    verified-IsAdmitted codec get_by_id env now allowed request authorization ctx permitted answer
