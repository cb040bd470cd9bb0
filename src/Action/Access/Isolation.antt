-- ===== src/Action/Access/Isolation.antt =====
-- Which decisions a tenant can list and can act on.
use shelfwise.Prelude.{
  ◌≡◌, ◌≢◌, ◌↔◌, refl, inl, inr, String, true, Bool-cases, Option, some, List, [], ◌∷◌, text_key,
  ==_iff, keep_if, All, arith,
}
use shelfwise.Action.Store.{Decision, Store, all, get}
use shelfwise.Action.Access.{
  stamp, owned_by, of_domain, tenant_scoped_decisions, decision_belongs_to_other_tenant,
  reject_cross_tenant_decision_access,
}

-- The decision bears the tenant's own, non-empty stamp.
abbrev pub IsStamped : String → Decision → Type 0
IsStamped tenant d = (stamp d ≡ tenant) × (tenant ≢ "")

owned_by-IsStamped :
    (d : Decision) (tenant : String) → (owned_by d tenant ≡ true) ↔ IsStamped tenant d
unfolding owned_by
owned_by-IsStamped d tenant = (
  λ h. ground (arith, ==_iff (stamp d) tenant, ==_iff (stamp d) ""),
  λ h. ground (arith, ==_iff (stamp d) tenant, ==_iff (stamp d) ""),
)

All-owned :
    (tenant : String) (ds : List Decision)
    → All (IsStamped tenant) (keep_if (λ d. owned_by d tenant) ds)
All-owned tenant [] = tt
All-owned tenant (d ∷ ds) = ground (arith, All-owned tenant ds, (owned_by-IsStamped d tenant).0)

-- Under "jwt", every decision that a tenant is shown, in any domain, bears its stamp; and a tenant
-- may act on a decision that is there exactly where the decision bears its stamp, so one without a
-- stamp is shown to nobody and may be acted on by nobody.
pub tenants_are_isolated :
    (tenant : String) (domain : Option String) (s : Store)
    → All (IsStamped tenant) (tenant_scoped_decisions true tenant domain s)
      × ((id : String) (d : Decision)
          → get id s ≡ some d
          → (reject_cross_tenant_decision_access true id tenant s ≡ some tt) ↔ IsStamped tenant d)
unfolding tenant_scoped_decisions reject_cross_tenant_decision_access
    decision_belongs_to_other_tenant
tenants_are_isolated tenant domain s = (
  All-owned tenant (keep_if (of_domain domain) (all s)),
  λ id d h.
      let owned = owned_by-IsStamped d tenant in
      elim (Bool-cases (owned_by d tenant)) [
        | inl e ↦ rw (h, e) (λ k. owned.0 e, λ k. refl)
        | inr e ↦ rw (h, e) (λ k. ground (arith, k), λ k. ground (arith, owned.1 k, e))
      ],
)
