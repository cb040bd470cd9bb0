-- ===== src/Action/Access.antt =====
-- src/shelfwise_backend/decision_access.py, over the store of decisions. Whether `_auth_mode()` is
-- "jwt" is the argument `jwt`; the tenant of the caller's context is an argument. An HTTPException
-- is none.
pub mod Isolation
use shelfwise.Prelude.{
  String, Bool, true, false, not, ◌&&◌, Option, none, some, List, text_key, ◌==◌, if◌then◌else◌,
  or_else, lookup, keep_if,
}
use shelfwise.Prelude.Text.{truthy, or_text, strip}
use shelfwise.Action.Store.{Value, null, text, review, other, str, Decision, Store, all, get}

-- `bool(value)`
abbrev pub value_truthy : Value → Bool
value_truthy null = false
value_truthy (text s) = truthy s
value_truthy (review r s a) = true
value_truthy (other shown t) = t

-- `str(decision.get(key) or default)`
abbrev pub str_or : String → String → Decision → String
str_or key default d =
    let v = or_else (lookup key d) null in if value_truthy v then str v else default

-- The tenant that a decision is stamped with.
abbrev pub stamp : Decision → String
stamp d = strip (str_or "tenant_id" "" d)

-- `_owned_by`
unfoldable pub owned_by : Decision → String → Bool
owned_by d tenant = truthy (stamp d) && stamp d == tenant

-- `data_domain is None or str(item.get("data_domain") or "world_simulation") == data_domain`
abbrev pub of_domain : Option String → Decision → Bool
of_domain none d = true
of_domain (some domain) d = str_or "data_domain" "world_simulation" d == domain

unfoldable pub tenant_scoped_decisions : Bool → String → Option String → Store → List Decision
unfolding owned_by
tenant_scoped_decisions jwt tenant domain s =
    let decisions = keep_if (of_domain domain) (all s) in
    if jwt then keep_if (λ d. owned_by d tenant) decisions else decisions

unfoldable pub decision_belongs_to_other_tenant : Bool → Decision → String → Bool
unfolding owned_by
decision_belongs_to_other_tenant jwt d tenant = if jwt then not (owned_by d tenant) else false

abbrev other_tenants : Bool → String → Option Decision → Bool
unfolding decision_belongs_to_other_tenant
other_tenants jwt tenant none = false
other_tenants jwt tenant (some d) = decision_belongs_to_other_tenant jwt d tenant

-- None where the caller is told that there is no such decision.
unfoldable pub reject_cross_tenant_decision_access :
    Bool → String → String → Store → Option (Unit {0})
unfolding other_tenants
reject_cross_tenant_decision_access jwt id tenant s =
    if jwt && other_tenants jwt tenant (get id s) then none else some tt

-- `decision_tenant_id`
abbrev pub decision_tenant_id : Decision → String → String
decision_tenant_id d fallback = or_text (stamp d) fallback
