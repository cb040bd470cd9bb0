-- ===== src/Runtime/Provenance/Boundary.antt =====
-- What passes the two checks of a data domain.
use shelfwise.Prelude.{
  String, ◌≡◌, refl, ◌⊎◌, ◌↔◌, subst, Bool-cases, inl, inr, true, Option, some, text_key, ◌==◌,
  ==→eq, arith,
}
use shelfwise.Prelude.Text.{strip, lower}
use shelfwise.Prelude.Results.{ok}
use shelfwise.Runtime.Provenance.{
  DataDomain, operational_twin, world_simulation, training_fixture, twin_scenario, value, is_domain,
  candidate, normalize_domain, require_training_domain,
}

-- Every accepted text is the value of a domain.
domain_of : (s : String) → is_domain s ≡ true → (d : DataDomain) × (s ≡ value d)
domain_of s h = elim (Bool-cases (s == value operational_twin)) [
  | inl e ↦ (operational_twin, ==→eq s _ e)
  | inr n₁ ↦ elim (Bool-cases (s == value world_simulation)) [
    | inl e ↦ (world_simulation, ==→eq s _ e)
    | inr n₂ ↦ elim (Bool-cases (s == value training_fixture)) [
      | inl e ↦ (training_fixture, ==→eq s _ e)
      | inr n₃ ↦ (twin_scenario, ==→eq s _ (ground arith))
    ]
  ]
]

pub normalize-value :
    (d default : DataDomain) → normalize_domain (some (value d)) default ≡ ok (value d)
unfolding normalize_domain strip lower
normalize-value operational_twin default = refl
normalize-value world_simulation default = refl
normalize-value training_fixture default = refl
normalize-value twin_scenario default = refl

accepted :
    (v : Option String) (default : DataDomain) (s : String)
    → normalize_domain v default ≡ ok s
    → (is_domain s ≡ true) × (candidate v default ≡ s)
unfolding normalize_domain
accepted v default s h = elim (Bool-cases (is_domain (candidate v default))) [
  | inl e ↦
      let same : candidate v default ≡ s = ground arith in
      (subst (λ t. is_domain t ≡ true) same e, same)
  | inr e ↦ absurd (ground arith)
]

-- A text that `normalize_domain` returns is the value of a domain, and a second pass returns it
-- again, whatever the default of that pass.
pub normalize_domain_stable :
    (v : Option String) (default again : DataDomain) (s : String)
    → normalize_domain v default ≡ ok s
    → (d : DataDomain) × (s ≡ value d) × (normalize_domain (some s) again ≡ ok s)
normalize_domain_stable v default again s h =
    let (d, e) = domain_of s (accepted v default s h).0 in (d, e, rw e (normalize-value d again))

-- `require_training_domain` returns exactly the texts that `normalize_domain` returns (by default a
-- training fixture) and that are world simulation or training fixture: state of the operational
-- twin and of twin scenarios never enters a training dataset.
pub require_training_domain_boundary :
    (v : Option String) (s : String)
    → (require_training_domain v ≡ ok s) ↔ (
        (normalize_domain v training_fixture ≡ ok s)
        × ((s ≡ value world_simulation) ⊎ (s ≡ value training_fixture)))
unfolding require_training_domain
require_training_domain_boundary v s = (
  λ h.
      ground
        (arith, text_key.same_iff s "world_simulation", text_key.same_iff s "training_fixture"),
  λ h.
      ground
        (arith, text_key.same_iff s "world_simulation", text_key.same_iff s "training_fixture"),
)
