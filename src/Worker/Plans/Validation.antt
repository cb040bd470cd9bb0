-- ===== src/Worker/Plans/Validation.antt =====
-- What `validate_plan` accepts.
use shelfwise.Prelude.{
  String, ◌≡◌, refl, ◌↔◌, inl, inr, Bool, true, false, some, List, [], ◌∷◌, ◌++◌, arith, text_key,
  is_some, Bool-cases, Option-cases, lookup, All,
}
use shelfwise.Worker.Plans.{
  Capability, Registry, is_in, PlanStep, Plan, Problem, is_operational, problem_if,
  capability_problems, step_problems, validate_plan,
}

module _ {P O C W : Type 0} (plan : Plan P C) (r : Registry P O W) where
  -- The step names a capability that the actor's role may use; if that writes, the step says how to
  -- undo it and the plan is one of the operational twin.
  abbrev pub IsGoverned : PlanStep P C → Type 0
  IsGoverned step =
      (c : Capability P O W) × (lookup step.capability r ≡ some c)
      × (is_in plan.actor_role c.exposed_to ≡ true)
      × (c.writes ≡ true
          → (is_some step.compensation ≡ true) × (is_operational plan.data_domain ≡ true))

-- No key stands twice, and none is among the seen ones.
abbrev pub HasNewKeys : {P C : Type 0} → List String → List (PlanStep P C) → Type 0
HasNewKeys seen [] = Unit
HasNewKeys seen (step ∷ steps) = (is_in step.key seen ≡ false) × HasNewKeys (step.key ∷ seen) steps

append-nil_iff : {A : Type 0} (xs ys : List A) → (xs ++ ys ≡ []) ↔ ((xs ≡ []) × (ys ≡ []))
append-nil_iff [] ys = (λ h. (refl, h), λ h. h.1)
append-nil_iff (x ∷ xs) ys = (λ h. absurd (ground arith), λ h. absurd (ground arith))

problem_if_iff : (b : Bool) (p : Problem) → (problem_if b p ≡ []) ↔ (b ≡ false)
problem_if_iff true p = (λ h. absurd (ground arith), λ h. absurd (ground arith))
problem_if_iff false p = (λ h. refl, λ h. refl)

module _ {P O C W : Type 0} (plan : Plan P C) (r : Registry P O W) where
  governed_has_none :
      (step : PlanStep P C)
      → IsGoverned plan r step
      → capability_problems plan step (lookup step.capability r) ≡ []
  unfolding capability_problems
  governed_has_none step (c, e, f, w) = elim (Bool-cases c.writes) [
    | inl t ↦ let (undo, twin) = w t in rw e (rw (f, t, undo, twin) refl)
    | inr n ↦ rw e (rw (f, n) refl)
  ]

  capability_problems_iff :
      (step : PlanStep P C)
      → (capability_problems plan step (lookup step.capability r) ≡ []) ↔ IsGoverned plan r step
  unfolding capability_problems
  capability_problems_iff step = elim (Option-cases (lookup step.capability r)) [
    | inl e ↦ (λ h. absurd (ground arith), λ h. absurd (ground (arith, h.1, e)))
    | inr (c, e) ↦ (
      λ h. (c, e, ground arith, λ w. (ground arith, ground arith)),
      λ g. governed_has_none step g,
    )
  ]

  step_problems_iff :
      (seen : List String) (steps : List (PlanStep P C))
      → (step_problems plan r seen steps ≡ [])
        ↔ (HasNewKeys seen steps × All (IsGoverned plan r) steps)
  unfolding step_problems
  step_problems_iff seen [] = (λ h. (tt, tt), λ h. refl)
  step_problems_iff seen (step ∷ steps) =
      let new = problem_if_iff (is_in step.key seen) (Problem.duplicate_key step.key) in
      let own = capability_problems_iff step in
      let rest = step_problems_iff (step.key ∷ seen) steps in
      let outer =
        append-nil_iff
          (problem_if (is_in step.key seen) (Problem.duplicate_key step.key)
            ++ capability_problems plan step (lookup step.capability r))
          (step_problems plan r (step.key ∷ seen) steps) in
      let inner =
        append-nil_iff (problem_if (is_in step.key seen) (Problem.duplicate_key step.key))
          (capability_problems plan step (lookup step.capability r)) in
      (
        λ h.
            let (first, last) = outer.0 h in
            let (keys, caps) = inner.0 first in
            let (more_keys, more_caps) = rest.0 last in
            ((new.0 keys, more_keys), (own.0 caps, more_caps)),
        λ h. outer.1 (inner.1 (new.1 h.0.0, own.1 h.1.0), rest.1 (h.0.1, h.1.1)),
      )

-- `validate_plan` finds no problem exactly when no step key stands twice and every step is governed:
-- it names a capability that is registered and exposed to the actor's role, and a capability that
-- writes stands with a compensation and in a plan of the operational twin only.
pub validate_plan_iff :
    {P O C W : Type 0} (plan : Plan P C) (r : Registry P O W)
    → (validate_plan plan r ≡ []) ↔ (HasNewKeys [] plan.steps × All (IsGoverned plan r) plan.steps)
unfolding validate_plan
validate_plan_iff plan r = step_problems_iff plan r [] plan.steps
