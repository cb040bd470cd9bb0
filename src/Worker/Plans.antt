-- ===== src/Worker/Plans.antt =====
-- src/shelfwise_backend/worker/plans.py: the capability registry and validate_plan. Parameters,
-- outputs and compensations are any types; a handler returns or raises and may change a world beside
-- the journal. The lengths that the fields of a plan may have are checked by pydantic and are not
-- modelled.
mod Tests
pub mod Validation
pub mod Runner
pub mod Runs
pub mod Reruns
pub mod Revalidation
use shelfwise.Prelude.{
  ℕ, ◌+◌, String, Bool, true, false, not, ◌&&◌, Option, none, some, List, [], ◌∷◌, ◌++◌, map,
  length, text_key, pair_key, ◌==◌, if◌then◌else◌, is_some, Dict, lookup, insert, contains, keep_if,
}
use Prim.Native.String
use shelfwise.Prelude.Text.{text_leb}
use shelfwise.Prelude.Sort.{sort}
use shelfwise.Prelude.Results.{Result, ok, err, raise_if, ◌>>=◌, ◌>>◌}
use shelfwise.Runtime.Provenance.{DataDomain, operational_twin, value}
use shelfwise.Worker.Journal.{Journal, StepKey, start_run, finish_run, get, Effect, journaled}

-- `Capability`
pub record Capability (P O W : Type 0) : Type 0 where
  pub name : String
  pub handler : P → Effect W O
  pub exposed_to : List String
  pub writes : Bool

abbrev pub Registry : Type 0 → Type 0 → Type 0 → Type 0
Registry P O W = Dict String (Capability P O W)

-- `x in xs`
abbrev pub is_in : String → List String → Bool
is_in x [] = false
is_in x (y ∷ ys) = let rest = is_in x ys in if x == y then true else rest

module _ {P O W : Type 0} where
  -- `CapabilityRegistry.register`
  unfoldable pub register : Capability P O W → Registry P O W → Result (Registry P O W)
  register c r = do raise_if (contains c.name r); ok (insert c.name c r)

  -- `CapabilityRegistry.exposed_for`
  unfoldable pub exposed_for : String → Registry P O W → List String
  exposed_for role r = sort text_leb (map (λ e. e.0) (keep_if (λ e. is_in role e.1.exposed_to) r))

-- `PlanStep`
pub record PlanStep (P C : Type 0) : Type 0 where
  pub key : String
  pub capability : String
  pub params : P
  pub compensation : Option C

-- `Plan`
pub record Plan (P C : Type 0) : Type 0 where
  pub plan_id : String
  pub tenant_id : String
  pub data_domain : DataDomain
  pub actor_role : String
  pub steps : List (PlanStep P C)

-- The texts of `validate_plan`.
pub data Problem : Type 0 where
  duplicate_key unknown_capability write_without_compensation write_outside_domain :
      String → Problem
  not_exposed : String → String → Problem

-- `plan.data_domain is not DataDomain.OPERATIONAL_TWIN`
abbrev pub is_operational : DataDomain → Bool
is_operational operational_twin = true
is_operational _ = false

abbrev pub problem_if : Bool → Problem → List Problem
problem_if test p = if test then p ∷ [] else []

module _ {P O C W : Type 0} where
  -- What a step may get wrong with its capability.
  unfoldable pub capability_problems :
      Plan P C → PlanStep P C → Option (Capability P O W) → List Problem
  capability_problems plan step none = unknown_capability step.capability ∷ []
  capability_problems plan step (some c) =
      problem_if (not (is_in plan.actor_role c.exposed_to))
        (not_exposed plan.actor_role step.capability)
      ++ problem_if (c.writes && not (is_some step.compensation))
          (write_without_compensation step.key)
      ++ problem_if (c.writes && not (is_operational plan.data_domain))
          (write_outside_domain step.key)

  -- The loop of `validate_plan`, with the keys that were seen.
  unfoldable pub step_problems :
      Plan P C → Registry P O W → List String → List (PlanStep P C) → List Problem
  step_problems plan r seen [] = []
  step_problems plan r seen (step ∷ steps) =
      problem_if (is_in step.key seen) (duplicate_key step.key)
      ++ capability_problems plan step (lookup step.capability r)
      ++ step_problems plan r (step.key ∷ seen) steps

  unfoldable pub validate_plan : Plan P C → Registry P O W → List Problem
  validate_plan plan r = step_problems plan r [] plan.steps
