-- ===== src/Worker/Plans/Tests.antt =====
-- Tests of the plan runner: an order that is placed, and stock that is counted.
use shelfwise.Prelude.{
  ℕ, ◌+◌, ◌≡◌, refl, ◌↔◌, String, true, false, none, some, List, [], ◌∷◌, text_key, pair_key,
  lookup, insert, set_default, All,
}
use shelfwise.Prelude.Results.{ok, err}
use shelfwise.Runtime.Provenance.{operational_twin, world_simulation, normalize_domain}
use shelfwise.Prelude.Text.{lower, strip}
use shelfwise.Worker.Journal.{StepKey, init, start_run, finish_run, get, put, Effect, journaled}
use shelfwise.Worker.Plans.{
  Capability, Registry, PlanStep, Plan, Problem, step_problems, capability_problems, validate_plan,
}
use shelfwise.Worker.Plans.Runner.{
  plan_run_id, done, PlanResult, Bench, run_step, run_steps, finish_plan, run,
}
use shelfwise.Worker.Plans.Validation.{IsGoverned, HasNewKeys, validate_plan_iff}
use shelfwise.Worker.Plans.Revalidation.{fidelity_revalidation_plan}
use shelfwise.Worker.Plans.Reruns.{second_run_repeats_nothing}

-- A handler returns a text and leaves its parameter in the world.
abbrev answers_with : String → String → Effect (List String) String
answers_with s p w = (ok s, p ∷ w)

abbrev place_order : Capability String String (List String)
place_order = record {
  name = "place_order";
  handler = answers_with "placed";
  exposed_to = "manager" ∷ [];
  writes = true;
}

abbrev count_stock : Capability String String (List String)
count_stock = record {
  name = "count_stock";
  handler = answers_with "counted";
  exposed_to = "manager" ∷ [];
  writes = false;
}

abbrev capabilities : Registry String String (List String)
capabilities = ("place_order", place_order) ∷ ("count_stock", count_stock) ∷ []

abbrev order_step : PlanStep String String
order_step = record {
  key = "s1";
  capability = "place_order";
  params = "12 milk";
  compensation = some "cancel";
}

abbrev count_step : PlanStep String String
count_step = record { key = "s2"; capability = "count_stock"; params = "milk"; compensation = none }

abbrev restock : Plan String String
restock = record {
  plan_id = "p1";
  tenant_id = "acme";
  data_domain = operational_twin;
  actor_role = "manager";
  steps = order_step ∷ count_step ∷ [];
}

abbrev bench : Bench String String (List String)
bench = record { journal = init; world = []; published = [] }

abbrev after_first : Bench String String (List String)
unfolding run validate_plan step_problems capability_problems plan_run_id start_run run_steps
    run_step journaled get put finish_plan finish_run lookup insert
after_first = elim (run restock capabilities "10:00" "10:01" "10:01" bench) [
  | ok r ↦ r.1
  | err e ↦ bench
]

abbrev outcome : PlanResult String
outcome = record {
  plan_id = "p1";
  status = done;
  outputs = ("s1", "placed") ∷ ("s2", "counted") ∷ [];
  failed_step = none;
}

world_test : after_first.world ≡ "milk" ∷ "12 milk" ∷ []
unfolding after_first normalize_domain lower strip set_default
world_test = refl

simulated_test :
    validate_plan (record restock { data_domain = world_simulation }) capabilities
    ≡ Problem.write_outside_domain "s1" ∷ []
unfolding validate_plan step_problems capability_problems lookup
simulated_test = refl

validate_plan_iff_example :
    (validate_plan restock capabilities ≡ [])
    ↔ (HasNewKeys [] restock.steps × All (IsGoverned restock capabilities) restock.steps)
validate_plan_iff_example = validate_plan_iff restock capabilities

second_run_repeats_nothing_example :
    (b'' : Bench String String (List String)) × (run restock capabilities "11:00" "11:01" "11:01"
        after_first
      ≡ ok (outcome, b''))
    × (b''.world ≡ after_first.world)
    × ((key : StepKey) → get key b''.journal ≡ get key after_first.journal)
unfolding run validate_plan step_problems capability_problems plan_run_id start_run run_steps
    run_step journaled get put finish_plan finish_run lookup insert after_first normalize_domain
    lower strip set_default
second_run_repeats_nothing_example =
    second_run_repeats_nothing restock capabilities "10:00" "10:01" "10:01" "11:00" "11:01" "11:01"
      bench after_first outcome refl refl

-- A handler that counts its runs.
abbrev recompute : Capability (String × String) ℕ ℕ
recompute = record {
  name = "recompute_twin_fidelity";
  handler = λ p runs. (ok runs, runs + 1);
  exposed_to = "scheduler" ∷ [];
  writes = false;
}

abbrev revalidate : String → Bench ℕ String ℕ → Bench ℕ String ℕ
unfolding run validate_plan step_problems capability_problems plan_run_id start_run run_steps
    run_step journaled get put finish_plan finish_run lookup insert
revalidate day b =
    elim (run (fidelity_revalidation_plan "acme" "s1") (("recompute_twin_fidelity", recompute) ∷ [])
      day day day b) [ ok r ↦ r.1 | err e ↦ b ]

-- On the second day the handler does not run.
second_day_test :
    (revalidate "tuesday"
      (revalidate "monday" (record { journal = init; world = 0; published = [] }))).world
    ≡ 1
unfolding revalidate normalize_domain lower strip set_default
second_day_test = refl
