-- ===== src/Worker/Plans/Runner.antt =====
-- src/shelfwise_backend/worker/plans.py: PlanRunner over the in-memory journal, and what it returns.
-- `publish` is a list of the progress that was published, so it does not raise.
use shelfwise.Prelude.{
  ℕ, ◌+◌, String, Bool, true, false, Option, none, some, List, [], ◌∷◌, ◌++◌, length, text_key,
  pair_key, Dict, lookup, insert,
}
use Prim.Native.String
use shelfwise.Prelude.Results.{Result, ok, err, ◌>>=◌}
use shelfwise.Runtime.Provenance.{value}
use shelfwise.Worker.Journal.{Journal, StepKey, start_run, finish_run, get, journaled}
use shelfwise.Worker.Plans.{Capability, Registry, PlanStep, Plan, Problem, validate_plan}

-- `_plan_run_id`
unfoldable pub plan_run_id : {P C : Type 0} → Plan P C → String
plan_run_id plan = String.◌++◌ "plan:" (
    String.◌++◌ plan.tenant_id
      (String.◌++◌ ":" (String.◌++◌ (value plan.data_domain) (String.◌++◌ ":" plan.plan_id))))

pub data Status : Type 0 where
  done failed : Status

-- `PlanResult.failed_step`: the first problem of the validation, or a step's key.
pub data Failure : Type 0 where
  validation : Problem → Failure
  at_step : String → Failure

pub record PlanResult (O : Type 0) : Type 0 where
  pub plan_id : String
  pub status : Status
  pub outputs : Dict String O
  pub failed_step : Option Failure

-- What `publish` is given of a step: its key, its number, the number of steps, and whether it went
-- well.
pub record Progress : Type 0 where
  pub step : String
  pub i : ℕ
  pub total : ℕ
  pub went_well : Bool

-- The journal, the world and what was published.
pub record Bench (O C W : Type 0) : Type 0 where
  pub journal : Journal O C
  pub world : W
  pub published : List Progress

module _ {O C W : Type 0} where
  -- `journaled(..., lambda: output, compensation=...)`; `_run_step` returns the handler's output.
  unfoldable pub keep_output :
      StepKey → Option C → Journal O C → Result O × W → Result O × Journal O C × W
  keep_output key compensation j (err x, w) = (err x, j, w)
  keep_output key compensation j (ok output, w) =
      let (r, j', w') = journaled key compensation (λ (v : W). (ok output, v)) j w in
      (ok output, j', w')

module _ {P O C W : Type 0} where
  unfoldable pub step_once :
      StepKey
      → PlanStep P C
      → Capability P O W
      → Journal O C
      → W
      → Option O
      → Result O × Journal O C × W
  step_once key step c j w (some seen) = (ok seen, j, w)
  step_once key step c j w none = keep_output key step.compensation j (c.handler step.params w)

  -- `_run_step`
  unfoldable pub run_step :
      String → PlanStep P C → Capability P O W → Journal O C → W → Result O × Journal O C × W
  unfolding step_once keep_output
  run_step run_id step c j w = step_once (run_id, step.key) step c j w (get (run_id, step.key) j)

abbrev pub progress : String → ℕ → ℕ → Bool → Progress
progress key i total went_well = record { step = key; i = i; total = total; went_well = went_well }

-- What the loop of `_run_bound` leaves: the key of the step that failed, the outputs, and the bench.
abbrev pub Loop : Type 0 → Type 0 → Type 0 → Type 0
Loop O C W = Option String × Dict String O × Bench O C W

module _ {O C W : Type 0} where
  -- The bench after a step, with its progress published.
  abbrev pub published_on : Bench O C W → Progress → Journal O C → W → Bench O C W
  published_on b p j w = record { journal = j; world = w; published = b.published ++ p ∷ [] }

module _ {P O C W : Type 0} where
  -- The loop of `_run_bound` from step number `i`.
  unfoldable pub run_steps :
      String
      → Registry P O W
      → ℕ
      → ℕ
      → List (PlanStep P C)
      → Dict String O
      → Bench O C W
      → Loop O C W
  run_steps run_id r total i [] outputs b = (none, outputs, b)
  run_steps run_id r total i (step ∷ steps) outputs b = elim (lookup step.capability r) [
    | none ↦ (some step.key, outputs, b)
    | some c ↦
        let (x, j, w) = run_step run_id step c b.journal b.world in
        elim x [
          | err e ↦ (some step.key, outputs, published_on b (progress step.key i total false) j w)
          | ok o ↦
              run_steps run_id r total (i + 1) steps (insert step.key o outputs)
                (published_on b (progress step.key i total true) j w)
        ]
  ]

abbrev pub status_of : Option String → Status
status_of none = done
status_of (some key) = failed

abbrev pub status_text : Status → String
status_text done = "done"
status_text failed = "failed"

abbrev pub failure_of : Option String → Option Failure
failure_of none = none
failure_of (some key) = some (at_step key)

-- The result of a plan that the validation refuses.
abbrev pub refused : {P C O : Type 0} → Plan P C → Problem → PlanResult O
refused plan problem = record {
  plan_id = plan.plan_id;
  status = failed;
  outputs = [];
  failed_step = some (validation problem);
}

module _ {P O C W : Type 0} where
  -- The end of `_run_bound`; the clock shows `finishing` and `finished`.
  unfoldable pub finish_plan : Plan P C → String → String → Loop O C W → PlanResult O × Bench O C W
  finish_plan plan finishing finished (key, outputs, b) = (
    record {
      plan_id = plan.plan_id;
      status = status_of key;
      outputs = outputs;
      failed_step = failure_of key;
    },
    record b {
      journal =
          finish_run (plan_run_id plan) (status_text (status_of key)) finishing finished b.journal;
    },
  )

  unfoldable pub run_valid :
      Plan P C
      → Registry P O W
      → String
      → String
      → String
      → Bench O C W
      → Result (PlanResult O × Bench O C W)
  run_valid plan r started finishing finished b = do
    j ←
        start_run (plan_run_id plan) plan.tenant_id (some (value plan.data_domain)) started
          b.journal
    ok (
        finish_plan plan finishing finished (
          run_steps (plan_run_id plan) r (length plan.steps) 1 plan.steps []
            (record b { journal = j })))

  unfoldable pub run_validated :
      List Problem
      → Plan P C
      → Registry P O W
      → String
      → String
      → String
      → Bench O C W
      → Result (PlanResult O × Bench O C W)
  unfolding run_valid
  run_validated (problem ∷ problems) plan r started finishing finished b =
      ok (refused plan problem, b)
  run_validated [] plan r started finishing finished b =
      run_valid plan r started finishing finished b

  -- `PlanRunner.run`
  unfoldable pub run :
      Plan P C
      → Registry P O W
      → String
      → String
      → String
      → Bench O C W
      → Result (PlanResult O × Bench O C W)
  unfolding run_validated
  run plan r started finishing finished b =
      run_validated (validate_plan plan r) plan r started finishing finished b
