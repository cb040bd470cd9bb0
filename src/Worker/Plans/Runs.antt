-- ===== src/Worker/Plans/Runs.antt =====
-- Runs of a plan, and a second run of it.
use shelfwise.Prelude.{
  ℕ, ◌+◌, String, ◌≡◌, refl, sym, ap, ◌∙◌, inl, inr, true, false, none, some, List, [], ◌∷◌, length,
  arith, text_key, pair_key, ==_iff, Option-cases, Dict, lookup, insert,
}
use shelfwise.Prelude.Results.{Error, Result, Result-cases, ok, err}
use shelfwise.Runtime.Provenance.{value}
use shelfwise.Worker.Journal.{Journal, StepKey, start_run, get, journaled}
use shelfwise.Worker.Journal.Steps.{get-put, journaled_seen, journaled_cases, journaled_records}
use shelfwise.Worker.Plans.{Capability, Registry, PlanStep, Plan, Problem, validate_plan}
use shelfwise.Worker.Plans.Runner.{
  plan_run_id, Bench, run_step, Loop, run_steps, published_on, progress, finish_plan, refused, run,
}

module _ {P O C W : Type 0} where
  -- `_run_step` is a journaled call of the handler.
  pub run_step_is_journaled :
      (run_id : String) (step : PlanStep P C) (c : Capability P O W) (j : Journal O C) (w : W)
      → run_step run_id step c j w
        ≡ journaled (run_id, step.key) step.compensation (c.handler step.params) j w
  unfolding run_step journaled
  run_step_is_journaled run_id step c j w = elim (Option-cases (get (run_id, step.key) j)) [
    | inr (o, e) ↦ rw e refl
    | inl e ↦ elim (Result-cases (c.handler step.params w).0) [
      | inl (o, r) ↦ ground (arith, e, r)
      | inr (x, r) ↦ ground (arith, e, r)
    ]
  ]

  run_step_keeps :
      (run_id : String) (step : PlanStep P C) (c : Capability P O W) (j : Journal O C) (w : W)
      (key : StepKey) (o : O)
      → get key j ≡ some o
      → get key (run_step run_id step c j w).1 ≡ some o
  run_step_keeps run_id step c j w key o h =
      rw (run_step_is_journaled run_id step c j w)
        (elim (journaled_cases (run_id, step.key) step.compensation (c.handler step.params) j w) [
          | inl same ↦ rw same h
          | inr (o', e, new) ↦ rw e (
              ground (
                arith,
                ==_iff key (run_id, step.key),
                get-put key (run_id, step.key) o' step.compensation j,
              ))
        ])

  module _ (run_id : String) (r : Registry P O W) (total i : ℕ) (step : PlanStep P C)
      (steps : List (PlanStep P C)) (outputs : Dict String O) (b : Bench O C W) where
    unknown_stops :
        lookup step.capability r ≡ none
        → run_steps run_id r total i (step ∷ steps) outputs b ≡ (some step.key, outputs, b)
    unfolding run_steps
    unknown_stops e = rw (run_steps, e) refl

    module _ (c : Capability P O W) (e : lookup step.capability r ≡ some c) where
      raised_stops :
          (x : Error)
          → (run_step run_id step c b.journal b.world).0 ≡ err x
          → run_steps run_id r total i (step ∷ steps) outputs b ≡ (
            some step.key,
            outputs,
            (let (y, j, w) = run_step run_id step c b.journal b.world in
                published_on b (progress step.key i total false) j w),
          )
      unfolding run_steps
      raised_stops x f = rw (run_steps, e, f) refl

      returned_goes_on :
          (o : O)
          → (run_step run_id step c b.journal b.world).0 ≡ ok o
          → run_steps run_id r total i (step ∷ steps) outputs b
            ≡ run_steps run_id r total (i + 1) steps (insert step.key o outputs) (
                let (y, j, w) = run_step run_id step c b.journal b.world in
                published_on b (progress step.key i total true) j w)
      unfolding run_steps
      returned_goes_on o f = rw (run_steps, e, f) refl

  run_steps_keeps :
      (run_id : String) (r : Registry P O W) (total i : ℕ) (steps : List (PlanStep P C))
      (outputs : Dict String O) (b : Bench O C W) (key : StepKey) (o : O)
      → get key b.journal ≡ some o
      → get key (run_steps run_id r total i steps outputs b).2.journal ≡ some o
  unfolding run_steps
  run_steps_keeps run_id r total i [] outputs b key o h = h
  run_steps_keeps run_id r total i (step ∷ steps) outputs b key o h =
      elim (Option-cases (lookup step.capability r)) [
        | inl e ↦ rw (unknown_stops run_id r total i step steps outputs b e) h
        | inr (c, e) ↦
            let (x, j, w) = run_step run_id step c b.journal b.world in
            let kept = run_step_keeps run_id step c b.journal b.world key o h in
            elim (Result-cases x) [
              | inr (y, f) ↦ rw (raised_stops run_id r total i step steps outputs b c e y f) kept
              | inl (out, f) ↦
                  rw (returned_goes_on run_id r total i step steps outputs b c e out f) (
                    run_steps_keeps run_id r total (i + 1) steps (insert step.key out outputs)
                      (published_on b (progress step.key i total true) j w) key o kept)
            ]
      ]

  -- The journal holds the output of every step, and the outputs added to `outputs` give `all`.
  pub Replays :
      String
      → Registry P O W
      → List (PlanStep P C)
      → Dict String O
      → Dict String O
      → Journal O C
      → Type 0
  Replays run_id r [] outputs all j = outputs ≡ all
  Replays run_id r (step ∷ steps) outputs all j =
      (c : Capability P O W) × (lookup step.capability r ≡ some c)
      × (o : O) × (get (run_id, step.key) j ≡ some o)
      × Replays run_id r steps (insert step.key o outputs) all j

  -- A run that went through left its outputs in the journal.
  pub run_steps-Replays :
      (run_id : String) (r : Registry P O W) (total i : ℕ) (steps : List (PlanStep P C))
      (outputs : Dict String O) (b : Bench O C W)
      → (run_steps run_id r total i steps outputs b).0 ≡ none
      → Replays run_id r steps outputs
          (run_steps run_id r total i steps outputs b).1
          (run_steps run_id r total i steps outputs b).2.journal
  unfolding run_steps Replays
  run_steps-Replays run_id r total i [] outputs b h = refl
  run_steps-Replays run_id r total i (step ∷ steps) outputs b h =
      elim (Option-cases (lookup step.capability r)) [
        | inl e ↦ absurd (
            ground (
              arith,
              h,
              ap (λ (l : Loop O C W). l.0) (unknown_stops run_id r total i step steps outputs b e),
            ))
        | inr (c, e) ↦
            let (x, j, w) = run_step run_id step c b.journal b.world in
            elim (Result-cases x) [
              | inr (y, f) ↦ absurd (
                  ground (
                    arith,
                    h,
                    ap (λ (l : Loop O C W). l.0)
                        (raised_stops run_id r total i step steps outputs b c e y f),
                  ))
              | inl (out, f) ↦
                  let b' = published_on b (progress step.key i total true) j w in
                  let more = returned_goes_on run_id r total i step steps outputs b c e out f in
                  let same = run_step_is_journaled run_id step c b.journal b.world in
                  let here : get (run_id, step.key) j ≡ some out = rw same (
                    journaled_records (run_id, step.key) step.compensation (c.handler step.params)
                      b.journal b.world out
                      (sym (ap (λ (x : Result O × Journal O C × W). x.0) same) ∙ f)) in
                  rw more (
                    c,
                    e,
                    out,
                    run_steps_keeps run_id r total (i + 1) steps (insert step.key out outputs) b'
                        (run_id, step.key) out here,
                    run_steps-Replays run_id r total (i + 1) steps (insert step.key out outputs) b'
                        (sym (ap (λ (l : Loop O C W). l.0) more) ∙ h),
                  )
            ]
      ]

  -- A journal that holds the outputs is replayed: no handler runs.
  pub Replays-run_steps :
      (run_id : String) (r : Registry P O W) (total i : ℕ) (steps : List (PlanStep P C))
      (outputs all : Dict String O) (b : Bench O C W)
      → Replays run_id r steps outputs all b.journal
      → let (key, outs, b') = run_steps run_id r total i steps outputs b in
        (key ≡ none) × (outs ≡ all) × (b'.world ≡ b.world) × (b'.journal ≡ b.journal)
  unfolding run_steps Replays
  Replays-run_steps run_id r total i [] outputs all b h = (refl, h, refl, refl)
  Replays-run_steps run_id r total i (step ∷ steps) outputs all b (c, e, o, known, rest) =
      let seen : run_step run_id step c b.journal b.world ≡ (ok o, b.journal, b.world) =
        run_step_is_journaled run_id step c b.journal b.world
        ∙ journaled_seen (run_id, step.key) step.compensation (c.handler step.params) b.journal
            b.world o known in
      rw
        (
          returned_goes_on run_id r total i step steps outputs b c e o
              (ap (λ (x : Result O × Journal O C × W). x.0) seen),
          seen,
        )
        (Replays-run_steps run_id r total (i + 1) steps (insert step.key o outputs) all
          (published_on b (progress step.key i total true) b.journal b.world) rest)

  pub Replays-same :
      (run_id : String) (r : Registry P O W) (steps : List (PlanStep P C))
      (outputs all : Dict String O) (j j' : Journal O C)
      → ((key : StepKey) → get key j' ≡ get key j)
      → Replays run_id r steps outputs all j
      → Replays run_id r steps outputs all j'
  unfolding Replays
  Replays-same run_id r [] outputs all j j' same h = h
  Replays-same run_id r (step ∷ steps) outputs all j j' same (c, e, o, known, rest) = (
    c,
    e,
    o,
    same (run_id, step.key) ∙ known,
    Replays-same run_id r steps (insert step.key o outputs) all j j' same rest,
  )

  pub run-valid :
      (plan : Plan P C) (r : Registry P O W) (s f g : String) (b : Bench O C W) (j : Journal O C)
      → validate_plan plan r ≡ []
      → start_run (plan_run_id plan) plan.tenant_id (some (value plan.data_domain)) s b.journal
        ≡ ok j
      → run plan r s f g b
        ≡ ok (
            finish_plan plan f g (
              run_steps
                (plan_run_id plan)
                r
                (length plan.steps)
                1
                plan.steps
                []
                (record b { journal = j })))
  unfolding run
  run-valid plan r s f g b j valid started = rw (valid, started) refl

  -- A plan that the validation refuses fails with its first problem: no handler runs, and the
  -- journal, the world and what was published stay as they are.
  pub refused_changes_nothing :
      (plan : Plan P C) (r : Registry P O W) (s f g : String) (b : Bench O C W) (problem : Problem)
      (problems : List Problem)
      → validate_plan plan r ≡ problem ∷ problems
      → run plan r s f g b ≡ ok (refused plan problem, b)
  unfolding run
  refused_changes_nothing plan r s f g b problem problems e = rw e refl
