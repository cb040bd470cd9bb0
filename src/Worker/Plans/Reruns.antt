-- ===== src/Worker/Plans/Reruns.antt =====
-- A plan that is run a second time.
use shelfwise.Prelude.{
  String, ◌≡◌, refl, sym, ap, ◌⊎◌, ◌∙◌, inl, inr, none, List, [], ◌∷◌, length, arith, text_key,
  pair_key, Option-cases,
}
use shelfwise.Prelude.Results.{ok}
use shelfwise.Worker.Journal.{Journal, StepKey, finish_run, get}
use shelfwise.Worker.Journal.Steps.{start_run-domain}
use shelfwise.Worker.Plans.{Registry, Plan, validate_plan}
use shelfwise.Worker.Plans.Runner.{
  plan_run_id, done, PlanResult, Bench, run_steps, finish_plan, run,
}
use shelfwise.Worker.Plans.Runs.{
  run_steps-Replays, Replays-run_steps, Replays-same, run-valid, refused_changes_nothing,
}

List-cases : {A : Type 0} (xs : List A) → (xs ≡ []) ⊎ ((x : A) × (ys : List A) × (xs ≡ x ∷ ys))
List-cases [] = inl refl
List-cases (x ∷ xs) = inr (x, xs, refl)

module _ {P O C W : Type 0} (plan : Plan P C) (r : Registry P O W) (s f g : String)
    (b : Bench O C W) where
  -- A run that ends with `done` was of a valid plan, and its loop went through.
  done_went_through :
      (res : PlanResult O) (b' : Bench O C W)
      → run plan r s f g b ≡ ok (res, b')
      → res.status ≡ done
      → (j : Journal O C) × (validate_plan plan r ≡ [])
        × (let l =
              run_steps
                (plan_run_id plan)
                r
                (length plan.steps)
                1
                plan.steps
                []
                (record b { journal = j }) in
            (l.0 ≡ none) × (finish_plan plan f g l ≡ (res, b')))
  unfolding finish_plan
  done_went_through res b' h e = elim (List-cases (validate_plan plan r)) [
    | inr (x, xs, bad) ↦ absurd (ground (arith, refused_changes_nothing plan r s f g b x xs bad))
    | inl fine ↦
        let (j, started, same) =
          start_run-domain (plan_run_id plan) plan.tenant_id s plan.data_domain b.journal in
        let went = run-valid plan r s f g b j fine started in
        let l =
          run_steps (plan_run_id plan) r (length plan.steps) 1 plan.steps []
            (record b { journal = j }) in
        let ended : finish_plan plan f g l ≡ (res, b') = ground (arith, went, h) in
        let through : l.0 ≡ none = elim (Option-cases l.0) [
          | inl n ↦ n
          | inr (key, k) ↦
              absurd
                (ground (arith, k, e, ap (λ (x : PlanResult O × Bench O C W). x.0.status) ended))
        ] in
        (j, fine, (through, ended))
  ]

module _ {P O C W : Type 0} (plan : Plan P C) (r : Registry P O W) (s f g s' f' g' : String) where
  -- A plan that has run to its end runs again without a handler: the second run has the same
  -- result, the world is as the first run left it, and so is the output of every step in the
  -- journal.
  pub second_run_repeats_nothing :
      (b b' : Bench O C W) (res : PlanResult O)
      → run plan r s f g b ≡ ok (res, b')
      → res.status ≡ done
      → (b'' : Bench O C W) × (run plan r s' f' g' b' ≡ ok (res, b''))
        × (b''.world ≡ b'.world)
        × ((key : StepKey) → get key b''.journal ≡ get key b'.journal)
  unfolding finish_plan finish_run get
  second_run_repeats_nothing b b' res h e =
      let id = plan_run_id plan in
      let (j, fine, (through, ended)) = done_went_through plan r s f g b res b' h e in
      let l = run_steps id r (length plan.steps) 1 plan.steps [] (record b { journal = j }) in
      let left =
        run_steps-Replays id r (length plan.steps) 1 plan.steps [] (record b { journal = j })
          through in
      let (j₂, started, same) = start_run-domain id plan.tenant_id s' plan.data_domain b'.journal in
      let stays : (key : StepKey) → get key j₂ ≡ get key l.2.journal = λ key.
        same key ∙ ap (λ (x : PlanResult O × Bench O C W). get key x.1.journal) (sym ended) in
      let again =
        Replays-run_steps id r (length plan.steps) 1 plan.steps [] l.1 (record b' { journal = j₂ })
          (Replays-same id r plan.steps [] l.1 l.2.journal j₂ stays left) in
      let l₂ = run_steps id r (length plan.steps) 1 plan.steps [] (record b' { journal = j₂ }) in
      let result : (finish_plan plan f' g' l₂).0 ≡ res =
        rw (again.0, again.1, through) refl ∙ ap (λ (x : PlanResult O × Bench O C W). x.0) ended in
      (
        (finish_plan plan f' g' l₂).1,
        run-valid plan r s' f' g' b' j₂ fine started
            ∙ ap (λ (x : PlanResult O). ok (x, (finish_plan plan f' g' l₂).1)) result,
        again.2,
        λ key. ap (λ (x : Journal O C). get key x) again.3 ∙ same key,
      )
