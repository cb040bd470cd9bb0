-- ===== src/Writeback/Tasks.antt =====
-- What becomes of a task that was created.
use shelfwise.Prelude.{
  String, ◌≡◌, refl, sym, subst, ap, ◌∙◌, ◌⊎◌, inl, inr, Bool, Bool-cases, Option-cases, Option,
  some, List, [], ◌∷◌, Key, ◌==◌, ==_iff, lookup, lookup-insert, arith, length,
}
use shelfwise.Prelude.Results.{Result, ok, err}
use shelfwise.Writeback.{
  TaskStatus, pending_external_write, completed, Task, TaskKey, task_key, Sink, TaskDraft, key_of,
  new_task, create_task, is_named, find_task, change_task, completed_with, complete_status,
  complete_task, has_receipt,
}

pub data Call (A R : Type 0) : Type 0 where
  create_call : TaskDraft A → String → Call A R
  complete_call : String → String → R → String → String → Call A R

module _ {A R : Type 0} where
  -- The task is as it was, or it was pending and was completed once.
  abbrev pub Evolves : Task A R → Task A R → Type 0
  Evolves t t' =
      (t' ≡ t)
      ⊎ ((t.status ≡ pending_external_write)
          × ((receipt : R) × (now : String) × (t' ≡ completed_with receipt now t)))

  Evolves-trans : (t u v : Task A R) → Evolves t u → Evolves u v → Evolves t v
  Evolves-trans t u v (inl same) q = subst (λ (x : Task A R). Evolves x v) same q
  Evolves-trans t u v (inr p) (inl same) = inr (p.0, (p.1.0, p.1.1, same ∙ p.1.2))
  Evolves-trans t u v (inr p) (inr q) =
      absurd (ground (arith, q.0, ap (λ (x : Task A R). x.status) p.1.2))

  -- The sink keeps the task under the key.
  abbrev pub Kept : TaskKey → Task A R → Sink A R → Type 0
  Kept key t s = (t' : Task A R) × (lookup key s ≡ some t') × Evolves t t'

  lookup-change_task :
      (test : Task A R → Bool) (change : Task A R → Task A R) (key : TaskKey) (s : Sink A R)
      (u : Task A R)
      → find_task test s ≡ some u
      → (lookup key (change_task test change s) ≡ lookup key s)
        ⊎ ((lookup key s ≡ some u) × (lookup key (change_task test change s) ≡ some (change u)))
  unfolding find_task change_task lookup
  lookup-change_task test change key [] u h = inl refl
  lookup-change_task test change key ((i, v) ∷ s) u h = elim (Bool-cases (test v)) [
    | inl hit ↦
        let same : v ≡ u = ground (arith, h, hit) in
        elim (Bool-cases (key == i)) [
          | inl e ↦ inr (rw e (ap some same), rw (hit, e) (ap (λ x. some (change x)) same))
          | inr e ↦ inl (rw (hit, e) refl)
        ]
    | inr miss ↦
        let later : find_task test s ≡ some u = ground (arith, h, miss) in
        elim (Bool-cases (key == i)) [
          | inl e ↦ inl (rw (miss, e) refl)
          | inr e ↦ elim (lookup-change_task test change key s u later) [
            | inl same ↦ inl (rw (miss, e) same)
            | inr (there, changed) ↦ inr (rw e there, rw (miss, e) changed)
          ]
        ]
  ]

  create_task-Kept :
      (d : TaskDraft A) (now : String) (key : TaskKey) (t : Task A R) (s : Sink A R)
      → lookup key s ≡ some t
      → lookup key (create_task d now s).1 ≡ some t
  unfolding create_task
  create_task-Kept d now key t s h = elim (Option-cases (lookup (key_of d) s)) [
    | inr (old, e) ↦ rw e h
    | inl e ↦ rw e (
        ground (
          arith,
          lookup-insert (key_of d) key (new_task d now (length s)) s,
          ==_iff key (key_of d),
          h,
          e,
        ))
  ]

module _ {A R : Type 0} ⦃k : Key R⦄ where
  -- The sink after a call; an exception leaves it as it was.
  abbrev pub sink_of : Sink A R → Result (Option (Task A R) × Sink A R) → Sink A R
  sink_of s (ok r) = r.1
  sink_of s (err e) = s

  unfoldable pub run : List (Call A R) → Sink A R → Sink A R
  run [] s = s
  run (create_call d now ∷ cs) s = run cs (create_task d now s).1
  run (complete_call id tenant receipt domain now ∷ cs) s =
      run cs (sink_of s (complete_task id tenant receipt domain now s))

  complete_status-Kept :
      (test : Task A R → Bool) (receipt : R) (now : String) (u : Task A R) (st : TaskStatus)
      (key : TaskKey) (t : Task A R) (s : Sink A R)
      → u.status ≡ st
      → find_task test s ≡ some u
      → lookup key s ≡ some t
      → Kept key t (sink_of s (complete_status test receipt now u st s))
  unfolding complete_status
  complete_status-Kept test receipt now u completed key t s st e h =
      elim (Bool-cases (has_receipt receipt u.completion_receipt)) [
        | inl same ↦ rw same (t, h, inl refl)
        | inr other ↦ rw other (t, h, inl refl)
      ]
  complete_status-Kept test receipt now u pending_external_write key t s st e h =
      elim (lookup-change_task test (completed_with receipt now) key s u e) [
        | inl same ↦ (t, same ∙ h, inl refl)
        | inr (there, changed) ↦
            let alike : u ≡ t = ground (arith, there, h) in
            (
              completed_with receipt now u,
              changed,
              inr (
                ap (λ (x : Task A R). x.status) (sym alike) ∙ st,
                (receipt, now, ap (completed_with receipt now) alike),
              ),
            )
      ]

  complete_task-Kept :
      (id tenant : String) (receipt : R) (domain now : String) (key : TaskKey) (t : Task A R)
      (s : Sink A R)
      → lookup key s ≡ some t
      → Kept key t (sink_of s (complete_task id tenant receipt domain now s))
  unfolding complete_task
  complete_task-Kept id tenant receipt domain now key t s h =
      let test = is_named id tenant domain in
      elim (Option-cases (find_task test s)) [
        | inl e ↦ rw e (t, h, inl refl)
        | inr (u, e) ↦ rw e (complete_status-Kept test receipt now u u.status key t s refl e h)
      ]

  run-Kept :
      (cs : List (Call A R)) (key : TaskKey) (t : Task A R) (s : Sink A R)
      → lookup key s ≡ some t
      → Kept key t (run cs s)
  unfolding run
  run-Kept [] key t s h = (t, h, inl refl)
  run-Kept (create_call d now ∷ cs) key t s h =
      run-Kept cs key t (create_task d now s).1 (create_task-Kept d now key t s h)
  run-Kept (complete_call id tenant receipt domain now ∷ cs) key t s h =
      let (mid, at_mid, first) = complete_task-Kept id tenant receipt domain now key t s h in
      let (last, at_last, rest) =
        run-Kept cs key mid (sink_of s (complete_task id tenant receipt domain now s)) at_mid in
      (last, at_last, Evolves-trans t mid last first rest)

  -- After any creations and completions, without a `clear`, a task that was created under a key is
  -- still there, as it was or completed once, by one receipt; and creating under its key again, with
  -- whatever title and action, answers with it and changes nothing.
  pub created_once :
      (cs : List (Call A R)) (d : TaskDraft A) (now : String) (t : Task A R) (s : Sink A R)
      → lookup (key_of d) s ≡ some t
      → (t' : Task A R) × Evolves t t' × (create_task d now (run cs s) ≡ (t', run cs s))
  unfolding create_task
  created_once cs d now t s h =
      let (t', there, evolved) = run-Kept cs (key_of d) t s h in (t', evolved, rw there refl)
