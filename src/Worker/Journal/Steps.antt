-- ===== src/Worker/Journal/Steps.antt =====
-- Journaled steps and the calls that come in between.
use shelfwise.Prelude.{
  String, ◌≡◌, ◌⊎◌, Option-cases, inl, inr, Option, none, some, List, [], ◌∷◌, arith, text_key,
  pair_key, ◌==◌, ==_iff, ==_refl, if◌then◌else◌, lookup, lookup-set_default, or_else,
}
use shelfwise.Prelude.Results.{Error, Result, Result-cases, ok, err}
use shelfwise.Runtime.Provenance.{DataDomain, value, operational_twin}
use shelfwise.Runtime.Provenance.Boundary.{normalize-value}
use shelfwise.Worker.Journal.{Journal, StepKey, start_run, finish_run, get, put, Effect, journaled}

module _ {O C : Type 0} where
  pub get-put :
      (key key' : StepKey) (o : O) (c : Option C) (j : Journal O C)
      → get key (put key' o c j)
        ≡ (if key == key' then some (or_else (get key' j) o) else get key j)
  unfolding get put
  get-put key key' o c j = lookup-set_default key' key o j.steps

  -- A run of a data domain can always be started, which changes no step.
  pub start_run-domain :
      (run_id tenant_id now : String) (d : DataDomain) (j : Journal O C)
      → (j' : Journal O C) × (start_run run_id tenant_id (some (value d)) now j ≡ ok j')
        × ((key : StepKey) → get key j' ≡ get key j)
  unfolding start_run get
  start_run-domain run_id tenant_id now d j =
      let fine = normalize-value d operational_twin in
      elim (Result-cases (start_run run_id tenant_id (some (value d)) now j)) [
        | inl (j', e) ↦ (j', e, λ key. ground (arith, e, fine))
        | inr (x, e) ↦ absurd (ground (arith, e, fine))
      ]

module _ {O C W : Type 0} where
  -- A step that a journal holds is returned as it is: the function is not run, and neither the
  -- journal nor the world changes.
  pub journaled_seen :
      (key : StepKey) (c : Option C) (fn : Effect W O) (j : Journal O C) (w : W) (seen : O)
      → get key j ≡ some seen
      → journaled key c fn j w ≡ (ok seen, j, w)
  unfolding journaled
  journaled_seen key c fn j w seen e = rw e

  -- A function that raises leaves the journal as it was, so the step can be tried again.
  pub journaled_raises :
      (key : StepKey) (c : Option C) (fn : Effect W O) (j : Journal O C) (w : W)
      → get key j ≡ none
      → (x : Error) → (fn w).0 ≡ err x
      → journaled key c fn j w ≡ (err x, j, (fn w).1)
  unfolding journaled
  journaled_raises key c fn j w e x h = ground arith

  -- A journaled call leaves the journal, or puts the step that was not there.
  pub journaled_cases :
      (key : StepKey) (c : Option C) (fn : Effect W O) (j : Journal O C) (w : W)
      → ((journaled key c fn j w).1 ≡ j)
        ⊎ ((o : O) × ((journaled key c fn j w).1 ≡ put key o c j) × (get key j ≡ none))
  unfolding journaled
  journaled_cases key c fn j w = elim (Option-cases (get key j)) [
    | inl e ↦ elim (Result-cases (fn w).0) [
      | inl (o, r) ↦ inr (o, ground (arith, e, r), e)
      | inr (x, r) ↦ inl (ground (arith, e, r))
    ]
    | inr (seen, e) ↦ inl (ground (arith, e))
  ]

  -- What a call returns is in the journal afterwards.
  pub journaled_records :
      (key : StepKey) (c : Option C) (fn : Effect W O) (j : Journal O C) (w : W) (o : O)
      → (journaled key c fn j w).0 ≡ ok o
      → get key (journaled key c fn j w).1 ≡ some o
  unfolding journaled get put
  journaled_records key c fn j w o h = elim (Option-cases (lookup key j.steps)) [
    | inl e ↦ ground (arith, e, ==_refl key, lookup-set_default key key o j.steps)
    | inr (seen, e) ↦ ground (arith, e)
  ]

-- One call of the journal but `clear`, with the function that a journaled call would run.
pub data Call (O C W : Type 0) : Type 0 where
  start_call : String → String → Option String → String → Call O C W
  finish_call : String → String → String → String → Call O C W
  put_call : StepKey → O → Option C → Call O C W
  journaled_call : StepKey → Option C → Effect W O → Call O C W

abbrev or_same : {J : Type 0} → Result J → J → J
or_same (ok j') j = j'
or_same (err e) j = j

module _ {O C W : Type 0} where
  -- The journal and the world that a journaled call leaves.
  abbrev pub left_by : Result O × Journal O C × W → Journal O C × W
  left_by (r, j, w) = (j, w)

  -- The journal and the world after a call.
  pub after : Journal O C × W → Call O C W → Journal O C × W
  after (j, w) (start_call run_id tenant domain now) =
      (or_same (start_run run_id tenant domain now j) j, w)
  after (j, w) (finish_call run_id status now later) = (finish_run run_id status now later j, w)
  after (j, w) (put_call key o c) = (put key o c j, w)
  after (j, w) (journaled_call key c fn) = left_by (journaled key c fn j w)

  pub run : Journal O C × W → List (Call O C W) → Journal O C × W
  run s [] = s
  run s (c ∷ cs) = run (after s c) cs

  after_keeps :
      (key : StepKey) (o : O) (j : Journal O C) (w : W) (c : Call O C W)
      → get key j ≡ some o
      → get key (after (j, w) c).0 ≡ some o
  unfolding after start_run finish_run get
  after_keeps key o j w (start_call run_id tenant domain now) h = ground arith
  after_keeps key o j w (finish_call run_id status now later) h = ground arith
  after_keeps key o j w (put_call key' o' c) h =
      ground (arith, ==_iff key key', get-put key key' o' c j)
  after_keeps key o j w (journaled_call key' c fn) h = elim (journaled_cases key' c fn j w) [
    | inl same ↦ rw same h
    | inr (o', e, new) ↦ rw e (ground (arith, ==_iff key key', get-put key key' o' c j))
  ]

  run_keeps :
      (key : StepKey) (o : O) (s : Journal O C × W) (cs : List (Call O C W))
      → get key s.0 ≡ some o
      → get key (run s cs).0 ≡ some o
  unfolding run
  run_keeps key o s [] h = h
  run_keeps key o s (c ∷ cs) h = run_keeps key o (after s c) cs (after_keeps key o s.0 s.1 c h)

  -- Once a journaled call of a step has returned an output, a later call of that step, after any
  -- calls of `start_run`, `finish_run`, `put` and `journaled` (not of `clear`, which forgets) and with
  -- any function, returns the same output, does not run its function, and changes neither the journal
  -- nor the world.
  pub journaled_once :
      (key : StepKey) (c c' : Option C) (fn fn' : Effect W O) (j : Journal O C) (w : W) (o : O)
      (cs : List (Call O C W))
      → (journaled key c fn j w).0 ≡ ok o
      → let (j', w') = run (left_by (journaled key c fn j w)) cs in
        journaled key c' fn' j' w' ≡ (ok o, j', w')
  journaled_once key c c' fn fn' j w o cs h =
      let (j', w') = run (left_by (journaled key c fn j w)) cs in
      journaled_seen key c' fn' j' w' o
        (run_keeps key o (left_by (journaled key c fn j w)) cs (journaled_records key c fn j w o h))
