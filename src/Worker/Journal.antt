-- ===== src/Worker/Journal.antt =====
-- src/shelfwise_backend/worker/journal.py: class InMemoryJournal and `journaled`. Outputs and
-- compensations are any types; copies (`deepcopy`) of immutable values are the values. `_now()` is
-- the argument `now`, or `now` and `later` where a method reads the clock twice.
pub mod Steps
pub mod Compensations
pub mod Postgres
use shelfwise.Prelude.{
  ℕ, String, Bool, true, false, Option, none, some, List, [], ◌∷◌, ◌++◌, map, text_key, pair_key,
  ◌==◌, if◌then◌else◌, or_else, Dict, lookup, insert, set_default, keep_if,
}
use mathlib.Core.List.{reverse}
use shelfwise.Prelude.Text.{text_leb}
use shelfwise.Prelude.Sort.{sort}
use shelfwise.Prelude.Results.{Result, ok, err, ◌>>=◌}
use shelfwise.Runtime.Provenance.{operational_twin, value, normalize_domain}

-- `JournalRun`
pub record JournalRun : Type 0 where
  pub run_id : String
  pub tenant_id : String
  pub data_domain : String
  pub status : String
  pub started_at : String
  pub finished_at : Option String

-- `(run_id, step_key)`
abbrev pub StepKey : Type 0
StepKey = String × String

module _ (O C : Type 0) where
  -- The fields `_runs`, `_steps` and `_compensations`.
  pub record Journal : Type 0 where
    pub runs : Dict String JournalRun
    pub steps : Dict StepKey O
    pub compensations : Dict String (List C)

-- The run that `finish_run` stores: what is known of it is kept.
finished : String → String → String → String → Option JournalRun → JournalRun
finished run_id status now later none = record {
  run_id = run_id;
  tenant_id = "default";
  data_domain = value operational_twin;
  status = status;
  started_at = now;
  finished_at = some later;
}
finished run_id status now later (some existing) = record {
  run_id = run_id;
  tenant_id = existing.tenant_id;
  data_domain = existing.data_domain;
  status = status;
  started_at = existing.started_at;
  finished_at = some later;
}

-- `self._compensations.setdefault(run_id, []).append(item)`, unless it is None.
append_compensation : {C : Type 0} → String → Option C → Dict String (List C) → Dict String (List C)
append_compensation run_id none d = d
append_compensation run_id (some c) d = insert run_id (or_else (lookup run_id d) [] ++ c ∷ []) d

module _ {O C : Type 0} where
  abbrev pub init : Journal O C
  init = record { runs = []; steps = []; compensations = [] }

  -- `start_run`; a domain that does not normalise raises.
  unfoldable pub start_run :
      String → String → Option String → String → Journal O C → Result (Journal O C)
  start_run run_id tenant_id data_domain now j = do
    resolved ← normalize_domain data_domain operational_twin
    ok (record j {
      runs =
          set_default run_id
            (record {
              run_id = run_id;
              tenant_id = tenant_id;
              data_domain = resolved;
              status = "running";
              started_at = now;
              finished_at = none;
            })
            j.runs;
    })

  unfoldable pub finish_run : String → String → String → String → Journal O C → Journal O C
  unfolding finished
  finish_run run_id status now later j = record j {
    runs = insert run_id (finished run_id status now later (lookup run_id j.runs)) j.runs;
  }

  unfoldable pub get : StepKey → Journal O C → Option O
  get key j = lookup key j.steps

  unfoldable pub put : StepKey → O → Option C → Journal O C → Journal O C
  unfolding append_compensation
  put key output compensation j = record j {
    steps = set_default key output j.steps;
    compensations = append_compensation key.0 compensation j.compensations;
  }

  unfoldable pub compensations_of : String → Journal O C → List C
  compensations_of run_id j = reverse (or_else (lookup run_id j.compensations) [])

  abbrev pub clear : Journal O C → Journal O C
  clear j = init

-- `None` is no filter.
abbrev pub selects : Option String → String → Bool
selects none s = true
selects (some wanted) s = s == wanted

abbrev pub runs_of : Dict String JournalRun → List JournalRun
runs_of d = map (λ e. e.1) d

abbrev by_start : JournalRun → JournalRun → Bool
by_start a b = text_leb a.started_at b.started_at

-- The filter of `list_runs` by a domain, normalised first.
unfoldable pub normalized_filter : Option String → Result (Option String)
normalized_filter none = ok none
normalized_filter (some d) = do
  resolved ← normalize_domain (some d) operational_twin
  ok (some resolved)

unfoldable pub list_runs :
    {O C : Type 0} → Option String → Option String → Journal O C → Result (List JournalRun)
unfolding normalized_filter
list_runs tenant domain j = do
  wanted ← normalized_filter domain
  ok (
      sort by_start (
        keep_if (λ run. selects wanted run.data_domain)
          (keep_if (λ run. selects tenant run.tenant_id) (runs_of j.runs))))

-- What a journaled function does to the world `W` beside the journal: it returns or raises.
abbrev pub Effect : Type 0 → Type 0 → Type 0
Effect W O = W → Result O × W

module _ {O C W : Type 0} where
  record_output : StepKey → Option C → Journal O C → Result O × W → Result O × Journal O C × W
  record_output key compensation j (ok output, w) = (ok output, put key output compensation j, w)
  record_output key compensation j (err e, w) = (err e, j, w)

  run_once :
      StepKey → Option C → Effect W O → Journal O C → W → Option O → Result O × Journal O C × W
  run_once key compensation fn j w (some seen) = (ok seen, j, w)
  run_once key compensation fn j w none = record_output key compensation j (fn w)

  -- `journaled(journal, run_id, step_key, fn, compensation=...)`
  unfoldable pub journaled :
      StepKey → Option C → Effect W O → Journal O C → W → Result O × Journal O C × W
  unfolding run_once record_output
  journaled key compensation fn j w = run_once key compensation fn j w (get key j)
