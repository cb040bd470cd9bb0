-- ===== src/Worker/Tests.antt =====
-- Tests of the worker's journal.
use shelfwise.Prelude.{String, ◌≡◌, refl, none, some, List, [], ◌∷◌, text_key, pair_key, lookup}
use shelfwise.Prelude.Table.{Table, dict_table}
use shelfwise.Prelude.Results.{ok, err, handler_error}
use shelfwise.Worker.Journal.{Journal, JournalRun, StepKey, Effect, init, get, journaled}
use shelfwise.Worker.Journal.Steps.{
  Call, finish_call, put_call, journaled_call, left_by, run, journaled_once,
}
use shelfwise.Worker.Journal.Compensations.{Entry}
use shelfwise.Worker.Journal.Postgres.{StepRow, pg_init}
use shelfwise.Worker.Journal.Postgres.Sessions.{Session, play, pg_play}
use shelfwise.Worker.Journal.Postgres.Agreement.{Agrees-init, SameOutcome, journals_agree}

-- A handler that leaves a mark in the world and returns the given text.
abbrev works : String → Effect (List String) String
works s w = (ok s, s ∷ w)

abbrev fails : Effect (List String) String
fails w = (err handler_error, w)

abbrev empty_journal : Journal String String
empty_journal = init

abbrev step : StepKey
step = ("run-1", "cascade")

abbrev calls : List (Call String String (List String))
calls =
    put_call step "other" none
    ∷ finish_call "run-1" "done" "10:00" "10:01"
    ∷ journaled_call ("run-2", "cascade") none fails
    ∷ []

journaled_once_example :
    let (j', w') =
      run (left_by (journaled step (some "undo") (works "order") empty_journal [])) calls in
    journaled step none (works "again") j' w' ≡ (ok "order", j', w')
unfolding journaled get lookup
journaled_once_example =
    journaled_once step (some "undo") none (works "order") (works "again") empty_journal [] "order"
      calls refl

abbrev entries : List (Entry String String)
entries =
    (("run-1", "order"), "po-1", some "cancel po-1")
    ∷ (("run-2", "order"), "po-2", some "cancel po-2")
    ∷ (("run-1", "notify"), "sent", none)
    ∷ (("run-1", "price"), "cut", some "restore price")
    ∷ []

abbrev runs_table : Table String JournalRun
runs_table = dict_table String JournalRun

abbrev steps_table : Table StepKey (StepRow String String)
steps_table = dict_table StepKey (StepRow String String)

abbrev session : Session String String (List String)
session = record {
  run_id = "run-1";
  tenant_id = "acme";
  data_domain = some "operational_twin";
  started = "10:00";
  calls =
      record { key = "cascade"; compensation = none; fn = works "order"; now = "10:01" }
      ∷ record { key = "notify"; compensation = none; fn = fails; now = "10:02" }
      ∷ [];
  status = "failed";
  finishing = "10:03";
  finished = "10:03";
}

journals_agree_example :
    SameOutcome runs_table steps_table
      (play session empty_journal [])
      (pg_play runs_table steps_table session (pg_init runs_table steps_table) [])
journals_agree_example =
    journals_agree runs_table steps_table session empty_journal (pg_init runs_table steps_table) []
      (Agrees-init runs_table steps_table)
