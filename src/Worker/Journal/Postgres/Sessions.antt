-- ===== src/Worker/Journal/Postgres/Sessions.antt =====
-- The use that the workers make of a journal, over the in-memory and over the PostgreSQL journal.
use shelfwise.Prelude.{String, Option, List, [], ◌∷◌, text_key, pair_key}
use shelfwise.Prelude.Table.{Table}
use shelfwise.Prelude.Results.{Result, ok, ◌>>=◌}
use shelfwise.Worker.Journal.{
  JournalRun, StepKey, Journal, start_run, finish_run, Effect, journaled,
}
use shelfwise.Worker.Journal.Postgres.{
  StepRow, PgJournal, pg_start_run, pg_finish_run, pg_journaled,
}

-- A journaled call of a session: the step, the compensation, what it runs and the clock.
pub record StepCall (O C W : Type 0) : Type 0 where
  pub key : String
  pub compensation : Option C
  pub fn : Effect W O
  pub now : String

-- The use that the workers make of a journal: start a run, journal its steps, finish it.
pub record Session (O C W : Type 0) : Type 0 where
  pub run_id : String
  pub tenant_id : String
  pub data_domain : Option String
  pub started : String
  pub calls : List (StepCall O C W)
  pub status : String
  pub finishing : String
  pub finished : String

module _ {O C W : Type 0} where
  -- The journaled calls in order, with what each returned or raised.
  unfoldable pub call_all :
      String → List (StepCall O C W) → Journal O C → W → List (Result O) × Journal O C × W
  call_all run_id [] j w = ([], j, w)
  call_all run_id (c ∷ cs) j w =
      let (r, j', w') = journaled (run_id, c.key) c.compensation c.fn j w in
      let (rs, j'', w'') = call_all run_id cs j' w' in (r ∷ rs, j'', w'')

  abbrev pub finish_after :
      Session O C W → List (Result O) × Journal O C × W → List (Result O) × Journal O C × W
  finish_after s (rs, j, w) = (rs, finish_run s.run_id s.status s.finishing s.finished j, w)

  unfoldable pub play : Session O C W → Journal O C → W → Result (List (Result O) × Journal O C × W)
  unfolding call_all
  play s j w = do
    j' ← start_run s.run_id s.tenant_id s.data_domain s.started j
    ok (finish_after s (call_all s.run_id s.calls j' w))

module _ {O C W : Type 0} (R : Table String JournalRun) (S : Table StepKey (StepRow O C)) where
  unfoldable pub pg_call_all :
      String → List (StepCall O C W) → PgJournal R S → W → List (Result O) × PgJournal R S × W
  pg_call_all run_id [] j w = ([], j, w)
  pg_call_all run_id (c ∷ cs) j w =
      let (r, j', w') = pg_journaled R S (run_id, c.key) c.compensation c.now c.fn j w in
      let (rs, j'', w'') = pg_call_all run_id cs j' w' in (r ∷ rs, j'', w'')

  abbrev pub pg_finish_after :
      Session O C W → List (Result O) × PgJournal R S × W → List (Result O) × PgJournal R S × W
  pg_finish_after s (rs, j, w) = (rs, pg_finish_run R S s.run_id s.status s.finished j, w)

  unfoldable pub pg_play :
      Session O C W → PgJournal R S → W → Result (List (Result O) × PgJournal R S × W)
  unfolding pg_call_all
  pg_play s j w = do
    j' ← pg_start_run R S s.run_id s.tenant_id s.data_domain s.started j
    ok (pg_finish_after s (pg_call_all s.run_id s.calls j' w))
