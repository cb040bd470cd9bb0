-- ===== src/Worker/Journal/Postgres.antt =====
-- src/shelfwise_backend/worker/journal.py: class PostgresJournal over two tables of the database,
-- and `journaled` with it. `cascade_steps.run_id` references `cascade_runs`, so the database refuses
-- a step of an unknown run. Row-level security is not modelled: sessions see the rows that they ask
-- for.
pub mod Sessions
pub mod Agreement
use shelfwise.Prelude.{
  ℕ, zero, suc, String, Bool, true, false, not, ◌&&◌, ◌||◌, Option, none, some, List, [], ◌∷◌, map,
  text_key, pair_key, ◌==◌, if◌then◌else◌, is_some, Dict, keep_if,
}
use shelfwise.Prelude.Text.{text_leb}
use shelfwise.Prelude.Sort.{sort}
use shelfwise.Prelude.Table.{Table, insert_or_nothing}
use shelfwise.Prelude.Results.{Result, ok, err, runtime_error, ◌>>=◌}
use shelfwise.Runtime.Provenance.{operational_twin, normalize_domain}
use shelfwise.Worker.Journal.{JournalRun, StepKey, Effect, selects, normalized_filter}

-- A row of `cascade_steps`.
pub record StepRow (O C : Type 0) : Type 0 where
  pub tenant_id : String
  pub output : O
  pub compensation : Option C
  pub recorded_at : String

abbrev pub tenant_of : Option JournalRun → String
tenant_of none = "default"
tenant_of (some run) = run.tenant_id

abbrev stamped : String → String → JournalRun → JournalRun
stamped status now run = record run { status = status; finished_at = some now }

abbrev take : {A : Type 0} → ℕ → List A → List A
take zero xs = []
take (suc n) [] = []
take (suc n) (x ∷ xs) = x ∷ take n xs

-- `order by started_at desc, run_id`
abbrev latest_first : JournalRun → JournalRun → Bool
latest_first a b =
    if a.started_at == b.started_at
    then text_leb a.run_id b.run_id
    else text_leb b.started_at a.started_at

module _ {O C : Type 0} (R : Table String JournalRun) (S : Table StepKey (StepRow O C)) where
  pub record PgJournal : Type 0 where
    pub runs : R.Rows
    pub steps : S.Rows

  abbrev pub pg_init : PgJournal
  pg_init = record { runs = R.no_rows; steps = S.no_rows }

  unfoldable pub pg_start_run :
      String → String → Option String → String → PgJournal → Result PgJournal
  pg_start_run run_id tenant_id data_domain now j = do
    resolved ← normalize_domain data_domain operational_twin
    ok (record j {
      runs =
          insert_or_nothing R run_id
            (record {
              run_id = run_id;
              tenant_id = tenant_id;
              data_domain = resolved;
              status = "running";
              started_at = now;
              finished_at = none;
            })
            j.runs;
    })

  -- `update cascade_runs set ... where run_id = %s`: no row, no change.
  finish_row : String → String → String → Option JournalRun → PgJournal → PgJournal
  finish_row run_id status now none j = j
  finish_row run_id status now (some run) j = record j {
    runs = R.write run_id (stamped status now run) j.runs;
  }

  unfoldable pub pg_finish_run : String → String → String → PgJournal → PgJournal
  unfolding finish_row
  pg_finish_run run_id status now j = finish_row run_id status now (R.find run_id j.runs) j

  abbrev pub output_of : Option (StepRow O C) → Option O
  output_of none = none
  output_of (some row) = some row.output

  unfoldable pub pg_get : StepKey → PgJournal → Option O
  pg_get key j = output_of (S.find key j.steps)

  unfoldable pub pg_put : StepKey → O → Option C → String → PgJournal → Result PgJournal
  pg_put key output compensation now j =
      if is_some (R.find key.0 j.runs)
      then ok (record j {
        steps =
            insert_or_nothing S key
              (record {
                tenant_id = tenant_of (R.find key.0 j.runs);
                output = output;
                compensation = compensation;
                recorded_at = now;
              })
              j.steps;
      })
      else err runtime_error

  -- The compensations among some rows.
  abbrev given_by : List (StepRow O C) → List C
  given_by [] = []
  given_by (row ∷ rows) = elim row.compensation [
    | none ↦ given_by rows
    | some c ↦ c ∷ given_by rows
  ]

  abbrev newest_first : StepRow O C → StepRow O C → Bool
  newest_first a b = text_leb b.recorded_at a.recorded_at

  unfoldable pub pg_compensations : String → PgJournal → List C
  pg_compensations run_id j =
      given_by
        (sort newest_first (map (λ e. e.1) (keep_if (λ e. e.0.0 == run_id) (S.scan j.steps))))

  unfoldable pub pg_list_runs : Option String → Option String → PgJournal → Result (List JournalRun)
  unfolding normalized_filter
  pg_list_runs tenant domain j = do
    wanted ← normalized_filter domain
    ok (
        take 200 (
          sort latest_first (
            keep_if (λ run. selects tenant run.tenant_id && selects wanted run.data_domain)
              (map (λ e. e.1) (R.scan j.runs)))))

  abbrev pub pg_clear : PgJournal → PgJournal
  pg_clear j = pg_init

module _ {O C W : Type 0} (R : Table String JournalRun) (S : Table StepKey (StepRow O C)) where
  store_output :
      StepKey → Option C → String → PgJournal R S → Result O × W → Result O × PgJournal R S × W
  store_output key c now j (err e, w) = (err e, j, w)
  store_output key c now j (ok output, w) = elim (pg_put R S key output c now j) [
    | ok j' ↦ (ok output, j', w)
    | err e ↦ (err e, j, w)
  ]

  pg_run_once :
      StepKey
      → Option C
      → String
      → Effect W O
      → PgJournal R S
      → W
      → Option O
      → Result O × PgJournal R S × W
  pg_run_once key c now fn j w (some seen) = (ok seen, j, w)
  pg_run_once key c now fn j w none = store_output key c now j (fn w)

  -- `journaled` with a PostgresJournal
  unfoldable pub pg_journaled :
      StepKey → Option C → String → Effect W O → PgJournal R S → W → Result O × PgJournal R S × W
  unfolding pg_run_once store_output
  pg_journaled key c now fn j w = pg_run_once key c now fn j w (pg_get R S key j)
