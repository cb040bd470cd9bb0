-- ===== src/Worker/Cascade.antt =====
-- src/shelfwise_backend/worker/worker.py, class CascadeWorker over the in-memory bus, journal and
-- decision store. The handler and the parsing of wire events (`Event.parse_wire`) are any
-- functions; what a handler does outside the three stores is its effect on a world. The calls that
-- first try other argument lists reach the same methods.
mod Tests
pub mod Delivery
pub mod Draining
pub mod Redelivery
use shelfwise.Prelude.{
  ℕ, String, Bool, true, false, Option, none, some, List, [], ◌∷◌, text_key, pair_key, ◌==◌,
  or_else, lookup,
}
use Prim.Native.String.{◌++◌}
use shelfwise.Prelude.Results.{Error, Result, ok, err, ◌>>=◌}
use shelfwise.Runtime.Provenance.{DataDomain, value}
use shelfwise.Bus.{Message, Bus, consume_one, ack, nack}
use shelfwise.Worker.Journal.{Journal, StepKey, start_run, finish_run, Effect, journaled}
use shelfwise.Action.Store.{Value, text, str, Decision, Store, upsert}

-- A parsed event: what the worker reads of it, and the rest.
pub record Event (X : Type 0) : Type 0 where
  pub tenant_id : String
  pub data_domain : DataDomain
  pub id : String
  pub rest : X

-- A journaled output: its entry "decision" where that is a dictionary, and the other entries.
pub record Output (R : Type 0) : Type 0 where
  pub decision : Option Decision
  pub entries : R

-- What the clock says when a run starts, a decision is stored, and a run finishes.
pub record Clock : Type 0 where
  pub started : String
  pub stored : String
  pub finishing : String
  pub finished : String

-- `_event_run_id`
unfoldable pub event_run_id : {X : Type 0} → Event X → String
event_run_id e = "event:" ++ e.tenant_id ++ ":" ++ value e.data_domain ++ ":" ++ e.id

-- `WorkerResult`, without the texts of exceptions.
pub data WorkerResult (R : Type 0) : Type 0 where
  idle : WorkerResult R
  done : ℕ → String → Output R → WorkerResult R
  failed : ℕ → Option String → Bool → WorkerResult R

-- The stores that a worker shares with the application, and the world of its handler.
pub record Backend (E R C W : Type 0) : Type 0 where
  pub bus : Bus E
  pub journal : Journal (Output R) C
  pub world : W
  pub decisions : Store

-- `f"decision_persist:{decision.get('id', 'unknown')}"`
unfoldable pub persist_key : Decision → String
persist_key d = "decision_persist:" ++ str (or_else (lookup "id" d) (text "unknown"))

-- What a worker is made with: `parse_wire`, the run id of an event that does not parse
-- (`event.get("id") or event.get("correlation_id")`), the handler, and a dictionary of no entries.
pub record Setup (E X R W : Type 0) : Type 0 where
  pub parse_wire : E → Result (Event X)
  pub fallback_id : E → Option String
  pub handler : Event X → Effect W (Output R)
  pub no_entries : R

-- What a part of the `try` block leaves: its result, the journal, and the handler's world with the
-- decisions.
abbrev pub Step : Type 0 → Type 0 → Type 0 → Type 0 → Type 0
Step R C W A = Result A × Journal (Output R) C × (W × Store)

abbrev pub decision_of : {R : Type 0} → Result (Output R) → Result (Option Decision)
decision_of (ok o) = ok o.decision
decision_of (err x) = err x

-- `{**cascade, "decision": persisted}`
abbrev pub with_decision : {R : Type 0} → Output R → Option Decision → Output R
with_decision cascade none = cascade
with_decision cascade (some d) = record cascade { decision = some d }

-- The end of the `try` block, before the acknowledgement.
abbrev pub after_persist :
    {R C W : Type 0}
    → String
    → Clock
    → Output R
    → Step R C W (Option Decision)
    → Step R C W (Output R)
after_persist run_id c cascade (err x, j, ws) = (err x, j, ws)
after_persist run_id c cascade (ok persisted, j, ws) =
    (ok (with_decision cascade persisted), finish_run run_id "done" c.finishing c.finished j, ws)

-- `if run_id: self._journal.finish_run(run_id, status="failed")`
abbrev pub finish_failed :
    {R C : Type 0} → Option String → Clock → Journal (Output R) C → Journal (Output R) C
finish_failed none c j = j
finish_failed (some run_id) c j = finish_run run_id "failed" c.finishing c.finished j

-- The `except` block.
unfoldable pub fail :
    {E R C W : Type 0}
    → Message E
    → Option String
    → Clock
    → Bus E
    → Journal (Output R) C
    → W × Store
    → WorkerResult R × Backend E R C W
fail m run_id c b j ws =
    let (dead_lettered, b') = nack m.message_id b in
    (
      failed m.message_id run_id dead_lettered,
      record { bus = b'; journal = finish_failed run_id c j; world = ws.0; decisions = ws.1 },
    )

abbrev pub answer_handled :
    {E X R C W : Type 0}
    → Message E
    → Event X
    → Clock
    → Bus E
    → Step R C W (Output R)
    → WorkerResult R × Backend E R C W
answer_handled m event c b (err x, j, ws) = fail m (some (event_run_id event)) c b j ws
answer_handled m event c b (ok cascade, j, ws) = (
  done m.message_id (event_run_id event) cascade,
  record { bus = ack m.stream m.message_id b; journal = j; world = ws.0; decisions = ws.1 },
)

module _ {E X R W : Type 0} (setup : Setup E X R W) where
  abbrev pub run_handler : Event X → Effect (W × Store) (Output R)
  run_handler event (w, s) = let (r, w') = setup.handler event w in (r, (w', s))

  abbrev pub stored_in : W → Store → Result (Decision × Store) → Result (Output R) × (W × Store)
  stored_in w s (ok (d, s')) =
      (ok (record { decision = some d; entries = setup.no_entries }), (w, s'))
  stored_in w s (err x) = (err x, (w, s))

  -- `lambda: {"decision": self._decision_store.upsert(decision)}`
  abbrev pub store_decision : Decision → String → Effect (W × Store) (Output R)
  store_decision d now (w, s) = stored_in w s (upsert d now s)

module _ {E X R C W : Type 0} (setup : Setup E X R W) where
  unfoldable pub persist_decision :
      String
      → Option Decision
      → String
      → Journal (Output R) C
      → W × Store
      → Step R C W (Option Decision)
  persist_decision run_id none now j ws = (ok none, j, ws)
  persist_decision run_id (some d) now j ws =
      let (r, j', ws') = journaled (run_id, persist_key d) none (store_decision setup d now) j ws in
      (decision_of r, j', ws')

  abbrev pub after_cascade : String → Clock → Step R C W (Output R) → Step R C W (Output R)
  after_cascade run_id c (err x, j, ws) = (err x, j, ws)
  after_cascade run_id c (ok cascade, j, ws) =
      after_persist run_id c cascade (persist_decision run_id cascade.decision c.stored j ws)

  abbrev pub after_start :
      Event X
      → Clock
      → Journal (Output R) C
      → W × Store
      → Result (Journal (Output R) C)
      → Step R C W (Output R)
  after_start event c j ws (err x) = (err x, j, ws)
  after_start event c j ws (ok j') =
      after_cascade (event_run_id event) c
        (journaled (event_run_id event, "cascade") none (run_handler setup event) j' ws)

  -- The `try` block from `start_run` on.
  unfoldable pub handle : Event X → Clock → Journal (Output R) C → W × Store → Step R C W (Output R)
  handle event c j ws =
      after_start event c j ws (
        start_run (event_run_id event) event.tenant_id (some (value event.data_domain)) c.started j)

  -- Where the message does not parse, which is a TypeError or a ValueError, `_run_id_from_message`
  -- takes the ids of its event.
  abbrev pub process_parsed :
      Message E → Clock → Backend E R C W → Result (Event X) → WorkerResult R × Backend E R C W
  process_parsed m c b (err x) =
      fail m (setup.fallback_id m.event) c b.bus b.journal (b.world, b.decisions)
  process_parsed m c b (ok event) =
      answer_handled m event c b.bus (handle event c b.journal (b.world, b.decisions))

  -- A message that was consumed; the bus is the one without it.
  unfoldable pub process_message :
      Message E → Clock → Backend E R C W → WorkerResult R × Backend E R C W
  process_message m c b = process_parsed m c b (setup.parse_wire m.event)

  process_consumed :
      Clock → Option (Message E) × Bus E → Backend E R C W → WorkerResult R × Backend E R C W
  process_consumed c (none, bus) b = (idle, record b { bus = bus })
  process_consumed c (some m, bus) b = process_message m c (record b { bus = bus })

  -- `process_one`
  unfoldable pub process_one :
      Option String → Clock → Backend E R C W → WorkerResult R × Backend E R C W
  unfolding process_consumed
  process_one stream c b = process_consumed c (consume_one stream b.bus) b
