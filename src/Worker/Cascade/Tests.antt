-- ===== src/Worker/Cascade/Tests.antt =====
-- Tests of the cascade worker.
use shelfwise.Prelude.{
  ℕ, ◌+◌, String, ◌≡◌, refl, none, some, List, [], ◌∷◌, arith, text_key, pair_key, lookup, length,
  map, subst, ◌==◌, if◌then◌else◌,
}
use shelfwise.Prelude.Results.{Result, ok, err, value_error}
use shelfwise.Runtime.Provenance.{operational_twin}
use shelfwise.Bus.{Message, init, publish, ack}
use shelfwise.Bus.Accounts.{copies, answered, published}
use shelfwise.Worker.Journal.{get}
use shelfwise.Action.Store.{text, Decision, str}
use shelfwise.Worker.Cascade.{
  Event, Output, Clock, Backend, Setup, event_run_id, persist_key, process_message,
}
use shelfwise.Worker.Cascade.Delivery.{
  Job, publish_job, process_job, run_jobs, deliveries_accounted,
}
use shelfwise.Worker.Cascade.Draining.{queue_drains}
use shelfwise.Worker.Cascade.Redelivery.{IsRecorded, redelivery_repeats_nothing}

abbrev event : Event String
event = record { tenant_id = "acme"; data_domain = operational_twin; id = "e-1"; rest = "sale" }

abbrev parse : String → Result (Event String)
parse s = if s == "sale" then ok event else err value_error

abbrev order : Decision
order = ("id", text "d-1") ∷ ("status", text "pending") ∷ []

abbrev cascade : Output ℕ
cascade = record { decision = some order; entries = 7 }

-- A handler that counts its runs and proposes an order.
abbrev setup : Setup String String ℕ ℕ
setup = record {
  parse_wire = parse;
  fallback_id = λ e. none;
  handler = λ e runs. (ok cascade, runs + 1);
  no_entries = 0;
}

abbrev clock : Clock
clock = record { started = "10:00"; stored = "10:01"; finishing = "10:02"; finished = "10:02" }

abbrev fresh : Backend String ℕ String ℕ
fresh = record {
  bus = init 2;
  journal = record { runs = []; steps = []; compensations = [] };
  world = 0;
  decisions = [];
}

abbrev jobs : List (Job String)
jobs =
    publish_job "acme" "sale"
    ∷ publish_job "acme" "noise"
    ∷ process_job none clock
    ∷ process_job none clock
    ∷ process_job none clock
    ∷ []

deliveries_accounted_example :
    let bus = (run_jobs setup fresh jobs).bus in
    copies 2 bus.pending + answered 2 bus.acked + copies 2 bus.dead_letter
    ≡ published 2 (length bus.messages)
deliveries_accounted_example = deliveries_accounted setup 2 2 fresh jobs refl

-- The run of the event, in a journal that holds both steps of it.
abbrev worked : Backend String ℕ String ℕ
worked = record fresh {
  journal = record {
    runs = [];
    steps =
        (("event:acme:operational_twin:e-1", "cascade"), cascade)
        ∷ (("event:acme:operational_twin:e-1", "decision_persist:d-1"), cascade)
        ∷ [];
    compensations = [];
  };
  world = 1;
}

abbrev message : Message String
message = record { message_id = 1; stream = "shelfwise:events:acme"; event = "sale" }

persisted :
    (d : Decision)
    → cascade.decision ≡ some d
    → (o : Output ℕ) × (get (event_run_id event, persist_key d) worked.journal ≡ some o)
unfolding get lookup event_run_id persist_key str
persisted d e =
    let same : order ≡ d = ground arith in
    (
      cascade,
      subst
          (λ (x : Decision). get (event_run_id event, persist_key x) worked.journal ≡ some cascade)
          same refl,
    )

worked-IsRecorded : IsRecorded setup event cascade worked.journal
unfolding get lookup event_run_id
worked-IsRecorded = record { handled = refl; stored = persisted }

redelivery_repeats_nothing_example :
    let b' = (process_message setup message clock worked).1 in
    (b'.world ≡ worked.world)
    × (b'.decisions ≡ worked.decisions)
    × (b'.bus ≡ ack message.stream message.message_id worked.bus)
redelivery_repeats_nothing_example =
    redelivery_repeats_nothing setup message clock worked event cascade refl worked-IsRecorded

abbrev publications : List (Job String)
publications = publish_job "acme" "sale" ∷ publish_job "acme" "noise" ∷ []

abbrev five_times : List Clock
five_times = clock ∷ clock ∷ clock ∷ clock ∷ clock ∷ []

two_messages : length (run_jobs setup fresh publications).bus.messages ≡ 2
unfolding run_jobs publish
two_messages = refl

queue_drains_example :
    let bus =
      (run_jobs setup
        (run_jobs setup fresh publications)
        (map (process_job none) five_times)).bus in
    (bus.pending ≡ [])
    × ((n : ℕ)
        → answered n bus.acked + copies n bus.dead_letter ≡ published n (length bus.messages))
queue_drains_example =
    queue_drains setup 2 fresh publications five_times refl (omega (arith, two_messages))
