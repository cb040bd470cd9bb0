-- ===== src/Worker/Cascade/Redelivery.antt =====
-- The worker on an event whose steps the journal holds.
use shelfwise.Prelude.{◌≡◌, refl, inl, inr, none, some, text_key, pair_key, Option-cases}
use shelfwise.Prelude.Results.{ok}
use shelfwise.Bus.{Message, ack}
use shelfwise.Worker.Journal.{Journal, StepKey, finish_run, get}
use shelfwise.Worker.Journal.Steps.{journaled_seen, start_run-domain}
use shelfwise.Action.Store.{Decision, Store}
use shelfwise.Worker.Cascade.{
  Event, Output, Clock, Backend, Setup, event_run_id, persist_key, persist_decision, run_handler,
  store_decision, with_decision, handle, process_message,
}

module _ {E X R C W : Type 0} (setup : Setup E X R W) where
  -- The journal holds the output of the cascade and, where that proposes a decision, the step that
  -- stores it.
  pub record IsRecorded (event : Event X) (cascade : Output R) (j : Journal (Output R) C)
      : Type 0 where
    pub handled : get (event_run_id event, "cascade") j ≡ some cascade
    pub stored :
        (d : Decision)
        → cascade.decision ≡ some d
        → (o : Output R) × (get (event_run_id event, persist_key d) j ≡ some o)

  handle-IsRecorded :
      (event : Event X) (cascade : Output R) (c : Clock) (j : Journal (Output R) C) (ws : W × Store)
      → IsRecorded event cascade j
      → (o : Output R) × (j' : Journal (Output R) C) × (handle setup event c j ws ≡ (ok o, j', ws))
  unfolding handle persist_decision
  handle-IsRecorded event cascade c j ws h =
      let run_id = event_run_id event in
      let (j₁, started, same) =
        start_run-domain run_id event.tenant_id c.started event.data_domain j in
      let seen =
        journaled_seen (run_id, "cascade") none (run_handler setup event) j₁ ws cascade
          (rw (same (run_id, "cascade")) h.handled) in
      elim (Option-cases cascade.decision) [
        | inl e ↦ (
          cascade,
          finish_run run_id "done" c.finishing c.finished j₁,
          rw (started, seen, e) refl,
        )
        | inr (d, e) ↦
            let (o, known) = h.stored d e in
            let key : StepKey = (run_id, persist_key d) in
            let kept =
              journaled_seen key none (store_decision setup d c.stored) j₁ ws o
                (rw (same key) known) in
            (
              with_decision cascade o.decision,
              finish_run run_id "done" c.finishing c.finished j₁,
              rw (started, seen, e, kept) refl,
            )
      ]

  -- A message whose event has its steps in the journal, such as one that is delivered again after
  -- its acknowledgement was lost, is acknowledged without running the handler and without storing a
  -- decision: neither the handler's world nor the decisions change.
  pub redelivery_repeats_nothing :
      (m : Message E) (c : Clock) (b : Backend E R C W) (event : Event X) (cascade : Output R)
      → setup.parse_wire m.event ≡ ok event
      → IsRecorded event cascade b.journal
      → let b' = (process_message setup m c b).1 in
        (b'.world ≡ b.world)
        × (b'.decisions ≡ b.decisions)
        × (b'.bus ≡ ack m.stream m.message_id b.bus)
  unfolding process_message
  redelivery_repeats_nothing m c b event cascade parsed h =
      let (o, j', e) = handle-IsRecorded event cascade c b.journal (b.world, b.decisions) h in
      rw (parsed, e) (refl, refl, refl)
