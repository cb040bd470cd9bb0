-- ===== src/Worker/Cascade/Delivery.antt =====
-- The worker as a consumer of the bus.
use shelfwise.Prelude.{
  ℕ, ◌+◌, String, ◌≡◌, refl, sym, ap, ◌⊎◌, inl, inr, Option, some, List, [], ◌∷◌, ◌++◌, arith,
  nat_key, ==_refl, Option-cases, length,
}
use shelfwise.Prelude.Results.{Result-cases}
use shelfwise.Bus.{Message, Bus, init, publish, consume_one, ack, nack}
use shelfwise.Bus.Protocol.{
  World, Call, publish_call, consume_call, ack_call, nack_call, start, count, received, step, run,
}
use shelfwise.Bus.Accounts.{copies, answered, published}
use shelfwise.Bus.Conservation.{messages_accounted}
use shelfwise.Worker.Cascade.{Clock, Backend, Setup, fail, handle, process_message, process_one}

-- What happens to the backend between two looks at the bus: an event is published, or the worker
-- processes a message.
pub data Job (E : Type 0) : Type 0 where
  publish_job : String → E → Job E
  process_job : Option String → Clock → Job E

-- The world once the message is in hand.
abbrev pub in_hand : {E : Type 0} → World E → Message E → Bus E → World E
in_hand w m bus = record { bus = bus; taken = m.message_id ∷ []; handed = m.message_id ∷ w.handed }

pub run-append :
    {E : Type 0} (w : World E) (xs ys : List (Call E)) → run (run w xs) ys ≡ run w (xs ++ ys)
unfolding run
run-append w [] ys = refl
run-append w (x ∷ xs) ys = run-append (step w x) xs ys

module _ {E X R C W : Type 0} (setup : Setup E X R W) where
  abbrev pub after : Backend E R C W → Job E → Backend E R C W
  after b (publish_job tenant event) = record b { bus = (publish tenant event b.bus).1 }
  after b (process_job stream c) = (process_one setup stream c b).1

  unfoldable pub run_jobs : Backend E R C W → List (Job E) → Backend E R C W
  run_jobs b [] = b
  run_jobs b (j ∷ js) = run_jobs (after b j) js

  -- A consumed message is acknowledged or returned.
  pub process_message-answers :
      (m : Message E) (c : Clock) (b : Backend E R C W)
      → ((process_message setup m c b).1.bus ≡ ack m.stream m.message_id b.bus)
        ⊎ ((process_message setup m c b).1.bus ≡ (nack m.message_id b.bus).1)
  unfolding process_message fail
  process_message-answers m c b = elim (Result-cases (setup.parse_wire m.event)) [
    | inr (x, e) ↦ inr (rw e refl)
    | inl (event, e) ↦
        elim (Result-cases (handle setup event c b.journal (b.world, b.decisions)).0) [
          | inl (o, r) ↦ inl (rw (e, r) refl)
          | inr (x, r) ↦ inr (rw (e, r) refl)
        ]
  ]

  -- The calls of the consumer protocol that have the same effect on the bus, with nothing held
  -- before and after.
  unfoldable pub Follows : Backend E R C W → World E → Type 0
  Follows b w = (w.bus ≡ b.bus) × (w.taken ≡ [])

  pub received-some :
      (b : Backend E R C W) (w : World E) (stream : Option String) (m : Message E)
      → Follows b w
      → (consume_one stream b.bus).0 ≡ some m
      → received (consume_one stream w.bus) w ≡ in_hand w m (consume_one stream b.bus).1
  unfolding Follows received
  received-some b w stream m (same, free) e = rw (same, e, free) refl

  pub process_one-some :
      (b : Backend E R C W) (stream : Option String) (c : Clock) (m : Message E)
      → (consume_one stream b.bus).0 ≡ some m
      → process_one setup stream c b
        ≡ process_message setup m c (record b { bus = (consume_one stream b.bus).1 })
  unfolding process_one
  process_one-some b stream c m e = rw e refl

  process-Follows :
      (b : Backend E R C W) (w : World E) (stream : Option String) (c : Clock)
      → Follows b w
      → (cs : List (Call E)) × Follows (process_one setup stream c b).1 (run w cs)
  unfolding Follows process_one run step received
  process-Follows b w stream c (same, free) = elim (Option-cases (consume_one stream b.bus).0) [
    | inl e ↦ (consume_call stream ∷ [], (rw (same, e) refl, rw (same, e) free))
    | inr (m, e) ↦
        let held = received-some b w stream m (same, free) e in
        let one = process_one-some b stream c m e in
        elim (process_message-answers m c (record b { bus = (consume_one stream b.bus).1 })) [
          | inl acked ↦ (
            consume_call stream ∷ ack_call m.stream m.message_id ∷ [],
            rw (held, one) (rw (==_refl m.message_id) (sym acked, refl)),
          )
          | inr nacked ↦ (
            consume_call stream ∷ nack_call m.stream m.message_id ∷ [],
            rw (held, one) (rw (==_refl m.message_id) (sym nacked, refl)),
          )
        ]
  ]

  pub run_jobs-Follows :
      (b : Backend E R C W) (w : World E) (js : List (Job E))
      → Follows b w
      → (cs : List (Call E)) × Follows (run_jobs b js) (run w cs)
  unfolding run_jobs run step Follows
  run_jobs-Follows b w [] f = ([], f)
  run_jobs-Follows b w (publish_job tenant event ∷ js) (same, free) =
      let next =
        run_jobs-Follows (record b { bus = (publish tenant event b.bus).1 })
          (record w { bus = (publish tenant event w.bus).1 }) js (rw same refl, free) in
      (publish_call tenant event ∷ next.0, next.1)
  run_jobs-Follows b w (process_job stream c ∷ js) f =
      let (cs, g) = process-Follows b w stream c f in
      let next = run_jobs-Follows (process_one setup stream c b).1 (run w cs) js g in
      (cs ++ next.0, rw (← run-append w cs next.0) next.1)

  -- Whatever is published and however often the worker runs, with any handler that may return or
  -- raise and any streams: between two jobs every published message is in exactly one place, waiting
  -- in the bus, acknowledged, or in the dead-letter queue. A failed cascade never disappears.
  pub deliveries_accounted :
      (max_retries n : ℕ) (b : Backend E R C W) (js : List (Job E))
      → b.bus ≡ init max_retries
      → let bus = (run_jobs b js).bus in
        copies n bus.pending + answered n bus.acked + copies n bus.dead_letter
        ≡ published n (length bus.messages)
  unfolding Follows
  deliveries_accounted max_retries n b js fresh =
      let (cs, (same, free)) = run_jobs-Follows b (start max_retries) js (sym fresh, refl) in
      let all_there = (messages_accounted max_retries n cs).0 in
      rw (← same) (omega (arith, all_there, ap (count n) free))
