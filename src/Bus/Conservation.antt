-- ===== src/Bus/Conservation.antt =====
-- The accounts of every message over sequences of calls of the bus.
use shelfwise.Prelude.{ℕ, ◌+◌, ◌≤◌, ◌≡◌, refl, ◌∙◌, List, [], ◌∷◌, arith, length, nat_key, max}
use shelfwise.Bus.{publish, consume_one, ack, source_of, nack}
use shelfwise.Bus.Protocol.{
  World, Call, publish_call, consume_call, ack_call, nack_call, start, count, step, run, received,
}
use shelfwise.Bus.Accounts.{copies, answered, published, Accounted}
use shelfwise.Bus.Calls.{publish-Accounted, consume-Accounted, ack-Accounted, nack-Accounted}

module _ {E : Type 0} where
  step-Accounted :
      (w : World E) (c : Call E) → ((n : ℕ) → Accounted n w) → (n : ℕ) → Accounted n (step w c)
  step-Accounted w (publish_call tenant event) a n = publish-Accounted n w tenant event (a n)
  step-Accounted w (consume_call stream) a n = consume-Accounted n w stream (a n)
  step-Accounted w (ack_call stream m) a n = ack-Accounted n w stream m (a n)
  step-Accounted w (nack_call stream m) a n = nack-Accounted n w stream m (a m) (a n)

  run-Accounted :
      (w : World E) (cs : List (Call E))
      → ((n : ℕ) → Accounted n w)
      → (n : ℕ) → Accounted n (run w cs)
  unfolding run
  run-Accounted w [] a n = a n
  run-Accounted w (c ∷ cs) a n = run-Accounted (step w c) cs (step-Accounted w c a) n

  start-Accounted : (max_retries n : ℕ) → Accounted {E = E} n (start max_retries)
  unfolding source_of
  start-Accounted max_retries n = record {
    one_place = ground arith;
    counted = λ p. absurd (omega arith);
    waits = λ p. absurd (omega arith);
    held = λ p. absurd (omega arith);
    bounded = omega arith;
    dead = λ p. absurd (omega arith);
    unknown = λ p. refl;
    source = λ p. absurd (ground arith);
    positive = omega arith;
  }

  max_retries-step : (w : World E) (c : Call E) → (step w c).bus.max_retries ≡ w.bus.max_retries
  unfolding step publish consume_one received ack nack
  max_retries-step w (publish_call tenant event) = refl
  max_retries-step w (consume_call stream) = ground arith
  max_retries-step w (ack_call stream m) = ground arith
  max_retries-step w (nack_call stream m) = ground arith

  max_retries-run :
      (w : World E) (cs : List (Call E)) → (run w cs).bus.max_retries ≡ w.bus.max_retries
  unfolding run
  max_retries-run w [] = refl
  max_retries-run w (c ∷ cs) = max_retries-run (step w c) cs ∙ max_retries-step w c

  -- Whatever is published and whatever a consumer consumes, acknowledges and returns, in any order:
  -- every published message is in exactly one place (pending, with a consumer, acknowledged or
  -- dead-lettered) and no other id is in any; a message is handed out at most max(1, max_retries)
  -- times; and a dead-lettered message was handed out exactly that often.
  pub messages_accounted :
      (max_retries n : ℕ) (cs : List (Call E))
      → let w : World E = run (start max_retries) cs in
        (copies n w.bus.pending
            + count n w.taken
            + answered n w.bus.acked
            + copies n w.bus.dead_letter
          ≡ published n (length w.bus.messages))
        × (count n w.handed ≤ max 1 max_retries)
        × (1 ≤ copies n w.bus.dead_letter → count n w.handed ≡ max 1 max_retries)
  messages_accounted max_retries n cs =
      let a = run-Accounted (start max_retries) cs (start-Accounted max_retries) n in
      let cap = max_retries-run (start max_retries) cs in
      (a.one_place, omega (arith, a.bounded, cap), λ p. a.dead p ∙ cap)

  pub handed_published :
      (max_retries n : ℕ) (cs : List (Call E))
      → let w : World E = run (start max_retries) cs in
        published n (length w.bus.messages) ≡ 0 → count n w.handed ≡ 0
  handed_published max_retries n cs =
      (run-Accounted (start max_retries) cs (start-Accounted max_retries) n).unknown
