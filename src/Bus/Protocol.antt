-- ===== src/Bus/Protocol.antt =====
-- The protocol of a consumer, as `CascadeWorker.process_one` keeps it: it acknowledges or returns
-- only messages that it was handed and has not answered yet.
use shelfwise.Prelude.{
  ℕ, String, Bool, true, false, Option, none, some, List, [], ◌∷◌, nat_key, ◌==◌, if◌then◌else◌,
  ◌+◌,
}
use shelfwise.Bus.{Message, Bus, init, publish, consume_one, ack, nack}

-- How often a number stands in a list.
abbrev pub count : ℕ → List ℕ → ℕ
count n [] = 0
count n (m ∷ ms) = (if n == m then 1 else 0) + count n ms

abbrev pub drop_one : ℕ → List ℕ → List ℕ
drop_one n [] = []
drop_one n (m ∷ ms) = let rest = drop_one n ms in if n == m then ms else m ∷ rest

-- Whether the consumer holds the message.
abbrev pub holds : ℕ → List ℕ → Bool
holds n [] = false
holds n (m ∷ ms) = let later = holds n ms in if n == m then true else later

-- The bus, the messages that are being worked on, and all that was ever handed out.
pub record World (E : Type 0) : Type 0 where
  pub bus : Bus E
  pub taken : List ℕ
  pub handed : List ℕ

pub data Call (E : Type 0) : Type 0 where
  publish_call : String → E → Call E
  consume_call : Option String → Call E
  ack_call nack_call : String → ℕ → Call E

module _ {E : Type 0} where
  abbrev pub start : ℕ → World E
  start max_retries = record { bus = init max_retries; taken = []; handed = [] }

  unfoldable pub received : Option (Message E) × Bus E → World E → World E
  received (none, b) w = record w { bus = b }
  received (some m, b) w = record {
    bus = b;
    taken = m.message_id ∷ w.taken;
    handed = m.message_id ∷ w.handed;
  }

  -- The world after a call; the protocol makes no answer to a message that it does not hold.
  unfoldable pub step : World E → Call E → World E
  unfolding received
  step w (publish_call tenant event) = record w { bus = (publish tenant event w.bus).1 }
  step w (consume_call stream) = received (consume_one stream w.bus) w
  step w (ack_call stream n) =
      if holds n w.taken
      then record w { bus = ack stream n w.bus; taken = drop_one n w.taken }
      else w
  step w (nack_call stream n) =
      if holds n w.taken then record w { bus = (nack n w.bus).1; taken = drop_one n w.taken } else w

  unfoldable pub run : World E → List (Call E) → World E
  run w [] = w
  run w (c ∷ cs) = run (step w c) cs
