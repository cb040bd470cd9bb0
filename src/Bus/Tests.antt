-- ===== src/Bus/Tests.antt =====
-- Tests of the event bus.
use shelfwise.Prelude.{
  ◌+◌, ◌≤◌, String, ◌≡◌, refl, none, some, List, [], ◌∷◌, ◌≢◌, false, text_key, ◌==◌, arith, length,
  max,
}
use shelfwise.Prelude.Text.{strip}
use shelfwise.Bus.{Bus, init, stream_name, publish, ack, stats}
use shelfwise.Bus.Protocol.{
  World, Call, publish_call, consume_call, ack_call, nack_call, start, run, count,
}
use shelfwise.Bus.Accounts.{copies, answered, published}
use shelfwise.Bus.Conservation.{messages_accounted}
use shelfwise.Bus.Tenants.{stats_counts_foreign_acks}

-- The first event is acknowledged; the second is returned twice and dead-lettered.
abbrev calls : List (Call String)
calls =
    publish_call "acme" "sale"
    ∷ publish_call "acme" "scan"
    ∷ consume_call none
    ∷ ack_call (stream_name "acme") 1
    ∷ consume_call none
    ∷ nack_call (stream_name "acme") 2
    ∷ consume_call none
    ∷ nack_call (stream_name "acme") 2
    ∷ []

messages_accounted_example :
    let w : World String = run (start 2) calls in
    (copies 2 w.bus.pending + count 2 w.taken + answered 2 w.bus.acked + copies 2 w.bus.dead_letter
      ≡ published 2 (length w.bus.messages))
    × (count 2 w.handed ≤ max 1 2)
    × (1 ≤ copies 2 w.bus.dead_letter → count 2 w.handed ≡ max 1 2)
messages_accounted_example = messages_accounted 2 2 calls

abbrev empty_bus : Bus String
empty_bus = init 3

full : (s : String) → (s == "") ≡ false → s ≢ ""
full s h e = ground (arith, text_key.same_iff s "")

stats_counts_foreign_acks_example :
    let n = (publish "acme:eu" "sale" empty_bus).0 in
    let b' = ack (stream_name "acme:eu") n (publish "acme:eu" "sale" empty_bus).1 in
    ((stats (some "acme") b').acked_messages ≡ (stats (some "acme") empty_bus).acked_messages + 1)
    × ((stats (some "acme") b').messages_total ≡ (stats (some "acme") empty_bus).messages_total)
unfolding strip
stats_counts_foreign_acks_example =
    stats_counts_foreign_acks "acme" "eu" "sale" empty_bus (refl, full "acme" refl)
      (refl, full "acme:eu" refl)
