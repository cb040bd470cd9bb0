-- ===== src/Bus/Calls.antt =====
-- The accounts of a message, call by call.
use shelfwise.Prelude.{
  ℕ, ◌+◌, String, ◌≡◌, true, Option, some, [], ◌∷◌, arith, length, length-append, nat_key, leb,
  Option-cases, Bool-cases, inl, inr, lookup, lookup-insert, lookup-remove, or_else,
}
use shelfwise.Bus.{Message, publish, take_first, consume_one, ack, source_of, nack, next_message}
use shelfwise.Bus.Protocol.{
  World, publish_call, consume_call, ack_call, nack_call, count, holds, step, received,
}
use shelfwise.Bus.Accounts.{
  copies, Accounted, copies-append, copies-take_first, id_source_of, source_of-append, published-le,
  count-drop_one, count-holds, answered-append,
}

module _ {E : Type 0} (n : ℕ) (w : World E) where
  pub publish-Accounted :
      (tenant : String) (event : E)
      → Accounted n w
      → Accounted n (step w (publish_call tenant event))
  unfolding step publish
  publish-Accounted tenant event a =
      let m = next_message tenant event w.bus in
      let more = copies-append n w.bus.pending m in
      let longer = length-append w.bus.messages (m ∷ []) in
      record {
        one_place = ground (arith, a.one_place, more, longer);
        counted = λ p. ground (
          arith,
          p,
          a.one_place,
          a.counted,
          a.unknown,
          more,
          lookup-insert m.message_id n 0 w.bus.delivery_counts,
        );
        waits = λ p. ground (arith, p, a.one_place, a.waits, a.unknown, a.positive, more);
        held = a.held;
        bounded = a.bounded;
        dead = a.dead;
        unknown = λ p. ground (arith, p, a.unknown, longer);
        source = λ p. elim (Option-cases (source_of n w.bus.messages)) [
          | inl e ↦ (
            m,
            ground (arith, p, e, a.source, longer, source_of-append n w.bus.messages m),
            ground (arith, p, e, a.source, longer),
          )
          | inr (old, e) ↦ (
            old,
            ground (arith, e, source_of-append n w.bus.messages m),
            id_source_of n w.bus.messages old e,
          )
        ];
        positive = a.positive;
      }

  pub consume-Accounted :
      (stream : Option String) → Accounted n w → Accounted n (step w (consume_call stream))
  unfolding step consume_one received
  consume-Accounted stream a = elim (Option-cases (take_first stream w.bus.pending)) [
    | inl e ↦ rw e a
    | inr ((m, rest), e) ↦
        let fewer = copies-take_first n stream w.bus.pending rest m e in
        rw e (record {
          one_place = ground (arith, a.one_place, fewer);
          counted = λ p. ground (
            arith,
            p,
            a.counted,
            fewer,
            lookup-insert m.message_id n (or_else (lookup m.message_id w.bus.delivery_counts) 0 + 1)
                w.bus.delivery_counts,
          );
          waits = λ p.
              ground
                (arith, p, a.one_place, a.waits, fewer, published-le n (length w.bus.messages));
          held = λ p. ground (arith, p, a.held);
          bounded = ground (arith, a.bounded, a.waits, fewer);
          dead = λ p.
              ground (arith, p, a.one_place, a.dead, fewer, published-le n (length w.bus.messages));
          unknown = λ p. ground (arith, p, a.unknown, a.one_place, fewer);
          source = a.source;
          positive = a.positive;
        })
  ]

  pub ack-Accounted :
      (stream : String) (m : ℕ) → Accounted n w → Accounted n (step w (ack_call stream m))
  unfolding step ack
  ack-Accounted stream m a = elim (Bool-cases (holds m w.taken)) [
    | inr e ↦ rw e a
    | inl e ↦
        let fewer = count-drop_one n m w.taken e in
        let more = answered-append n w.bus.acked stream m in
        let cap = published-le n (length w.bus.messages) in
        rw e (record {
          one_place = ground (arith, a.one_place, fewer, more);
          counted = λ p. ground (
            arith,
            p,
            a.one_place,
            a.counted,
            fewer,
            cap,
            lookup-remove m n w.bus.delivery_counts,
          );
          waits = a.waits;
          held = λ p. ground (arith, p, a.held, fewer);
          bounded = a.bounded;
          dead = a.dead;
          unknown = a.unknown;
          source = a.source;
          positive = a.positive;
        })
  ]

module _ {E : Type 0} (m : ℕ) (w : World E) where
  -- A message that is held has a source and was counted at each delivery.
  held_facts :
      Accounted m w
      → holds m w.taken ≡ true
      → (s : Message E) × (source_of m w.bus.messages ≡ some s)
        × (s.message_id ≡ m)
        × (lookup m w.bus.delivery_counts ≡ some (count m w.handed))
        × (copies m w.bus.pending ≡ 0)
        × (count m w.taken ≡ 1)
  held_facts b e =
      let some_held = count-holds m w.taken e in
      let cap = published-le m (length w.bus.messages) in
      let (s, found, same) = b.source (omega (arith, b.one_place, some_held, cap)) in
      (
        s,
        found,
        same,
        b.counted (omega (arith, b.one_place, some_held, cap)),
        omega (arith, b.one_place, some_held, cap),
        omega (arith, b.one_place, some_held, cap),
      )

module _ {E : Type 0} (n : ℕ) (w : World E) where
  pub nack-Accounted :
      (stream : String) (m : ℕ)
      → Accounted m w
      → Accounted n w
      → Accounted n (step w (nack_call stream m))
  unfolding step nack
  nack-Accounted stream m b a = elim (Bool-cases (holds m w.taken)) [
    | inr e ↦ rw e a
    | inl e ↦
        let (s, found, same, counts, none_waits, one_held) = held_facts m w b e in
        let fewer = count-drop_one n m w.taken e in
        let cap = published-le n (length w.bus.messages) in
        elim (Bool-cases (leb w.bus.max_retries (count m w.handed))) [
          | inl spent ↦
              let more = copies-append n w.bus.dead_letter s in
              rw (e, found, counts, spent)
                (record {
                  one_place = ground (arith, a.one_place, fewer, more, same);
                  counted = λ p. ground (
                    arith,
                    p,
                    a.one_place,
                    a.counted,
                    fewer,
                    cap,
                    lookup-remove m n w.bus.delivery_counts,
                  );
                  waits = a.waits;
                  held = λ p. ground (arith, p, a.held, fewer);
                  bounded = a.bounded;
                  dead = λ p. ground (arith, p, a.dead, a.bounded, spent, more, same);
                  unknown = a.unknown;
                  source = a.source;
                  positive = a.positive;
                })
          | inr left ↦
              let more = copies-append n w.bus.pending s in
              rw (e, found, counts, left)
                (record {
                  one_place = ground (arith, a.one_place, fewer, more, same);
                  counted = λ p. ground (arith, p, a.one_place, a.counted, fewer, cap, more, same);
                  waits = λ p. ground (arith, p, a.waits, left, more, same);
                  held = λ p. ground (arith, p, a.held, fewer);
                  bounded = a.bounded;
                  dead = a.dead;
                  unknown = a.unknown;
                  source = a.source;
                  positive = a.positive;
                })
        ]
  ]
