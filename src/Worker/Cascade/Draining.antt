-- ===== src/Worker/Cascade/Draining.antt =====
-- How long the worker has to run until no message waits.
use shelfwise.Prelude.{
  ℕ, zero, suc, ◌+◌, ◌*◌, ◌≤◌, ◌<◌, max, String, ◌≡◌, refl, sym, subst, ap, ◌∙◌, ◌⊎◌, inl, inr, not,
  Option, none, List, [], ◌∷◌, ◌++◌, arith, nat_key, ◌==◌, ==_refl, if◌then◌else◌, Option-cases,
  length, map, keep_if,
}
use shelfwise.Bus.{Message, Bus, init, consume_one, take_first, ack, nack}
use shelfwise.Bus.Protocol.{
  World, Call, consume_call, ack_call, nack_call, start, count, received, step, run,
}
use shelfwise.Bus.Accounts.{copies, answered, published}
use shelfwise.Bus.Conservation.{messages_accounted, handed_published}
use shelfwise.Worker.Cascade.{Clock, Backend, Setup, process_one}
use shelfwise.Worker.Cascade.Delivery.{
  Job, process_job, run_jobs, process_message-answers, Follows, received-some, process_one-some,
  run_jobs-Follows, run-append,
}

abbrev without : ℕ → List ℕ → List ℕ
without n xs = keep_if (λ m. not (n == m)) xs

length-without : (n : ℕ) (xs : List ℕ) → length xs ≡ count n xs + length (without n xs)
length-without n [] = omega arith
length-without n (x ∷ xs) = ground (arith, length-without n xs)

count-without :
    (n m : ℕ) (xs : List ℕ) → count m (without n xs) ≡ (if m == n then 0 else count m xs)
count-without n m [] = ground arith
count-without n m (x ∷ xs) = ground (arith, count-without n m xs)

count_self : (x : ℕ) (xs : List ℕ) → 1 ≤ count x (x ∷ xs)
count_self x xs = rw (==_refl x) (omega arith)

-- A list of the ids 1 to `total` that has none of them more than `k` times.
bounded_length :
    (k total : ℕ) (xs : List ℕ)
    → ((n : ℕ) → count n xs ≤ k)
    → ((n : ℕ) → published n total ≡ 0 → count n xs ≡ 0)
    → length xs ≤ k * total
bounded_length k zero [] few known = omega arith
bounded_length k zero (x ∷ xs) few known = ground (arith, count_self x xs, known x (ground arith))
bounded_length k (suc total) xs few known =
    let rest =
      bounded_length k total (without (suc total) xs)
        (λ n. ground (arith, few n, count-without (suc total) n xs))
        (λ n p. ground (arith, known n, p, count-without (suc total) n xs)) in
    omega (arith, rest, few (suc total), length-without (suc total) xs)

module _ {E : Type 0} where
  take_first-empty : (ms : List (Message E)) → take_first none ms ≡ none → ms ≡ []
  unfolding take_first
  take_first-empty [] h = refl
  take_first-empty (m ∷ ms) h = ground (arith, h)

  consume-empty :
      (b : Bus E) → (consume_one none b).0 ≡ none → (b.pending ≡ []) × ((consume_one none b).1 ≡ b)
  unfolding consume_one
  consume-empty b h = elim (Option-cases (take_first none b.pending)) [
    | inl e ↦ (take_first-empty b.pending e, rw e refl)
    | inr (f, e) ↦ ground (arith, h, e)
  ]

  -- Consuming and answering changes neither the messages nor their number of retries.
  consume-messages :
      (stream : Option String) (b : Bus E) → (consume_one stream b).1.messages ≡ b.messages
  unfolding consume_one
  consume-messages stream b = elim (Option-cases (take_first stream b.pending)) [
    | inl e ↦ rw e refl
    | inr (f, e) ↦ rw e refl
  ]

  nack-messages : (n : ℕ) (b : Bus E) → (nack n b).1.messages ≡ b.messages
  unfolding nack
  nack-messages n b = ground arith

module _ {E : Type 0} where
  few_handed :
      (max_retries : ℕ) (cs : List (Call E))
      → let w : World E = run (start max_retries) cs in
        length w.handed ≤ max 1 max_retries * length w.bus.messages
  few_handed max_retries cs =
      let w : World E = run (start max_retries) cs in
      bounded_length (max 1 max_retries) (length w.bus.messages) w.handed
        (λ n. (messages_accounted max_retries n cs).1) (λ n. handed_published max_retries n cs)

module _ {E X R C W : Type 0} (setup : Setup E X R W) where
  process-Moves :
      (b : Backend E R C W) (w : World E) (c : Clock)
      → Follows setup b w
      → (cs : List (Call E)) × Follows setup (process_one setup none c b).1 (run w cs)
        × (((process_one setup none c b).1.bus.messages ≡ b.bus.messages)
            × ((length (run w cs).handed ≡ suc (length w.handed))
                ⊎ ((b.bus.pending ≡ []) × ((process_one setup none c b).1.bus.pending ≡ []))))
  unfolding Follows process_one run step received ack
  process-Moves b w c (same, free) = elim (Option-cases (consume_one none b.bus).0) [
    | inl e ↦
        let (empty, same_bus) = consume-empty b.bus e in
        (
          consume_call none ∷ [],
          (rw (same, e) refl, rw (same, e) free),
          (rw e (ap (λ (x : Bus E). x.messages) same_bus), inr (empty, rw e (rw same_bus empty))),
        )
    | inr (m, e) ↦
        let held = received-some setup b w none m (same, free) e in
        let one = process_one-some setup b none c m e in
        let kept = consume-messages none b.bus in
        elim (process_message-answers setup m c (record b { bus = (consume_one none b.bus).1 })) [
          | inl acked ↦ (
            consume_call none ∷ ack_call m.stream m.message_id ∷ [],
            rw (held, one) (rw (==_refl m.message_id) (sym acked, refl)),
            (
              rw one (ap (λ (x : Bus E). x.messages) acked ∙ kept),
              inl (rw held (rw (==_refl m.message_id) refl)),
            ),
          )
          | inr nacked ↦ (
            consume_call none ∷ nack_call m.stream m.message_id ∷ [],
            rw (held, one) (rw (==_refl m.message_id) (sym nacked, refl)),
            (
              rw one (
                  ap (λ (x : Bus E). x.messages) nacked
                  ∙ nack-messages m.message_id (consume_one none b.bus).1
                  ∙ kept),
              inl (rw held (rw (==_refl m.message_id) refl)),
            ),
          )
        ]
  ]

  process-empty :
      (b : Backend E R C W) (c : Clock)
      → b.bus.pending ≡ []
      → (process_one setup none c b).1.bus.pending ≡ []
  unfolding process_one consume_one take_first
  process-empty b c h = rw h refl

  run_jobs-empty :
      (b : Backend E R C W) (clocks : List Clock)
      → b.bus.pending ≡ []
      → (run_jobs setup b (map (process_job none) clocks)).bus.pending ≡ []
  unfolding run_jobs
  run_jobs-empty b [] h = h
  run_jobs-empty b (c ∷ clocks) h =
      run_jobs-empty (process_one setup none c b).1 clocks (process-empty b c h)

  -- What the worker did in as many runs as there are clocks.
  Drains : Backend E R C W → World E → List Clock → Type 0
  Drains b w clocks =
      let b' = run_jobs setup b (map (process_job none) clocks) in
      (cs : List (Call E)) × Follows setup b' (run w cs)
      × ((b'.bus.messages ≡ b.bus.messages)
          × ((length (run w cs).handed ≡ length w.handed + length clocks) ⊎ (b'.bus.pending ≡ [])))

  run_jobs-Drains :
      (b : Backend E R C W) (w : World E) (clocks : List Clock)
      → Follows setup b w
      → Drains b w clocks
  unfolding Drains run_jobs run
  run_jobs-Drains b w [] f = ([], f, (refl, inl (omega arith)))
  run_jobs-Drains b w (c ∷ clocks) f =
      let (cs, g, (same, moved)) = process-Moves b w c f in
      let (ds, h, (same', moved')) =
        run_jobs-Drains (process_one setup none c b).1 (run w cs) clocks g in
      let joined = run-append w cs ds in
      (
        cs ++ ds,
        rw (← joined) h,
        (
          same' ∙ same,
          elim moved [
            | inr (empty, after) ↦ inr (run_jobs-empty (process_one setup none c b).1 clocks after)
            | inl one ↦ elim moved' [
              | inr empty ↦ inr empty
              | inl more ↦ inl (rw (← joined) (omega (arith, one, more)))
            ]
          ],
        ),
      )

  -- Whatever was published and processed before, and whatever the handler does: once the worker has
  -- run, on all streams, more often than there are messages times the deliveries that each may have, no message waits
  -- any more, and every published message is acknowledged or in the dead-letter queue, in exactly
  -- one of them and once.
  pub queue_drains :
      (max_retries : ℕ) (b : Backend E R C W) (js : List (Job E)) (clocks : List Clock)
      → b.bus ≡ init max_retries
      → max 1 max_retries * length (run_jobs setup b js).bus.messages < length clocks
      → let bus = (run_jobs setup (run_jobs setup b js) (map (process_job none) clocks)).bus in
        (bus.pending ≡ [])
        × ((n : ℕ)
            → answered n bus.acked + copies n bus.dead_letter ≡ published n (length bus.messages))
  unfolding Follows Drains
  queue_drains max_retries b js clocks fresh enough =
      let (cs, f) = run_jobs-Follows setup b (start max_retries) js (sym fresh, refl) in
      let (ds, (same_bus, free), (same, moved)) =
        run_jobs-Drains (run_jobs setup b js) (run (start max_retries) cs) clocks f in
      let joined = run-append (start max_retries) cs ds in
      let few = few_handed max_retries (cs ++ ds) in
      let few_messages : length (run (run (start max_retries) cs) ds).handed
          ≤ max 1 max_retries * length (run_jobs setup b js).bus.messages =
        let messages = ap (λ (x : Bus E). length x.messages) same_bus in
        let kept = ap (λ (ms : List (Message E)). length ms) same in
        subst (λ n. length (run (run (start max_retries) cs) ds).handed ≤ max 1 max_retries * n)
          (messages ∙ kept) (rw joined few) in
      let last = run_jobs setup (run_jobs setup b js) (map (process_job none) clocks) in
      let empty : last.bus.pending ≡ [] = elim moved [
        | inr none_left ↦ none_left
        | inl more ↦ absurd (omega (arith, few_messages, more, enough))
      ] in
      let accounts : (n : ℕ)
          → copies n last.bus.pending
              + count n (run (run (start max_retries) cs) ds).taken
              + answered n last.bus.acked
              + copies n last.bus.dead_letter
            ≡ published n (length last.bus.messages) =
        λ n. rw (← same_bus, joined) (messages_accounted max_retries n (cs ++ ds)).0 in
      (empty, λ n. omega (arith, accounts n, ap (copies n) empty, ap (count n) free))
