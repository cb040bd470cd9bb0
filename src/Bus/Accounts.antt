-- ===== src/Bus/Accounts.antt =====
-- Where each message is: the accounts of the bus under the consumer's protocol.
use shelfwise.Prelude.{
  ℕ, ◌+◌, ◌≤◌, ◌<◌, String, ◌≡◌, refl, true, Option, none, some, List, [], ◌∷◌, ◌++◌, arith, length,
  nat_key, ◌==◌, ltb, leb, if◌then◌else◌, ◌&&◌, Option-cases, Bool-cases, inl, inr, lookup,
}
use shelfwise.Bus.{Message, wants, take_first, source_of}
use shelfwise.Bus.Protocol.{World, count, drop_one, holds}

module _ {E : Type 0} where
  -- How many messages of a list have the id.
  abbrev pub copies : ℕ → List (Message E) → ℕ
  copies n [] = 0
  copies n (m ∷ ms) = (if n == m.message_id then 1 else 0) + copies n ms

abbrev pub answered : ℕ → List (String × ℕ) → ℕ
answered n [] = 0
answered n ((s, m) ∷ l) = (if n == m then 1 else 0) + answered n l

-- 1 for the ids of the published messages, 1 to `total`.
abbrev pub published : ℕ → ℕ → ℕ
published n total = if ltb 0 n && leb n total then 1 else 0

-- The accounts of message `n`. A published message is in exactly one place: pending, in the hands
-- of a consumer, acknowledged or dead-lettered.
pub record Accounted {E : Type 0} (n : ℕ) (w : World E) : Type 0 where
  pub one_place :
      copies n w.bus.pending + count n w.taken + answered n w.bus.acked + copies n w.bus.dead_letter
      ≡ published n (length w.bus.messages)
  pub counted :
      copies n w.bus.pending + count n w.taken ≡ 1
      → lookup n w.bus.delivery_counts ≡ some (count n w.handed)
  pub waits : 1 ≤ copies n w.bus.pending → count n w.handed < w.bus.max_retries
  pub held : 1 ≤ count n w.taken → 1 ≤ count n w.handed
  pub bounded : count n w.handed ≤ w.bus.max_retries
  pub dead : 1 ≤ copies n w.bus.dead_letter → count n w.handed ≡ w.bus.max_retries
  pub unknown : published n (length w.bus.messages) ≡ 0 → count n w.handed ≡ 0
  pub source :
      published n (length w.bus.messages) ≡ 1
      → (m : Message E) × (source_of n w.bus.messages ≡ some m) × (m.message_id ≡ n)
  pub positive : 1 ≤ w.bus.max_retries

module _ {E : Type 0} (n : ℕ) where
  pub copies-append :
      (ms : List (Message E)) (m : Message E)
      → copies n (ms ++ m ∷ []) ≡ copies n ms + (if n == m.message_id then 1 else 0)
  copies-append [] m = omega arith
  copies-append (x ∷ ms) m = omega (arith, copies-append ms m)

  pub copies-take_first :
      (stream : Option String) (ms rest : List (Message E)) (found : Message E)
      → take_first stream ms ≡ some (found, rest)
      → copies n ms ≡ (if n == found.message_id then 1 else 0) + copies n rest
  unfolding take_first
  copies-take_first stream [] rest found h = cc
  copies-take_first stream (m ∷ ms) rest found h = elim (Bool-cases (wants stream m)) [
    | inl wanted ↦ ground arith
    | inr other ↦ elim (Option-cases (take_first stream ms)) [
      | inl e ↦ absurd (ground arith)
      | inr ((f, r), e) ↦ ground (arith, copies-take_first stream ms r f e)
    ]
  ]

  pub id_source_of :
      (ms : List (Message E)) (m : Message E) → source_of n ms ≡ some m → m.message_id ≡ n
  unfolding source_of
  id_source_of [] m h = cc
  id_source_of (x ∷ ms) m h = ground (arith, id_source_of ms m)

  pub source_of-append :
      (ms : List (Message E)) (m : Message E)
      → source_of n (ms ++ m ∷ []) ≡ (elim (source_of n ms) [
        | some s ↦ some s
        | none ↦ if m.message_id == n then some m else none
      ])
  unfolding source_of
  source_of-append [] m = refl
  source_of-append (x ∷ ms) m = ground (arith, source_of-append ms m)

pub published-le : (n total : ℕ) → published n total ≤ 1
published-le n total = ground arith

pub count-drop_one :
    (n m : ℕ) (l : List ℕ)
    → holds m l ≡ true
    → count n (drop_one m l) + (if n == m then 1 else 0) ≡ count n l
count-drop_one n m [] h = cc
count-drop_one n m (x ∷ l) h = ground (arith, count-drop_one n m l)

pub count-holds : (m : ℕ) (l : List ℕ) → holds m l ≡ true → 1 ≤ count m l
count-holds m [] h = cc
count-holds m (x ∷ l) h = ground (arith, count-holds m l)

pub answered-append :
    (n : ℕ) (l : List (String × ℕ)) (s : String) (m : ℕ)
    → answered n (l ++ (s, m) ∷ []) ≡ answered n l + (if n == m then 1 else 0)
answered-append n [] s m = omega arith
answered-append n (x ∷ l) s m = omega (arith, answered-append n l s m)
