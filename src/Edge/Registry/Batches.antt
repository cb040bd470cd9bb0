-- ===== src/Edge/Registry/Batches.antt =====
-- The life of a batch claim.
use shelfwise.Prelude.{
  ℕ, ◌+◌, ◌≤◌, String, ◌≡◌, refl, Bool, true, false, Option, none, some, List, [], ◌∷◌, arith,
  text_key, pair_key, ◌==◌, ==_iff, if◌then◌else◌, lookup, lookup-insert, lookup-remove,
}
use shelfwise.Edge.Registry.{
  Registry, init, BatchState, Claim, claim_batch, complete_batch, release_batch,
}

abbrev pub BatchKey : Type 0
BatchKey = String × String

-- What workers ask of the registry, with the batch that they ask for.
pub data Ask : Type 0 where
  claim complete release : BatchKey → Ask

-- How often a claim of one batch was granted, completed and released.
pub record Tally : Type 0 where
  pub grants : ℕ
  pub completes : ℕ
  pub releases : ℕ

abbrev pub zero_tally : Tally
zero_tally = record { grants = 0; completes = 0; releases = 0 }

abbrev granted : Claim → ℕ
granted Claim.claimed = 1
granted _ = 0

abbrev one_if : Bool → ℕ
one_if true = 1
one_if false = 0

-- Answers one request, counting what was granted for the batch `k`.
pub answer : BatchKey → Registry × Tally → Ask → Registry × Tally
answer k (r, t) (claim j) =
    let (c, r') = claim_batch j r in
    (r', if k == j then record t { grants = t.grants + granted c } else t)
answer k (r, t) (complete j) =
    let (b, r') = complete_batch j r in
    (r', if k == j then record t { completes = t.completes + one_if b } else t)
answer k (r, t) (release j) =
    let (b, r') = release_batch j r in
    (r', if k == j then record t { releases = t.releases + one_if b } else t)

pub answers : BatchKey → Registry × Tally → List Ask → Registry × Tally
answers k s [] = s
answers k s (a ∷ asks) = answers k (answer k s a) asks

abbrev pub held : Option BatchState → ℕ
held (some BatchState.claimed) = 1
held _ = 0

abbrev finished : Option BatchState → ℕ
finished (some BatchState.completed) = 1
finished _ = 0

-- Every granted claim is held, was completed or was released; completion happened once or never.
pub record Balanced (k : BatchKey) (r : Registry) (t : Tally) : Type 0 where
  pub accounted : t.grants ≡ t.completes + t.releases + held (lookup k r.batches)
  pub final : t.completes ≡ finished (lookup k r.batches)

answer-Balanced :
    (k : BatchKey) (r : Registry) (t : Tally) (a : Ask)
    → Balanced k r t
    → Balanced k (answer k (r, t) a).0 (answer k (r, t) a).1
unfolding answer claim_batch complete_batch release_batch
answer-Balanced k r t (claim j) h =
    ground (arith, ==_iff k j, lookup-insert j k BatchState.claimed r.batches)
answer-Balanced k r t (complete j) h =
    ground (arith, ==_iff k j, lookup-insert j k BatchState.completed r.batches)
answer-Balanced k r t (release j) h = ground (arith, ==_iff k j, lookup-remove j k r.batches)

answers-Balanced :
    (k : BatchKey) (r : Registry) (t : Tally) (asks : List Ask)
    → Balanced k r t
    → Balanced k (answers k (r, t) asks).0 (answers k (r, t) asks).1
unfolding answers
answers-Balanced k r t [] h = h
answers-Balanced k r t (a ∷ asks) h =
    answers-Balanced k (answer k (r, t) a).0 (answer k (r, t) a).1 asks (answer-Balanced k r t a h)

held-finished : (o : Option BatchState) → held o + finished o ≤ 1
held-finished none = omega arith
held-finished (some BatchState.claimed) = omega arith
held-finished (some BatchState.completed) = omega arith

Balanced-init : (k : BatchKey) → Balanced k init zero_tally
unfolding lookup
Balanced-init k = record { accounted = refl; final = refl }

-- From an empty registry, whatever workers ask for in whatever order: the claims granted for a
-- batch are those completed, those released and the at most one that is held, and a batch is
-- completed at most once, never while a claim of it is held.
pub claims_accounted :
    (k : BatchKey) (asks : List Ask)
    → let (r, t) = answers k (init, zero_tally) asks in
      (t.grants ≡ t.completes + t.releases + held (lookup k r.batches))
      × (held (lookup k r.batches) + t.completes ≤ 1)
claims_accounted k asks =
    let b = answers-Balanced k init zero_tally asks (Balanced-init k) in
    (
      b.accounted,
      omega
          (arith, b.final, held-finished (lookup k (answers k (init, zero_tally) asks).0.batches)),
    )
