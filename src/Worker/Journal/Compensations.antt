-- ===== src/Worker/Journal/Compensations.antt =====
-- The order of the rollback instructions of a run.
use shelfwise.Prelude.{
  String, ◌≡◌, refl, ap, Option, none, some, List, [], ◌∷◌, ◌++◌, arith, append-nil, append_assoc,
  text_key, ◌==◌, ==_iff, if◌then◌else◌, lookup, lookup-insert, or_else,
}
use mathlib.Core.List.{reverse}
use shelfwise.Worker.Journal.{Journal, StepKey, init, put, compensations_of}

-- One `put`: the run with its step, the output and the compensation.
abbrev pub Entry : Type 0 → Type 0 → Type 0
Entry O C = StepKey × O × Option C

module _ {O C : Type 0} where
  pub puts : List (Entry O C) → Journal O C → Journal O C
  puts [] j = j
  puts ((key, o, c) ∷ es) j = puts es (put key o c j)

  -- The compensations that the entries give for a run, in order.
  pub given : String → List (Entry O C) → List C
  given run_id [] = []
  given run_id ((key, o, none) ∷ es) = given run_id es
  given run_id ((key, o, some c) ∷ es) =
      let rest = given run_id es in if run_id == key.0 then c ∷ rest else rest

  stored : String → Journal O C → List C
  stored run_id j = or_else (lookup run_id j.compensations) []

  stored-put :
      (run_id : String) (key : StepKey) (o : O) (c : Option C) (j : Journal O C)
      → stored run_id (put key o c j) ≡ stored run_id j ++ given run_id ((key, o, c) ∷ [])
  unfolding put given stored
  stored-put run_id key o none j = rw append-nil
  stored-put run_id key o (some c) j = ground (
    arith,
    ==_iff run_id key.0,
    lookup-insert key.0 run_id (or_else (lookup key.0 j.compensations) [] ++ c ∷ [])
        j.compensations,
    append-nil (or_else (lookup run_id j.compensations) []),
  )

  given-cons :
      (run_id : String) (e : Entry O C) (es : List (Entry O C))
      → given run_id (e ∷ es) ≡ given run_id (e ∷ []) ++ given run_id es
  unfolding given
  given-cons run_id (key, o, none) es = refl
  given-cons run_id (key, o, some c) es = ground arith

  stored-puts :
      (run_id : String) (es : List (Entry O C)) (j : Journal O C)
      → stored run_id (puts es j) ≡ stored run_id j ++ given run_id es
  unfolding puts
  stored-puts run_id [] j = unfold given in rw append-nil
  stored-puts run_id ((key, o, c) ∷ es) j = rw (
    stored-puts run_id es (put key o c j),
    stored-put run_id key o c j,
    given-cons run_id (key, o, c) es,
    append_assoc,
  )

  -- After any puts into an empty journal, the compensations of a run are those given for it, the
  -- last one first; those of other runs are not among them.
  pub compensations_newest_first :
      (run_id : String) (es : List (Entry O C))
      → compensations_of run_id (puts es init) ≡ reverse (given run_id es)
  unfolding compensations_of stored lookup
  compensations_newest_first run_id es = ap reverse (stored-puts run_id es init)
