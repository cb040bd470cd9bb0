-- ===== src/Action/Store/Review.antt =====
-- The review of a decision, and a second review of it.
use shelfwise.Prelude.{
  String, ◌≡◌, ◌≢◌, Bool-cases, Option-cases, inl, inr, true, false, none, some, arith, text_key,
  ◌==◌, ==_refl, ==_ne, if◌then◌else◌, lookup, insert, lookup-insert,
}
use shelfwise.Action.Store.{
  text, review, Decision, Store, is_final, reviewed, transition, is_final_status,
}

module _ (status reviewer now : String) (item : Decision) where
  pub lookup-reviewed :
      (field : String)
      → lookup field (reviewed status reviewer now item) ≡ (
          if field == "review"
          then some (review reviewer status now)
          else if field == "updated_at"
          then some (text now)
          else if field == "status"
          then some (text status)
          else lookup field item)
  unfolding reviewed
  lookup-reviewed field =
      let d₁ = insert "status" (text status) item in
      let d₂ = insert "updated_at" (text now) d₁ in
      ground (
        arith,
        lookup-insert "review" field (review reviewer status now) d₂,
        lookup-insert "updated_at" field (text now) d₁,
        lookup-insert "status" field (text status) item,
      )

module _ (id status reviewer now : String) (s : Store) (d : Decision) where
  -- The review of a known decision that is not final: the answer and the stored record have the
  -- status, the reviewer and the time of the review, all other fields of the decision are as they
  -- were, and so is every other decision.
  pub transition_decides :
      lookup id s ≡ some d
      → is_final d ≡ false
      → (d' : Decision) × ((transition id status reviewer now s).0 ≡ some d')
        × (lookup id (transition id status reviewer now s).1 ≡ some d')
        × (lookup "status" d' ≡ some (text status))
        × (lookup "updated_at" d' ≡ some (text now))
        × (lookup "review" d' ≡ some (review reviewer status now))
        × ((field : String)
            → field ≢ "status"
            → field ≢ "updated_at"
            → field ≢ "review"
            → lookup field d' ≡ lookup field d)
        × ((j : String) → j ≢ id → lookup j (transition id status reviewer now s).1 ≡ lookup j s)
  unfolding transition
  transition_decides known open_ =
      let d' = reviewed status reviewer now d in
      (
        d',
        ground arith,
        ground (arith, lookup-insert id id d' s, ==_refl id),
        lookup-reviewed status reviewer now d "status",
        lookup-reviewed status reviewer now d "updated_at",
        lookup-reviewed status reviewer now d "review",
        λ field n₁ n₂ n₃.
            ground
              (arith, lookup-reviewed status reviewer now d field, ==_ne n₁, ==_ne n₂, ==_ne n₃),
        λ j n. ground (arith, lookup-insert id j d' s, ==_ne n),
      )

pub is_final-reviewed :
    (status reviewer now : String) (d : Decision)
    → is_final_status status ≡ true
    → is_final (reviewed status reviewer now d) ≡ true
is_final-reviewed status reviewer now d f = rw (lookup-reviewed status reviewer now d "status") f

-- A final decision is returned as it is, and nothing is stored.
pub transition-final :
    (id status reviewer now : String) (s : Store) (d : Decision)
    → lookup id s ≡ some d
    → is_final d ≡ true
    → transition id status reviewer now s ≡ (some d, s)
unfolding transition
transition-final id status reviewer now s d known f = ground arith

pub transition-open :
    (id status reviewer now : String) (s : Store) (d : Decision)
    → lookup id s ≡ some d
    → is_final d ≡ false
    → transition id status reviewer now s
      ≡ (some (reviewed status reviewer now d), insert id (reviewed status reviewer now d) s)
unfolding transition
transition-open id status reviewer now s d known f = ground arith

pub transition-unknown :
    (id status reviewer now : String) (s : Store)
    → lookup id s ≡ none
    → transition id status reviewer now s ≡ (none, s)
unfolding transition
transition-unknown id status reviewer now s unknown = ground arith

-- The first review counts: after a decision was approved or rejected, a second review of it, by
-- anyone, with either outcome and at any time, returns the record of the first and stores nothing.
pub first_review_counts :
    (id first second r₁ r₂ t₁ t₂ : String) (s : Store)
    → is_final_status first ≡ true
    → let (answer, s') = transition id first r₁ t₁ s in transition id second r₂ t₂ s' ≡ (answer, s')
first_review_counts id first second r₁ r₂ t₁ t₂ s f = elim (Option-cases (lookup id s)) [
  | inl e ↦ rw (transition-unknown id first r₁ t₁ s e) (transition-unknown id second r₂ t₂ s e)
  | inr (d, e) ↦ elim (Bool-cases (is_final d)) [
    | inl done ↦
        rw (transition-final id first r₁ t₁ s d e done)
          (transition-final id second r₂ t₂ s d e done)
    | inr pending ↦
        let d' = reviewed first r₁ t₁ d in
        rw (transition-open id first r₁ t₁ s d e pending) (
          transition-final id second r₂ t₂ (insert id d' s) d'
            (ground (arith, lookup-insert id id d' s, ==_refl id))
            (is_final-reviewed first r₁ t₁ d f))
  ]
]
