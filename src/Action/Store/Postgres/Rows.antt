-- ===== src/Action/Store/Postgres/Rows.antt =====
-- What the rows of decisions keep: a review status, and times that the database reads.
use shelfwise.Prelude.{
  String, Bool, ◌≡◌, refl, ◌⊎◌, true, Option, none, some, [], arith, text_key, or_else, lookup,
  insert, update, set_default, HasDistinctKeys, either_of, lookup-insert, lookup-update,
  lookup-update-none, lookup-set_default,
}
use shelfwise.Action.Store.{
  Value, text, null, str, Decision, with_defaults, merged, is_final_status, reviewed,
}
use shelfwise.Action.Store.Review.{lookup-reviewed}
use shelfwise.Action.Store.Postgres.{DecisionRow, column, db_reads, is_dated}

-- The statuses that `DecisionStatus` knows.
abbrev pub IsReviewStatus : String → Type 0
IsReviewStatus s = (s ≡ "pending") ⊎ (is_final_status s ≡ true)

-- A decision with the status, which is one of those.
abbrev pub HasStatus : Decision → String → Type 0
HasStatus d s = (lookup "status" d ≡ some (text s)) × IsReviewStatus s

pub column_status :
    (d : Decision) (s : String)
    → lookup "status" d ≡ some (text s)
    → IsReviewStatus s
    → HasStatus d (column "status" d)
unfolding str
column_status d s e h = rw e (refl, h)

lookup-with_defaults :
    (now : String) (d : Decision) (s : String)
    → lookup "status" d ≡ some (text s)
    → lookup "status" (with_defaults now d) ≡ some (text s)
unfolding with_defaults
lookup-with_defaults now d s e =
    let d₁ = set_default "data_domain" (text "world_simulation") d in
    let d₂ = set_default "created_at" (text now) d₁ in
    let v = or_else (lookup "created_at" d₂) null in
    ground (
      arith,
      lookup-set_default "data_domain" "status" (text "world_simulation") d,
      lookup-set_default "created_at" "status" (text now) d₁,
      lookup-set_default "updated_at" "status" v d₂,
      lookup-set_default "review" "status" null (set_default "updated_at" v d₂),
    )

pub lookup-merged :
    (existing : Option Decision) (decision : Decision) (now s : String)
    → HasDistinctKeys decision
    → lookup "status" decision ≡ some (text s)
    → lookup "status" (merged existing decision now) ≡ some (text s)
unfolding merged
lookup-merged existing decision now s distinct e =
    lookup-with_defaults now (update (or_else existing []) decision) s
      (ground (arith, lookup-update "status" (or_else existing []) decision distinct))

-- The times that an upsert stores are the given ones, or else those that were there, or else now.
created-with_defaults :
    (now : String) (d : Decision)
    → lookup "created_at" (with_defaults now d) ≡ some (or_else (lookup "created_at" d) (text now))
unfolding with_defaults
created-with_defaults now d =
    let d₁ = set_default "data_domain" (text "world_simulation") d in
    let d₂ = set_default "created_at" (text now) d₁ in
    let v = or_else (lookup "created_at" d₂) null in
    ground (
      arith,
      lookup-set_default "data_domain" "created_at" (text "world_simulation") d,
      lookup-set_default "created_at" "created_at" (text now) d₁,
      lookup-set_default "updated_at" "created_at" v d₂,
      lookup-set_default "review" "created_at" null (set_default "updated_at" v d₂),
    )

updated-with_defaults :
    (now : String) (d : Decision)
    → lookup "updated_at" (with_defaults now d)
      ≡ some (or_else (lookup "updated_at" d) (or_else (lookup "created_at" d) (text now)))
unfolding with_defaults
updated-with_defaults now d =
    let d₁ = set_default "data_domain" (text "world_simulation") d in
    let d₂ = set_default "created_at" (text now) d₁ in
    let v = or_else (lookup "created_at" d₂) null in
    ground (
      arith,
      lookup-set_default "data_domain" "created_at" (text "world_simulation") d,
      lookup-set_default "data_domain" "updated_at" (text "world_simulation") d,
      lookup-set_default "created_at" "created_at" (text now) d₁,
      lookup-set_default "created_at" "updated_at" (text now) d₁,
      lookup-set_default "updated_at" "updated_at" v d₂,
      lookup-set_default "review" "updated_at" null (set_default "updated_at" v d₂),
    )

module _ (is_time : String → Bool) where
  -- A time that is given is one that the database reads.
  abbrev pub given_time : Option Value → Bool
  given_time none = true
  given_time (some v) = db_reads is_time (some v)

  abbrev pub HasTimes : Decision → Type 0
  HasTimes d =
      (given_time (lookup "created_at" d) ≡ true) × (given_time (lookup "updated_at" d) ≡ true)

  -- What a stored row keeps.
  abbrev pub IsSound : DecisionRow → Type 0
  IsSound row = HasStatus row.payload row.status × HasTimes row.payload

  given_or :
      (o : Option Value) (v : Value)
      → given_time o ≡ true
      → db_reads is_time (some v) ≡ true
      → db_reads is_time (some (or_else o v)) ≡ true
  given_or none v h k = k
  given_or (some w) v h k = h

  given_either :
      (o p : Option Value)
      → given_time o ≡ true
      → given_time p ≡ true
      → given_time (either_of o p) ≡ true
  given_either none p h k = k
  given_either (some w) p h k = h

  with_defaults-is_dated :
      (now : String) (d : Decision)
      → HasTimes d
      → is_time now ≡ true
      → is_dated is_time (with_defaults now d) ≡ true
  with_defaults-is_dated now d h n =
      let created = given_or (lookup "created_at" d) (text now) h.0 n in
      rw
        (
          created-with_defaults now d,
          updated-with_defaults now d,
          created,
          given_or (lookup "updated_at" d) (or_else (lookup "created_at" d) (text now)) h.1 created,
        )
        refl

  pub merged-is_dated :
      (existing : Option Decision) (decision : Decision) (now : String)
      → HasDistinctKeys decision
      → HasTimes (or_else existing [])
      → HasTimes decision
      → is_time now ≡ true
      → is_dated is_time (merged existing decision now) ≡ true
  unfolding merged
  merged-is_dated existing decision now distinct h k n =
      let old = or_else existing [] in
      with_defaults-is_dated now (update old decision)
        (
          rw (lookup-update "created_at" old decision distinct)
              (given_either (lookup "created_at" decision) (lookup "created_at" old) k.0 h.0),
          rw (lookup-update "updated_at" old decision distinct)
              (given_either (lookup "updated_at" decision) (lookup "updated_at" old) k.1 h.1),
        )
        n

  dated_given : (o : Option Value) → db_reads is_time o ≡ true → given_time o ≡ true
  dated_given none h = refl
  dated_given (some v) h = h

  pub is_dated-HasTimes : (d : Decision) → is_dated is_time d ≡ true → HasTimes d
  is_dated-HasTimes d h = (
    dated_given (lookup "created_at" d) (ground (arith, h)),
    dated_given (lookup "updated_at" d) (ground (arith, h)),
  )

  pub reviewed-HasTimes :
      (status reviewer now : String) (d : Decision)
      → is_time now ≡ true
      → HasTimes d
      → HasTimes (reviewed status reviewer now d)
  reviewed-HasTimes status reviewer now d n h = (
    ground (arith, lookup-reviewed status reviewer now d "created_at", h),
    ground (arith, lookup-reviewed status reviewer now d "updated_at", n),
  )

  pub annotated-HasTimes :
      (fields : Decision) (now : String) (d : Decision)
      → lookup "created_at" fields ≡ none
      → is_time now ≡ true
      → HasTimes d
      → HasTimes (insert "updated_at" (text now) (update d fields))
  annotated-HasTimes fields now d none_given n h = (
    rw
        (
          lookup-insert "updated_at" "created_at" (text now) (update d fields),
          lookup-update-none "created_at" d fields none_given,
        )
        h.0,
    rw (lookup-insert "updated_at" "updated_at" (text now) (update d fields)) n,
  )
