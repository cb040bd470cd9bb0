-- ===== src/Gateway/Throttle/Rate.antt =====
-- How often a caller passes the throttle of src/shelfwise_backend/security/gateway.py.
use shelfwise.Prelude.{
  ℕ, suc, ◌+◌, ◌*◌, ◌-◌, ◌≤◌, String, true, false, ◌≡◌, ◌∙◌, sym, some, List, [], ◌∷◌,
  if◌then◌else◌, leb, text_key, ◌==◌, inl, inr, Bool-cases, Key-cases, arith, refl, ap, min, leb→le,
  is_some, lookup,
}
use shelfwise.Gateway.Throttle.{TokenBucket, tokens_at, allow}
use shelfwise.Gateway.Throttle.Bounds.{IsBounded, allow-IsBounded, allow-lookup}

module _ (unit : ℕ) (key : String) where
  -- How many of the calls are the caller's and allowed.
  unfoldable pub granted : List (String × ℕ) → TokenBucket → ℕ
  granted [] b = 0
  granted ((caller, now) ∷ calls) b =
      let (allowed, b') = allow unit caller now b in
      let rest = granted calls b' in
      if caller == key then (if allowed then suc rest else rest) else rest

  -- The clock does not go back, and the caller is still tracked after each call.
  unfoldable pub IsSteady : ℕ → List (String × ℕ) → TokenBucket → Type 0
  IsSteady last [] b = Unit
  IsSteady last ((caller, now) ∷ calls) b =
      (last ≤ now)
      × (is_some (lookup key (allow unit caller now b).1.buckets) ≡ true)
      × IsSteady now calls (allow unit caller now b).1

allow-first :
    (unit : ℕ) (caller : String) (now : ℕ) (b : TokenBucket)
    → (allow unit caller now b).0 ≡ leb unit (tokens_at now (lookup caller b.buckets) b)
unfolding allow
allow-first unit caller now b = refl

allow-refill :
    (unit : ℕ) (caller : String) (now : ℕ) (b : TokenBucket)
    → (allow unit caller now b).1.refill ≡ b.refill
unfolding allow
allow-refill unit caller now b = refl

-- The time of the last call.
abbrev pub end_of : ℕ → List (String × ℕ) → ℕ
end_of last [] = last
end_of last ((caller, now) ∷ calls) = end_of now calls

split_time : (a b c r : ℕ) → a ≤ b → b ≤ c → (b - a) * r + (c - b) * r ≡ (c - a) * r
split_time a b c r h k =
    let whole : c - a ≡ (b - a) + (c - b) = omega arith in
    let sum : ((b - a) + (c - b)) * r ≡ (b - a) * r + (c - b) * r = grind arith in
    sym (ap (λ z. z * r) whole ∙ sum)

-- One more grant takes one token.
paid :
    (unit grants tokens gain more : ℕ) (cap : ℕ)
    → grants * unit
      ≤ (if leb unit (min cap (tokens + gain))
          then min cap (tokens + gain) - unit
          else min cap (tokens + gain))
        + more
    → (if leb unit (min cap (tokens + gain)) then suc grants else grants) * unit
      ≤ tokens + (gain + more)
paid unit grants tokens gain more cap h =
    let one : suc grants * unit ≡ unit + grants * unit = grind arith in
    elim (Bool-cases (leb unit (min cap (tokens + gain)))) [
      | inl e ↦ rw e (
          let enough = leb→le unit (min cap (tokens + gain)) e in
          omega (arith, one, enough, (rw e at h)))
      | inr e ↦ rw e (omega (arith, (rw e at h)))
    ]

module _ (unit : ℕ) (key : String) where
  le-end_of :
      (last : ℕ) (calls : List (String × ℕ)) (b : TokenBucket)
      → IsSteady unit key last calls b
      → last ≤ end_of last calls
  unfolding IsSteady
  le-end_of last [] b h = omega arith
  le-end_of last ((caller, now) ∷ calls) b h =
      omega (arith, h.0, le-end_of now calls (allow unit caller now b).1 h.2)

  -- A caller's grants are paid for by the tokens it had and those that time brought.
  granted-le :
      (calls : List (String × ℕ)) (b : TokenBucket) (tokens seen last : ℕ)
      → IsBounded b
      → lookup key b.buckets ≡ some (tokens, seen)
      → seen ≤ last
      → IsSteady unit key last calls b
      → granted unit key calls b * unit ≤ tokens + (end_of last calls - seen) * b.refill
  unfolding granted IsSteady
  granted-le [] b tokens seen last h at le s = omega arith
  granted-le ((caller, now) ∷ calls) b tokens seen last h at le s =
      let b' = (allow unit caller now b).1 in
      let at' = allow-lookup unit key caller now b h s.1 in
      let h' = allow-IsBounded unit caller now b h in
      let later = le-end_of now calls b' s.2 in
      elim (Key-cases caller key) [
        | inl same ↦
            let t = min b.capacity (tokens + (now - seen) * b.refill) in
            let left = if leb unit t then t - unit else t in
            let has : lookup caller b.buckets ≡ some (tokens, seen) =
              ap (λ z. lookup z b.buckets) same ∙ at in
            let mine : (caller == key) ≡ true = (text_key.same_iff caller key).1 same in
            let yours : (key == caller) ≡ true = (text_key.same_iff key caller).1 (sym same) in
            let now_has : lookup key b'.buckets ≡ some (left, now) = at' ∙ rw (yours, has) refl in
            let allowed : (allow unit caller now b).0 ≡ leb unit t =
              allow-first unit caller now b ∙ rw has refl in
            let rest = granted-le calls b' left now now h' now_has (omega arith) s.2 in
            let kept = allow-refill unit caller now b in
            let spent =
              paid unit (granted unit key calls b') tokens ((now - seen) * b.refill)
                ((end_of now calls - now) * b.refill) b.capacity (rw kept at rest) in
            let time = split_time seen now (end_of now calls) b.refill (omega (arith, s.0)) later in
            rw (mine, allowed) (omega (arith, spent, time))
        | inr other ↦
            let apart : (key == caller) ≡ false =
              ground (arith, other, text_key.same_iff caller key, text_key.same_iff key caller) in
            let has : lookup key b'.buckets ≡ some (tokens, seen) = at' ∙ rw apart at in
            let rest = granted-le calls b' tokens seen now h' has (omega (arith, s.0)) s.2 in
            rw other (rw (allow-refill unit caller now b) at rest)
      ]

-- A tracked caller is granted, in any run of calls of all callers, at most the tokens of the capacity
-- and those that the time since it was last counted brings, as long as it stays tracked.
pub grants_are_paid :
    (unit : ℕ) (key : String) (calls : List (String × ℕ)) (b : TokenBucket) (tokens seen : ℕ)
    → IsBounded b
    → lookup key b.buckets ≡ some (tokens, seen)
    → IsSteady unit key seen calls b
    → granted unit key calls b * unit ≤ b.capacity + (end_of seen calls - seen) * b.refill
grants_are_paid unit key calls b tokens seen h at s = omega (
  arith,
  granted-le unit key calls b tokens seen seen h at (omega arith) s,
  h.held key (tokens, seen) at,
)
