-- ===== src/Gateway/Throttle.antt =====
-- src/shelfwise_backend/security/gateway.py, class TokenBucket, _rate_limit_identity and
-- rate_limit. Time is counted in ticks of a clock that does not go back, and tokens in fractions:
-- `unit` of them are one token, and a tick brings a whole number of them.
pub mod Bounds
pub mod Rate
use shelfwise.Prelude.{
  ℕ, ◌+◌, ◌*◌, ◌-◌, min, String, Bool, true, false, not, ◌&&◌, Option, none, some, List, [], ◌∷◌,
  if◌then◌else◌, eqb, ltb, leb, text_key, ◌==◌, ℤ, pos, negsuc, to_ℕ, length, Dict, lookup, insert,
  remove, or_else,
}
use Prim.Native.String.{◌++◌}
use shelfwise.Prelude.Text.{truthy}
use shelfwise.Prelude.Results.{Result, ok, err, raise_if, ◌>>=◌, ◌>>◌}

-- The tokens of a caller, and when they were counted.
pub record TokenBucket : Type 0 where
  pub capacity : ℕ
  pub refill : ℕ
  pub max_keys : ℕ
  pub buckets : Dict String (ℕ × ℕ)

abbrev is_positive : ℤ → Bool
is_positive (pos n) = leb 1 n
is_positive (negsuc n) = false

abbrev is_negative : ℤ → Bool
is_negative (pos n) = false
is_negative (negsuc n) = true

-- The number of entries that a dictionary is cut down to, from its oldest entry on: the `while` loop
-- of `allow`.
unfoldable pub evict : ℕ → Dict String (ℕ × ℕ) → Dict String (ℕ × ℕ)
evict max_keys [] = []
evict max_keys (e ∷ d) =
    let rest = evict max_keys d in if ltb max_keys (length (e ∷ d)) then rest else e ∷ d

-- The tokens of a caller at a time.
abbrev pub tokens_at : ℕ → Option (ℕ × ℕ) → TokenBucket → ℕ
tokens_at now none b = min b.capacity b.capacity
tokens_at now (some (tokens, last_seen)) b = min b.capacity (tokens + (now - last_seen) * b.refill)

module _ (unit : ℕ) where
  unfoldable pub configure : ℤ → ℤ → ℤ → Result TokenBucket
  configure capacity refill max_keys =
      raise_if (not (is_positive capacity))
      >> raise_if (is_negative refill)
      >> raise_if (not (is_positive max_keys))
      >> ok (record {
        capacity = to_ℕ capacity * unit;
        refill = to_ℕ refill;
        max_keys = to_ℕ max_keys;
        buckets = [];
      })

  unfoldable pub allow : String → ℕ → TokenBucket → Bool × TokenBucket
  allow key now b =
      let tokens = tokens_at now (lookup key b.buckets) b in
      let allowed = leb unit tokens in
      (
        allowed,
        record b {
          buckets =
              evict b.max_keys (
                insert key (if allowed then tokens - unit else tokens, now) (remove key b.buckets));
        },
      )

abbrev pub clear : TokenBucket → TokenBucket
clear b = record b { buckets = [] }

abbrev pub tracked_keys : TokenBucket → ℕ
tracked_keys b = length b.buckets

-- `_rate_limit_identity`, of the configured key, the caller's header and its host
unfoldable pub rate_limit_identity : String → Option String → Option String → String
rate_limit_identity expected supplied host =
    if truthy expected && or_else supplied "" == expected
    then "key:" ++ expected
    else "ip:" ++ or_else host "anon"

-- What the dependency of `rate_limit` answers: nothing, or a status.
abbrev pub throttle : ℕ → String → ℕ → TokenBucket → Option ℕ × TokenBucket
throttle unit identity now b =
    let (allowed, b') = allow unit identity now b in (if allowed then none else some 429, b')
