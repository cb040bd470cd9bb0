-- ===== src/Gateway/Throttle/Bounds.antt =====
-- What the buckets of src/shelfwise_backend/security/gateway.py hold.
use shelfwise.Prelude.{
  ℕ, ◌*◌, ◌-◌, ◌≤◌, String, true, not, ◌≡◌, ap, ℤ, to_ℕ, lookup-nil, Option, none, some, List, [],
  ◌∷◌, if◌then◌else◌, ltb, leb, text_key, ◌==◌, sym, subst, ◌∙◌, is_some, inl, inr, Bool-cases,
  Key-cases, Option-cases, arith, length, Dict, lookup, insert, remove, lookup-insert,
  lookup-remove, HasDistinctKeys, insert-HasDistinctKeys,
}
use shelfwise.Gateway.Throttle.{
  TokenBucket, evict, tokens_at, allow, configure, is_positive, is_negative,
}
use shelfwise.Prelude.Results.{ok, raise_if, ◌>>◌, bind-ok}

length-evict : (m : ℕ) (d : Dict String (ℕ × ℕ)) → length (evict m d) ≤ m
unfolding evict
length-evict m [] = omega arith
length-evict m (e ∷ d) = ground (arith, length-evict m d)

lookup-evict-none :
    (m : ℕ) (d : Dict String (ℕ × ℕ)) (j : String) → lookup j d ≡ none → lookup j (evict m d) ≡ none
unfolding evict lookup
lookup-evict-none m [] j h = h
lookup-evict-none m ((i, v) ∷ d) j h = ground (arith, h, lookup-evict-none m d j)

-- What is still there after the oldest entries were dropped is unchanged.
pub lookup-evict :
    (m : ℕ) (d : Dict String (ℕ × ℕ)) (j : String) (v : ℕ × ℕ)
    → HasDistinctKeys d
    → lookup j (evict m d) ≡ some v
    → lookup j d ≡ some v
unfolding evict lookup
lookup-evict m [] j v h e = e
lookup-evict m ((i, w) ∷ d) j v h e = elim (Bool-cases (ltb m (length ((i, w) ∷ d)))) [
  | inl f ↦ elim (Key-cases j i) [
    | inl same ↦ absurd (
        ground (
          arith,
          (rw f at e),
          lookup-evict m d j v h.1,
          subst (λ z. lookup z d ≡ none) (sym same) h.0,
        ))
    | inr other ↦ rw other (lookup-evict m d j v h.1 (rw f at e))
  ]
  | inr f ↦ rw f at e
]

evict-HasDistinctKeys :
    (m : ℕ) (d : Dict String (ℕ × ℕ)) → HasDistinctKeys d → HasDistinctKeys (evict m d)
unfolding evict
evict-HasDistinctKeys m [] h = tt
evict-HasDistinctKeys m ((i, w) ∷ d) h = elim (Bool-cases (ltb m (length ((i, w) ∷ d)))) [
  | inl f ↦ rw f (evict-HasDistinctKeys m d h.1)
  | inr f ↦ rw f h
]

remove-HasDistinctKeys :
    (j : String) (d : Dict String (ℕ × ℕ)) → HasDistinctKeys d → HasDistinctKeys (remove j d)
unfolding remove
remove-HasDistinctKeys j [] h = tt
remove-HasDistinctKeys j ((i, w) ∷ d) h = elim (Bool-cases (j == i)) [
  | inl e ↦ rw e (remove-HasDistinctKeys j d h.1)
  | inr e ↦ rw e (ground (arith, h.0, lookup-remove j i d), remove-HasDistinctKeys j d h.1)
]

-- No more callers are tracked than the limit, each once, and none has more tokens than the capacity.
pub record IsBounded (b : TokenBucket) : Type 0 where
  pub tracked : length b.buckets ≤ b.max_keys
  pub distinct : HasDistinctKeys b.buckets
  pub held : (key : String) (v : ℕ × ℕ) → lookup key b.buckets ≡ some v → v.0 ≤ b.capacity

tokens_at-le : (now : ℕ) (o : Option (ℕ × ℕ)) (b : TokenBucket) → tokens_at now o b ≤ b.capacity
tokens_at-le now none b = omega arith
tokens_at-le now (some v) b = omega arith

module _ (unit : ℕ) where
  pub allow-IsBounded :
      (key : String) (now : ℕ) (b : TokenBucket) → IsBounded b → IsBounded (allow unit key now b).1
  unfolding allow
  allow-IsBounded key now b h =
      let tokens = tokens_at now (lookup key b.buckets) b in
      let left = if leb unit tokens then tokens - unit else tokens in
      let least : left ≤ b.capacity = ground (arith, tokens_at-le now (lookup key b.buckets) b) in
      let others = remove key b.buckets in
      let distinct =
        insert-HasDistinctKeys key (left, now) others
          (remove-HasDistinctKeys key b.buckets h.distinct) in
      record {
        tracked = length-evict b.max_keys (insert key (left, now) others);
        distinct = evict-HasDistinctKeys b.max_keys (insert key (left, now) others) distinct;
        held = λ j v e. ground (
          arith,
          lookup-evict b.max_keys (insert key (left, now) others) j v distinct e,
          lookup-insert key j (left, now) others,
          lookup-remove key j b.buckets,
          h.held j v,
          least,
        );
      }

  -- A caller that is still tracked has what was counted for it: the call's own, or what it had.
  pub allow-lookup :
      (key caller : String) (now : ℕ) (b : TokenBucket)
      → IsBounded b
      → is_some (lookup key (allow unit caller now b).1.buckets) ≡ true
      → lookup key (allow unit caller now b).1.buckets ≡ (
          if key == caller
          then some (
              let tokens = tokens_at now (lookup caller b.buckets) b in
              ((if leb unit tokens then tokens - unit else tokens), now))
          else lookup key b.buckets)
  unfolding allow
  allow-lookup key caller now b h tracked =
      let tokens = tokens_at now (lookup caller b.buckets) b in
      let left = if leb unit tokens then tokens - unit else tokens in
      let others = remove caller b.buckets in
      let distinct =
        insert-HasDistinctKeys caller (left, now) others
          (remove-HasDistinctKeys caller b.buckets h.distinct) in
      elim (Option-cases (lookup key (evict b.max_keys (insert caller (left, now) others)))) [
        | inl e ↦ absurd (ground (arith, e, tracked))
        | inr (v, e) ↦
            e
            ∙ sym (lookup-evict b.max_keys (insert caller (left, now) others) key v distinct e)
            ∙ ground (
              arith,
              lookup-insert caller key (left, now) others,
              lookup-remove caller key b.buckets,
            )
      ]

-- Calls one after another.
unfoldable pub allow_all : ℕ → List (String × ℕ) → TokenBucket → TokenBucket
allow_all unit [] b = b
allow_all unit ((caller, now) ∷ calls) b = allow_all unit calls (allow unit caller now b).1

allow_all-IsBounded :
    (unit : ℕ) (calls : List (String × ℕ)) (b : TokenBucket)
    → IsBounded b
    → IsBounded (allow_all unit calls b)
unfolding allow_all
allow_all-IsBounded unit [] b h = h
allow_all-IsBounded unit ((caller, now) ∷ calls) b h =
    allow_all-IsBounded unit calls (allow unit caller now b).1 (allow-IsBounded unit caller now b h)

configure-IsBounded :
    (unit : ℕ) (capacity refill max_keys : ℤ) (b : TokenBucket)
    → configure unit capacity refill max_keys ≡ ok b
    → IsBounded b
unfolding configure
configure-IsBounded unit capacity refill max_keys b h =
    let empty : b.buckets ≡ [] =
      let made : TokenBucket = record {
        capacity = to_ℕ capacity * unit;
        refill = to_ℕ refill;
        max_keys = to_ℕ max_keys;
        buckets = [];
      } in
      let (u, (checked, same)) =
        bind-ok
          (raise_if (not (is_positive capacity))
            >> raise_if (is_negative refill)
            >> raise_if (not (is_positive max_keys)))
          (λ u. ok made) b h in
      ground (arith, same) in
    record {
      tracked = rw empty (omega arith);
      distinct = rw empty tt;
      held =
          λ key v e. absurd (ground (arith, e, ap (lookup key) empty, lookup-nil {V = ℕ × ℕ} key));
    }

-- A bucket that was configured stays bounded under any calls: it tracks at most `max_keys` callers,
-- each once, and no caller has more tokens than the capacity.
pub calls-IsBounded :
    (unit : ℕ) (capacity refill max_keys : ℤ) (b : TokenBucket) (calls : List (String × ℕ))
    → configure unit capacity refill max_keys ≡ ok b
    → IsBounded (allow_all unit calls b)
calls-IsBounded unit capacity refill max_keys b calls h =
    allow_all-IsBounded unit calls b (configure-IsBounded unit capacity refill max_keys b h)
