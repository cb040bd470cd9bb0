-- ===== src/Twin/Projector/Arrival.antt =====
-- The projector of src/shelfwise_twin/projector.py and the order in which observations arrive.
use shelfwise.Prelude.{
  ℕ, String, false, ◌≡◌, sym, ap, ap₂, subst, ◌∙◌, Option, none, some, List, text_key, pair_key,
  lookup, arith, inl, inr, ◌⊎◌, Option-cases,
}
use shelfwise.Twin.{TwinObservation, TwinPropertyState}
use shelfwise.Twin.Keys.{PropertyKey, property_key, property_of}
use shelfwise.Twin.Store.{TwinStore, init}
use shelfwise.Twin.Projector.{SourcePolicy, Floats, state_of, apply_all, may_replace}
use shelfwise.Twin.Projector.Order.{beats, beats_antisym, replace-beats}
use shelfwise.Twin.Projector.Newest.{IsProjected, apply_all-IsProjected}

some_unique : {B : Type 0} (o : Option B) (a b : B) → o ≡ some a → o ≡ some b → a ≡ b
some_unique o a b h k = ground (arith, h, k)

module _ {V F : Type 0} (floats : Floats F) (policy_for : String → String → SourcePolicy F) where
  -- Two states of one observation, which differ at most by the clock's reading.
  abbrev pub Same : Option (TwinPropertyState V F) → Option (TwinPropertyState V F) → Type 0
  Same p q =
      ((p ≡ none) × (q ≡ none))
      ⊎ ((m : ℕ) × (n : ℕ) × (o : TwinObservation V F) × (p ≡ some (state_of floats policy_for m o))
          × (q ≡ some (state_of floats policy_for n o)))

  unbeaten :
      (n : ℕ) (x y : TwinObservation V F) (b : TwinPropertyState V F)
      → b ≡ state_of floats policy_for n y
      → may_replace policy_for b x ≡ false
      → beats policy_for x y ≡ false
  unbeaten n x y b was loses =
      sym (replace-beats floats policy_for n x y)
      ∙ ap (λ z. may_replace policy_for z x) (sym was)
      ∙ loses

module _ {A V F : Type 0} (floats : Floats F) (policy_for : String → String → SourcePolicy F) where
  -- The stores have recorded the same observations.
  abbrev pub RecordedSame : TwinStore A V F → TwinStore A V F → Type 0
  RecordedSame s t = (k : String × String) → lookup k s.observations ≡ lookup k t.observations

  -- The observation of a state of `s`, and the state of `t` that it does not replace.
  record Carried (s t : TwinStore A V F) (k : PropertyKey) (a : TwinPropertyState V F)
      : Type 0 where
    now : ℕ
    o : TwinObservation V F
    held : lookup (o.tenant_id, o.observation_id) s.observations ≡ some o
    key : property_of o ≡ k
    was : a ≡ state_of floats policy_for now o
    there : TwinPropertyState V F
    at : lookup k t.properties ≡ some there
    loses : may_replace policy_for there o ≡ false

  carry :
      (s t : TwinStore A V F) (k : PropertyKey) (a : TwinPropertyState V F)
      → IsProjected floats policy_for s
      → IsProjected floats policy_for t
      → RecordedSame s t
      → lookup k s.properties ≡ some a
      → Carried s t k a
  carry s t k a p q same e =
      let (now, o, held, key, was) = p.backed k a e in
      let id : String × String = (o.tenant_id, o.observation_id) in
      let (there, at, loses) = q.newest id o (sym (same id) ∙ held) in
      record {
        now = now;
        o = o;
        held = held;
        key = key;
        was = was;
        there = there;
        at = subst (λ z. lookup z t.properties ≡ some there) key at;
        loses = loses;
      }

  -- Two recorded observations of a property that do not beat each other are one.
  same_observation :
      (s : TwinStore A V F) (x y : TwinObservation V F)
      → lookup (x.tenant_id, x.observation_id) s.observations ≡ some x
      → lookup (y.tenant_id, y.observation_id) s.observations ≡ some y
      → property_of x ≡ property_of y
      → beats policy_for x y ≡ false
      → beats policy_for y x ≡ false
      → x ≡ y
  same_observation s x y at_x at_y key one other =
      let tenant = ap (λ z. z.tenant_id) key in
      let id = beats_antisym policy_for x y one other in
      some_unique (lookup (y.tenant_id, y.observation_id) s.observations) x y
        (sym (ap₂ (λ a b. lookup (a, b) s.observations) tenant id) ∙ at_x) at_y

  projected-Same :
      (s t : TwinStore A V F)
      → IsProjected floats policy_for s
      → IsProjected floats policy_for t
      → RecordedSame s t
      → (k : PropertyKey) → Same floats policy_for (lookup k s.properties) (lookup k t.properties)
  projected-Same s t p q same k = elim (Option-cases (lookup k s.properties)) [
    | inl e ↦ elim (Option-cases (lookup k t.properties)) [
      | inl f ↦ inl (e, f)
      | inr (b, f) ↦
          let c = carry t s k b q p (λ id. sym (same id)) f in absurd (ground (arith, e, c.at))
    ]
    | inr (a, e) ↦
        let c = carry s t k a p q same e in
        let d = carry t s k c.there q p (λ id. sym (same id)) c.at in
        let again : d.there ≡ a = some_unique (lookup k s.properties) d.there a d.at e in
        let equal : d.o ≡ c.o =
          same_observation s d.o c.o (same (d.o.tenant_id, d.o.observation_id) ∙ d.held) c.held
            (d.key ∙ sym c.key)
            (unbeaten floats policy_for c.now d.o c.o d.there (again ∙ c.was) d.loses)
            (unbeaten floats policy_for d.now c.o d.o c.there d.was c.loses) in
        inr (
          c.now,
          d.now,
          c.o,
          e ∙ ap some c.was,
          c.at ∙ ap some (d.was ∙ ap (λ z. state_of floats policy_for d.now z) equal),
        )
  ]

-- Where two streams of observations, applied to an empty store, record the same observations,
-- every property is in the state of the same observation, whatever the order they arrived in.
pub arrival_order_lost :
    {V F : Type 0} (A : Type 0) (floats : Floats F) (policy_for : String → String → SourcePolicy F)
    (os ps : List (ℕ × TwinObservation V F))
    → RecordedSame {A = A} floats policy_for
        (apply_all floats policy_for os init)
        (apply_all floats policy_for ps init)
    → (k : PropertyKey)
    → Same floats policy_for
        (lookup k (apply_all {A = A} floats policy_for os init).properties)
        (lookup k (apply_all {A = A} floats policy_for ps init).properties)
arrival_order_lost A floats policy_for os ps same k =
    let s : TwinStore A _ _ = apply_all floats policy_for os init in
    let t : TwinStore A _ _ = apply_all floats policy_for ps init in
    projected-Same floats policy_for s t (apply_all-IsProjected floats policy_for os)
      (apply_all-IsProjected floats policy_for ps) same k
