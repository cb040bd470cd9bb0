-- ===== src/Twin/Projector/Order.antt =====
-- The order in which observations win in src/shelfwise_twin/projector.py.
use shelfwise.Prelude.{
  ℕ, String, Bool, true, false, not, ◌≡◌, refl, eqb, ltb, if◌then◌else◌, text_key, pair_key, arith,
  inl, inr, Bool-cases,
}
use shelfwise.Prelude.Text.{text_leb}
use shelfwise.Prelude.Text.Order.{text_leb-total, text_leb_trans, text_leb_antisym}
use shelfwise.Twin.{TwinObservation}
use shelfwise.Twin.Keys.{property_of, property_key, property_key_of}
use shelfwise.Twin.Projector.{SourcePolicy, Floats, may_replace, state_of}

greater_trans :
    (a b c : String) → text_leb a b ≡ false → text_leb b c ≡ false → text_leb a c ≡ false
greater_trans a b c h k = elim (Bool-cases (text_leb a c)) [
  | inl e ↦ absurd (ground (arith, h, e, text_leb_trans a c b e (text_leb-total b c k)))
  | inr e ↦ e
]

module _ {V F : Type 0} (policy_for : String → String → SourcePolicy F) where
  abbrev pub rank : TwinObservation V F → ℕ
  rank o = (policy_for o.property_name o.source_system).precedence

  -- `a` is newer than `b`, or as new and of the stronger source, or by the greater id.
  abbrev pub beats : TwinObservation V F → TwinObservation V F → Bool
  beats a b =
      if ltb b.observed_at a.observed_at
      then true
      else if ltb a.observed_at b.observed_at
      then false
      else if not (eqb (rank a) (rank b))
      then ltb (rank a) (rank b)
      else not (text_leb a.observation_id b.observation_id)

  pub beats_self : (a : TwinObservation V F) → beats a a ≡ false
  beats_self a = elim (Bool-cases (text_leb a.observation_id a.observation_id)) [
    | inl e ↦ ground (arith, e)
    | inr e ↦ ground (arith, e, text_leb-total a.observation_id a.observation_id e)
  ]

  pub beats_trans :
      (a b c : TwinObservation V F) → beats a b ≡ true → beats b c ≡ true → beats a c ≡ true
  beats_trans a b c h k =
      ground (arith, h, k, greater_trans a.observation_id b.observation_id c.observation_id)

  -- What an observation beats is still beaten by one that beats that observation.
  pub still_beaten :
      (a b c : TwinObservation V F) → beats b c ≡ true → beats a c ≡ false → beats a b ≡ false
  still_beaten a b c h k = elim (Bool-cases (beats a b)) [
    | inl e ↦ absurd (ground (arith, k, beats_trans a b c e h))
    | inr e ↦ e
  ]

  pub beats_antisym :
      (a b : TwinObservation V F)
      → beats a b ≡ false
      → beats b a ≡ false
      → a.observation_id ≡ b.observation_id
  beats_antisym a b h k =
      text_leb_antisym a.observation_id b.observation_id (ground (arith, h, k))
        (ground (arith, h, k))

module _ {V F : Type 0} (floats : Floats F) (policy_for : String → String → SourcePolicy F) where
  pub replace-beats :
      (now : ℕ) (a b : TwinObservation V F)
      → may_replace policy_for (state_of floats policy_for now b) a ≡ beats policy_for a b
  unfolding may_replace state_of
  replace-beats now a b = refl

  pub property-state :
      (now : ℕ) (o : TwinObservation V F)
      → property_key_of (state_of floats policy_for now o) ≡ property_of o
  unfolding state_of
  property-state now o = refl
