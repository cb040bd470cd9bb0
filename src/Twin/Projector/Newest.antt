-- ===== src/Twin/Projector/Newest.antt =====
-- The states that the projector of src/shelfwise_twin/projector.py keeps.
use shelfwise.Prelude.{
  ℕ, String, true, false, ◌||◌, ◌≡◌, sym, ap, subst, ◌∙◌, none, some, List, [], ◌∷◌, if◌then◌else◌,
  text_key, pair_key, ◌==◌, lookup, lookup-insert, lookup-nil, contains, insert, ==→eq, ==_refl,
  ◌⊎◌, arith, inl, inr, Option-cases, Bool-cases, Key-cases,
}
use shelfwise.Twin.{TwinObservation, TwinPropertyState}
use shelfwise.Twin.Keys.{PropertyKey, property_of, property_key, dedupe_key}
use shelfwise.Twin.Store.{TwinStore, init, record_observation, upsert_property, in_set}
use shelfwise.Twin.Projector.{SourcePolicy, Floats, may_replace, state_of, apply, apply_all}
use shelfwise.Twin.Projector.Order.{beats, beats_self, still_beaten, replace-beats, property-state}

module _ {A V F : Type 0} (floats : Floats F) (policy_for : String → String → SourcePolicy F) where
  -- The state of a property is that of a recorded observation of the property that no recorded
  -- observation of it beats.
  pub record IsProjected (s : TwinStore A V F) : Type 0 where
    pub filed :
        (k : String × String) (o : TwinObservation V F)
        → lookup k s.observations ≡ some o
        → k ≡ (o.tenant_id, o.observation_id)
    pub backed :
        (k : PropertyKey) (state : TwinPropertyState V F)
        → lookup k s.properties ≡ some state
        → (now : ℕ) × (o : TwinObservation V F) × (lookup
              (o.tenant_id, o.observation_id)
              s.observations
            ≡ some o)
          × (property_of o ≡ k)
          × (state ≡ state_of floats policy_for now o)
    pub newest :
        (k : String × String) (o : TwinObservation V F)
        → lookup k s.observations ≡ some o
        → (state : TwinPropertyState V F) × (lookup (property_of o) s.properties ≡ some state)
          × (may_replace policy_for state o ≡ false)

  pub init-IsProjected : IsProjected init
  init-IsProjected = record {
    filed = λ k o h. absurd (ground (arith, h, lookup-nil {V = TwinObservation V F} k));
    backed = λ k state h. absurd (ground (arith, h, lookup-nil {V = TwinPropertyState V F} k));
    newest = λ k o h. absurd (ground (arith, h, lookup-nil {V = TwinObservation V F} k));
  }

  -- The store with one more observation.
  abbrev recorded : TwinObservation V F → TwinStore A V F → TwinStore A V F
  recorded o s = record s {
    observations = insert (o.tenant_id, o.observation_id) o s.observations;
    observation_dedupe = dedupe_key o ∷ s.observation_dedupe;
  }

  module _ (o : TwinObservation V F) (s : TwinStore A V F) (p : IsProjected s)
      (new : lookup (o.tenant_id, o.observation_id) s.observations ≡ none) where
    filed-recorded :
        (k : String × String) (x : TwinObservation V F)
        → lookup k (recorded o s).observations ≡ some x
        → ((k ≡ (o.tenant_id, o.observation_id)) × (x ≡ o)) ⊎ (lookup k s.observations ≡ some x)
    filed-recorded k x h = elim (Bool-cases (k == (o.tenant_id, o.observation_id))) [
      | inl e ↦ inl (
        ==→eq k (o.tenant_id, o.observation_id) e,
        ground (arith, e, h, lookup-insert (o.tenant_id, o.observation_id) k o s.observations),
      )
      | inr e ↦
          inr
            (ground (arith, e, h, lookup-insert (o.tenant_id, o.observation_id) k o s.observations))
    ]

    kept-recorded :
        (k : String × String) (x : TwinObservation V F)
        → lookup k s.observations ≡ some x
        → lookup k (recorded o s).observations ≡ some x
    kept-recorded k x h = elim (Key-cases k (o.tenant_id, o.observation_id)) [
      | inl e ↦ absurd (ground (arith, new, subst (λ z. lookup z s.observations ≡ some x) e h))
      | inr e ↦
          ground (arith, e, h, lookup-insert (o.tenant_id, o.observation_id) k o s.observations)
    ]

    self-recorded : lookup (o.tenant_id, o.observation_id) (recorded o s).observations ≡ some o
    self-recorded = ground (
      arith,
      ==_refl {A = String × String} (o.tenant_id, o.observation_id),
      lookup-insert (o.tenant_id, o.observation_id) (o.tenant_id, o.observation_id) o
          s.observations,
    )

    recorded-IsProjected :
        (state : TwinPropertyState V F)
        → lookup (property_of o) s.properties ≡ some state
        → may_replace policy_for state o ≡ false
        → IsProjected (recorded o s)
    recorded-IsProjected state at loses = record {
      filed = λ k x h. elim (filed-recorded k x h) [
        | inl (e, f) ↦ e ∙ sym (ap (λ z. (z.tenant_id, z.observation_id)) f)
        | inr old ↦ p.filed k x old
      ];
      backed = λ k st h.
          let (now, x, at_x, key, made) = p.backed k st h in
          (now, x, kept-recorded (x.tenant_id, x.observation_id) x at_x, key, made);
      newest = λ k x h. elim (filed-recorded k x h) [
        | inl (e, f) ↦
            subst
              (λ z.
                (st : TwinPropertyState V F) × (lookup (property_of z) s.properties ≡ some st)
                × (may_replace policy_for st z ≡ false))
              (sym f) (state, at, loses)
        | inr old ↦ p.newest k x old
      ];
    }

    accepted-IsProjected :
        (now : ℕ)
        → ((state : TwinPropertyState V F)
            → lookup (property_of o) s.properties ≡ some state
            → may_replace policy_for state o ≡ true)
        → IsProjected (upsert_property (state_of floats policy_for now o) (recorded o s))
    unfolding upsert_property
    accepted-IsProjected now wins =
        let made : TwinPropertyState V F = state_of floats policy_for now o in
        let at = λ (k : PropertyKey).
          subst
            (λ z.
              lookup k (insert z made s.properties)
              ≡ (if k == property_of o then some made else lookup k s.properties))
            (sym (property-state floats policy_for now o))
            (lookup-insert (property_of o) k made s.properties) in
        record {
          filed = λ k x h. elim (filed-recorded k x h) [
            | inl (e, f) ↦ e ∙ sym (ap (λ z. (z.tenant_id, z.observation_id)) f)
            | inr old ↦ p.filed k x old
          ];
          backed = λ k st h. elim (Key-cases k (property_of o)) [
            | inl e ↦ (
              now,
              o,
              self-recorded,
              sym e,
              ground (arith, h, at k, (property_key.same_iff k (property_of o)).1 e),
            )
            | inr e ↦
                let (now', x, at_x, key, made') = p.backed k st (ground (arith, h, at k, e)) in
                (now', x, kept-recorded (x.tenant_id, x.observation_id) x at_x, key, made')
          ];
          newest = λ k x h. elim (filed-recorded k x h) [
            | inl (e, f) ↦
                subst
                  (λ z.
                    (st : TwinPropertyState V F) × (lookup (property_of z)
                        (upsert_property made (recorded o s)).properties
                      ≡ some st)
                    × (may_replace policy_for st z ≡ false))
                  (sym f)
                  (
                    made,
                    ground (arith, at (property_of o), ==_refl (property_of o)),
                    replace-beats floats policy_for now o o ∙ beats_self policy_for o,
                  )
            | inr old ↦
                let (st, at_st, loses) = p.newest k x old in
                elim (Key-cases (property_of x) (property_of o)) [
                  | inl e ↦
                      let (then_, w, _, _, was) = p.backed (property_of x) st at_st in
                      let over : beats policy_for o w ≡ true =
                        sym (replace-beats floats policy_for then_ o w)
                        ∙ ap (λ z. may_replace policy_for z o) (sym was)
                        ∙ wins st (subst (λ z. lookup z s.properties ≡ some st) e at_st) in
                      let under : beats policy_for x w ≡ false =
                        sym (replace-beats floats policy_for then_ x w)
                        ∙ ap (λ z. may_replace policy_for z x) (sym was)
                        ∙ loses in
                      (
                        made,
                        ground (
                          arith,
                          at (property_of x),
                          (property_key.same_iff (property_of x) (property_of o)).1 e,
                        ),
                        replace-beats floats policy_for now x o
                            ∙ still_beaten policy_for x o w over under,
                      )
                  | inr e ↦ (st, ground (arith, at (property_of x), at_st, e), loses)
                ]
          ];
        }

  pub apply-IsProjected :
      (now : ℕ) (o : TwinObservation V F) (s : TwinStore A V F)
      → IsProjected s
      → IsProjected (apply floats policy_for now o s).1
  unfolding apply record_observation
  apply-IsProjected now o s p =
      elim (Bool-cases (
        contains (o.tenant_id, o.observation_id) s.observations
        || in_set (dedupe_key o) s.observation_dedupe)) [
          | inl e ↦ rw e p
          | inr e ↦
              let new : lookup (o.tenant_id, o.observation_id) s.observations ≡ none =
                ground (arith, e) in
              rw e (elim (Option-cases (lookup (property_of o) s.properties)) [
                | inl none_ ↦ rw none_ (
                    accepted-IsProjected o s p new now
                      (λ state h. absurd (ground (arith, h, none_))))
                | inr (current, at) ↦ rw at (elim (Bool-cases (may_replace policy_for current o)) [
                  | inl wins ↦
                      rw wins (
                        accepted-IsProjected o s p new now (λ state h. ground (arith, h, at, wins)))
                  | inr loses ↦ rw loses (recorded-IsProjected o s p new current at loses)
                ])
              ])
        ]

  apply_all_keeps :
      (os : List (ℕ × TwinObservation V F)) (s : TwinStore A V F)
      → IsProjected s
      → IsProjected (apply_all floats policy_for os s)
  unfolding apply_all
  apply_all_keeps [] s p = p
  apply_all_keeps ((now, o) ∷ os) s p =
      apply_all_keeps os (apply floats policy_for now o s).1 (apply-IsProjected now o s p)

-- Whatever observations are applied to an empty store, the state of a property is that of a
-- recorded observation of the property, and no recorded observation of it may replace that state.
pub apply_all-IsProjected :
    {A V F : Type 0} (floats : Floats F) (policy_for : String → String → SourcePolicy F)
    (os : List (ℕ × TwinObservation V F))
    → IsProjected {A = A} floats policy_for (apply_all floats policy_for os init)
apply_all-IsProjected floats policy_for os =
    apply_all_keeps floats policy_for os init (init-IsProjected floats policy_for)
