-- ===== src/Twin/Store/Isolation.antt =====
-- What the reads of src/shelfwise_twin/store.py show of other tenants and of scenarios.
use shelfwise.Prelude.{
  ℕ, zero, suc, ℤ, String, Bool, true, not, ◌&&◌, ◌||◌, ◌≡◌, refl, ap, sym, subst, ◌∙◌, Option,
  List, [], ◌∷◌, keep_if, text_key, pair_key, ◌==◌, ==_iff, Dict, contains, All, inl, inr,
  Bool-cases, arith,
}
use shelfwise.Prelude.Entries.{All-insert, All-set_default, All-kept, All-map}
use shelfwise.Prelude.Sort.{sort, sort-All}
use shelfwise.Prelude.Results.{ok, bind-ok}
use shelfwise.Orders.Ledger.{take, validate_limit, page_size}
use shelfwise.Twin.{TwinEntity, TwinRelationship, TwinObservation, TwinPropertyState, is_predicted}
use shelfwise.Twin.Keys.{property_key, property_key_of}
use shelfwise.Twin.Store.{
  TwinStore, init, ensure_entity, add_relationship, record_observation, upsert_property, clear,
  values_of, at_store, is_later, by_name, in_set, list_entities, list_relationships,
  list_observations, list_properties,
}
use shelfwise.Twin.Keys.{dedupe_key}

All-take : {A : Type 0} (P : A → Type 0) (n : ℕ) (xs : List A) → All P xs → All P (take n xs)
All-take P zero xs h = tt
All-take P (suc n) [] h = tt
All-take P (suc n) (x ∷ xs) h = (h.0, All-take P n xs h.1)

-- The values of a tenant's keys are the tenant's.
values_of-own :
    {W : Type 0} (tenant_of : W → String) (t : String) (d : Dict (String × String) W)
    → All (λ e. e.0.0 ≡ tenant_of e.1) d
    → All (λ w. tenant_of w ≡ t) (values_of t d)
values_of-own tenant_of t d h =
    All-map (λ w. tenant_of w ≡ t) (λ e. e.1) (keep_if (λ e. e.0.0 == t) d)
      (All-kept (λ e. e.0.0 ≡ tenant_of e.1) (λ e. tenant_of e.1 ≡ t) (λ e. e.0.0 == t) d
        (λ e k p. sym k ∙ (==_iff e.0.0 t).0 p) h)

-- The calls that change the store.
pub data Call (A V F : Type 0) : Type 0 where
  ensure : TwinEntity A → Call A V F
  relate : TwinRelationship A → Call A V F
  observe : TwinObservation V F → Call A V F
  upsert : TwinPropertyState V F → Call A V F
  reset : Call A V F

module _ {A V F : Type 0} where
  -- Everything stands under a key that begins with its own tenant.
  pub record IsFiled (s : TwinStore A V F) : Type 0 where
    pub entities : All (λ e. e.0.0 ≡ e.1.tenant_id) s.entities
    pub relationships : All (λ e. e.0.0 ≡ e.1.tenant_id) s.relationships
    pub observations : All (λ e. e.0.0 ≡ e.1.tenant_id) s.observations
    pub properties : All (λ e. e.0 ≡ property_key_of e.1) s.properties

  unfoldable pub perform : Call A V F → TwinStore A V F → TwinStore A V F
  perform (ensure entity) s = (ensure_entity entity s).1
  perform (relate relationship) s = (add_relationship relationship s).1
  perform (observe o) s = (record_observation o s).1
  perform (upsert state) s = upsert_property state s
  perform reset s = clear s

  unfoldable pub run : List (Call A V F) → TwinStore A V F → TwinStore A V F
  run [] s = s
  run (c ∷ cs) s = run cs (perform c s)

  record_observation-IsFiled :
      (o : TwinObservation V F) (s : TwinStore A V F)
      → IsFiled s
      → IsFiled (record_observation o s).1
  unfolding record_observation
  record_observation-IsFiled o s h =
      elim (Bool-cases (
        contains (o.tenant_id, o.observation_id) s.observations
        || in_set (dedupe_key o) s.observation_dedupe)) [
          | inl e ↦ rw e h
          | inr e ↦ rw e record {
            entities = h.entities;
            relationships = h.relationships;
            observations =
                All-insert (λ e. e.0.0 ≡ e.1.tenant_id) (o.tenant_id, o.observation_id) o
                  s.observations refl h.observations;
            properties = h.properties;
          }
        ]

  perform-IsFiled : (c : Call A V F) (s : TwinStore A V F) → IsFiled s → IsFiled (perform c s)
  unfolding perform ensure_entity add_relationship upsert_property
  perform-IsFiled (ensure entity) s h = record {
    entities =
        All-set_default (λ e. e.0.0 ≡ e.1.tenant_id) (entity.tenant_id, entity.twin_id) entity
          s.entities refl h.entities;
    relationships = h.relationships;
    observations = h.observations;
    properties = h.properties;
  }
  perform-IsFiled (relate r) s h = record {
    entities = h.entities;
    relationships =
        All-set_default (λ e. e.0.0 ≡ e.1.tenant_id) (r.tenant_id, r.relationship_id) r
          s.relationships refl h.relationships;
    observations = h.observations;
    properties = h.properties;
  }
  perform-IsFiled (observe o) s h = record_observation-IsFiled o s h
  perform-IsFiled (upsert state) s h = record {
    entities = h.entities;
    relationships = h.relationships;
    observations = h.observations;
    properties =
        All-insert (λ e. e.0 ≡ property_key_of e.1) (property_key_of state) state s.properties refl
          h.properties;
  }
  perform-IsFiled reset s h = record {
    entities = tt;
    relationships = tt;
    observations = tt;
    properties = tt;
  }

  run-IsFiled : (cs : List (Call A V F)) (s : TwinStore A V F) → IsFiled s → IsFiled (run cs s)
  unfolding run
  run-IsFiled [] s h = h
  run-IsFiled (c ∷ cs) s h = run-IsFiled cs (perform c s) (perform-IsFiled c s h)

  init-IsFiled : IsFiled init
  init-IsFiled = record { entities = tt; relationships = tt; observations = tt; properties = tt }

  -- What the reads show to a tenant who asks for scenarios or not.
  pub record IsIsolated (t : String) (store_id : Option String) (limit : ℤ) (scenarios : Bool)
      (s : TwinStore A V F) : Type 0 where
    pub own_entities : All (λ e. e.tenant_id ≡ t) (list_entities t store_id s)
    pub own_relationships : All (λ r. r.tenant_id ≡ t) (list_relationships t store_id s)
    pub own_observations :
        (rows : List (TwinObservation V F))
        → list_observations t store_id limit scenarios s ≡ ok rows
        → All (λ o. (o.tenant_id ≡ t) × ((scenarios || not (is_predicted o.lane)) ≡ true)) rows
    pub own_properties :
        All
          (λ p. (p.tenant_id ≡ t) × ((scenarios || not (is_predicted p.lane)) ≡ true))
          (list_properties t store_id scenarios s)

  IsFiled-IsIsolated :
      (t : String) (store_id : Option String) (limit : ℤ) (scenarios : Bool) (s : TwinStore A V F)
      → IsFiled s
      → IsIsolated t store_id limit scenarios s
  unfolding list_entities list_relationships list_observations list_properties
  IsFiled-IsIsolated t store_id limit scenarios s h =
      let shown = λ (o : TwinObservation V F).
        at_store store_id o.store_id && (scenarios || not (is_predicted o.lane)) in
      let entities = values_of-own (λ (e : TwinEntity A). e.tenant_id) t s.entities h.entities in
      let relationships =
        values_of-own (λ (r : TwinRelationship A). r.tenant_id) t s.relationships h.relationships in
      let observations =
        values_of-own (λ (o : TwinObservation V F). o.tenant_id) t s.observations h.observations in
      let P = λ (p : TwinPropertyState V F).
        (p.tenant_id ≡ t) × ((scenarios || not (is_predicted p.lane)) ≡ true) in
      record {
        own_entities =
            sort-All _ (λ e. e.tenant_id ≡ t) _
              (All-kept (λ e. e.tenant_id ≡ t) _ _ (values_of t s.entities) (λ e k p. k) entities);
        own_relationships =
            sort-All _ (λ r. r.tenant_id ≡ t) _
              (All-kept (λ r. r.tenant_id ≡ t) _ _ (values_of t s.relationships) (λ r k p. k)
                relationships);
        own_observations = λ rows e.
            let (u, (valid, same)) = bind-ok (validate_limit limit) _ rows e in
            let kept = keep_if shown (values_of t s.observations) in
            let P = λ (o : TwinObservation V F).
              (o.tenant_id ≡ t) × ((scenarios || not (is_predicted o.lane)) ≡ true) in
            let all : All P (take (page_size limit) (sort is_later kept)) =
              All-take P (page_size limit) (sort is_later kept) (
                sort-All is_later P kept (
                  All-kept (λ o. o.tenant_id ≡ t) P shown (values_of t s.observations)
                    (λ o k p. (k, ground (arith, p))) observations)) in
            let eq : take (page_size limit) (sort is_later kept) ≡ rows = ground (arith, same) in
            subst (All P) eq all;
        own_properties = sort-All by_name P _ (
            All-map P (λ e. e.1) _
              (All-kept (λ e. e.0 ≡ property_key_of e.1) (λ e. P e.1) _ s.properties
                (λ e k p. (
                  sym (ap (λ z. z.tenant_id) k) ∙ (==_iff e.0.tenant_id t).0 (ground (arith, p)),
                  ground (arith, p),
                ))
                h.properties));
      }

-- After any calls, the lists that a tenant reads have entities, relationships, observations and
-- properties of that tenant only, and predictions of scenarios only where these are asked for.
pub run-IsIsolated :
    {A V F : Type 0} (cs : List (Call A V F)) (t : String) (store_id : Option String) (limit : ℤ)
    (scenarios : Bool)
    → IsIsolated t store_id limit scenarios (run cs init)
run-IsIsolated cs t store_id limit scenarios =
    IsFiled-IsIsolated t store_id limit scenarios (run cs init) (run-IsFiled cs init init-IsFiled)
