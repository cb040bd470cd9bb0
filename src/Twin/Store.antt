-- ===== src/Twin/Store.antt =====
-- src/shelfwise_twin/store.py, class InMemoryTwinStore. The lock makes each method one step; copies
-- change no value.
pub mod Isolation
use shelfwise.Prelude.{
  ℤ, String, Bool, true, false, not, ◌&&◌, ◌||◌, Option, none, some, List, [], ◌∷◌, map, keep_if,
  eqb, ltb, if◌then◌else◌, text_key, pair_key, ◌==◌, Dict, lookup, insert, set_default, contains,
  or_else,
}
use shelfwise.Prelude.Text.{text_leb}
use shelfwise.Prelude.Sort.{sort}
use shelfwise.Prelude.Results.{Result, ok, ◌>>◌}
use shelfwise.Orders.Ledger.{validate_limit, take, page_size}
use shelfwise.Twin.{TwinEntity, TwinRelationship, TwinObservation, TwinPropertyState, is_predicted}
use shelfwise.Twin.Keys.{
  PropertyKey, DedupeKey, property_key, payload_key, property_key_of, dedupe_key,
}

pub record TwinStore (A V F : Type 0) : Type 0 where
  pub entities : Dict (String × String) (TwinEntity A)
  pub relationships : Dict (String × String) (TwinRelationship A)
  pub observations : Dict (String × String) (TwinObservation V F)
  pub observation_dedupe : List DedupeKey
  pub properties : Dict PropertyKey (TwinPropertyState V F)

-- The values of a tenant's keys.
abbrev pub values_of {κ} : {W : Type κ} → String → Dict (String × String) W → List W
values_of tenant_id d = map (λ e. e.1) (keep_if (λ e. e.0.0 == tenant_id) d)

-- `store_id is None or row.store_id == store_id`
abbrev pub at_store : Option String → String → Bool
at_store none store_id = true
at_store (some wanted) store_id = store_id == wanted

abbrev pub stands_in : {A : Type 0} → String → Option (TwinEntity A) → Bool
stands_in store_id none = false
stands_in store_id (some entity) = entity.store_id == store_id

-- `dedupe_key in self._observation_dedupe`
abbrev pub in_set : DedupeKey → List DedupeKey → Bool
in_set key [] = false
in_set key (k ∷ ks) = key == k || in_set key ks

module _ {V F : Type 0} where
  -- `a` comes before `b` in a list of the newest first.
  abbrev pub is_later : TwinObservation V F → TwinObservation V F → Bool
  is_later a b =
      if eqb a.observed_at b.observed_at
      then text_leb b.observation_id a.observation_id
      else ltb b.observed_at a.observed_at

  abbrev pub by_name : TwinPropertyState V F → TwinPropertyState V F → Bool
  by_name a b =
      if a.twin_id == b.twin_id
      then text_leb a.property_name b.property_name
      else text_leb a.twin_id b.twin_id

module _ {A V F : Type 0} where
  abbrev pub init : TwinStore A V F
  init = record {
    entities = [];
    relationships = [];
    observations = [];
    observation_dedupe = [];
    properties = [];
  }

  unfoldable pub ensure_entity : TwinEntity A → TwinStore A V F → TwinEntity A × TwinStore A V F
  ensure_entity entity s =
      let key : String × String = (entity.tenant_id, entity.twin_id) in
      (
        or_else (lookup key s.entities) entity,
        record s { entities = set_default key entity s.entities },
      )

  abbrev pub get_entity : String → String → TwinStore A V F → Option (TwinEntity A)
  get_entity tenant_id twin_id s = lookup (tenant_id, twin_id) s.entities

  unfoldable pub list_entities : String → Option String → TwinStore A V F → List (TwinEntity A)
  list_entities tenant_id store_id s =
      sort (λ a b. text_leb a.twin_id b.twin_id)
        (keep_if (λ e. at_store store_id e.store_id) (values_of tenant_id s.entities))

  unfoldable pub add_relationship :
      TwinRelationship A → TwinStore A V F → TwinRelationship A × TwinStore A V F
  add_relationship relationship s =
      let key : String × String = (relationship.tenant_id, relationship.relationship_id) in
      (
        or_else (lookup key s.relationships) relationship,
        record s { relationships = set_default key relationship s.relationships },
      )

  -- `store_id is None or self._entity_in_store(...)`
  abbrev pub entity_in_store : String → String → Option String → TwinStore A V F → Bool
  entity_in_store twin_id tenant_id none s = true
  entity_in_store twin_id tenant_id (some store_id) s =
      stands_in store_id (get_entity tenant_id twin_id s)

  unfoldable pub list_relationships :
      String → Option String → TwinStore A V F → List (TwinRelationship A)
  list_relationships tenant_id store_id s =
      sort (λ a b. text_leb a.relationship_id b.relationship_id)
        (keep_if
          (λ r.
            entity_in_store r.source_twin_id tenant_id store_id s
            || entity_in_store r.target_twin_id tenant_id store_id s)
          (values_of tenant_id s.relationships))

  unfoldable pub record_observation : TwinObservation V F → TwinStore A V F → Bool × TwinStore A V F
  record_observation o s =
      let key : String × String = (o.tenant_id, o.observation_id) in
      if contains key s.observations || in_set (dedupe_key o) s.observation_dedupe
      then (false, s)
      else (
        true,
        record s {
          observations = insert key o s.observations;
          observation_dedupe = dedupe_key o ∷ s.observation_dedupe;
        },
      )

  unfoldable pub list_observations :
      String → Option String → ℤ → Bool → TwinStore A V F → Result (List (TwinObservation V F))
  list_observations tenant_id store_id limit include_predicted s =
      validate_limit limit
      >> ok (
          take (page_size limit) (
            sort is_later (
              keep_if
                (λ o.
                  at_store store_id o.store_id && (include_predicted || not (is_predicted o.lane)))
                (values_of tenant_id s.observations))))

  abbrev pub get_property : PropertyKey → TwinStore A V F → Option (TwinPropertyState V F)
  get_property key s = lookup key s.properties

  unfoldable pub upsert_property : TwinPropertyState V F → TwinStore A V F → TwinStore A V F
  upsert_property value s = record s {
    properties = insert (property_key_of value) value s.properties;
  }

  unfoldable pub list_properties :
      String → Option String → Bool → TwinStore A V F → List (TwinPropertyState V F)
  list_properties tenant_id store_id include_predicted s = sort by_name (
      map (λ e. e.1)
        (keep_if
          (λ e.
            e.0.tenant_id == tenant_id
            && entity_in_store e.0.twin_id tenant_id store_id s
            && (include_predicted || not (is_predicted e.1.lane)))
          s.properties))

  abbrev pub clear : TwinStore A V F → TwinStore A V F
  clear s = init
