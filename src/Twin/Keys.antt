-- ===== src/Twin/Keys.antt =====
-- The keys of the dictionaries and sets of src/shelfwise_twin/store.py.
use shelfwise.Prelude.{
  String, Bool, true, ◌&&◌, text_key, Key, ◌==◌, ==_refl, ◌≡◌, ◌↔◌, subst, arith, or_else,
}
use shelfwise.Twin.{TwinObservation, TwinPropertyState, value_of}

-- What `_property_key` returns.
pub record PropertyKey : Type 0 where
  pub tenant_id : String
  pub twin_id : String
  pub property_name : String
  pub lane : String
  pub branch : String

abbrev pub same_property : PropertyKey → PropertyKey → Bool
same_property a b =
    a.tenant_id == b.tenant_id
    && a.twin_id == b.twin_id
    && a.property_name == b.property_name
    && a.lane == b.lane
    && a.branch == b.branch

pub same_property_iff : (a b : PropertyKey) → (same_property a b ≡ true) ↔ (a ≡ b)
same_property_iff a b = (
  λ h. ground (
    arith,
    text_key.same_iff a.tenant_id b.tenant_id,
    text_key.same_iff a.twin_id b.twin_id,
    text_key.same_iff a.property_name b.property_name,
    text_key.same_iff a.lane b.lane,
    text_key.same_iff a.branch b.branch,
  ),
  λ h.
      subst (λ (x : PropertyKey). same_property a x ≡ true) h
        (ground (
          arith,
          ==_refl a.tenant_id,
          ==_refl a.twin_id,
          ==_refl a.property_name,
          ==_refl a.lane,
          ==_refl a.branch,
        )),
)

instance abbrev pub property_key : Key PropertyKey
property_key = record { same = same_property; same_iff = same_property_iff }

-- The identity of a source's payload, in `record_observation`.
pub record DedupeKey : Type 0 where
  pub tenant_id : String
  pub source_system : String
  pub source_object_id : String
  pub property_name : String
  pub lane : String
  pub payload_hash : String

abbrev pub same_payload : DedupeKey → DedupeKey → Bool
same_payload a b =
    a.tenant_id == b.tenant_id
    && a.source_system == b.source_system
    && a.source_object_id == b.source_object_id
    && a.property_name == b.property_name
    && a.lane == b.lane
    && a.payload_hash == b.payload_hash

pub same_payload_iff : (a b : DedupeKey) → (same_payload a b ≡ true) ↔ (a ≡ b)
same_payload_iff a b = (
  λ h. ground (
    arith,
    text_key.same_iff a.tenant_id b.tenant_id,
    text_key.same_iff a.source_system b.source_system,
    text_key.same_iff a.source_object_id b.source_object_id,
    text_key.same_iff a.property_name b.property_name,
    text_key.same_iff a.lane b.lane,
    text_key.same_iff a.payload_hash b.payload_hash,
  ),
  λ h.
      subst (λ (x : DedupeKey). same_payload a x ≡ true) h
        (ground (
          arith,
          ==_refl a.tenant_id,
          ==_refl a.source_system,
          ==_refl a.source_object_id,
          ==_refl a.property_name,
          ==_refl a.lane,
          ==_refl a.payload_hash,
        )),
)

instance abbrev pub payload_key : Key DedupeKey
payload_key = record { same = same_payload; same_iff = same_payload_iff }

module _ {V F : Type 0} where
  -- `_property_key` of an observation, as `apply` asks for it.
  abbrev pub property_of : TwinObservation V F → PropertyKey
  property_of o = record {
    tenant_id = o.tenant_id;
    twin_id = o.twin_id;
    property_name = o.property_name;
    lane = value_of o.lane;
    branch = or_else o.scenario_branch_id "";
  }

  -- `_property_key` of a state, as `upsert_property` builds it.
  abbrev pub property_key_of : TwinPropertyState V F → PropertyKey
  property_key_of s = record {
    tenant_id = s.tenant_id;
    twin_id = s.twin_id;
    property_name = s.property_name;
    lane = value_of s.lane;
    branch = or_else s.scenario_branch_id "";
  }

  abbrev pub dedupe_key : TwinObservation V F → DedupeKey
  dedupe_key o = record {
    tenant_id = o.tenant_id;
    source_system = o.source_system;
    source_object_id = o.source_object_id;
    property_name = o.property_name;
    lane = value_of o.lane;
    payload_hash = o.payload_hash;
  }
