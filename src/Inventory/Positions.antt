-- ===== src/Inventory/Positions.antt =====
-- src/shelfwise_inventory/store.py: `_position` and `_key`. A field that a dictionary lacks, or that
-- is false, is the empty text; other values are given by their `str()`.
use shelfwise.Prelude.{
  ℕ, String, Bool, true, not, ◌&&◌, Dict, ◌≡◌, ◌↔◌, subst, text_key, ◌==◌, ==_refl, Key, arith,
}
use shelfwise.Prelude.Text.{truthy, or_text, strip}
use shelfwise.Prelude.Results.{Result, ok, err, value_error, raise_if, ◌>>=◌, ◌>>◌}
pub use shelfwise.Prelude.{ℤ, pos, negsuc}

-- What `_position` is given.
pub record Draft : Type 0 where
  pub tenant_id : String
  pub sku : String
  pub location_type : String
  pub location_id : String
  pub bin_id : String
  pub quantity : ℤ
  pub state : String
  pub source_reference : String
  pub updated_at : String

-- What `_position` returns.
pub record Position : Type 0 where
  pub tenant_id : String
  pub sku : String
  pub location_type : String
  pub location_id : String
  pub bin_id : String
  pub quantity : ℕ
  pub state : String
  pub source_reference : String
  pub updated_at : String

-- `str(payload.get(field) or "").strip()`, which may not be empty.
unfoldable pub required : String → Result String
required s = do raise_if (not (truthy (strip s))); ok (strip s)

abbrev pub non_negative : ℤ → Result ℕ
non_negative (pos n) = ok n
non_negative (negsuc n) = err value_error

-- `_position`
unfoldable pub position : Draft → String → Result Position
unfolding required
position d now = do
  tenant_id ← required d.tenant_id
  sku ← required d.sku
  location_type ← required d.location_type
  location_id ← required d.location_id
  state ← required d.state
  source_reference ← required d.source_reference
  quantity ← non_negative d.quantity
  ok (record {
    tenant_id = tenant_id;
    sku = sku;
    location_type = location_type;
    location_id = location_id;
    bin_id = strip (or_text d.bin_id "unassigned");
    quantity = quantity;
    state = state;
    source_reference = source_reference;
    updated_at = or_text d.updated_at now;
  })

-- The tuple of `_key`.
pub record PositionKey : Type 0 where
  pub tenant_id : String
  pub sku : String
  pub location_type : String
  pub location_id : String
  pub bin_id : String

abbrev pub same_key : PositionKey → PositionKey → Bool
same_key a b =
    a.tenant_id == b.tenant_id
    && a.sku == b.sku
    && a.location_type == b.location_type
    && a.location_id == b.location_id
    && a.bin_id == b.bin_id

pub same_key_iff : (a b : PositionKey) → (same_key a b ≡ true) ↔ (a ≡ b)
same_key_iff a b = (
  λ h. ground (
    arith,
    text_key.same_iff a.tenant_id b.tenant_id,
    text_key.same_iff a.sku b.sku,
    text_key.same_iff a.location_type b.location_type,
    text_key.same_iff a.location_id b.location_id,
    text_key.same_iff a.bin_id b.bin_id,
  ),
  λ h.
      subst (λ (x : PositionKey). same_key a x ≡ true) h
        (ground (
          arith,
          ==_refl a.tenant_id,
          ==_refl a.sku,
          ==_refl a.location_type,
          ==_refl a.location_id,
          ==_refl a.bin_id,
        )),
)

instance abbrev pub position_key : Key PositionKey
position_key = record { same = same_key; same_iff = same_key_iff }

-- `_key`
abbrev pub key_of : Position → PositionKey
key_of p = record {
  tenant_id = p.tenant_id;
  sku = p.sku;
  location_type = p.location_type;
  location_id = p.location_id;
  bin_id = p.bin_id;
}

abbrev pub Positions : Type 0
Positions = Dict PositionKey Position
