-- ===== src/Contracts/Json.antt =====
-- The JSON values of events, and `deepcopy_json` and `_copy_json_value` of
-- src/shelfwise_contracts/__init__.py. Numbers are integers.
use shelfwise.Prelude.{
  String, Bool, true, false, not, Option, none, some, if◌then◌else◌, ℤ, pos, negsuc, eqb, text_key,
  ◌==◌, ◌≡◌, refl, ap, ap₂,
}
use shelfwise.Prelude.Text.{truthy}

mutual
  pub data Json : Type 0 where
    null : Json
    boolean : Bool → Json
    number : ℤ → Json
    text : String → Json
    array : Items → Json
    object : Members → Json

  pub data Items : Type 0 where
    no_items : Items
    item : Json → Items → Items

  pub data Members : Type 0 where
    no_members : Members
    member : String → Json → Members → Members

-- `value.get(key)`; a member that is not there is none.
unfoldable pub get : String → Members → Option Json
get key no_members = none
get key (member k v ms) = let rest = get key ms in if key == k then some v else rest

-- `bool(value)`
abbrev pub json_truthy : Json → Bool
json_truthy null = false
json_truthy (boolean b) = b
json_truthy (number (pos n)) = not (eqb n 0)
json_truthy (number (negsuc n)) = true
json_truthy (text s) = truthy s
json_truthy (array no_items) = false
json_truthy (array (item j js)) = true
json_truthy (object no_members) = false
json_truthy (object (member k v ms)) = true

unfoldable mutual
  pub copy_json_value : Json → Json
  copy_json_value null = null
  copy_json_value (boolean b) = boolean b
  copy_json_value (number z) = number z
  copy_json_value (text s) = text s
  copy_json_value (array js) = array (copy_items js)
  copy_json_value (object ms) = object (deepcopy_json ms)

  pub copy_items : Items → Items
  copy_items no_items = no_items
  copy_items (item j js) = item (copy_json_value j) (copy_items js)

  pub deepcopy_json : Members → Members
  deepcopy_json no_members = no_members
  deepcopy_json (member k v ms) = member k (copy_json_value v) (deepcopy_json ms)

mutual
  unfolding copy_json_value copy_items deepcopy_json

  copy_json_value-same : (j : Json) → copy_json_value j ≡ j
  copy_json_value-same null = refl
  copy_json_value-same (boolean b) = refl
  copy_json_value-same (number z) = refl
  copy_json_value-same (text s) = refl
  copy_json_value-same (array js) = ap array (copy_items-same js)
  copy_json_value-same (object ms) = ap object (deepcopy_json-same ms)

  copy_items-same : (js : Items) → copy_items js ≡ js
  copy_items-same no_items = refl
  copy_items-same (item j js) = ap₂ item (copy_json_value-same j) (copy_items-same js)

  pub deepcopy_json-same : (ms : Members) → deepcopy_json ms ≡ ms
  deepcopy_json-same no_members = refl
  deepcopy_json-same (member k v ms) =
      ap₂ (member k) (copy_json_value-same v) (deepcopy_json-same ms)
