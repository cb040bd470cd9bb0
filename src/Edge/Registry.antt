-- ===== src/Edge/Registry.antt =====
-- src/shelfwise_edge/registry.py, class InMemoryEdgeDeviceRegistry. The lock makes each method one
-- step; a method returns the registry after it.
pub mod Devices
pub mod Batches
pub mod Postgres
use shelfwise.Prelude.{
  ℕ, String, Bool, true, false, not, ◌&&◌, ◌||◌, Option, none, some, List, [], ◌∷◌, map, text_key,
  pair_key, ◌==◌, if◌then◌else◌, Dict, lookup, insert, remove, contains, keep_if,
}
use shelfwise.Prelude.Text.{strip, truthy, text_leb}
use shelfwise.Prelude.Sort.{sort}
use shelfwise.Prelude.Results.{Result, ok, err, value_error, raise_if, ◌>>=◌, ◌>>◌}

-- `EdgeDevice`; the secret is its bytes.
pub record EdgeDevice : Type 0 where
  pub device_id : String
  pub tenant_id : String
  pub store_id : String
  pub hmac_secret : List ℕ
  pub active : Bool

-- The texts "claimed" and "completed" of `_batches`.
pub data BatchState : Type 0 where
  claimed completed : BatchState

pub record Registry : Type 0 where
  pub devices : Dict String EdgeDevice
  pub batches : Dict (String × String) BatchState

abbrev pub init : Registry
init = record { devices = []; batches = [] }

abbrev pub is_empty : List ℕ → Bool
is_empty [] = true
is_empty (b ∷ bs) = false

unfoldable pub register : EdgeDevice → Registry → Result Registry
register device r = do
  raise_if (not (truthy (strip device.device_id)) || is_empty device.hmac_secret)
  raise_if (contains device.device_id r.devices)
  ok (record r { devices = insert device.device_id device r.devices })

-- The metadata that `provision` returns.
pub record Identity : Type 0 where
  pub device_id : String
  pub tenant_id : String
  pub store_id : String

unfoldable pub provision : EdgeDevice → Registry → Result (Identity × Registry)
unfolding register
provision device r = do
  r' ← register device r
  ok (
    record {
      device_id = device.device_id;
      tenant_id = device.tenant_id;
      store_id = device.store_id;
    },
    r',
  )

-- A row of `list_devices`.
pub record DeviceRow : Type 0 where
  pub device_id : String
  pub tenant_id : String
  pub store_id : String
  pub active : Bool

abbrev pub row_of : EdgeDevice → DeviceRow
row_of item = record {
  device_id = item.device_id;
  tenant_id = item.tenant_id;
  store_id = item.store_id;
  active = item.active;
}

-- `store_id is None or item.store_id == store_id`
abbrev pub in_store : Option String → String → Bool
in_store none s = true
in_store (some store) s = s == store

abbrev pub device_values : Dict String EdgeDevice → List EdgeDevice
device_values d = map (λ e. e.1) d

abbrev pub in_scope : String → Option String → EdgeDevice → Bool
in_scope tenant store item = item.tenant_id == tenant && in_store store item.store_id

abbrev by_device_id : DeviceRow → DeviceRow → Bool
by_device_id a b = text_leb a.device_id b.device_id

unfoldable pub list_devices : String → Option String → Registry → List DeviceRow
list_devices tenant store r =
    sort by_device_id (map row_of (keep_if (in_scope tenant store) (device_values r.devices)))

abbrev if_active : Option EdgeDevice → Option EdgeDevice
if_active none = none
if_active (some device) = if device.active then some device else none

unfoldable pub get_active : String → Registry → Option EdgeDevice
get_active device_id r = if_active (lookup device_id r.devices)

-- The test of `revoke`: an active device within the tenant and the store.
abbrev may_revoke : String → String → EdgeDevice → Bool
may_revoke tenant store device =
    device.active && device.tenant_id == tenant && device.store_id == store

revoke_found : String → String → String → Option EdgeDevice → Registry → Bool × Registry
revoke_found device_id tenant store none r = (false, r)
revoke_found device_id tenant store (some device) r =
    if may_revoke tenant store device
    then (
      true,
      record r { devices = insert device_id (record device { active = false }) r.devices },
    )
    else (false, r)

unfoldable pub revoke : String → String → String → Registry → Bool × Registry
unfolding revoke_found
revoke device_id tenant store r = revoke_found device_id tenant store (lookup device_id r.devices) r

-- The text that `claim_batch` returns.
pub data Claim : Type 0 where
  claimed in_progress completed : Claim

claim_found : String × String → Option BatchState → Registry → Claim × Registry
claim_found key (some BatchState.claimed) r = (Claim.in_progress, r)
claim_found key (some BatchState.completed) r = (Claim.completed, r)
claim_found key none r =
    (Claim.claimed, record r { batches = insert key BatchState.claimed r.batches })

unfoldable pub claim_batch : String × String → Registry → Claim × Registry
unfolding claim_found
claim_batch key r = claim_found key (lookup key r.batches) r

-- `self._batches.get(key) == "claimed"`
abbrev pub is_claimed : Option BatchState → Bool
is_claimed (some BatchState.claimed) = true
is_claimed _ = false

unfoldable pub complete_batch : String × String → Registry → Bool × Registry
complete_batch key r =
    if is_claimed (lookup key r.batches)
    then (true, record r { batches = insert key BatchState.completed r.batches })
    else (false, r)

unfoldable pub release_batch : String × String → Registry → Bool × Registry
release_batch key r =
    if is_claimed (lookup key r.batches)
    then (true, record r { batches = remove key r.batches })
    else (false, r)

abbrev pub clear : Registry → Registry
clear r = init
