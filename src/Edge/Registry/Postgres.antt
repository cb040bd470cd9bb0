-- ===== src/Edge/Registry/Postgres.antt =====
-- src/shelfwise_edge/registry.py, class PostgresEdgeDeviceRegistry over a table of the database. The
-- encryption of secrets (Fernet, under a configured key) is any pair of functions; secrets of the
-- type `S` are what the database sees.
pub mod Calls
pub mod Agreement
use shelfwise.Prelude.{
  ℕ, String, Bool, true, false, not, ◌&&◌, ◌||◌, Option, none, some, List, [], ◌∷◌, map, text_key,
  pair_key, ◌==◌, if◌then◌else◌, is_some, Dict, lookup, insert, remove, keep_if,
}
use shelfwise.Prelude.Text.{strip, truthy, text_leb}
use shelfwise.Prelude.Sort.{sort}
use shelfwise.Prelude.Table.{Table}
use shelfwise.Prelude.Results.{Result, ok, err, value_error, raise_if, ◌>>=◌, ◌>>◌}
use shelfwise.Edge.Registry.{
  EdgeDevice, BatchState, claimed, completed, is_empty, Identity, DeviceRow, in_store, Claim,
  is_claimed,
}

-- A row of `shelfwise_edge_devices`, beside its key `device_id`.
pub record DeviceRecord (S : Type 0) : Type 0 where
  pub tenant_id : String
  pub store_id : String
  pub encrypted_secret : S
  pub active : Bool

module _ {S : Type 0} (T : Table String (DeviceRecord S)) where
  -- The table, and `_batches`, which stays in the process.
  pub record PgRegistry : Type 0 where
    pub devices : T.Rows
    pub batches : Dict (String × String) BatchState

  abbrev pub pg_init : PgRegistry
  pg_init = record { devices = T.no_rows; batches = [] }

  -- `insert ... on conflict (device_id) do nothing returning device_id`, and the raise without a row.
  unfoldable pub pg_register : (List ℕ → S) → EdgeDevice → PgRegistry → Result PgRegistry
  pg_register encrypt device p = do
    raise_if (not (truthy (strip device.device_id)) || is_empty device.hmac_secret)
    raise_if (is_some (T.find device.device_id p.devices))
    ok (record p {
      devices =
          T.write device.device_id
            (record {
              tenant_id = device.tenant_id;
              store_id = device.store_id;
              encrypted_secret = encrypt device.hmac_secret;
              active = device.active;
            })
            p.devices;
    })

  unfoldable pub pg_provision :
      (List ℕ → S) → EdgeDevice → PgRegistry → Result (Identity × PgRegistry)
  unfolding pg_register
  pg_provision encrypt device p = do
    p' ← pg_register encrypt device p
    ok (
      record {
        device_id = device.device_id;
        tenant_id = device.tenant_id;
        store_id = device.store_id;
      },
      p',
    )

  -- `where tenant_id = %s and store_id = %s`
  abbrev pub selects_row : String → Option String → DeviceRecord S → Bool
  selects_row tenant store row = row.tenant_id == tenant && in_store store row.store_id

  abbrev pub device_row : String × DeviceRecord S → DeviceRow
  device_row (id, row) = record {
    device_id = id;
    tenant_id = row.tenant_id;
    store_id = row.store_id;
    active = row.active;
  }

  -- The order of the database's texts is that of their code points here.
  unfoldable pub pg_list_devices : String → Option String → PgRegistry → List DeviceRow
  pg_list_devices tenant store p =
      sort (λ a b. text_leb a.device_id b.device_id)
        (map device_row (keep_if (λ e. selects_row tenant store e.1) (T.scan p.devices)))

  abbrev pub device_of : (S → List ℕ) → String → DeviceRecord S → EdgeDevice
  device_of decrypt id row = record {
    device_id = id;
    tenant_id = row.tenant_id;
    store_id = row.store_id;
    hmac_secret = decrypt row.encrypted_secret;
    active = row.active;
  }

  abbrev pub row_if_active : (S → List ℕ) → String → Option (DeviceRecord S) → Option EdgeDevice
  row_if_active decrypt id none = none
  row_if_active decrypt id (some row) = if row.active then some (device_of decrypt id row) else none

  unfoldable pub pg_get_active : (S → List ℕ) → String → PgRegistry → Option EdgeDevice
  pg_get_active decrypt id p = row_if_active decrypt id (T.find id p.devices)

  -- `where device_id = %s and tenant_id = %s and store_id = %s and active = true`
  abbrev pub revokes : String → String → DeviceRecord S → Bool
  revokes tenant store row = row.tenant_id == tenant && row.store_id == store && row.active

  pg_revoke_found :
      String → String → String → Option (DeviceRecord S) → PgRegistry → Bool × PgRegistry
  pg_revoke_found id tenant store none p = (false, p)
  pg_revoke_found id tenant store (some row) p =
      if revokes tenant store row
      then (true, record p { devices = T.write id (record row { active = false }) p.devices })
      else (false, p)

  unfoldable pub pg_revoke : String → String → String → PgRegistry → Bool × PgRegistry
  unfolding pg_revoke_found
  pg_revoke id tenant store p = pg_revoke_found id tenant store (T.find id p.devices) p

  pg_claim_found : String × String → Option BatchState → PgRegistry → Claim × PgRegistry
  pg_claim_found key (some BatchState.claimed) p = (Claim.in_progress, p)
  pg_claim_found key (some BatchState.completed) p = (Claim.completed, p)
  pg_claim_found key none p =
      (Claim.claimed, record p { batches = insert key BatchState.claimed p.batches })

  unfoldable pub pg_claim_batch : String × String → PgRegistry → Claim × PgRegistry
  unfolding pg_claim_found
  pg_claim_batch key p = pg_claim_found key (lookup key p.batches) p

  unfoldable pub pg_complete_batch : String × String → PgRegistry → Bool × PgRegistry
  pg_complete_batch key p =
      if is_claimed (lookup key p.batches)
      then (true, record p { batches = insert key BatchState.completed p.batches })
      else (false, p)

  unfoldable pub pg_release_batch : String × String → PgRegistry → Bool × PgRegistry
  pg_release_batch key p =
      if is_claimed (lookup key p.batches)
      then (true, record p { batches = remove key p.batches })
      else (false, p)

  abbrev pub pg_clear : PgRegistry → PgRegistry
  pg_clear p = pg_init
