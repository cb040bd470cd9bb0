-- ===== src/Edge/Tests.antt =====
-- Tests of the edge device registry.
use shelfwise.Prelude.{
  ℕ, ◌+◌, ◌≤◌, String, ◌≡◌, refl, true, List, [], ◌∷◌, text_key, pair_key, lookup, insert,
}
use shelfwise.Edge.Registry.{EdgeDevice, Registry, init}
use shelfwise.Prelude.Table.{Table, dict_table}
use shelfwise.Edge.Registry.Postgres.{DeviceRecord, pg_init}
use shelfwise.Edge.Registry.Postgres.Calls as PgCalls
use shelfwise.Edge.Registry.Postgres.Agreement.{Agrees, Agrees-init, registries_agree}
use shelfwise.Edge.Registry.Devices.{Call, register_call, claim_call}
use shelfwise.Edge.Registry.Batches.{
  Ask, claim, complete, release, answers, zero_tally, held, claims_accounted,
}

abbrev camera : EdgeDevice
camera = record {
  device_id = "cam-1";
  tenant_id = "acme";
  store_id = "s1";
  hmac_secret = 7 ∷ [];
  active = true;
}

abbrev scale : EdgeDevice
scale = record {
  device_id = "scale-1";
  tenant_id = "acme";
  store_id = "s1";
  hmac_secret = 9 ∷ [];
  active = true;
}

abbrev with_camera : Registry
with_camera = record { devices = ("cam-1", camera) ∷ []; batches = [] }

abbrev with_both : Registry
with_both = record { devices = insert "scale-1" scale with_camera.devices; batches = [] }

abbrev later_calls : List Call
later_calls = register_call camera ∷ claim_call ("cam-1", "b-1") ∷ register_call scale ∷ []

abbrev batch : String × String
batch = ("cam-1", "b-1")

-- A refused second claim, a release, a claim again, its completion, and a claim after that.
abbrev requests : List Ask
requests =
    claim batch ∷ claim batch ∷ release batch ∷ claim batch ∷ complete batch ∷ claim batch ∷ []

claims_accounted_example :
    let (r, t) = answers batch (init, zero_tally) requests in
    (t.grants ≡ t.completes + t.releases + held (lookup batch r.batches))
    × (held (lookup batch r.batches) + t.completes ≤ 1)
claims_accounted_example = claims_accounted batch requests

-- Secrets that are kept as they are.
abbrev kept_open : List ℕ → List ℕ
kept_open secret = secret

abbrev device_calls : List (PgCalls.Call)
device_calls =
    PgCalls.register_call camera
    ∷ PgCalls.register_call camera
    ∷ PgCalls.claim_call ("cam-1", "b1")
    ∷ PgCalls.revoke_call "cam-1" "acme" "s1"
    ∷ PgCalls.get_call "cam-1"
    ∷ []

abbrev device_table : Table String (DeviceRecord (List ℕ))
device_table = dict_table String (DeviceRecord (List ℕ))

registries_agree_example :
    ((PgCalls.answers device_calls init).0
      ≡ (PgCalls.pg_answers device_table kept_open kept_open device_calls (pg_init device_table)).0)
    × Agrees device_table kept_open kept_open
        (λ secret. refl)
        (PgCalls.answers device_calls init).1
        (PgCalls.pg_answers device_table kept_open kept_open device_calls (pg_init device_table)).1
registries_agree_example =
    registries_agree device_table kept_open kept_open (λ secret. refl) device_calls init
      (pg_init device_table) (Agrees-init device_table kept_open kept_open (λ secret. refl))
