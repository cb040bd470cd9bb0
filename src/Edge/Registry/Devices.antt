-- ===== src/Edge/Registry/Devices.antt =====
-- Device identities: registration and revocation.
use shelfwise.Prelude.{
  String, ◌≡◌, refl, ◌≢◌, Option-cases, inl, inr, true, false, none, some, List, [], ◌∷◌, arith,
  text_key, ◌==◌, ==_refl, ==_ne, if◌then◌else◌, lookup, lookup-insert,
}
use shelfwise.Prelude.Results.{Result, ok, err}
use shelfwise.Edge.Registry.{
  EdgeDevice, Registry, register, get_active, revoke, claim_batch, complete_batch, release_batch,
}

-- A registration that succeeds was of an unknown identity, stores the device under it, and changes
-- no other device and no batch.
pub register_adds :
    (d : EdgeDevice) (r r' : Registry)
    → register d r ≡ ok r'
    → (lookup d.device_id r.devices ≡ none)
      × ((j : String)
          → lookup j r'.devices ≡ (if j == d.device_id then some d else lookup j r.devices))
      × (r'.batches ≡ r.batches)
unfolding register
register_adds d r r' h =
    (ground arith, λ j. ground (arith, lookup-insert d.device_id j d r.devices), ground arith)

-- A revocation that reports success found an active device of that tenant and store; afterwards no
-- active device has its identity, every other identity is as before, and so are the batches.
pub revoke_disables :
    (i t s : String) (r : Registry)
    → (revoke i t s r).0 ≡ true
    → (d : EdgeDevice) × (lookup i r.devices ≡ some d)
      × (d.active ≡ true)
      × (d.tenant_id ≡ t)
      × (d.store_id ≡ s)
      × (get_active i (revoke i t s r).1 ≡ none)
      × ((j : String) → j ≢ i → lookup j (revoke i t s r).1.devices ≡ lookup j r.devices)
      × ((revoke i t s r).1.batches ≡ r.batches)
unfolding revoke get_active
revoke_disables i t s r h = elim (Option-cases (lookup i r.devices)) [
  | inl e ↦ absurd (ground arith)
  | inr (d, e) ↦ (
    d,
    e,
    ground arith,
    ground (arith, text_key.same_iff d.tenant_id t),
    ground (arith, text_key.same_iff d.store_id s),
    ground (arith, ==_refl i, lookup-insert i i (record d { active = false }) r.devices),
    λ j n. ground (arith, ==_ne n, lookup-insert i j (record d { active = false }) r.devices),
    ground arith,
  )
]

-- One call of the registry, with what it is given.
pub data Call : Type 0 where
  register_call : EdgeDevice → Call
  revoke_call : String → String → String → Call
  claim_call complete_call release_call : String × String → Call

abbrev or_same : Result Registry → Registry → Registry
or_same (ok r') r = r'
or_same (err e) r = r

-- The registry after a call; one that raises leaves it.
abbrev pub after : Registry → Call → Registry
after r (register_call d) = or_same (register d r) r
after r (revoke_call i t s) = (revoke i t s r).1
after r (claim_call k) = (claim_batch k r).1
after r (complete_call k) = (complete_batch k r).1
after r (release_call k) = (release_batch k r).1

pub run : Registry → List Call → Registry
run r [] = r
run r (c ∷ cs) = run (after r c) cs

-- The identity is known and its device is switched off.
abbrev pub IsRevoked : String → Registry → Type 0
IsRevoked i r = (d : EdgeDevice) × (lookup i r.devices ≡ some d) × (d.active ≡ false)

after-IsRevoked : (i : String) (r : Registry) (c : Call) → IsRevoked i r → IsRevoked i (after r c)
unfolding register revoke claim_batch complete_batch release_batch
after-IsRevoked i r (register_call d) (e, le, off) = (
  e,
  ground (arith, text_key.same_iff i d.device_id, lookup-insert d.device_id i d r.devices),
  off,
)
after-IsRevoked i r (revoke_call j t s) (e, le, off) = elim (Option-cases (lookup j r.devices)) [
  | inl none_there ↦ (e, ground arith, off)
  | inr (d, ld) ↦ (
    e,
    ground
        (arith, text_key.same_iff i j, lookup-insert j i (record d { active = false }) r.devices),
    off,
  )
]
after-IsRevoked i r (claim_call k) (e, le, off) = (e, ground arith, off)
after-IsRevoked i r (complete_call k) (e, le, off) = (e, ground arith, off)
after-IsRevoked i r (release_call k) (e, le, off) = (e, ground arith, off)

run-IsRevoked :
    (i : String) (r : Registry) (cs : List Call) → IsRevoked i r → IsRevoked i (run r cs)
unfolding run
run-IsRevoked i r [] h = h
run-IsRevoked i r (c ∷ cs) h = run-IsRevoked i (after r c) cs (after-IsRevoked i r c h)

get_active_of_IsRevoked : (i : String) (r : Registry) → IsRevoked i r → get_active i r ≡ none
unfolding get_active
get_active_of_IsRevoked i r (d, e, off) = ground arith

-- After a successful revocation no calls whatever, registrations of the same identity among them,
-- make an active device of that identity again (short of `clear`, which tests use).
pub revocation_is_final :
    (i t s : String) (r : Registry) (cs : List Call)
    → (revoke i t s r).0 ≡ true
    → get_active i (run (revoke i t s r).1 cs) ≡ none
unfolding revoke
revocation_is_final i t s r cs h = get_active_of_IsRevoked i _ (
    run-IsRevoked i _ cs (elim (Option-cases (lookup i r.devices)) [
      | inl e ↦ absurd (ground arith)
      | inr (d, e) ↦ (
        record d { active = false },
        ground (arith, ==_refl i, lookup-insert i i (record d { active = false }) r.devices),
        refl,
      )
    ]))
