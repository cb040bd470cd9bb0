-- ===== src/Edge/Registry/Postgres/Agreement.antt =====
-- The in-memory and the PostgreSQL registry, call by call.
use shelfwise.Prelude.{
  ℕ, String, ◌≡◌, refl, subst, not, ◌||◌, ap, ap₂, Bool-cases, Option-cases, inl, inr, true, false,
  Option, none, some, List, [], ◌∷◌, arith, text_key, pair_key, ==_iff, is_some, lookup, insert,
  remove, Dict, ◌⊎◌, lookup-insert, lookup-nil,
}
use shelfwise.Prelude.Text.{strip, truthy}
use shelfwise.Prelude.Table.{Table}
use shelfwise.Edge.Registry.{
  EdgeDevice, Registry, init, is_empty, BatchState, is_claimed, register, get_active, revoke,
  claim_batch, complete_batch, release_batch,
}
use shelfwise.Edge.Registry.Postgres.{
  DeviceRecord, PgRegistry, pg_init, pg_register, device_of, pg_get_active, pg_revoke,
  pg_claim_batch, pg_complete_batch, pg_release_batch,
}
use shelfwise.Edge.Registry.Postgres.Calls.{
  Call, register_call, get_call, revoke_call, claim_call, complete_call, release_call, clear_call,
  answer, answers, pg_answer, pg_answers,
}

state_cases :
    (o : Option BatchState)
    → (o ≡ none) ⊎ ((o ≡ some BatchState.claimed) ⊎ (o ≡ some BatchState.completed))
state_cases none = inl refl
state_cases (some BatchState.claimed) = inr (inl refl)
state_cases (some BatchState.completed) = inr (inr refl)

module _ {S : Type 0} (T : Table String (DeviceRecord S)) (encrypt : List ℕ → S)
    (decrypt : S → List ℕ) (opens : (secret : List ℕ) → decrypt (encrypt secret) ≡ secret) where
  abbrev pub decrypted : String → Option (DeviceRecord S) → Option EdgeDevice
  decrypted id none = none
  decrypted id (some row) = some (device_of T decrypt id row)

  -- Both hold the same devices, with the same secrets, and the same batches.
  pub record Agrees (r : Registry) (p : PgRegistry T) : Type 0 where
    pub same : (id : String) → lookup id r.devices ≡ decrypted id (T.find id p.devices)
    pub batches : r.batches ≡ p.batches

  pub Agrees-init : Agrees init (pg_init T)
  Agrees-init = record {
    same = λ id. ground (arith, lookup-nil {V = EdgeDevice} id, T.find-no_rows id);
    batches = refl;
  }

  write-Agrees :
      (id : String) (row : DeviceRecord S) (r : Registry) (p : PgRegistry T)
      → Agrees r p
      → Agrees
          (record r { devices = insert id (device_of T decrypt id row) r.devices })
          (record p { devices = T.write id row p.devices })
  write-Agrees id row r p a = record {
    same = λ j. ground (
      arith,
      a.same j,
      ==_iff j id,
      lookup-insert id j (device_of T decrypt id row) r.devices,
      T.find-write id j row p.devices,
    );
    batches = a.batches;
  }

  -- A call has the same answer from both, and leaves registries that agree.
  abbrev pub Keeps : Call → Registry → PgRegistry T → Type 0
  Keeps c r p =
      ((answer c r).0 ≡ (pg_answer T encrypt decrypt c p).0)
      × Agrees (answer c r).1 (pg_answer T encrypt decrypt c p).1

  register-Agrees :
      (d : EdgeDevice) (r : Registry) (p : PgRegistry T) → Agrees r p → Keeps (register_call d) r p
  unfolding answer pg_answer register pg_register
  register-Agrees d r p a =
      elim (Bool-cases (not (truthy (strip d.device_id)) || is_empty d.hmac_secret)) [
        | inl bad ↦ rw bad (refl, a)
        | inr good ↦ elim (Option-cases (T.find d.device_id p.devices)) [
          | inr (row, e) ↦
              let known : is_some (lookup d.device_id r.devices) ≡ true =
                rw (a.same d.device_id, e) refl in
              rw (good, known, e) (refl, a)
          | inl e ↦
              let row : DeviceRecord S = record {
                tenant_id = d.tenant_id;
                store_id = d.store_id;
                encrypted_secret = encrypt d.hmac_secret;
                active = d.active;
              } in
              let kept : device_of T decrypt d.device_id row ≡ d = rw (opens d.hmac_secret) refl in
              let stored =
                subst
                  (λ (x : EdgeDevice).
                    Agrees (record r { devices = insert d.device_id x r.devices })
                      (record p { devices = T.write d.device_id row p.devices }))
                  kept (write-Agrees d.device_id row r p a) in
              let new : is_some (lookup d.device_id r.devices) ≡ false =
                rw (a.same d.device_id, e) refl in
              rw (good, new, e) (refl, stored)
        ]
      ]

  get-Agrees : (i : String) (r : Registry) (p : PgRegistry T) → Agrees r p → Keeps (get_call i) r p
  unfolding answer pg_answer get_active pg_get_active
  get-Agrees i r p a = elim (Option-cases (T.find i p.devices)) [
    | inl e ↦ rw (a.same i, e) (refl, a)
    | inr (row, e) ↦ rw (a.same i, e) (refl, a)
  ]

  revoke-Agrees :
      (i t s : String) (r : Registry) (p : PgRegistry T)
      → Agrees r p
      → Keeps (revoke_call i t s) r p
  unfolding answer pg_answer revoke pg_revoke
  revoke-Agrees i t s r p a = elim (Option-cases (T.find i p.devices)) [
    | inl e ↦ rw (a.same i, e) (refl, a)
    | inr (row, e) ↦
        let kept = write-Agrees i (record row { active = false }) r p a in
        rw (a.same i, e) (ground (arith, kept), ground (arith, kept, a))
  ]

  -- The batches of both are replaced by the same ones.
  batches-Agrees :
      (k : String × String) (r : Registry) (p : PgRegistry T)
      (f : Dict (String × String) BatchState → Dict (String × String) BatchState)
      → Agrees r p
      → Agrees (record r { batches = f r.batches }) (record p { batches = f p.batches })
  batches-Agrees k r p f a = record { same = a.same; batches = ap f a.batches }

  claim-Agrees :
      (k : String × String) (r : Registry) (p : PgRegistry T)
      → Agrees r p
      → Keeps (claim_call k) r p
  unfolding answer pg_answer claim_batch pg_claim_batch
  claim-Agrees k r p a =
      let alike = ap (λ (d : Dict (String × String) BatchState). lookup k d) a.batches in
      elim (state_cases (lookup k p.batches)) [
        | inl e ↦ rw (alike, e) (refl, batches-Agrees k r p (insert k BatchState.claimed) a)
        | inr (inl e) ↦ rw (alike, e) (refl, a)
        | inr (inr e) ↦ rw (alike, e) (refl, a)
      ]

  complete-Agrees :
      (k : String × String) (r : Registry) (p : PgRegistry T)
      → Agrees r p
      → Keeps (complete_call k) r p
  unfolding answer pg_answer complete_batch pg_complete_batch
  complete-Agrees k r p a =
      let alike = ap (λ (d : Dict (String × String) BatchState). lookup k d) a.batches in
      elim (Bool-cases (is_claimed (lookup k p.batches))) [
        | inl e ↦ rw (alike, e) (refl, batches-Agrees k r p (insert k BatchState.completed) a)
        | inr e ↦ rw (alike, e) (refl, a)
      ]

  release-Agrees :
      (k : String × String) (r : Registry) (p : PgRegistry T)
      → Agrees r p
      → Keeps (release_call k) r p
  unfolding answer pg_answer release_batch pg_release_batch
  release-Agrees k r p a =
      let alike = ap (λ (d : Dict (String × String) BatchState). lookup k d) a.batches in
      elim (Bool-cases (is_claimed (lookup k p.batches))) [
        | inl e ↦ rw (alike, e) (refl, batches-Agrees k r p (remove k) a)
        | inr e ↦ rw (alike, e) (refl, a)
      ]

  call-Agrees : (c : Call) (r : Registry) (p : PgRegistry T) → Agrees r p → Keeps c r p
  unfolding answer pg_answer
  call-Agrees (register_call d) r p a = register-Agrees d r p a
  call-Agrees (get_call i) r p a = get-Agrees i r p a
  call-Agrees (revoke_call i t s) r p a = revoke-Agrees i t s r p a
  call-Agrees (claim_call k) r p a = claim-Agrees k r p a
  call-Agrees (complete_call k) r p a = complete-Agrees k r p a
  call-Agrees (release_call k) r p a = release-Agrees k r p a
  call-Agrees clear_call r p a = (refl, Agrees-init)

  -- Where decryption undoes encryption, on registries that agree any calls of register, get_active,
  -- revoke, of the batch claims and of clear have the same answers from the in-memory and from the
  -- PostgreSQL registry, exceptions and the secrets of active devices included, and leave registries
  -- that agree.
  pub registries_agree :
      (cs : List Call) (r : Registry) (p : PgRegistry T)
      → Agrees r p
      → ((answers cs r).0 ≡ (pg_answers T encrypt decrypt cs p).0)
        × Agrees (answers cs r).1 (pg_answers T encrypt decrypt cs p).1
  unfolding answers pg_answers
  registries_agree [] r p a = (refl, a)
  registries_agree (c ∷ cs) r p a =
      let (same, a') = call-Agrees c r p a in
      let (rest, a'') = registries_agree cs (answer c r).1 (pg_answer T encrypt decrypt c p).1 a' in
      (ap₂ (λ x xs. x ∷ xs) same rest, a'')
