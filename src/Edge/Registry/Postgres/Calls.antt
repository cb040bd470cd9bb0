-- ===== src/Edge/Registry/Postgres/Calls.antt =====
-- The calls of both registries that change them, and get_active, with their answers; `provision` is
-- `register` with another answer, and is not among them.
use shelfwise.Prelude.{ℕ, String, Bool, Option, List, [], ◌∷◌, text_key}
use shelfwise.Prelude.Table.{Table}
use shelfwise.Prelude.Results.{Error, Result, ok, err}
use shelfwise.Edge.Registry.{
  EdgeDevice, Registry, register, get_active, revoke, Claim, claim_batch, complete_batch,
  release_batch, clear,
}
use shelfwise.Edge.Registry.Postgres.{
  DeviceRecord, PgRegistry, pg_register, pg_get_active, pg_revoke, pg_claim_batch,
  pg_complete_batch, pg_release_batch, pg_clear,
}

pub data Call : Type 0 where
  register_call : EdgeDevice → Call
  get_call : String → Call
  revoke_call : String → String → String → Call
  claim_call complete_call release_call : String × String → Call
  clear_call : Call

pub data Answer : Type 0 where
  registered : Answer
  raised : Error → Answer
  found : Option EdgeDevice → Answer
  yes_or_no : Bool → Answer
  batch : Claim → Answer
  cleared : Answer

abbrev pub register_answer : {R : Type 0} → R → Result R → Answer × R
register_answer r (ok r') = (registered, r')
register_answer r (err x) = (raised x, r)

-- The answer of a call, and the registry after it.
unfoldable pub answer : Call → Registry → Answer × Registry
answer (register_call d) r = register_answer r (register d r)
answer (get_call i) r = (found (get_active i r), r)
answer (revoke_call i t s) r = let (b, r') = revoke i t s r in (yes_or_no b, r')
answer (claim_call k) r = let (c, r') = claim_batch k r in (batch c, r')
answer (complete_call k) r = let (b, r') = complete_batch k r in (yes_or_no b, r')
answer (release_call k) r = let (b, r') = release_batch k r in (yes_or_no b, r')
answer clear_call r = (cleared, clear r)

unfoldable pub answers : List Call → Registry → List Answer × Registry
answers [] r = ([], r)
answers (c ∷ cs) r = let (a, r') = answer c r in let (as_, r'') = answers cs r' in (a ∷ as_, r'')

module _ {S : Type 0} (T : Table String (DeviceRecord S)) (encrypt : List ℕ → S)
    (decrypt : S → List ℕ) where
  unfoldable pub pg_answer : Call → PgRegistry T → Answer × PgRegistry T
  pg_answer (register_call d) p = register_answer p (pg_register T encrypt d p)
  pg_answer (get_call i) p = (found (pg_get_active T decrypt i p), p)
  pg_answer (revoke_call i t s) p = let (b, p') = pg_revoke T i t s p in (yes_or_no b, p')
  pg_answer (claim_call k) p = let (c, p') = pg_claim_batch T k p in (batch c, p')
  pg_answer (complete_call k) p = let (b, p') = pg_complete_batch T k p in (yes_or_no b, p')
  pg_answer (release_call k) p = let (b, p') = pg_release_batch T k p in (yes_or_no b, p')
  pg_answer clear_call p = (cleared, pg_clear T p)

  unfoldable pub pg_answers : List Call → PgRegistry T → List Answer × PgRegistry T
  pg_answers [] p = ([], p)
  pg_answers (c ∷ cs) p =
      let (a, p') = pg_answer c p in let (as_, p'') = pg_answers cs p' in (a ∷ as_, p'')
