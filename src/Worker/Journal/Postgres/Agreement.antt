-- ===== src/Worker/Journal/Postgres/Agreement.antt =====
-- Sessions of journaled steps over both journals.
use shelfwise.Prelude.{
  String, ◌≡◌, refl, ◌∙◌, sym, ap, true, Option-cases, inl, inr, Option, none, some, List, [], ◌∷◌,
  arith, text_key, pair_key, ==_iff, ==_refl, is_some, lookup, lookup-insert, lookup-set_default,
  lookup-nil,
}
use shelfwise.Prelude.Table.{Table, insert_or_nothing, find-insert_or_nothing}
use shelfwise.Prelude.Results.{Error, Result, Result-cases, ok, err}
use shelfwise.Runtime.Provenance.{operational_twin, normalize_domain}
use shelfwise.Worker.Journal.{
  JournalRun, StepKey, Journal, init, start_run, finish_run, get, put, Effect, journaled,
  record_output,
}
use shelfwise.Worker.Journal.Steps.{get-put}
use shelfwise.Worker.Journal.Postgres.{
  StepRow, PgJournal, tenant_of, pg_init, pg_start_run, pg_finish_run, pg_get, pg_put, pg_journaled,
  store_output,
}
use shelfwise.Worker.Journal.Postgres.Sessions.{
  StepCall, Session, call_all, play, pg_call_all, pg_play,
}

module _ {O C : Type 0} (R : Table String JournalRun) (S : Table StepKey (StepRow O C)) where
  -- Both hold the same runs, each under its own id, and the same step outputs.
  pub record Agrees (m : Journal O C) (p : PgJournal R S) : Type 0 where
    pub same_runs : (i : String) → lookup i m.runs ≡ R.find i p.runs
    pub keyed : (i : String) (run : JournalRun) → R.find i p.runs ≡ some run → run.run_id ≡ i
    pub same_steps : (key : StepKey) → get key m ≡ pg_get R S key p

  abbrev Knows : String → PgJournal R S → Type 0
  Knows i p = is_some (R.find i p.runs) ≡ true

  pub Agrees-init : Agrees init (pg_init R S)
  unfolding get pg_get
  Agrees-init = record {
    same_runs = λ i. lookup-nil i ∙ sym (R.find-no_rows i);
    keyed = λ i run e. ground (arith, R.find-no_rows i);
    same_steps = λ key. ground (arith, lookup-nil {V = O} key, S.find-no_rows key);
  }

  start_run-Agrees :
      (i t now : String) (d : Option String) (m m' : Journal O C) (p : PgJournal R S)
      → Agrees m p
      → start_run i t d now m ≡ ok m'
      → (p' : PgJournal R S) × (pg_start_run R S i t d now p ≡ ok p') × Agrees m' p' × Knows i p'
  unfolding start_run pg_start_run get pg_get
  start_run-Agrees i t now d m m' p a h =
      elim (Result-cases (normalize_domain d operational_twin)) [
        | inr (x, e) ↦ absurd (ground (arith, e))
        | inl (resolved, e) ↦
            let run : JournalRun = record {
              run_id = i;
              tenant_id = t;
              data_domain = resolved;
              status = "running";
              started_at = now;
              finished_at = none;
            } in
            let new = λ (j : String). lookup-set_default i j run m.runs in
            let written = λ (j : String). find-insert_or_nothing R i j run p.runs in
            (
              record p { runs = insert_or_nothing R i run p.runs },
              ground (arith, e),
              record {
                same_runs = λ j. ground (arith, e, new j, written j, a.same_runs i, a.same_runs j);
                keyed = λ j run' e'. ground (
                  arith,
                  written j,
                  a.keyed i run',
                  a.keyed j run',
                  ==_iff j i,
                  Option-cases (R.find i p.runs),
                );
                same_steps = λ key. ground (arith, e, a.same_steps key);
              },
              ground (arith, written i, ==_refl i),
            )
      ]

  start_run_err :
      (i t now : String) (d : Option String) (m : Journal O C) (p : PgJournal R S) (x : Error)
      → start_run i t d now m ≡ err x
      → pg_start_run R S i t d now p ≡ err x
  unfolding start_run pg_start_run
  start_run_err i t now d m p x h = ground arith

  finish_run-Agrees :
      (i status now later : String) (m : Journal O C) (p : PgJournal R S)
      → Agrees m p
      → Knows i p
      → Agrees (finish_run i status now later m) (pg_finish_run R S i status later p)
  unfolding finish_run pg_finish_run get pg_get
  finish_run-Agrees i status now later m p a known = elim (Option-cases (R.find i p.runs)) [
    | inl e ↦ absurd (ground arith)
    | inr (run, e) ↦
        let run₁ : JournalRun = record run {
          run_id = i;
          status = status;
          finished_at = some later;
        } in
        let run₂ : JournalRun = record run { status = status; finished_at = some later } in
        record {
          same_runs = λ j. ground (
            arith,
            e,
            a.same_runs i,
            a.same_runs j,
            a.keyed i run e,
            lookup-insert i j run₁ m.runs,
            R.find-write i j run₂ p.runs,
          );
          keyed = λ j run' e'.
              ground (
                arith,
                e,
                a.keyed i run e,
                a.keyed j run',
                ==_iff j i,
                R.find-write i j run₂ p.runs,
              );
          same_steps = λ key. ground (arith, e, a.same_steps key);
        }
  ]

  put-Agrees :
      (key : StepKey) (o : O) (c : Option C) (now : String) (m : Journal O C) (p : PgJournal R S)
      → Agrees m p
      → Knows key.0 p
      → (p' : PgJournal R S) × (pg_put R S key o c now p ≡ ok p')
        × Agrees (put key o c m) p'
        × (p'.runs ≡ p.runs)
  unfolding pg_put pg_get put
  put-Agrees key o c now m p a known =
      let row : StepRow O C = record {
        tenant_id = tenant_of (R.find key.0 p.runs);
        output = o;
        compensation = c;
        recorded_at = now;
      } in
      (
        record p { steps = insert_or_nothing S key row p.steps },
        ground arith,
        record {
          same_runs = a.same_runs;
          keyed = a.keyed;
          same_steps = λ j.
              rw (get-put j key o c m, find-insert_or_nothing S key j row p.steps)
                (ground (arith, a.same_steps j, a.same_steps key));
        },
        refl,
      )

module _ {O C W : Type 0} (R : Table String JournalRun) (S : Table StepKey (StepRow O C)) where
  -- The parts of a journaled call that run the function, over both journals.
  recorded-Agrees :
      (key : StepKey) (c : Option C) (now : String) (m : Journal O C) (p : PgJournal R S)
      (out : Result O × W)
      → Agrees R S m p
      → Knows R S key.0 p
      → let (r, m', w₁) = record_output key c m out in
        let (r', p', w₂) = store_output R S key c now p out in
        (r ≡ r') × (w₁ ≡ w₂) × Agrees R S m' p' × Knows R S key.0 p'
  unfolding record_output store_output
  recorded-Agrees key c now m p (err x, w) a known = (refl, refl, a, known)
  recorded-Agrees key c now m p (ok o, w) a known =
      let (p', stored, a', runs) = put-Agrees R S key o c now m p a known in
      rw (stored, store_output) (refl, refl, a', ap (λ t. is_some (R.find key.0 t)) runs ∙ known)

  journaled-Agrees :
      (key : StepKey) (c : Option C) (now : String) (fn : Effect W O) (m : Journal O C)
      (p : PgJournal R S) (w : W)
      → Agrees R S m p
      → Knows R S key.0 p
      → let (r, m', w₁) = journaled key c fn m w in
        let (r', p', w₂) = pg_journaled R S key c now fn p w in
        (r ≡ r') × (w₁ ≡ w₂) × Agrees R S m' p' × Knows R S key.0 p'
  unfolding journaled pg_journaled
  journaled-Agrees key c now fn m p w a known = elim (Option-cases (get key m)) [
    | inr (seen, e) ↦ rw (e, ← a.same_steps key, e) (refl, refl, a, known)
    | inl e ↦ rw (e, ← a.same_steps key, e) (recorded-Agrees key c now m p (fn w) a known)
  ]

  call_all-Agrees :
      (run_id : String) (cs : List (StepCall O C W)) (m : Journal O C) (p : PgJournal R S) (w : W)
      → Agrees R S m p
      → Knows R S run_id p
      → let (rs, m', w₁) = call_all run_id cs m w in
        let (rs', p', w₂) = pg_call_all R S run_id cs p w in
        (rs ≡ rs') × (w₁ ≡ w₂) × Agrees R S m' p' × Knows R S run_id p'
  unfolding call_all pg_call_all
  call_all-Agrees run_id [] m p w a known = (refl, refl, a, known)
  call_all-Agrees run_id (c ∷ cs) m p w a known =
      let key : StepKey = (run_id, c.key) in
      let (r, m', w₁) = journaled key c.compensation c.fn m w in
      let (r', p', w₂) = pg_journaled R S key c.compensation c.now c.fn p w in
      let (same, world, a', known') =
        journaled-Agrees key c.compensation c.now c.fn m p w a known in
      let (rest, world', a'', known'') = call_all-Agrees run_id cs m' p' w₁ a' known' in
      rw (← same, ← world) (ap (λ rs. r ∷ rs) rest, world', a'', known'')

  -- What a session leaves over both journals: it raised on both, or returned the same results and
  -- the same world, with journals that agree again.
  abbrev pub SameOutcome :
      Result (List (Result O) × Journal O C × W)
      → Result (List (Result O) × PgJournal R S × W)
      → Type 0
  SameOutcome (err x) (err y) = x ≡ y
  SameOutcome (ok (rs, m, w)) (ok (rs', p, w')) = (rs ≡ rs') × (w ≡ w') × Agrees R S m p
  SameOutcome _ _ = ⊥

  -- A session (start a run, call journaled steps that may return or raise, finish the run) over
  -- journals that agree has the same outcome over the in-memory journal and over PostgreSQL: the
  -- same exception, or the same results, the same effects on the world, and journals that agree
  -- again, on the runs and on the outputs of all steps.
  pub journals_agree :
      (s : Session O C W) (m : Journal O C) (p : PgJournal R S) (w : W)
      → Agrees R S m p
      → SameOutcome (play s m w) (pg_play R S s p w)
  unfolding play pg_play
  journals_agree s m p w a =
      elim (Result-cases (start_run s.run_id s.tenant_id s.data_domain s.started m)) [
        | inr (x, e) ↦
            rw (e, start_run_err R S s.run_id s.tenant_id s.started s.data_domain m p x e) refl
        | inl (m₁, e) ↦
            let (p₁, e', a₁, known) =
              start_run-Agrees R S s.run_id s.tenant_id s.started s.data_domain m m₁ p a e in
            let (same, world, a₂, known₂) = call_all-Agrees s.run_id s.calls m₁ p₁ w a₁ known in
            rw (e, e')
              (
                same,
                world,
                finish_run-Agrees R S s.run_id s.status s.finishing s.finished _ _ a₂ known₂,
              )
      ]
