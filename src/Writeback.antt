-- ===== src/Writeback.antt =====
-- src/shelfwise_connectors/writeback.py, class TaskWriteBackSink: tasks for managers, over any types
-- of actions and receipts. The lock makes each method one step.
mod Tests
pub mod Tasks
use shelfwise.Prelude.{
  ℕ, ◌+◌, String, Bool, true, false, not, ◌&&◌, Option, none, some, List, [], ◌∷◌, map, length,
  keep_if, text_key, Key, ◌==◌, if◌then◌else◌, Dict, lookup, insert, ◌≡◌, ◌↔◌, subst, ==_refl,
  arith,
}
use Prim.Native.String.{◌++◌}
use shelfwise.Prelude.Text.{show}
use shelfwise.Prelude.Results.{Result, ok, err, Error}

pub data TaskStatus : Type 0 where
  pending_external_write completed : TaskStatus

pub record Task (A R : Type 0) : Type 0 where
  pub id : String
  pub idempotency_key : String
  pub tenant_id : String
  pub data_domain : String
  pub assignee_role : String
  pub title : String
  pub action : A
  pub status : TaskStatus
  pub rollback_instructions : A
  pub created_at : String
  pub updated_at : String
  pub completion_receipt : Option R
  pub completed_at : Option String

-- The key `(tenant_id, data_domain, idempotency_key)`.
pub record TaskKey : Type 0 where
  pub tenant_id : String
  pub data_domain : String
  pub idempotency_key : String

abbrev pub same_task : TaskKey → TaskKey → Bool
same_task a b =
    a.tenant_id == b.tenant_id
    && a.data_domain == b.data_domain
    && a.idempotency_key == b.idempotency_key

pub same_task_iff : (a b : TaskKey) → (same_task a b ≡ true) ↔ (a ≡ b)
same_task_iff a b = (
  λ h. ground (
    arith,
    text_key.same_iff a.tenant_id b.tenant_id,
    text_key.same_iff a.data_domain b.data_domain,
    text_key.same_iff a.idempotency_key b.idempotency_key,
  ),
  λ h.
      subst (λ (x : TaskKey). same_task a x ≡ true) h
        (ground (arith, ==_refl a.tenant_id, ==_refl a.data_domain, ==_refl a.idempotency_key)),
)

instance abbrev pub task_key : Key TaskKey
task_key = record { same = same_task; same_iff = same_task_iff }

abbrev pub Sink : Type 0 → Type 0 → Type 0
Sink A R = Dict TaskKey (Task A R)

-- The arguments of `create_task`.
pub record TaskDraft (A : Type 0) : Type 0 where
  pub idempotency_key : String
  pub title : String
  pub action : A
  pub tenant_id : String
  pub data_domain : String
  pub assignee_role : String
  pub rollback_instructions : A

abbrev pub key_of : {A : Type 0} → TaskDraft A → TaskKey
key_of d = record {
  tenant_id = d.tenant_id;
  data_domain = d.data_domain;
  idempotency_key = d.idempotency_key;
}

module _ {A R : Type 0} where
  abbrev pub new_task : TaskDraft A → String → ℕ → Task A R
  new_task d now count = record {
    id = "task_" ++ show (count + 1);
    idempotency_key = d.idempotency_key;
    tenant_id = d.tenant_id;
    data_domain = d.data_domain;
    assignee_role = d.assignee_role;
    title = d.title;
    action = d.action;
    status = pending_external_write;
    rollback_instructions = d.rollback_instructions;
    created_at = now;
    updated_at = now;
    completion_receipt = none;
    completed_at = none;
  }

  create_found : TaskDraft A → String → Option (Task A R) → Sink A R → Task A R × Sink A R
  create_found d now (some existing) s = (existing, s)
  create_found d now none s =
      let task = new_task d now (length s) in (task, insert (key_of d) task s)

  unfoldable pub create_task : TaskDraft A → String → Sink A R → Task A R × Sink A R
  unfolding create_found
  create_task d now s = create_found d now (lookup (key_of d) s) s

  abbrev pub of_tenant : Option String → Task A R → Bool
  of_tenant none t = true
  of_tenant (some tenant) t = t.tenant_id == tenant

  abbrev pub of_domain : Option String → Task A R → Bool
  of_domain none t = true
  of_domain (some domain) t = t.data_domain == domain

  -- `list`
  unfoldable pub all : Option String → Option String → Sink A R → List (Task A R)
  all tenant domain s = keep_if (of_domain domain) (keep_if (of_tenant tenant) (map (λ e. e.1) s))

  abbrev pub is_named : String → String → String → Task A R → Bool
  is_named id tenant domain t = t.id == id && t.tenant_id == tenant && t.data_domain == domain

  -- `next((item for item in ... if ...), None)`
  unfoldable pub find_task : (Task A R → Bool) → Sink A R → Option (Task A R)
  find_task test [] = none
  find_task test ((key, t) ∷ s) = let rest = find_task test s in if test t then some t else rest

  -- The sink after the task that was found is changed in place.
  unfoldable pub change_task : (Task A R → Bool) → (Task A R → Task A R) → Sink A R → Sink A R
  change_task test change [] = []
  change_task test change ((key, t) ∷ s) =
      let rest = change_task test change s in
      if test t then (key, change t) ∷ s else (key, t) ∷ rest

  abbrev pub completed_with : R → String → Task A R → Task A R
  completed_with receipt now t = record t {
    status = completed;
    completion_receipt = some receipt;
    completed_at = some now;
    updated_at = now;
  }

  abbrev pub clear : Sink A R → Sink A R
  clear s = []

module _ {R : Type 0} ⦃k : Key R⦄ where
  -- `task.get("completion_receipt") == receipt`
  abbrev pub has_receipt : R → Option R → Bool
  has_receipt receipt none = false
  has_receipt receipt (some r) = r == receipt

module _ {A R : Type 0} ⦃k : Key R⦄ where
  complete_status :
      (Task A R → Bool)
      → R
      → String
      → Task A R
      → TaskStatus
      → Sink A R
      → Result (Option (Task A R) × Sink A R)
  complete_status test receipt now t completed s =
      if has_receipt receipt t.completion_receipt then ok (some t, s) else err Error.value_error
  complete_status test receipt now t pending_external_write s =
      ok (some (completed_with receipt now t), change_task test (completed_with receipt now) s)

  complete_found :
      (Task A R → Bool)
      → R
      → String
      → Option (Task A R)
      → Sink A R
      → Result (Option (Task A R) × Sink A R)
  unfolding complete_status
  complete_found test receipt now none s = ok (none, s)
  complete_found test receipt now (some t) s = complete_status test receipt now t t.status s

  unfoldable pub complete_task :
      String → String → R → String → String → Sink A R → Result (Option (Task A R) × Sink A R)
  unfolding complete_found
  complete_task id tenant receipt domain now s =
      complete_found (is_named id tenant domain) receipt now
        (find_task (is_named id tenant domain) s) s
