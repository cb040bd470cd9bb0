-- ===== src/Writeback/Tests.antt =====
-- Tests of the sink of tasks.
use shelfwise.Prelude.{◌≡◌, refl, String, some, List, [], ◌∷◌, text_key, lookup, insert}
use shelfwise.Prelude.Text.{show}
use shelfwise.Writeback.{
  Task, TaskDraft, Sink, key_of, task_key, new_task, completed, create_task, find_task, change_task,
  complete_task,
}
use shelfwise.Writeback.Tasks.{Call, create_call, complete_call, Evolves, run, created_once}

abbrev draft : TaskDraft String
draft = record {
  idempotency_key = "writeback:d1";
  title = "Review order for d1";
  action = "order 12 milk";
  tenant_id = "acme";
  data_domain = "operational_twin";
  assignee_role = "manager";
  rollback_instructions = "";
}

abbrev waiting : Task String String
unfolding show
waiting = new_task draft "10:00" 0

abbrev sink : Sink String String
unfolding waiting
sink = (key_of draft, waiting) ∷ []

abbrev calls : List (Call String String)
calls =
    create_call (record draft { title = "Again" }) "10:01"
    ∷ complete_call "task_1" "acme" "po-7" "operational_twin" "10:02"
    ∷ complete_call "task_1" "acme" "po-8" "operational_twin" "10:03"
    ∷ complete_call "task_1" "other" "po-9" "operational_twin" "10:04"
    ∷ []

run_test :
    lookup (key_of draft) (run calls sink)
    ≡ some (record waiting {
      status = completed;
      completion_receipt = some "po-7";
      completed_at = some "10:02";
      updated_at = "10:02";
    })
unfolding run create_task complete_task find_task change_task lookup insert show waiting sink
run_test = refl

created_once_example :
    (t' : Task String String) × Evolves waiting t'
    × (create_task (record draft { title = "Once more" }) "10:05" (run calls sink)
        ≡ (t', run calls sink))
unfolding lookup sink
created_once_example =
    created_once calls (record draft { title = "Once more" }) "10:05" waiting sink refl
