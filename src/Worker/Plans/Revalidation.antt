-- ===== src/Worker/Plans/Revalidation.antt =====
-- src/shelfwise_backend/governed_execution.py: the plan that the schedule runs for every store. The
-- parameters are the tenant and the store.
use shelfwise.Prelude.{String, some, [], ◌∷◌}
use Prim.Native.String.{◌++◌}
use shelfwise.Runtime.Provenance.{operational_twin}
use shelfwise.Worker.Plans.{Plan}

-- `fidelity_revalidation_plan`
abbrev pub fidelity_revalidation_plan : String → String → Plan (String × String) String
fidelity_revalidation_plan tenant_id store_id = record {
  plan_id = "fidelity_revalidation_" ++ tenant_id ++ "_" ++ store_id;
  tenant_id = tenant_id;
  data_domain = operational_twin;
  actor_role = "scheduler";
  steps =
      record {
        key = "recompute_fidelity";
        capability = "recompute_twin_fidelity";
        params = (tenant_id, store_id);
        compensation = some "none_read_only";
      }
      ∷ [];
}
