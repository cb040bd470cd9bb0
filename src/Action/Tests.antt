-- ===== src/Action/Tests.antt =====
-- Tests of the decision stores.
use shelfwise.Prelude.{
  String, ◌≡◌, refl, ◌↔◌, true, none, length, All, some, List, [], ◌∷◌, arith, text_key, lookup,
  insert, inl, Bool, false, eqb, update, set_default,
}
use shelfwise.Prelude.Table.{Table, dict_table}
use shelfwise.Prelude.Text.{strip}
use shelfwise.Action.Store.{
  id_of, merged, with_defaults, text, review, str, Decision, Store, all, get, transition, reviewed,
}
use shelfwise.Action.Access.{
  owned_by, tenant_scoped_decisions, decision_belongs_to_other_tenant,
  reject_cross_tenant_decision_access,
}
use shelfwise.Action.Access.Isolation.{IsStamped, tenants_are_isolated}
use shelfwise.Action.Store.Finality.{
  Call, upsert_call, approve_call, reject_call, annotate_call, IsSettled, run,
  terminal_states_protected,
}
use Prim.Native.Char.{code}
use shelfwise.Prelude.Results.{err, Error}
use shelfwise.Action.Store.Postgres.{DecisionRow, pg_get, pg_transition, pg_upsert}
use shelfwise.Action.Store.Postgres.Agreement.{Agrees}
use shelfwise.Action.Store.Postgres.ApprovalLoop.{
  answers, pg_answers, decision_stores_agree, transition_diverges,
}

abbrev decision : Decision
decision = ("id", text "d-1") ∷ ("status", text "pending") ∷ ("qty", text "4") ∷ []

abbrev store : Store
store = ("d-1", decision) ∷ []

abbrev settled : Decision
settled =
    ("id", text "d-1")
    ∷ ("status", text "approved")
    ∷ ("review", review "ann" "approved" "10:00")
    ∷ []

abbrev settled_store : Store
settled_store = ("d-1", settled) ∷ []

abbrev calls : List Call
calls =
    upsert_call decision "11:00"
    ∷ reject_call "d-1" "bob" "11:01"
    ∷ annotate_call "d-1" (("note", text "seen") ∷ []) "11:02"
    ∷ []

terminal_states_protected_example :
    IsSettled "d-1"
      (some (text "approved"))
      (some (review "ann" "approved" "10:00"))
      (run settled_store calls)
unfolding lookup
terminal_states_protected_example =
    terminal_states_protected "d-1" (some (text "approved"))
      (some (review "ann" "approved" "10:00")) refl settled_store calls (refl, refl, tt)
      (settled, refl, refl, refl)

abbrev row : DecisionRow
row = record {
  tenant_id = "default";
  data_domain = "world_simulation";
  status = "observed";
  payload = ("id", text "d-1") ∷ ("status", text "observed") ∷ [];
  created_at = "09:00";
  updated_at = "09:00";
}

abbrev table : Table String DecisionRow
table = dict_table String DecisionRow

abbrev both_calls : List Call
both_calls =
    upsert_call decision "10:00"
    ∷ approve_call "d-1" "ann" "10:01"
    ∷ reject_call "d-1" "bob" "10:02"
    ∷ annotate_call "d-1" (("note", text "seen") ∷ []) "10:03"
    ∷ []

-- A database that reads the texts with a colon at their third place.
abbrev has_colon : String → Bool
has_colon (String.◌∷◌ a (String.◌∷◌ b (String.◌∷◌ c s))) = eqb (code c) 58
has_colon _ = false

decision_stores_agree_example :
    let (rs, s') = answers both_calls [] in
    let (rs', t') = pg_answers table has_colon both_calls [] in
    (rs ≡ rs') × Agrees table has_colon s' t'
unfolding lookup
decision_stores_agree_example =
    decision_stores_agree table has_colon both_calls [] []
      (
        ((refl, (refl, (refl, tt))), ("pending", refl, inl refl), (refl, refl), refl),
        (refl, (refl, ((refl, refl, refl), tt))),
      )
      (record { same = λ id. refl; in_sync = λ id r e. absurd (ground arith) })

-- A time that the database cannot read: the upsert raises.
bad_time_test :
    pg_upsert table has_colon (("created_at", text "soon") ∷ decision) "10:00" []
    ≡ err Error.database_error
unfolding pg_upsert pg_get id_of merged with_defaults update set_default lookup insert str
bad_time_test = refl

transition_diverges_example :
    (transition "d-1" "approved" "ann" "10:00" (("d-1", row.payload) ∷ []) ≡ (
      some (reviewed "approved" "ann" "10:00" row.payload),
      insert "d-1" (reviewed "approved" "ann" "10:00" row.payload) (("d-1", row.payload) ∷ []),
    ))
    × (pg_transition table "d-1" "approved" "ann" "10:00" (("d-1", row) ∷ [])
        ≡ (some row.payload, ("d-1", row) ∷ []))
unfolding lookup
transition_diverges_example =
    transition_diverges table "d-1" "approved" "ann" "10:00" (("d-1", row.payload) ∷ [])
      (("d-1", row) ∷ []) row refl refl refl
      (λ e. ground (arith, text_key.same_iff "observed" "pending"))

abbrev stamped : Store
stamped =
    ("d1", ("id", text "d1") ∷ ("tenant_id", text " acme ") ∷ [])
    ∷ ("d2", ("id", text "d2") ∷ [])
    ∷ []

listed_test : length (tenant_scoped_decisions true "acme" none stamped) ≡ 1
unfolding tenant_scoped_decisions all owned_by strip lookup str
listed_test = refl

unstamped_test : reject_cross_tenant_decision_access true "d2" "acme" stamped ≡ none
unfolding reject_cross_tenant_decision_access decision_belongs_to_other_tenant get owned_by strip
    lookup str
unstamped_test = refl

tenants_are_isolated_example :
    All (IsStamped "acme") (tenant_scoped_decisions true "acme" none stamped)
    × ((id : String) (d : Decision)
        → get id stamped ≡ some d
        → (reject_cross_tenant_decision_access true id "acme" stamped ≡ some tt)
          ↔ IsStamped "acme" d)
tenants_are_isolated_example = tenants_are_isolated "acme" none stamped
