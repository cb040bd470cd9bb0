-- ===== src/Action/Store/Postgres.antt =====
-- src/shelfwise_action/store.py, class PostgresDecisionStore over a table of the database.
-- Row-level security is not modelled: sessions see the rows that they ask for. The values of a
-- decision are those that JSON has, so that `jsonb` takes each and gives it back. What the database
-- reads as a `timestamptz` is a parameter; `now`, the text of the clock's time, is one.
pub mod Calls
pub mod Rows
pub mod Agreement
pub mod ApprovalLoop
use shelfwise.Prelude.{
  ℕ, String, Bool, true, false, not, ◌&&◌, Option, none, some, List, [], ◌∷◌, map, text_key, ◌==◌,
  if◌then◌else◌, or_else, lookup, insert, update, set_default,
}
use shelfwise.Prelude.Text.{truthy, strip, or_text, text_leb}
use shelfwise.Prelude.Sort.{sort}
use shelfwise.Prelude.Table.{Table}
use shelfwise.Prelude.Results.{Result, ok, err, Error, raise_if, ◌>>=◌, ◌>>◌}
use shelfwise.Action.Store.{
  Value, null, text, review, other, str, Decision, id_of, is_final, is_final_status, merged,
  reviewed, unless_empty,
}

-- A row of `shelfwise_decisions`.
pub record DecisionRow : Type 0 where
  pub tenant_id : String
  pub data_domain : String
  pub status : String
  pub payload : Decision
  pub created_at : String
  pub updated_at : String

-- `bool(value)`
abbrev is_true : Value → Bool
is_true null = false
is_true (text s) = truthy s
is_true (review r s t) = true
is_true (other shown t) = t

-- `str(decision.get(field) or "")`
abbrev text_or_empty : Option Value → String
text_or_empty none = ""
text_or_empty (some v) = if is_true v then str v else ""

-- `_tenant_id`
unfoldable pub tenant_of : Decision → String
unfolding str
tenant_of d = or_text (strip (text_or_empty (lookup "tenant_id" d))) "default"

-- `str(record.get(field, ""))`
abbrev pub column : String → Decision → String
column field d = str (or_else (lookup field d) (text ""))

-- The row that holds a record.
unfoldable pub row_of : Decision → DecisionRow
unfolding tenant_of
row_of d = record {
  tenant_id = tenant_of d;
  data_domain = column "data_domain" d;
  status = column "status" d;
  payload = d;
  created_at = column "created_at" d;
  updated_at = column "updated_at" d;
}

abbrev pub payload_of : Option DecisionRow → Option Decision
payload_of none = none
payload_of (some row) = some row.payload

-- `where shelfwise_decisions.status not in ('approved', 'rejected')`
abbrev pub undecided : DecisionRow → Bool
undecided row = not (is_final_status row.status)

module _ (T : Table String DecisionRow) where
  open T use {Rows, find, write, scan, no_rows}

  unfoldable pub pg_get : String → Rows → Option Decision
  pg_get id t = payload_of (find id t)

  abbrev latest_first : DecisionRow → DecisionRow → Bool
  latest_first a b =
      if a.updated_at == b.updated_at
      then if a.created_at == b.created_at
        then text_leb (column "id" a.payload) (column "id" b.payload)
        else text_leb b.created_at a.created_at
      else text_leb b.updated_at a.updated_at

  -- `list`
  unfoldable pub pg_all : Rows → List Decision
  pg_all t = map (λ row. row.payload) (sort latest_first (map (λ e. e.1) (scan t)))

  abbrev pub pg_clear : Rows → Rows
  pg_clear t = no_rows

  -- `update shelfwise_decisions set status, payload, updated_at where id = %s`
  abbrev set_payload : Decision → DecisionRow → DecisionRow
  set_payload d row = record row {
    status = column "status" d;
    payload = d;
    updated_at = column "updated_at" d;
  }

  save_payload : String → Decision → Option DecisionRow → Rows → Rows
  save_payload id d none t = t
  save_payload id d (some row) t = write id (set_payload d row) t

  pg_annotate_found : String → Decision → String → Option Decision → Rows → Option Decision × Rows
  unfolding save_payload
  pg_annotate_found id fields now none t = (none, t)
  pg_annotate_found id fields now (some current) t =
      let d = insert "updated_at" (text now) (update current fields) in
      (some d, save_payload id d (find id t) t)

  unfoldable pub pg_annotate : String → Decision → String → Rows → Option Decision × Rows
  unfolding pg_annotate_found
  pg_annotate id fields now t = pg_annotate_found id fields now (pg_get id t) t

  -- `update ... where id = %s and status = 'pending' returning payload`, and the answer.
  review_row : String → Decision → Option DecisionRow → Rows → Option Decision × Rows
  review_row id d none t = (pg_get id t, t)
  review_row id d (some row) t =
      if row.status == "pending" then (some d, write id (set_payload d row) t) else (pg_get id t, t)

  pg_transition_found :
      String → String → String → String → Option Decision → Rows → Option Decision × Rows
  unfolding review_row
  pg_transition_found id status reviewer now none t = (none, t)
  pg_transition_found id status reviewer now (some current) t =
      if is_final current
      then (some current, t)
      else review_row id (reviewed status reviewer now current) (find id t) t

  unfoldable pub pg_transition : String → String → String → String → Rows → Option Decision × Rows
  unfolding pg_transition_found
  pg_transition id status reviewer now t =
      pg_transition_found id status reviewer now (pg_get id t) t

  unfoldable pub pg_approve : String → String → String → Rows → Option Decision × Rows
  pg_approve id reviewer now t = pg_transition id "approved" reviewer now t

  unfoldable pub pg_reject : String → String → String → Rows → Option Decision × Rows
  pg_reject id reviewer now t = pg_transition id "rejected" reviewer now t

-- Whether the database takes a value for a column of type `timestamptz not null`: None and what is no
-- text it refuses.
abbrev pub db_reads : (String → Bool) → Option Value → Bool
db_reads is_time (some (text s)) = is_time s
db_reads is_time _ = false

-- Both times of a record are values of their columns.
abbrev pub is_dated : (String → Bool) → Decision → Bool
is_dated is_time d =
    db_reads is_time (lookup "created_at" d) && db_reads is_time (lookup "updated_at" d)

module _ (T : Table String DecisionRow) (is_time : String → Bool) where
  open T use {Rows, find, write}

  -- `insert ... on conflict (id) do update set ... where ...`, on the row that is there: all columns
  -- but `created_at` are replaced.
  save_row : String → DecisionRow → Option DecisionRow → Rows → Rows
  save_row id row none t = write id row t
  save_row id row (some old) t =
      if undecided old then write id (record row { created_at = old.created_at }) t else t

  -- `self.get(decision_id) or deepcopy(record)`
  abbrev read_back : String → Decision → Rows → Decision × Rows
  read_back id d t = (or_else (unless_empty (pg_get T id t)) d, t)

  -- What `upsert` writes; the database raises on a time that it cannot read.
  write_merged : Decision → String → Option Decision → Rows → Result (Decision × Rows)
  unfolding save_row
  write_merged decision now existing t =
      let id = id_of decision in
      let d = merged existing decision now in
      if is_dated is_time d
      then ok (read_back id d (save_row id (row_of d) (find id t) t))
      else err Error.database_error

  pg_upsert_found : Decision → String → Option Decision → Rows → Result (Decision × Rows)
  unfolding write_merged
  pg_upsert_found decision now none t = write_merged decision now none t
  pg_upsert_found decision now (some existing) t =
      if is_final existing then ok (existing, t) else write_merged decision now (some existing) t

  unfoldable pub pg_upsert : Decision → String → Rows → Result (Decision × Rows)
  unfolding pg_upsert_found
  pg_upsert decision now t = do
    raise_if (not (truthy (id_of decision)))
    pg_upsert_found decision now (pg_get T (id_of decision) t) t
