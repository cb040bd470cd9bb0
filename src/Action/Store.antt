-- ===== src/Action/Store.antt =====
-- src/shelfwise_action/store.py, class InMemoryDecisionStore. A decision is a dictionary of Python
-- values; `_now()` is the argument `now`. The lock makes each method one step.
pub mod Review
pub mod Finality
pub mod Postgres
use shelfwise.Prelude.{
  String, Bool, true, false, not, ◌&&◌, ◌||◌, Option, none, some, List, [], ◌∷◌, map, text_key,
  ◌==◌, if◌then◌else◌, or_else, Dict, lookup, insert, set_default, update,
}
use Prim.Native.String.{◌++◌}
use shelfwise.Prelude.Text.{truthy}
use shelfwise.Prelude.Results.{Result, ok, err, raise_if, ◌>>=◌, ◌>>◌}

-- A value in a decision: None, a text, the review that `_transition` writes (the reviewer, the
-- status and the time), and any other value by its `str()` and its truth.
pub data Value : Type 0 where
  null : Value
  text : String → Value
  review : String → String → String → Value
  other : String → Bool → Value

-- `str(value)`; the texts of a review are printed as those without quotes and escapes are.
unfoldable pub str : Value → String
str null = "None"
str (text s) = s
str (review reviewer status at) =
    "{'reviewer': '" ++ reviewer ++ "', 'status': '" ++ status ++ "', 'reviewed_at': '" ++ at
    ++ "'}"
str (other shown t) = shown

abbrev pub Decision : Type 0
Decision = Dict String Value

abbrev pub Store : Type 0
Store = Dict String Decision

-- `str(decision.get("id", ""))`
unfoldable pub id_of : Decision → String
unfolding str
id_of decision = str (or_else (lookup "id" decision) (text ""))

-- `status in {"approved", "rejected"}`, for a status that can be hashed: of a list or a dictionary the
-- test raises TypeError, and a status of these is left aside.
abbrev pub is_final_status : String → Bool
is_final_status s = s == "approved" || s == "rejected"

abbrev pub is_final_value : Option Value → Bool
is_final_value (some (text s)) = is_final_status s
is_final_value _ = false

-- `existing and existing.get("status") in {"approved", "rejected"}`
abbrev pub is_final : Decision → Bool
is_final d = is_final_value (lookup "status" d)

-- The four `setdefault` calls of `upsert`.
unfoldable pub with_defaults : String → Decision → Decision
with_defaults now d =
    let d₁ = set_default "data_domain" (text "world_simulation") d in
    let d₂ = set_default "created_at" (text now) d₁ in
    let d₃ = set_default "updated_at" (or_else (lookup "created_at" d₂) null) d₂ in
    set_default "review" null d₃

-- The record that `upsert` stores for a decision that is not final.
unfoldable pub merged : Option Decision → Decision → String → Decision
unfolding with_defaults
merged existing decision now = with_defaults now (update (or_else existing []) decision)

store_merged : Decision → String → Option Decision → Store → Decision × Store
unfolding merged id_of
store_merged decision now existing s =
    let d = merged existing decision now in (d, insert (id_of decision) d s)

upsert_found : Decision → String → Option Decision → Store → Decision × Store
unfolding store_merged
upsert_found decision now none s = store_merged decision now none s
upsert_found decision now (some existing) s =
    if is_final existing then (existing, s) else store_merged decision now (some existing) s

unfoldable pub upsert : Decision → String → Store → Result (Decision × Store)
unfolding upsert_found id_of
upsert decision now s = do
  raise_if (not (truthy (id_of decision)))
  ok (upsert_found decision now (lookup (id_of decision) s) s)

-- `list`
unfoldable pub all : Store → List Decision
all s = map (λ e. e.1) s

abbrev pub clear : Store → Store
clear s = []

-- `deepcopy(item) if item else None`: an empty dictionary is false.
abbrev pub unless_empty : Option Decision → Option Decision
unless_empty (some []) = none
unless_empty o = o

unfoldable pub get : String → Store → Option Decision
get id s = unless_empty (lookup id s)

annotate_found : String → Decision → String → Option Decision → Store → Option Decision × Store
annotate_found id fields now none s = (none, s)
annotate_found id fields now (some item) s =
    let updated = insert "updated_at" (text now) (update item fields) in
    (some updated, insert id updated s)

unfoldable pub annotate : String → Decision → String → Store → Option Decision × Store
unfolding annotate_found
annotate id fields now s = annotate_found id fields now (lookup id s) s

-- The record that `_transition` writes.
unfoldable pub reviewed : String → String → String → Decision → Decision
reviewed status reviewer now item =
    insert "review" (review reviewer status now)
      (insert "updated_at" (text now) (insert "status" (text status) item))

transition_found :
    String → String → String → String → Option Decision → Store → Option Decision × Store
unfolding reviewed
transition_found id status reviewer now none s = (none, s)
transition_found id status reviewer now (some item) s =
    if is_final item
    then (some item, s)
    else let updated = reviewed status reviewer now item in (some updated, insert id updated s)

unfoldable pub transition : String → String → String → String → Store → Option Decision × Store
unfolding transition_found
transition id status reviewer now s = transition_found id status reviewer now (lookup id s) s

unfoldable pub approve : String → String → String → Store → Option Decision × Store
approve id reviewer now s = transition id "approved" reviewer now s

unfoldable pub reject : String → String → String → Store → Option Decision × Store
reject id reviewer now s = transition id "rejected" reviewer now s
