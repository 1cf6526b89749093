-- ===== src/Mongo/Predictors.antt =====
-- The collection 'predictors': mindsdb/api/mongo/responders/delete.py, count.py and aggregate.py.
-- The models are the list of their names, which get_models gives and `delete_model` of
-- mindsdb/interfaces/model/model_controller.py changes.
pub mod Deleted
use mindsdb_database_ai.Prelude.{
  ℕ, Bool, true, false, not, Option, none, some, List, [], ◌∷◌, ◌&&◌, length, Exn, Result, ok,
  raise, ◌>>=◌, exception, key_error, ◌==◌, if◌then◌else◌,
}
use mindsdb_database_ai.Prelude.Text.{Str}
use mindsdb_database_ai.Prelude.StrEq.{eqb}

-- "predictors", "mindsdb", "name"
abbrev pub predictors : Str
predictors = b'p' ∷ b'r' ∷ b'e' ∷ b'd' ∷ b'i' ∷ b'c' ∷ b't' ∷ b'o' ∷ b'r' ∷ b's' ∷ []

abbrev pub mindsdb : Str
mindsdb = b'm' ∷ b'i' ∷ b'n' ∷ b'd' ∷ b's' ∷ b'd' ∷ b'b' ∷ []

abbrev pub name_key : Str
name_key = b'n' ∷ b'a' ∷ b'm' ∷ b'e' ∷ []

-- A filter: its keys with their values.
abbrev pub Filter : Type 0
Filter = List (Str × Str)

-- `delete_filter['name']`, where 'name' is the only key.
abbrev pub only_name : Filter → Option Str
only_name ((key, value) ∷ []) = if eqb key name_key then some value else none
only_name _ = none

unfoldable pub is_model : Str → List Str → Bool
is_model name [] = false
is_model name (m ∷ models) = if eqb m name then true else is_model name models

-- The first record of the name goes.
unfoldable pub delete_record : Str → List Str → List Str
delete_record name [] = []
delete_record name (m ∷ models) = if eqb m name then models else m ∷ delete_record name models

-- The calls behind the commit, which take the name out of the database handlers and delete its files:
-- what they raise.
pub record Cleanup : Type 0 where
  pub unregister_predictor : Str → Option Exn
  pub delete_files : Str → Option Exn

abbrev pub raised_or : Option Exn → Result Bool → Result Bool
raised_or (some e) r = raise e
raised_or none r = r

-- `delete_model`: the records that are left, also where it raises. It swallows what deleting the data
-- source raises, which is left aside, as failures of the database are.
unfoldable pub delete_model : Cleanup → Str → List Str → List Str × Result Bool
delete_model cleanup name models =
    if not (is_model name models) then (models, raise (exception "Predictor does not exist")) else (
      delete_record name models,
      raised_or (cleanup.unregister_predictor name)
          (raised_or (cleanup.delete_files name) (ok true)),
    )

-- `deletes` must be one filter; the filter's name.
abbrev pub only_filter : List Filter → Result Str
only_filter (f ∷ []) = elim (only_name f) [
  | none ↦ raise (exception "only argumet of the form {name: 'predictor_name'} are supported")
  | some name ↦ ok name
]
only_filter _ = raise (exception "Should be only one argument in REMOVE operation")

-- `_result` of a delete: the models that are left, and the count of predictors that it removed.
unfoldable pub delete_named : Cleanup → Str → List Str → List Str × Result ℕ
delete_named cleanup name models =
    if is_model name models
    then (let (left, r) = delete_model cleanup name models in (left, r >>= λ done. ok 1))
    else (models, ok 0)

abbrev pub delete_filtered : Cleanup → List Str → Result Str → List Str × Result ℕ
delete_filtered cleanup models (raise e) = (models, raise e)
delete_filtered cleanup models (ok name) = delete_named cleanup name models

unfoldable pub delete_result : Cleanup → Str → List Filter → List Str → List Str × Result ℕ
delete_result cleanup table deletes models =
    if not (eqb table predictors)
    then (
      models,
      raise (exception "Only REMOVE from 'predictors' collection is supported at this time"),
    )
    else delete_filtered cleanup models (only_filter deletes)

-- `result`: every exception becomes an answer with n = 0 and a write error.
abbrev pub Deletion : Type 0
Deletion = ℕ × Bool

abbrev pub answered : List Str × Result ℕ → Deletion × List Str
answered (left, raise e) = ((0, true), left)
answered (left, ok n) = ((n, false), left)

unfoldable pub delete : Cleanup → Str → List Filter → List Str → Deletion × List Str
delete cleanup table deletes models = answered (delete_result cleanup table deletes models)

-- `count`, and the count that `aggregate` answers with.
unfoldable pub count : Str → List Str → ℕ
count collection models = if eqb collection predictors then length models else 0

unfoldable pub aggregate_count : Str → Str → List Str → ℕ
aggregate_count db collection models =
    if eqb db mindsdb && eqb collection predictors then length models else 0
