-- ===== src/Query/Fetch.antt =====
-- The steps that fetch tables: _fetch_dataframe_step, _multiple_steps, join_query_data and the branch
-- MapReduceStep of execute_step in mindsdb/api/mysql/mysql_proxy/classes/sql_query.py. The state of
-- the object is the number of the next row, `row_id`. Other servers answer through `select`.
pub mod Numbers
pub mod Reduce
use mindsdb_database_ai.Prelude.{
  ℕ, suc, ◌+◌, Bool, true, false, not, Option, none, some, List, [], ◌∷◌, ◌++◌, map, length, Exn,
  Result, ok, raise, exception, attribute_error, ◌>>=◌, if◌then◌else◌,
}
use mindsdb_database_ai.Prelude.Text.{Str}
use mindsdb_database_ai.Prelude.StrEq.{eqb}
use mindsdb_database_ai.Prelude.Key.{Key, ◌≐◌, str_key, option_key, pair_key, triple_key}
use mindsdb_database_ai.Prelude.Assoc.{Assoc, get, put, is_some}
use mindsdb_database_ai.Query.{
  TableName, ColumnName, Cells, Row, StepData, Identifier, get_table_alias,
}
use mindsdb_database_ai.Query.Vars.{Where, mark_query_var, replace_vars, unmark_query_var}

-- '__mindsdb_row_id'
abbrev pub row_id_name : Str
row_id_name =
    b'_' ∷ b'_' ∷ b'm' ∷ b'i' ∷ b'n' ∷ b'd' ∷ b's' ∷ b'd' ∷ b'b' ∷ b'_' ∷ b'r' ∷ b'o' ∷ b'w' ∷ b'_'
    ∷ b'i' ∷ b'd' ∷ []

-- A `FetchDataframeStep`: the integration that is asked, and of the query its table and condition.
pub record FetchStep (V : Type 0) : Type 0 where
  pub integration : Str
  pub from_table : Identifier
  pub where_ : Where V

-- What the engine asks of others: numbers and texts as values, `str`, `==`, and a data node, which
-- answers a query with rows and the names of its columns.
pub record Source (V : Type 0) : Type 0 where
  pub number : ℕ → V
  pub text : Str → V
  pub str_of : V → Str
  pub same : V → V → Bool
  pub select : FetchStep V → Result (List (Assoc Str V) × List Str)

abbrev pub no_data : {V : Type 0} → StepData V
no_data = record { values = []; columns = []; tables = [] }

module _ {V : Type 0} where
  -- {(key, key): value …}
  abbrev pub keyed : Assoc Str V → Cells V
  keyed [] = []
  keyed ((k, v) ∷ r) = ((k, some k), v) ∷ keyed r

  abbrev pub under : TableName → List (Assoc Str V) → List (Row V)
  under table [] = []
  under table (r ∷ rows) = ((table, keyed r) ∷ []) ∷ under table rows

abbrev pub column_names : List Str → List ColumnName
column_names [] = []
column_names (c ∷ cs) = (c, some c) ∷ column_names cs

module _ {V : Type 0} (src : Source V) where
  -- `row['__mindsdb_row_id'] = self.row_id + i`
  unfoldable pub numbered : ℕ → List (Assoc Str V) → List (Assoc Str V)
  numbered i [] = []
  numbered i (r ∷ rows) = put row_id_name (src.number i) r ∷ numbered (i + 1) rows

  abbrev pub fetched : TableName → ℕ → List (Assoc Str V) × List Str → StepData V × ℕ
  fetched table row_id (rows, names) = (
    record {
      values = under table (numbered row_id rows);
      columns = (table, column_names names ++ (row_id_name, some row_id_name) ∷ []) ∷ [];
      tables = table ∷ [];
    },
    row_id + length rows,
  )

  -- `database` is `self.database`.
  unfoldable pub fetch_dataframe_step : Option Str → FetchStep V → ℕ → Result (StepData V × ℕ)
  fetch_dataframe_step database step row_id = do
    table ← get_table_alias step.from_table database
    answer ← src.select step
    ok (fetched table row_id answer)

-- `join_query_data`. What is unordered is list(set(…)), whose order Python leaves open.
module _ (unordered_columns : List ColumnName → List ColumnName) where
  abbrev pub joined_columns : Option (List ColumnName) → List ColumnName → List ColumnName
  joined_columns none source = source
  joined_columns (some target) source = unordered_columns (target ++ source)

  unfoldable pub join_columns :
      Assoc TableName (List ColumnName)
      → Assoc TableName (List ColumnName)
      → Assoc TableName (List ColumnName)
  join_columns target [] = target
  join_columns target ((table, cs) ∷ source) =
      join_columns (put table (joined_columns (get table target) cs) target) source

module _ {V : Type 0} (unordered_tables : List TableName → List TableName)
    (unordered_columns : List ColumnName → List ColumnName) where
  unfoldable pub join_query_data : StepData V → StepData V → StepData V
  join_query_data target source = record {
    values = target.values ++ source.values;
    columns = join_columns unordered_columns target.columns source.columns;
    tables = unordered_tables (target.tables ++ source.tables);
  }

  -- `_multiple_steps`
  unfoldable pub multiple_steps :
      Source V → Option Str → List (FetchStep V) → ℕ → StepData V → Result (StepData V × ℕ)
  multiple_steps src database [] row_id data' = ok (data', row_id)
  multiple_steps src database (step ∷ steps) row_id data' =
      fetch_dataframe_step src database step row_id >>= λ r.
      multiple_steps src database steps r.1 (join_query_data data' r.0)

-- `name[1] or name[0]`
abbrev pub name_or_alias : ColumnName → Str
name_or_alias (name, none) = name
name_or_alias (name, some []) = name
name_or_alias (name, some (c ∷ alias)) = c ∷ alias

abbrev pub or_first {ℓ} : {A : Type ℓ} → List A → List A → List A
or_first [] new = new
or_first (x ∷ old) new = x ∷ old

-- The variables of a row: the names of its columns with their values.
module _ {V : Type 0} where
  unfoldable pub add_vars : Assoc Str V → Cells V → Assoc Str V
  add_vars group [] = group
  add_vars group ((name, value) ∷ cells) =
      add_vars (if eqb name.0 row_id_name then group else put (name_or_alias name) value group)
        cells

  unfoldable pub vars_of : Assoc Str V → Row V → Assoc Str V
  vars_of group [] = group
  vars_of group ((table, cells) ∷ row) = vars_of (add_vars group cells) row

  unfoldable pub var_groups : List (Row V) → List (Assoc Str V)
  var_groups [] = []
  var_groups (row ∷ rows) = vars_of [] row ∷ var_groups rows

  -- What a round of the reduce adds.
  abbrev pub reduced : StepData V → StepData V → StepData V
  reduced data' sub = record {
    values = data'.values ++ sub.values;
    columns = or_first data'.columns sub.columns;
    tables = or_first data'.tables sub.tables;
  }

-- The query's condition, the next row's number and the data.
abbrev pub Reducing : Type 0 → Type 0
Reducing V = Where V × ℕ × StepData V

module _ {V : Type 0} (src : Source V) (database : Option Str) (step : FetchStep V) where
  -- The query with the values of a group for its variables.
  abbrev pub substituted : Where V → Assoc Str V → FetchStep V
  substituted w group = record step {
    where_ = replace_vars src.text src.same group (mark_query_var src.str_of w);
  }

  -- The loop of MapReduceStep over the groups, for a FetchDataframeStep.
  unfoldable pub reduce_groups : List (Assoc Str V) → Where V → ℕ → StepData V → Result (Reducing V)
  reduce_groups [] w row_id data' = ok (w, row_id, data')
  reduce_groups (group ∷ groups) w row_id data' =
      fetch_dataframe_step src database (substituted w group) row_id >>= λ r.
      unmark_query_var (substituted w group).where_ >>= λ w'.
      reduce_groups groups w' r.1 (reduced data' r.0)

-- 'union'
abbrev pub union : Str
union = b'u' ∷ b'n' ∷ b'i' ∷ b'o' ∷ b'n' ∷ []

-- The step that a MapReduceStep repeats.
pub data Substep (V : Type 0) : Type 0 where
  fetch_step : FetchStep V → Substep V
  multiple : List (FetchStep V) → Substep V
  unknown : Substep V

-- Every exception becomes a SqlApiException.
abbrev pub map_reduce_error : Exn
map_reduce_error = exception "error in map reduce step"

abbrev pub or_sql_error {ℓ} : {A : Type ℓ} → Exn → Result A → Result A
or_sql_error e (ok a) = ok a
or_sql_error e (raise _) = raise e

module _ {V : Type 0} (src : Source V) (database : Option Str) where
  -- The branch MapReduceStep. `_multiple_steps_reduce` calls items() of the list of the groups, which
  -- raises AttributeError whatever the steps are.
  abbrev pub reduce_substep : Substep V → List (Assoc Str V) → ℕ → Result (Reducing V)
  reduce_substep (fetch_step step) groups row_id =
      reduce_groups src database step groups step.where_ row_id no_data
  reduce_substep (multiple steps) groups row_id = raise attribute_error
  reduce_substep unknown groups row_id = raise (exception "Unknown step type")

  unfoldable pub map_reduce_step : (reduce : Str) → Substep V → StepData V → ℕ → Result (Reducing V)
  map_reduce_step reduce substep step_data row_id = or_sql_error map_reduce_error (
      if not (eqb reduce union)
      then raise (exception "Unknown MapReduceStep type")
      else reduce_substep substep (var_groups step_data.values) row_id)
