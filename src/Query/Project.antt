-- ===== src/Query/Project.antt =====
-- The branch ProjectStep of execute_step, _make_list_result_view and get_column_in_case, in
-- mindsdb/api/mysql/mysql_proxy/classes/sql_query.py and utilities/functions.py. `lower` is
-- `str.lower`.
pub mod Copied
pub mod Shown
pub mod Unaliased
use mindsdb_database_ai.Prelude.{
  ℕ, Bool, true, false, not, Option, none, some, List, [], ◌∷◌, ◌++◌, map, Exn, Result, ok, raise,
  exception, key_error, type_error, ◌>>=◌, or_raise, ◌&&◌, ◌||◌, if◌then◌else◌,
}
use mindsdb_database_ai.Prelude.Text.{Str}
use mindsdb_database_ai.Prelude.StrEq.{eqb}
use mindsdb_database_ai.Prelude.Key.{Key, ◌≐◌, str_key, option_key, pair_key, triple_key}
use mindsdb_database_ai.Prelude.Assoc.{Assoc, get, put, has, is_some}
use mindsdb_database_ai.Query.{
  TableName, ColumnName, Cells, Row, StepData, Identifier, Column, column_of, dotted_alias,
}
use mindsdb_database_ai.Query.Fetch.{name_or_alias, or_sql_error}

-- `get_column_in_case`: the one column that is the name but for its case.
module _ (lower : Str → Str) where
  unfoldable pub candidates : Str → List Str → List Str
  candidates name [] = []
  candidates name (column ∷ columns) =
      if eqb (lower column) (lower name)
      then column ∷ candidates name columns
      else candidates name columns

  abbrev pub only : List Str → Option Str
  only (column ∷ []) = some column
  only _ = none

  unfoldable pub get_column_in_case : List Str → Str → Option Str
  get_column_in_case columns name = only (candidates name columns)

-- A column of a ProjectStep.
pub data Target : Type 0 where
  star unexpected : Target
  ident : Identifier → Target

-- A text, or None, as a condition.
abbrev pub truthy : Option Str → Bool
truthy none = false
truthy (some []) = false
truthy (some (c ∷ s)) = true

unfoldable pub star_columns : Assoc TableName (List ColumnName) → List Column
star_columns [] = []
star_columns ((table, columns) ∷ rest) = map (column_of table) columns ++ star_columns rest

-- `table_name[2] or table_name[1]`
abbrev pub shown_name : TableName → Str
shown_name (database, name, alias) = name_or_alias (name, alias)

module _ (lower : Str → Str) where
  -- The tables that have a column: there must be one at most.
  unfoldable pub only_table :
      Str → Option TableName → Assoc TableName (List ColumnName) → Result (Option TableName)
  only_table name found [] = ok found
  only_table name found ((table, columns) ∷ rest) =
      if truthy (get_column_in_case lower (map name_or_alias columns) name)
      then if is_some found
        then raise (exception "Found multiple appropriate tables for column")
        else only_table name (some table) rest
      else only_table name found rest

  abbrev pub table_of_column :
      Str → List TableName → Assoc TableName (List ColumnName) → Result (Option TableName)
  table_of_column name (table ∷ []) columns = ok (some table)
  table_of_column name _ columns = only_table name none columns

  abbrev pub one_part :
      Str → Option Str → List TableName → Assoc TableName (List ColumnName) → Result Column
  one_part name alias tables columns = table_of_column name tables columns >>= λ table.
      or_raise table type_error >>= λ t. ok (column_of t (name, alias))

  -- The table of a name in two parts, and the column of it that is copied.
  unfoldable pub named_table :
      Str → Str → Assoc TableName (List ColumnName) → Result (TableName × List ColumnName)
  named_table table_name name [] = raise (exception "Can not find approproate table for column")
  named_table table_name name ((table, columns) ∷ rest) =
      if eqb (lower table_name) (lower (shown_name table))
      then if truthy (get_column_in_case lower (map name_or_alias columns) name)
        then ok (table, columns)
        else raise (exception "Can not find column in table")
      else named_table table_name name rest

-- `column[0] == checking_name and (column[1] is None or column[1] == checking_name)`
abbrev pub is_plain : Str → ColumnName → Bool
is_plain checking (name, none) = eqb name checking
is_plain checking (name, some alias) = eqb name checking && eqb alias checking

unfoldable pub column_to_copy : Option Str → List ColumnName → Result ColumnName
column_to_copy none columns = raise (exception "Can not find approproate column in data")
column_to_copy (some checking) [] = raise (exception "Can not find approproate column in data")
column_to_copy (some checking) (column ∷ columns) =
    if is_plain checking column then ok column else column_to_copy (some checking) columns

abbrev pub or_key_error : {A : Type 0} → Option A → Result A
or_key_error o = or_raise o key_error

module _ {V : Type 0} where
  -- `row[table][to] = row[table][from]`
  unfoldable pub copy_cell : TableName → ColumnName → ColumnName → Row V → Result (Row V)
  copy_cell table from to row = or_key_error (get table row) >>= λ cells.
      or_key_error (get from cells) >>= λ v. ok (put table (put to v cells) row)

  unfoldable pub copy_cells :
      TableName → ColumnName → ColumnName → List (Row V) → Result (List (Row V))
  copy_cells table from to [] = ok []
  copy_cells table from to (row ∷ rows) = copy_cell table from to row >>= λ row'.
      copy_cells table from to rows >>= λ rows'. ok (row' ∷ rows')

module _ {V : Type 0} (lower : Str → Str) where
  abbrev pub two_parts : Str → Str → Option Str → StepData V → Result (List (Row V) × Column)
  two_parts table_name name alias data' = named_table lower table_name name data'.columns >>= λ t.
      column_to_copy (get_column_in_case lower (map name_or_alias t.1) name) t.1 >>= λ from.
      copy_cells t.0 from (name, alias) data'.values >>= λ values.
      ok (values, column_of t.0 (name, alias))

  abbrev pub project_parts :
      Str → List Str → Option Str → StepData V → Result (List (Row V) × List Column)
  project_parts first [] alias data' =
      one_part lower first alias data'.tables data'.columns >>= λ c. ok (data'.values, c ∷ [])
  project_parts first (second ∷ []) alias data' =
      two_parts first second alias data' >>= λ r. ok (r.0, r.1 ∷ [])
  project_parts first _ alias data' =
      raise (exception "Column name must contain no more than 2 parts")

  abbrev pub project_target : Target → StepData V → Result (List (Row V) × List Column)
  project_target star data' = ok (data'.values, star_columns data'.columns)
  project_target (ident i) data' = project_parts i.first i.others (dotted_alias i.alias) data'
  project_target unexpected data' = raise (exception "Unexpected column name type")

  -- The loop over `step.columns`.
  unfoldable pub project_targets :
      List Target → StepData V → List Column → Result (StepData V × List Column)
  project_targets [] data' columns_list = ok (data', columns_list)
  project_targets (target ∷ targets) data' columns_list = project_target target data' >>= λ r.
      project_targets targets (record data' { values = r.0 }) (columns_list ++ r.1)

  unfoldable pub project_step : List Target → StepData V → Result (StepData V × List Column)
  project_step targets step_data =
      or_sql_error (exception "error on project step") (project_targets targets step_data [])

module _ {V : Type 0} where
  -- The table of a row in which the view looks for a column.
  abbrev pub table_in : Column → Row V → TableName
  table_in c row =
      let named : TableName = (c.database, c.table_name, some c.table_alias) in
      if has named row then named else (c.database, c.table_name, none)

  unfoldable pub cell : Row V → Column → Result V
  cell row c = or_key_error (get (table_in c row) row) >>= λ cells.
      or_key_error (get (c.name, some c.alias) cells)

  unfoldable pub data_row : Row V → List Column → Result (List V)
  data_row row [] = ok []
  data_row row (c ∷ cs) = cell row c >>= λ v. data_row row cs >>= λ vs. ok (v ∷ vs)

  -- `_make_list_result_view`, where there is no outer query.
  unfoldable pub make_list_result_view : List Column → List (Row V) → Result (List (List V))
  make_list_result_view columns_list [] = ok []
  make_list_result_view columns_list (row ∷ rows) = data_row row columns_list >>= λ r.
      make_list_result_view columns_list rows >>= λ rs. ok (r ∷ rs)
