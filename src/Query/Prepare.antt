-- ===== src/Query/Prepare.antt =====
-- What happens to a query before its plan: `get_all_tables`, `prepare_query` without the steps of a
-- prepared statement, and the constructor of `SQLQuery`; and how its columns are given to the
-- protocol: `to_mysql_columns` and `_make_dict_result_view`. All of it is in
-- mindsdb/api/mysql/mysql_proxy/classes/sql_query.py.
pub mod Shown
pub mod Merged
use mindsdb_database_ai.Prelude.{
  ℕ, Bool, true, false, Option, none, some, List, [], ◌∷◌, ◌++◌, map, Result, ok, ◌>>=◌, ◌&&◌, ◌||◌,
  if◌then◌else◌,
}
use mindsdb_database_ai.Prelude.Text.{Str}
use mindsdb_database_ai.Prelude.StrEq.{eqb}
use mindsdb_database_ai.Prelude.Key.{str_key, option_key, pair_key}
use mindsdb_database_ai.Prelude.Assoc.{Assoc, get, update}
use mindsdb_database_ai.Query.{
  TableName, ColumnName, Cells, Row, StepData, Identifier, Column, column_of,
}
use mindsdb_database_ai.Query.Fetch.{under, column_names}
use mindsdb_database_ai.Query.Plan.{
  Engine, Step, Running, QueryState, execute_query, last_part, mindsdb_name,
}

-- A parsed statement, or a part of one that may name tables.
pub data Statement : Type 0 where
  union_of : Statement → Statement → Statement
  select : (from_table : Statement) → Statement
  identifier : Identifier → Statement
  join : Statement → Statement → Statement
  insert delete : (table : Statement) → Statement
  other : Statement

abbrev pub last_name : Identifier → Str
last_name i = last_part i.first i.others

unfoldable pub get_all_tables : Statement → List Str
get_all_tables (union_of left right) = get_all_tables left ++ get_all_tables right
get_all_tables (identifier i) = last_name i ∷ []
get_all_tables (join left right) = get_all_tables left ++ get_all_tables right
get_all_tables (select (identifier i)) = last_name i ∷ []
get_all_tables (select (join left right)) = get_all_tables left ++ get_all_tables right
get_all_tables (select _) = []
get_all_tables (insert (identifier i)) = last_name i ∷ []
get_all_tables (insert (join left right)) = get_all_tables left ++ get_all_tables right
get_all_tables (insert _) = []
get_all_tables (delete (identifier i)) = last_name i ∷ []
get_all_tables (delete (join left right)) = get_all_tables left ++ get_all_tables right
get_all_tables (delete _) = []
get_all_tables other = []

-- The tables that the server itself has.
pub data OwnTable : Type 0 where
  predictors commands datasources : OwnTable

abbrev pub own_name : OwnTable → Str
own_name predictors = b'p' ∷ b'r' ∷ b'e' ∷ b'd' ∷ b'i' ∷ b'c' ∷ b't' ∷ b'o' ∷ b'r' ∷ b's' ∷ []
own_name commands = b'c' ∷ b'o' ∷ b'm' ∷ b'm' ∷ b'a' ∷ b'n' ∷ b'd' ∷ b's' ∷ []
own_name datasources =
    b'd' ∷ b'a' ∷ b't' ∷ b'a' ∷ b's' ∷ b'o' ∷ b'u' ∷ b'r' ∷ b'c' ∷ b'e' ∷ b's' ∷ []

abbrev pub own_table : OwnTable → TableName
own_table t = (some mindsdb_name, own_name t, some (own_name t))

abbrev pub command_name : Str
command_name = b'c' ∷ b'o' ∷ b'm' ∷ b'm' ∷ b'a' ∷ b'n' ∷ b'd' ∷ []

abbrev pub is_mindsdb : Option Str → Bool
is_mindsdb none = false
is_mindsdb (some database) = eqb database mindsdb_name

module _ (lower : Str → Str) (database : Option Str) where
  -- The test on the table's name, and on the database or the first part of it.
  abbrev pub names_own : Identifier → OwnTable → Bool
  names_own i t =
      eqb (lower (last_name i)) (own_name t)
      && (is_mindsdb database || eqb (lower i.first) mindsdb_name)

  abbrev pub own_of : Identifier → Option OwnTable
  own_of i =
      if names_own i predictors
      then some predictors
      else if names_own i commands
      then some commands
      else if names_own i datasources
      then some datasources
      else none

  unfoldable pub own_table_of : Statement → Option OwnTable
  own_table_of (select (identifier i)) = own_of i
  own_table_of _ = none

abbrev pub own_columns : OwnTable → List Str → List Column
own_columns t names = map (column_of (own_table t)) (column_names names)

-- The data node of the server: its rows and the names of its columns.
pub record OwnNode (V : Type 0) : Type 0 where
  pub get_predictors : Result (List (Assoc Str V) × List Str)
  pub get_datasources : Result (List (Assoc Str V) × List Str)

module _ {V : Type 0} where
  abbrev pub own_rows : OwnNode V → OwnTable → Result (List (Assoc Str V) × List Str)
  own_rows node predictors = node.get_predictors
  own_rows node commands = ok ([], command_name ∷ [])
  own_rows node datasources = node.get_datasources

  -- What is fetched of such a table.
  abbrev pub own_data : OwnTable → List (Assoc Str V) × List Str → StepData V
  own_data t (rows, names) = record {
    values = under (own_table t) rows;
    columns = (own_table t, column_names names) ∷ [];
    tables = own_table t ∷ [];
  }

  abbrev pub with_own : OwnTable → QueryState V → List (Assoc Str V) × List Str → QueryState V
  with_own t q r = record {
    fetched_data = some (own_data t r);
    running = record { row_id = q.running.row_id; columns_list = some (own_columns t (r.1)) };
  }

  -- `prepare_query` with `prepare=False`.
  unfoldable pub prepare_query :
      (Str → Str) → Option Str → OwnNode V → Statement → QueryState V → Result (QueryState V)
  prepare_query lower database node statement q = elim (own_table_of lower database statement) [
    | none ↦ ok q
    | some t ↦ own_rows node t >>= λ r. ok (with_own t q r)
  ]

  abbrev pub new_state : QueryState V
  new_state = record { fetched_data = none; running = record { row_id = 0; columns_list = none } }

  -- The constructor, which executes the query; the planner's steps are given.
  unfoldable pub new_query :
      Engine V → OwnNode V → Statement → List (Step V) → Result (QueryState V)
  new_query engine node statement steps =
      prepare_query engine.lower engine.database node statement new_state >>= λ q.
      execute_query engine steps q

  -- A row as a dict: that of one table after the other.
  unfoldable pub dict_row : Row V → Cells V → Cells V
  dict_row [] data_row = data_row
  dict_row ((table, cells) ∷ row) data_row = dict_row row (update data_row cells)

  -- `_make_dict_result_view`
  unfoldable pub make_dict_result_view : StepData V → List (Cells V)
  make_dict_result_view data' = map (λ row. dict_row row []) data'.values

-- The types of a model's columns that the protocol knows.
pub data FieldType : Type 0 where
  date_type datetime_type float_type integer_type other_type : FieldType

-- A column as `to_mysql_columns` gives it.
pub record ResultColumn : Type 0 where
  pub database : Option Str
  pub table_name : Str
  pub name : Str
  pub alias : Str
  pub type : ℕ

-- MYSQL_TYPE_DATE, MYSQL_TYPE_DATETIME, MYSQL_TYPE_DOUBLE, MYSQL_TYPE_LONG, MYSQL_TYPE_VAR_STRING
abbrev pub mysql_type : Option FieldType → ℕ
mysql_type (some date_type) = 10
mysql_type (some datetime_type) = 12
mysql_type (some float_type) = 5
mysql_type (some integer_type) = 3
mysql_type (some other_type) = 253
mysql_type none = 253

-- `a or b`
abbrev pub or_else : Option Str → Option Str → Option Str
or_else none second = second
or_else (some []) second = second
or_else (some (c ∷ s)) second = some (c ∷ s)

abbrev pub alias_or : Str → Str → Str
alias_or [] name = name
alias_or (c ∷ s) name = c ∷ s

unfoldable pub to_mysql_columns : Option Str → Assoc Str FieldType → List Column → List ResultColumn
to_mysql_columns database model_types [] = []
to_mysql_columns database model_types (c ∷ columns_list) =
    record {
      database = or_else c.database database;
      table_name = c.table_name;
      name = c.name;
      alias = alias_or c.alias c.name;
      type = mysql_type (get c.name model_types);
    }
    ∷ to_mysql_columns database model_types columns_list
