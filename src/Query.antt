-- ===== src/Query.antt =====
-- The query engine: mindsdb/api/mysql/mysql_proxy/classes/sql_query.py. This file has what the steps
-- of a plan pass on: `StepData` is the dict with 'values', 'columns' and 'tables'. `V` is the type of
-- the values in a table.
pub mod Vars
mod Tests
mod PlanTests
pub mod Fetch
pub mod Project
pub mod Join
pub mod Plan
pub mod Prepare
use mindsdb_database_ai.Prelude.{
  Option, none, some, List, [], ◌∷◌, ◌++◌, Result, ok, raise, exception,
}
use mindsdb_database_ai.Prelude.Text.{Str}
use mindsdb_database_ai.Prelude.Assoc.{Assoc}

-- (database, table, alias)
abbrev pub TableName : Type 0
TableName = Option Str × Str × Option Str

-- (name, alias)
abbrev pub ColumnName : Type 0
ColumnName = Str × Option Str

abbrev pub Cells {ℓ} : Type ℓ → Type ℓ
Cells V = Assoc ColumnName V

abbrev pub Row {ℓ} : Type ℓ → Type ℓ
Row V = Assoc TableName (Cells V)

pub record StepData {ℓ} (V : Type ℓ) : Type ℓ where
  pub values : List (Row V)
  pub columns : Assoc TableName (List ColumnName)
  pub tables : List TableName

-- An `Identifier` of the parsed query: it has one part at least.
pub record Identifier : Type 0 where
  pub first : Str
  pub others : List Str
  pub alias : Option (List Str)

-- `'.'.join(parts)`
unfoldable pub dotted : List Str → Str
dotted [] = []
dotted (part ∷ []) = part
dotted (part ∷ next ∷ parts) = part ++ b'.' ∷ dotted (next ∷ parts)

abbrev pub dotted_alias : Option (List Str) → Option Str
dotted_alias none = none
dotted_alias (some parts) = some (dotted parts)

unfoldable pub get_table_alias : Identifier → Option Str → Result TableName
get_table_alias table default_db_name = elim table.others [
  | [] ↦ ok (default_db_name, table.first, dotted_alias table.alias)
  | name ∷ [] ↦ ok (some table.first, name, dotted_alias table.alias)
  | _ ↦ raise (exception "Table name must contain no more than 2 parts")
]

-- `get_preditor_alias`
unfoldable pub get_preditor_alias : Identifier → Option Str → TableName
get_preditor_alias predictor database =
    let name = dotted (predictor.first ∷ predictor.others) in
    let alias : Str = elim predictor.alias [ none ↦ name | some parts ↦ dotted parts ] in
    (database, name, some alias)

-- A `Column` of the result, as its constructor leaves it: an alias that is missing is the name.
pub record Column : Type 0 where
  pub database : Option Str
  pub table_name : Str
  pub table_alias : Str
  pub name : Str
  pub alias : Str

abbrev pub or_name : Option Str → Str → Str
or_name none name = name
or_name (some alias) name = alias

unfoldable pub column_of : TableName → ColumnName → Column
column_of (database, table_name, table_alias) (name, alias) = record {
  database = database;
  table_name = table_name;
  table_alias = or_name table_alias table_name;
  name = name;
  alias = or_name alias name;
}
