-- ===== src/Query/Join.antt =====
-- The branch JoinStep of execute_step in mindsdb/api/mysql/mysql_proxy/classes/sql_query.py. The
-- library duckdb joins the two tables on their row numbers: it is the parameter `full_join`.
pub mod Renamed
pub mod RoundTrip
use mindsdb_database_ai.Prelude.{
  ℕ, suc, ◌+◌, Bool, true, false, not, Option, none, some, List, [], ◌∷◌, ◌++◌, Result, ok, raise,
  exception, key_error, index_error, ◌>>=◌, ◌&&◌, ◌||◌, if◌then◌else◌, length, ◌==◌, ltb,
}
use mindsdb_database_ai.Prelude.Text.{Str}
use mindsdb_database_ai.Prelude.StrEq.{eqb, starts_with}
use mindsdb_database_ai.Prelude.Key.{◌≐◌, str_key, option_key, pair_key, triple_key}
use mindsdb_database_ai.Prelude.Assoc.{Assoc, get, put}
use mindsdb_database_ai.Wire.Datum.{decimal}
use mindsdb_database_ai.Query.{TableName, ColumnName, Cells, Row, StepData}
use mindsdb_database_ai.Query.Fetch.{row_id_name, or_sql_error, joined_columns}
use mindsdb_database_ai.Query.Project.{or_key_error}

-- f'a{i}' and f'b{i}'
abbrev pub short_name : ℕ → ℕ → Str
short_name letter i = letter ∷ decimal i

-- `left_columns_map` and `left_columns_map_reverse`; those of the right side have another letter.
unfoldable pub columns_map : ℕ → ℕ → List ColumnName → Assoc Str ColumnName
columns_map letter i [] = []
columns_map letter i (column ∷ columns) =
    (short_name letter i, column) ∷ columns_map letter (i + 1) columns

unfoldable pub columns_map_reverse :
    ℕ → ℕ → List ColumnName → Assoc ColumnName Str → Assoc ColumnName Str
columns_map_reverse letter i [] reverse = reverse
columns_map_reverse letter i (column ∷ columns) reverse =
    columns_map_reverse letter (i + 1) columns (put column (short_name letter i) reverse)

module _ {V : Type 0} where
  -- {left_columns_map_reverse[key]: value …}
  unfoldable pub renamed : Assoc ColumnName Str → Cells V → Assoc Str V → Result (Assoc Str V)
  renamed reverse [] record_ = ok record_
  renamed reverse ((column, value) ∷ cells) record_ =
      or_key_error (get column reverse) >>= λ name. renamed reverse cells (put name value record_)

  unfoldable pub renamed_rows :
      TableName → Assoc ColumnName Str → List (Row V) → Result (List (Assoc Str V))
  renamed_rows table reverse [] = ok []
  renamed_rows table reverse (row ∷ rows) = or_key_error (get table row) >>= λ cells.
      renamed reverse cells [] >>= λ r. renamed_rows table reverse rows >>= λ rs. ok (r ∷ rs)

  -- The loop over a record of the join: names with 'a' go to the left table.
  unfoldable pub restore :
      Assoc Str ColumnName
      → Assoc Str ColumnName
      → Assoc Str V
      → Cells V
      → Cells V
      → Result (Cells V × Cells V)
  restore left_map right_map [] left right = ok (left, right)
  restore left_map right_map ((name, value) ∷ record_) left right =
      if starts_with (b'a' ∷ []) name
      then (or_key_error (get name left_map) >>= λ column.
          restore left_map right_map record_ (put column value left) right)
      else (or_key_error (get name right_map) >>= λ column.
          restore left_map right_map record_ left (put column value right))

  unfoldable pub restored_rows :
      TableName
      → TableName
      → Assoc Str ColumnName
      → Assoc Str ColumnName
      → List (Assoc Str V)
      → Result (List (Row V))
  restored_rows left_key right_key left_map right_map [] = ok []
  restored_rows left_key right_key left_map right_map (record_ ∷ records) =
      restore left_map right_map record_ [] [] >>= λ sides.
      restored_rows left_key right_key left_map right_map records >>= λ rows.
      ok (((left_key, sides.0) ∷ (right_key, sides.1) ∷ []) ∷ rows)

-- What a JoinStep asks: whether it has a condition, and its kind in capitals.
pub record JoinQuery : Type 0 where
  pub has_condition : Bool
  pub join_type : Str

-- 'LEFT JOIN' and 'JOIN'
abbrev pub join_word : Str
join_word = b'J' ∷ b'O' ∷ b'I' ∷ b'N' ∷ []

abbrev pub left_join_words : Str
left_join_words = b'L' ∷ b'E' ∷ b'F' ∷ b'T' ∷ b' ' ∷ join_word

abbrev pub row_id_column : ColumnName
row_id_column = (row_id_name, some row_id_name)

-- The two tables, where each side has one and they differ.
abbrev pub two_tables : List TableName → List TableName → Result (TableName × TableName)
two_tables (left ∷ []) (right ∷ []) =
    if left ≐ right
    then raise (exception "At this moment supported only JOIN of two different tables")
    else ok (left, right)
two_tables _ _ = raise (exception "At this moment supported only JOIN of two different tables")

module _ {V : Type 0} (unordered_tables : List TableName → List TableName)
    (unordered_columns : List ColumnName → List ColumnName)
    (full_join : List (Assoc Str V)
      → List (Assoc Str V)
      → (left_id right_id : Str) → Result (List (Assoc Str V))) where
  -- `data['columns']`: the columns of both sides, table by table, and then each list as a set.
  unfoldable pub added_columns :
      Assoc TableName (List ColumnName)
      → Assoc TableName (List ColumnName)
      → Assoc TableName (List ColumnName)
  added_columns target [] = target
  added_columns target ((table, columns) ∷ source) =
      added_columns (put table (joined_columns (λ cs. cs) (get table target) columns) target) source

  unfoldable pub sets : Assoc TableName (List ColumnName) → Assoc TableName (List ColumnName)
  sets [] = []
  sets ((table, columns) ∷ rest) = (table, unordered_columns columns) ∷ sets rest

  abbrev pub join_tables : StepData V → StepData V → TableName × TableName → Result (StepData V)
  join_tables left right (left_key, right_key) = do
    left_columns ← or_key_error (get left_key left.columns)
    right_columns ← or_key_error (get right_key right.columns)
    let left_reverse = columns_map_reverse b'a' 0 left_columns []
    let right_reverse = columns_map_reverse b'b' 0 right_columns []
    left_records ← renamed_rows left_key left_reverse left.values
    right_records ← renamed_rows right_key right_reverse right.values
    left_id ← or_key_error (get row_id_column left_reverse)
    right_id ← or_key_error (get row_id_column right_reverse)
    records ← full_join left_records right_records left_id right_id
    rows ←
        restored_rows left_key right_key (columns_map b'a' 0 left_columns)
          (columns_map b'b' 0 right_columns) records
    ok (record {
      values = rows;
      columns = sets (added_columns (added_columns [] left.columns) right.columns);
      tables = unordered_tables (left.tables ++ right.tables);
    })

  unfoldable pub join_step : JoinQuery → StepData V → StepData V → Result (StepData V)
  join_step query left right = or_sql_error (exception "error in join step") (
      if query.has_condition
      then raise (exception "At this moment supported only JOIN without condition")
      else if not (eqb query.join_type left_join_words || eqb query.join_type join_word)
      then raise (exception "At this moment supported only JOIN and LEFT JOIN")
      else two_tables left.tables right.tables >>= join_tables left right)
