-- ===== src/Query/Plan/SelectStar.antt =====
-- The plan of `SELECT * FROM t`: fetch, and project on a star.
use mindsdb_database_ai.Prelude.{
  ℕ, ◌+◌, ◌≡◌, ◌≢◌, refl, sym, ap, ◌∙◌, true, none, some, List, [], ◌∷◌, ◌++◌, map, length, All,
  Result, ok, ◌>>=◌,
}
use mindsdb_database_ai.Prelude.Text.{Str}
use mindsdb_database_ai.Prelude.Key.{≐_ne, ≐_refl, str_key, option_key, pair_key, triple_key}
use mindsdb_database_ai.Prelude.Assoc.{Assoc, get, put, has, get-put_ne, get-head}
use mindsdb_database_ai.Query.{
  TableName, ColumnName, Cells, Row, StepData, Column, column_of, get_table_alias,
}
use mindsdb_database_ai.Query.Fetch.{
  FetchStep, Source, keyed, under, column_names, row_id_name, numbered, fetched,
  fetch_dataframe_step,
}
use mindsdb_database_ai.Query.Fetch.Numbers.{get-keyed}
use mindsdb_database_ai.Query.Project.{
  star, star_columns, project_step, project_targets, or_key_error, table_in, cell, data_row,
  make_list_result_view,
}
use mindsdb_database_ai.Query.Project.Shown.{HasNoTwins-singleton, table_in-column_of}
use mindsdb_database_ai.Query.Plan.{
  Engine, fetch_dataframe, project, Running, execute_step, execute_steps, execute_query,
  shown_columns,
}

-- The values of a source's row under the names.
module _ {V : Type 0} where
  unfoldable pub values_under : List Str → Assoc Str V → Result (List V)
  values_under [] row = ok []
  values_under (name ∷ names) row =
      or_key_error (get name row) >>= λ v. values_under names row >>= λ vs. ok (v ∷ vs)

  unfoldable pub rows_under : List Str → List (Assoc Str V) → Result (List (List V))
  rows_under names [] = ok []
  rows_under names (row ∷ rows) =
      values_under names row >>= λ vs. rows_under names rows >>= λ rs. ok (vs ∷ rs)

  cell-found :
      (row : Row V) (c : Column) (t : TableName) (cells : Cells V)
      → table_in c row ≡ t
      → get t row ≡ some cells
      → cell row c ≡ or_key_error (get (c.name, some c.alias) cells)
  unfolding cell
  cell-found row c t cells e f = rw (e, f) refl

  -- A row with one table shows the cells of that table.
  pub cell-only :
      (table : TableName) (name : Str) (cells : Cells V)
      → cell ((table, cells) ∷ []) (column_of table (name, some name))
        ≡ or_key_error (get (name, some name) cells)
  unfolding column_of
  cell-only (database, t, alias) name cells =
      let table : TableName = (database, t, alias) in
      let column : ColumnName = (name, some name) in
      let row : Row V = (table, cells) ∷ [] in
      let there : get table row ≡ some cells = get-head table cells [] in
      let is : has table row ≡ true = rw there refl in
      cell-found row (column_of table column) table cells
        (table_in-column_of table column row (HasNoTwins-singleton table cells) is) there

  -- A fetched row shows what the source had, without the number.
  cell-numbered :
      (table : TableName) (name : Str) (v : V) (row : Assoc Str V)
      → name ≢ row_id_name
      → cell ((table, keyed (put row_id_name v row)) ∷ []) (column_of table (name, some name))
        ≡ or_key_error (get name row)
  cell-numbered table name v row h =
      cell-only table name (keyed (put row_id_name v row))
      ∙ ap or_key_error (
          get-keyed name (put row_id_name v row)
          ∙ get-put_ne name row_id_name v row (λ e. h (sym e)))

  data_row-numbered :
      (table : TableName) (names : List Str) (v : V) (row : Assoc Str V)
      → All (λ name. name ≢ row_id_name) names
      → data_row
          ((table, keyed (put row_id_name v row)) ∷ [])
          (map (column_of table) (column_names names))
        ≡ values_under names row
  unfolding data_row values_under
  data_row-numbered table [] v row h = refl
  data_row-numbered table (name ∷ names) v row h =
      rw (cell-numbered table name v row h.0, data_row-numbered table names v row h.1) refl

shown_columns-star :
    (table : TableName) (names : List Str)
    → All (λ name. name ≢ row_id_name) names
    → shown_columns
        (map (column_of table) (column_names names ++ (row_id_name, some row_id_name) ∷ []) ++ [])
      ≡ map (column_of table) (column_names names)
unfolding shown_columns column_of
shown_columns-star table [] h = rw (≐_refl row_id_name) refl
shown_columns-star table (name ∷ names) h =
    rw (≐_ne name row_id_name h.0, shown_columns-star table names h.1) refl

module _ {V : Type 0} (src : Source V) where
  view-numbered :
      (table : TableName) (names : List Str) (n : ℕ) (rows : List (Assoc Str V))
      → All (λ name. name ≢ row_id_name) names
      → make_list_result_view
          (map (column_of table) (column_names names))
          (under table (numbered src n rows))
        ≡ rows_under names rows
  unfolding make_list_result_view numbered rows_under
  view-numbered table names n [] h = refl
  view-numbered table names n (row ∷ rows) h =
      rw
        (
          data_row-numbered table names (src.number n) row h,
          view-numbered table names (n + 1) rows h,
        )
        refl

module _ {V : Type 0} (engine : Engine V) where
  -- A plan that fetches one table and projects on a star, where the source answers with rows and
  -- names and none is that of the rows' numbers: the columns of the result are the source's, the
  -- numbers go on behind the rows, and the view has for each row its values under the names. A row
  -- that lacks one of them is a KeyError.
  pub execute_query-star :
      (step : FetchStep V) (s : Running V) (table : TableName) (rows : List (Assoc Str V))
      (names : List Str)
      → get_table_alias step.from_table engine.database ≡ ok table
      → engine.source.select step ≡ ok (rows, names)
      → All (λ name. name ≢ row_id_name) names
      → let columns = map (column_of table) (column_names names) in
        (fetched_data : StepData V) × (execute_query engine
            (fetch_dataframe step ∷ project 0 (star ∷ []) ∷ [])
            (record { fetched_data = none; running = s })
          ≡ ok (record {
            fetched_data = some fetched_data;
            running = record { row_id = s.row_id + length rows; columns_list = some columns };
          }))
        × (make_list_result_view columns fetched_data.values ≡ rows_under names rows)
  unfolding execute_query execute_steps execute_step fetch_dataframe_step project_step
      project_targets star_columns
  execute_query-star step s table rows names e f h = (
    (fetched engine.source table s.row_id (rows, names)).0,
    rw (e, f, shown_columns-star table names h) refl,
    view-numbered engine.source table names s.row_id rows h,
  )
