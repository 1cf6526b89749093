-- ===== src/Query/Prepare/Shown.antt =====
-- The tables that the server has itself are shown as its data node has them.
use mindsdb_database_ai.Prelude.{
  ◌≡◌, refl, ap, ◌∙◌, arith, true, Option, none, some, List, [], ◌∷◌, map, ok, ◌⊎◌, inl, inr, ◌||◌,
}
use mindsdb_database_ai.Prelude.Text.{Str}
use mindsdb_database_ai.Prelude.StrEq.{eqb}
use mindsdb_database_ai.Prelude.Key.{str_key, option_key, pair_key, triple_key}
use mindsdb_database_ai.Prelude.Assoc.{Assoc}
use mindsdb_database_ai.Query.{TableName, StepData, Identifier, column_of}
use mindsdb_database_ai.Query.Fetch.{keyed, under, column_names}
use mindsdb_database_ai.Query.Fetch.Numbers.{get-keyed}
use mindsdb_database_ai.Query.Project.{or_key_error, data_row, make_list_result_view}
use mindsdb_database_ai.Query.Plan.{Engine, Step, execute_query, mindsdb_name}
use mindsdb_database_ai.Query.Plan.SelectStar.{values_under, rows_under, cell-only}
use mindsdb_database_ai.Query.Prepare.{
  Statement, select, identifier, OwnTable, predictors, commands, datasources, own_name, last_name,
  is_mindsdb, own_table, own_table_of, OwnNode, own_rows, own_columns, own_data, new_state,
  prepare_query, new_query,
}

module _ {V : Type 0} (table : TableName) where
  data_row-under :
      (names : List Str) (row : Assoc Str V)
      → data_row ((table, keyed row) ∷ []) (map (column_of table) (column_names names))
        ≡ values_under names row
  unfolding data_row values_under
  data_row-under [] row = refl
  data_row-under (name ∷ names) row =
      let shown = cell-only table name (keyed row) ∙ ap or_key_error (get-keyed name row) in
      rw (shown, data_row-under names row) refl

  -- The view of rows that stand under one table.
  pub view-under :
      (names : List Str) (rows : List (Assoc Str V))
      → make_list_result_view (map (column_of table) (column_names names)) (under table rows)
        ≡ rows_under names rows
  unfolding make_list_result_view rows_under
  view-under names [] = refl
  view-under names (row ∷ rows) = rw (data_row-under names row, view-under names rows) refl

-- The database of the session, or the first part of the name, is 'mindsdb'.
abbrev pub InMindsdb : (Str → Str) → Option Str → Identifier → Type 0
InMindsdb lower database i = (database ≡ some mindsdb_name) ⊎ (lower i.first ≡ mindsdb_name)

in_mindsdb :
    (lower : Str → Str) (database : Option Str) (i : Identifier)
    → InMindsdb lower database i
    → is_mindsdb database || eqb (lower i.first) mindsdb_name ≡ true
unfolding eqb
in_mindsdb lower database i (inl e) = rw e refl
in_mindsdb lower database i (inr e) =
    let f : eqb (lower i.first) mindsdb_name ≡ true = rw e refl in rw f (ground arith)

own_of-own_name :
    (lower : Str → Str) (database : Option Str) (i : Identifier) (t : OwnTable)
    → lower (last_name i) ≡ own_name t
    → InMindsdb lower database i
    → own_table_of lower database (select (identifier i)) ≡ some t
unfolding own_table_of eqb
own_of-own_name lower database i predictors e h = rw (e, in_mindsdb lower database i h)
own_of-own_name lower database i commands e h = rw (e, in_mindsdb lower database i h)
own_of-own_name lower database i datasources e h = rw (e, in_mindsdb lower database i h)

module _ {V : Type 0} (engine : Engine V) (node : OwnNode V) (steps : List (Step V)) where
  -- A SELECT from a table whose name's last part, in lower case, is 'predictors', 'commands' or
  -- 'datasources', where the session's database is 'mindsdb' or the first part of the name is, in
  -- lower case: if the node gives the rows and the names of that table, the query has the names as
  -- its columns and for each row the values under them, or a KeyError where a row lacks one, and no
  -- step of the plan is taken.
  pub new_query-own :
      (t : OwnTable) (i : Identifier) (rows : List (Assoc Str V)) (names : List Str)
      → engine.lower (last_name i) ≡ own_name t
      → InMindsdb engine.lower engine.database i
      → own_rows node t ≡ ok (rows, names)
      → (fetched_data : StepData V) × (new_query engine node (select (identifier i)) steps
          ≡ ok (record {
            fetched_data = some fetched_data;
            running = record { row_id = 0; columns_list = some (own_columns t names) };
          }))
        × (make_list_result_view (own_columns t names) fetched_data.values ≡ rows_under names rows)
  unfolding new_query prepare_query execute_query
  new_query-own t i rows names e d f = (
    own_data t (rows, names),
    rw (new_query, prepare_query, own_of-own_name engine.lower engine.database i t e d, f) refl,
    view-under (own_table t) names rows,
  )

  -- Any other query is left to the plan.
  pub new_query-other :
      (statement : Statement)
      → own_table_of engine.lower engine.database statement ≡ none
      → new_query engine node statement steps ≡ execute_query engine steps new_state
  unfolding new_query prepare_query
  new_query-other statement e = rw (new_query, prepare_query, e) refl
