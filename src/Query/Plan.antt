-- ===== src/Query/Plan.antt =====
-- execute_step and execute_query of mindsdb/api/mysql/mysql_proxy/classes/sql_query.py, where there is
-- no outer query. The planner of mindsdb_sql gives the list of steps. The step GetTableColumns is left
-- out: its columns are dicts, which no other step reads.
pub mod Limit
pub mod SelectStar
use mindsdb_database_ai.Prelude.{
  ℕ, ◌-◌, ◌+◌, Bool, true, false, not, Option, none, some, List, [], ◌∷◌, ◌++◌, map, length, take,
  drop, get_elem?, Result, ok, raise, exception, index_error, key_error, ◌>>=◌, or_raise,
  if◌then◌else◌,
}
use mindsdb_database_ai.Prelude.Int.{ℤ, pos, negsuc}
use mindsdb_database_ai.Prelude.Text.{Str}
use mindsdb_database_ai.Prelude.StrEq.{eqb}
use mindsdb_database_ai.Prelude.Key.{◌≐◌, str_key, option_key, pair_key, triple_key}
use mindsdb_database_ai.Prelude.Assoc.{Assoc, get, put, has, update, is_some}
use mindsdb_database_ai.Query.{
  TableName, ColumnName, Cells, Row, StepData, Identifier, dotted, get_preditor_alias, Column,
  column_of,
}
use mindsdb_database_ai.Query.Fetch.{
  FetchStep, Source, Substep, keyed, under, column_names, row_id_name, fetch_dataframe_step,
  map_reduce_step, or_sql_error, union,
}
use mindsdb_database_ai.Query.Join.{JoinQuery, join_step}
use mindsdb_database_ai.Query.Project.{Target, project_step, or_key_error, star_columns}

-- A row that a predictor gets: its keys are the aliases of columns.
abbrev pub Given : Type 0 → Type 0
Given V = Assoc (Option Str) V

-- What the engine asks of the predictors and of the libraries, besides Source.
pub record Engine (V : Type 0) : Type 0 where
  pub source : Source V
  pub database : Option Str
  pub lower : Str → Str
  pub unordered_tables : List TableName → List TableName
  pub unordered_columns : List ColumnName → List ColumnName
  pub full_join :
      List (Assoc Str V)
      → List (Assoc Str V)
      → (left_id right_id : Str) → Result (List (Assoc Str V))
  -- `select` and `get_table_columns` of the data node 'mindsdb'.
  pub predict : (predictor : Str) → List (Given V) → Result (List (Assoc Str V))
  pub predict_row : (predictor : Str) → Assoc Str V → Result (List (Assoc Str V))
  pub predictor_columns : Str → Result (List Str)
  -- planner.predictor_metadata[predictor]['timeseries'], and whether the query says LATEST.
  pub is_timeseries : Str → Option Bool
  pub latest : Bool
  pub truth : Bool → V
  pub is_date : V → Bool

-- `parts[-1]`
abbrev pub last_part : Str → List Str → Str
last_part part [] = part
last_part part (next ∷ parts) = last_part next parts

abbrev pub mindsdb_name : Str
mindsdb_name = b'm' ∷ b'i' ∷ b'n' ∷ b'd' ∷ b's' ∷ b'd' ∷ b'b' ∷ []

-- The steps of a plan. Of a step before it, a step knows the number. A MultipleSteps has one at least.
mutual
  pub data Step (V : Type 0) : Type 0 where
    get_predictor_columns : (predictor : Identifier) → Step V
    fetch_dataframe : FetchStep V → Step V
    union_step filter_step unknown_step : Step V
    map_reduce : (values : ℕ) → (reduce : Str) → Substep V → Step V
    multiple_steps : (reduce : Str) → Step V → Steps V → Step V
    apply_predictor_row : (predictor : Identifier) → Assoc Str V → Step V
    apply_predictor : (predictor : Identifier) → (dataframe : ℕ) → Step V
    join : (left right : ℕ) → JoinQuery → Step V
    limit_offset : (dataframe : ℕ) → (limit offset : Option ℤ) → Step V
    project : (dataframe : ℕ) → List Target → Step V

  pub data Steps (V : Type 0) : Type 0 where
    end : Steps V
    step_then : Step V → Steps V → Steps V

-- `values[n:]` and `values[:n]`
module _ {A : Type 0} where
  abbrev pub slice_from : Option ℤ → List A → List A
  slice_from none xs = xs
  slice_from (some (pos n)) xs = drop n xs
  slice_from (some (negsuc n)) xs = drop (length xs - (n + 1)) xs

  abbrev pub slice_to : Option ℤ → List A → List A
  slice_to none xs = xs
  slice_to (some (pos n)) xs = take n xs
  slice_to (some (negsuc n)) xs = take (length xs - (n + 1)) xs

module _ {V : Type 0} where
  -- The tables of a row in one dict, where no column stands in two of them.
  unfoldable pub meets : Cells V → Cells V → Bool
  meets new_row [] = false
  meets new_row ((c, v) ∷ cells) = if has c new_row then true else meets new_row cells

  unfoldable pub merged_row : Cells V → Row V → Result (Cells V)
  merged_row new_row [] = ok new_row
  merged_row new_row ((table, cells) ∷ row) =
      if meets new_row cells
      then raise (exception "The predictor got two identical keys from different datasources")
      else merged_row (update new_row cells) row

  -- {key[1]: value …}
  unfoldable pub by_alias : Given V → Cells V → Given V
  by_alias given [] = given
  by_alias given ((c, v) ∷ cells) = by_alias (put c.1 v given) cells

-- '__mdb_make_predictions'
abbrev pub make_predictions : Str
make_predictions =
    b'_' ∷ b'_' ∷ b'm' ∷ b'd' ∷ b'b' ∷ b'_' ∷ b'm' ∷ b'a' ∷ b'k' ∷ b'e' ∷ b'_' ∷ b'p' ∷ b'r' ∷ b'e'
    ∷ b'd' ∷ b'i' ∷ b'c' ∷ b't' ∷ b'i' ∷ b'o' ∷ b'n' ∷ b's' ∷ []

module _ {V : Type 0} (engine : Engine V) where
  abbrev pub with_predictions : Bool → Given V → Given V
  with_predictions false given = given
  with_predictions true given =
      if has (some make_predictions) given
      then given
      else put (some make_predictions) (engine.truth (not engine.latest)) given

  -- Dates as texts.
  unfoldable pub without_dates : Given V → Given V
  without_dates [] = []
  without_dates ((k, v) ∷ given) =
      (k, (if engine.is_date v then engine.source.text (engine.source.str_of v) else v))
      ∷ without_dates given

  unfoldable pub where_data : Bool → List (Row V) → Result (List (Given V))
  where_data timeseries [] = ok []
  where_data timeseries (row ∷ rows) = merged_row [] row >>= λ cells.
      where_data timeseries rows >>= λ rest.
      ok (without_dates (with_predictions timeseries (by_alias [] cells)) ∷ rest)

  -- The data that a predictor's rows become: its columns are those of the first row.
  abbrev pub first_columns : List (Assoc Str V) → List ColumnName
  first_columns [] = []
  first_columns (row ∷ rows) = map (λ c. c.0) (keyed row)

  abbrev pub predicted : TableName → List (Assoc Str V) → StepData V
  predicted table rows = record {
    values = under table rows;
    columns = (table, first_columns rows) ∷ [];
    tables = table ∷ [];
  }

  abbrev pub predictor_name : Identifier → Str
  predictor_name predictor = dotted (predictor.first ∷ predictor.others)

  unfoldable pub apply_predictor_step : Identifier → StepData V → Result (StepData V)
  apply_predictor_step predictor dataframe =
      or_sql_error (exception "error in apply predictor step") (
        or_key_error (engine.is_timeseries (predictor_name predictor)) >>= λ timeseries.
        where_data timeseries dataframe.values >>= λ given.
        engine.predict (predictor_name predictor) given >>= λ rows.
        ok (predicted (get_preditor_alias predictor engine.database) rows))

  unfoldable pub apply_predictor_row_step : Identifier → Assoc Str V → Result (StepData V)
  apply_predictor_row_step predictor row_dict =
      or_sql_error (exception "error in apply predictor row step") (
        engine.predict_row (predictor_name predictor) row_dict >>= λ rows.
        ok (predicted (get_preditor_alias predictor engine.database) rows))

  unfoldable pub predictor_columns_step : Identifier → Result (StepData V)
  predictor_columns_step predictor =
      let name = last_part predictor.first predictor.others in
      let table : TableName = (some mindsdb_name, name, some name) in
      engine.predictor_columns name >>= λ names.
      ok (record { values = []; columns = (table, column_names names) ∷ []; tables = table ∷ [] })

-- `LimitOffsetStep`
unfoldable pub limit_offset_step : {V : Type 0} → Option ℤ → Option ℤ → StepData V → StepData V
limit_offset_step limit offset step_data = record step_data {
  values = slice_to limit (slice_from offset step_data.values);
}

-- What execute_step may change of the object: the next row's number, and the columns of the result.
pub record Running (V : Type 0) : Type 0 where
  pub row_id : ℕ
  pub columns_list : Option (List Column)

-- `steps_data[n]`
abbrev pub step_at : {V : Type 0} → List (StepData V) → ℕ → Result (StepData V)
step_at steps_data n = or_raise (get_elem? steps_data n) index_error

abbrev pub Done : Type 0 → Type 0
Done V = Running V × StepData V

module _ {V : Type 0} (engine : Engine V) (steps_data : List (StepData V)) where
  abbrev pub extended : StepData V → Done V → Done V
  extended data' (s, sub) = (s, record data' { values = data'.values ++ sub.values })

  mutual
    pub execute_step : Step V → Running V → Result (Done V)
    execute_step (get_predictor_columns predictor) s =
        predictor_columns_step engine predictor >>= λ d. ok (s, d)
    execute_step (fetch_dataframe step) s =
        fetch_dataframe_step engine.source engine.database step s.row_id >>= λ r.
        ok (record s { row_id = r.1 }, r.0)
    execute_step union_step s = raise (exception "Union step is not implemented")
    execute_step filter_step s = raise (exception "FilterStep is not implemented")
    execute_step unknown_step s = raise (exception "Unknown planner step")
    execute_step (map_reduce values reduce substep) s =
        or_sql_error (exception "error in map reduce step") (step_at steps_data values) >>= λ d.
        map_reduce_step engine.source engine.database reduce substep d s.row_id >>= λ r.
        ok (record s { row_id = r.1 }, r.2)
    execute_step (multiple_steps reduce first rest) s =
        if eqb reduce union
        then (execute_step first s >>= λ r. execute_rest rest r)
        else raise (exception "Only MultipleSteps with type = 'union' is supported")
    execute_step (apply_predictor_row predictor row_dict) s =
        apply_predictor_row_step engine predictor row_dict >>= λ d. ok (s, d)
    execute_step (apply_predictor predictor dataframe) s =
        or_sql_error (exception "error in apply predictor step") (step_at steps_data dataframe)
        >>= λ d. apply_predictor_step engine predictor d >>= λ d'. ok (s, d')
    execute_step (join left right query) s =
        or_sql_error (exception "error in join step")
          (step_at steps_data left >>= λ l. step_at steps_data right >>= λ r. ok (l, r))
        >>= λ (d : StepData V × StepData V).
            join_step engine.unordered_tables engine.unordered_columns engine.full_join query d.0
              d.1
            >>= λ d'. ok (s, d')
    execute_step (limit_offset dataframe limit offset) s =
        or_sql_error (exception "error in limit offset step") (step_at steps_data dataframe)
        >>= λ d. ok (s, limit_offset_step limit offset d)
    execute_step (project dataframe targets) s =
        or_sql_error (exception "error on project step") (step_at steps_data dataframe) >>= λ d.
        project_step engine.lower targets d >>= λ r. ok (record s { columns_list = some r.1 }, r.0)

    -- The steps behind the first of a MultipleSteps add their rows.
    pub execute_rest : Steps V → Done V → Result (Done V)
    execute_rest end done = ok done
    execute_rest (step_then step rest) done =
        execute_step step done.0 >>= λ r. execute_rest rest (extended done.1 r)

unfoldable pub shown_columns : List Column → List Column
shown_columns [] = []
shown_columns (c ∷ columns) =
    if eqb c.name row_id_name then shown_columns columns else c ∷ shown_columns columns

-- What is fetched, and the rest of the state of the object.
pub record QueryState (V : Type 0) : Type 0 where
  pub fetched_data : Option (StepData V)
  pub running : Running V

module _ {V : Type 0} (engine : Engine V) where
  -- The loop of execute_query over the planner's steps.
  unfoldable pub execute_steps :
      List (Step V) → List (StepData V) → Running V → Result (Running V × List (StepData V))
  execute_steps [] steps_data s = ok (s, steps_data)
  execute_steps (step ∷ steps) steps_data s = execute_step engine steps_data step s >>= λ r.
      execute_steps steps (steps_data ++ r.1 ∷ []) r.0

  -- The columns of the last step, where there was no ProjectStep.
  abbrev pub result_columns : Option (List Column) → StepData V → List Column
  result_columns (some columns) fetched_data = shown_columns columns
  result_columns none fetched_data = shown_columns (star_columns fetched_data.columns)

  abbrev pub last_of : List (StepData V) → Option (StepData V)
  last_of [] = none
  last_of (d ∷ []) = some d
  last_of (d ∷ e ∷ steps_data) = last_of (e ∷ steps_data)

  abbrev pub with_result : Running V → Option (StepData V) → QueryState V
  with_result s none = record { fetched_data = none; running = s }
  with_result s (some d) = record {
    fetched_data = some d;
    running = record s { columns_list = some (result_columns s.columns_list d) };
  }

  abbrev pub execute_unless :
      Option (StepData V) → List (Step V) → QueryState V → Result (QueryState V)
  execute_unless (some d) steps q = ok q
  execute_unless none steps q =
      execute_steps steps [] q.running >>= λ r. ok (with_result r.0 (last_of r.1))

  -- `execute_query`; it does nothing where the data is there.
  unfoldable pub execute_query : List (Step V) → QueryState V → Result (QueryState V)
  execute_query steps q = execute_unless q.fetched_data steps q
