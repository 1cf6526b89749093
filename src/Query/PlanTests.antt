-- ===== src/Query/PlanTests.antt =====
-- The theorems on joins and on whole plans at concrete inputs. Values are texts.
use mindsdb_database_ai.Prelude.{
  ◌≡◌, ◌+◌, ◌-◌, ltb, refl, false, none, some, List, [], ◌∷◌, ◌++◌, map, length, get_elem?, ok, inr,
  if◌then◌else◌,
}
use mindsdb_database_ai.Prelude.Int.{pos, negsuc}
use mindsdb_database_ai.Prelude.Text.{Str}
use mindsdb_database_ai.Prelude.StrEq.{eqb}
use mindsdb_database_ai.Prelude.Key.{str_key, option_key, pair_key}
use mindsdb_database_ai.Prelude.Assoc.{Assoc, get, put, IsDistinct}
use mindsdb_database_ai.Wire.Datum.{decimal, decimal_from}
use mindsdb_database_ai.Query.{
  TableName, Cells, ColumnName, Identifier, StepData, column_of, get_table_alias,
}
use mindsdb_database_ai.Query.Fetch.{FetchStep, Source, column_names}
use mindsdb_database_ai.Query.Vars.{other}
use mindsdb_database_ai.Query.Join.{columns_map, columns_map_reverse, renamed, restore}
use mindsdb_database_ai.Query.Join.RoundTrip.{restore-renamed}
use mindsdb_database_ai.Query.Project.{star, make_list_result_view}
use mindsdb_database_ai.Query.Plan.{
  Engine, Running, mindsdb_name, fetch_dataframe, project, execute_query, limit_offset_step,
}
use mindsdb_database_ai.Query.Plan.Limit.{limit_offset_step-get_elem?}
use mindsdb_database_ai.Query.Plan.SelectStar.{rows_under, execute_query-star}
use mindsdb_database_ai.Query.Prepare.{
  select, identifier, predictors, own_name, OwnNode, own_columns, new_query,
}
use mindsdb_database_ai.Query.Prepare.Shown.{new_query-own}

-- "x" and "y"
abbrev x : Str
x = b'x' ∷ []

abbrev y : Str
y = b'y' ∷ []

abbrev left : Cells Str
left = ((x, some x), y) ∷ ((y, some y), x) ∷ []

abbrev right : Cells Str
right = ((x, some x), x) ∷ []

abbrev both : List ColumnName
both = (x, some x) ∷ (y, some y) ∷ []

-- {'a0': 'y', 'a1': 'x'} and {'b0': 'x'}
abbrev left_record : Assoc Str Str
left_record = (b'a' ∷ b'0' ∷ [], y) ∷ (b'a' ∷ b'1' ∷ [], x) ∷ []

abbrev right_record : Assoc Str Str
right_record = (b'b' ∷ b'0' ∷ [], x) ∷ []

left-renamed : renamed (columns_map_reverse b'a' 0 both []) left [] ≡ ok left_record
unfolding renamed columns_map_reverse get put eqb decimal decimal_from
left-renamed = refl

right-renamed : renamed (columns_map_reverse b'b' 0 both []) right [] ≡ ok right_record
unfolding renamed columns_map_reverse get put eqb decimal decimal_from
right-renamed = refl

left-IsDistinct : IsDistinct left
unfolding get eqb
left-IsDistinct = (refl, (refl, tt))

right-IsDistinct : IsDistinct right
unfolding get
right-IsDistinct = (refl, tt)

restore-renamed_example :
    restore (columns_map b'a' 0 both) (columns_map b'b' 0 both) (left_record ++ right_record) [] []
    ≡ ok (left, right)
restore-renamed_example =
    restore-renamed both both left right left-IsDistinct right-IsDistinct left-renamed right-renamed

-- One source, which answers every query with one row.
abbrev source : Source Str
source = record {
  number = λ n. n ∷ [];
  text = λ s. s;
  str_of = λ s. s;
  same = eqb;
  select = λ step. ok (((x, y) ∷ []) ∷ [], x ∷ []);
}

abbrev engine : Engine Str
engine = record {
  source = source;
  database = none;
  lower = λ s. s;
  unordered_tables = λ ts. ts;
  unordered_columns = λ cs. cs;
  full_join = λ l r i j. ok (l ++ r);
  predict = λ name given. ok [];
  predict_row = λ name row. ok [];
  predictor_columns = λ name. ok [];
  is_timeseries = λ name. some false;
  latest = false;
  truth = λ b. [];
  is_date = λ v. false;
}

abbrev step : FetchStep Str
step = record {
  integration = y;
  from_table = record { first = x; others = []; alias = none };
  where_ = other [];
}

abbrev running : Running Str
running = record { row_id = 4; columns_list = none }

abbrev x_name : TableName
x_name = (none, x, none)

step_alias : get_table_alias step.from_table none ≡ ok x_name
unfolding get_table_alias
step_alias = refl

execute_query-star_example :
    let columns = map (column_of x_name) (column_names (x ∷ [])) in
    (fetched_data : StepData Str) × (execute_query engine
        (fetch_dataframe step ∷ project 0 (star ∷ []) ∷ [])
        (record { fetched_data = none; running = running })
      ≡ ok (record {
        fetched_data = some fetched_data;
        running = record { row_id = 5; columns_list = some columns };
      }))
    × (make_list_result_view columns fetched_data.values ≡ rows_under (x ∷ []) (((x, y) ∷ []) ∷ []))
execute_query-star_example =
    execute_query-star engine step running x_name (((x, y) ∷ []) ∷ []) (x ∷ []) step_alias refl
      ((λ e. cc e), tt)

abbrev table : StepData Str
table = record { values = ((x_name, right) ∷ []) ∷ [] ∷ []; columns = []; tables = x_name ∷ [] }

limit_offset_step-get_elem?_example :
    (get_elem? (limit_offset_step (some (pos 1)) (some (pos 1)) table).values 0
      ≡ (if ltb 0 1 then get_elem? table.values (1 + 0) else none))
    × (get_elem? (limit_offset_step none (some (pos 1)) table).values 0
        ≡ get_elem? table.values (1 + 0))
    × (get_elem? (limit_offset_step (some (negsuc 0)) none table).values 0
        ≡ (if ltb 0 (length table.values - (0 + 1)) then get_elem? table.values 0 else none))
    × ((limit_offset_step (some (pos 1)) (some (pos 1)) table).columns ≡ table.columns)
limit_offset_step-get_elem?_example = limit_offset_step-get_elem? table 1 1 0 0

-- FROM mindsdb.predictors
abbrev own_identifier : Identifier
own_identifier = record { first = mindsdb_name; others = own_name predictors ∷ []; alias = none }

abbrev node : OwnNode Str
node = record { get_predictors = ok (((x, y) ∷ []) ∷ [], x ∷ []); get_datasources = ok ([], []) }

new_query-own_example :
    (fetched_data : StepData Str) × (new_query engine node (select (identifier own_identifier)) []
      ≡ ok (record {
        fetched_data = some fetched_data;
        running = record { row_id = 0; columns_list = some (own_columns predictors (x ∷ [])) };
      }))
    × (make_list_result_view (own_columns predictors (x ∷ [])) fetched_data.values
        ≡ rows_under (x ∷ []) (((x, y) ∷ []) ∷ []))
new_query-own_example =
    new_query-own engine node [] predictors own_identifier (((x, y) ∷ []) ∷ []) (x ∷ []) refl
      (inr refl) refl
