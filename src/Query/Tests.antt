-- ===== src/Query/Tests.antt =====
-- The theorems on the steps of a plan at concrete inputs. Values are texts.
use mindsdb_database_ai.Prelude.{
  ◌≡◌, refl, true, false, none, some, List, [], ◌∷◌, if◌then◌else◌, length, ok, raise, key_error,
  ◌>>=◌, All,
}
use mindsdb_database_ai.Prelude.Text.{Str}
use mindsdb_database_ai.Prelude.StrEq.{eqb, starts_with}
use mindsdb_database_ai.Prelude.Key.{str_key, option_key, triple_key}
use mindsdb_database_ai.Prelude.Assoc.{Assoc, get, put, get-singleton}
use mindsdb_database_ai.Query.{TableName, Cells, Row, StepData, Identifier, Column, get_table_alias}
use mindsdb_database_ai.Query.Vars.{
  Where, constant, binary, mark_query_var, mark_constant, replace_vars, replace_query_var,
  unmark_query_var,
}
use mindsdb_database_ai.Query.Vars.Restored.{IsUsable}
use mindsdb_database_ai.Query.Fetch.{
  FetchStep, Source, no_data, fetch_step, map_reduce_step, reduce_groups, union,
  fetch_dataframe_step, numbered, var_groups, vars_of, add_vars,
}
use mindsdb_database_ai.Query.Fetch.Numbers.{Continues, map_reduce_step-Continues}
use mindsdb_database_ai.Query.Fetch.Reduce.{fetch_each, finished, reduce_groups-fetch_each}
use mindsdb_database_ai.Query.Project.{
  ident, project_step, project_targets, two_parts, make_list_result_view, named_table,
  get_column_in_case, candidates, column_to_copy, copy_cells, copy_cell,
}
use mindsdb_database_ai.Query.Project.Shown.{HasNoTwins, HasNoTwins-singleton, project_step-view}
use mindsdb_database_ai.Query.Project.Unaliased.{LacksName, make_list_result_view-unaliased}

-- "t", "a", "A", "$var[a]"
abbrev t : Str
t = b't' ∷ []

abbrev a : Str
a = b'a' ∷ []

abbrev capital_a : Str
capital_a = b'A' ∷ []

abbrev variable : Str
variable = b'$' ∷ b'v' ∷ b'a' ∷ b'r' ∷ b'[' ∷ b'a' ∷ b']' ∷ []

abbrev src : Source Str
src = record {
  number = λ n. n ∷ [];
  text = λ s. s;
  str_of = λ s. s;
  same = eqb;
  select = λ step. ok (((a, t) ∷ []) ∷ ((a, a) ∷ []) ∷ [], a ∷ []);
}

abbrev condition : Where Str
condition =
    binary (b'=' ∷ []) (constant (record { value = variable; is_var = none; var_name = none }))
      (constant (record { value = a; is_var = some false; var_name = none }))

condition-IsUsable : IsUsable src.str_of condition
unfolding IsUsable starts_with
condition-IsUsable = (refl, tt)

abbrev step : FetchStep Str
step = record {
  integration = t;
  from_table = record { first = t; others = []; alias = none };
  where_ = condition;
}

abbrev group : Assoc Str Str
group = (a, t) ∷ []

reduce_groups-fetch_each_example :
    reduce_groups src none step (group ∷ group ∷ []) condition 5 no_data ≡ (
      fetch_each src none step (mark_query_var src.str_of condition) (group ∷ group ∷ []) 5
      >>= finished src none step (mark_query_var src.str_of condition) no_data)
reduce_groups-fetch_each_example =
    reduce_groups-fetch_each src none step group (group ∷ []) condition 5 no_data condition-IsUsable

-- Two rows of a table t with the column a.
abbrev t_name : TableName
t_name = (none, t, none)

abbrev rows : List (Row Str)
rows = ((t_name, ((a, some a), t) ∷ []) ∷ []) ∷ ((t_name, ((a, some a), a) ∷ []) ∷ []) ∷ []

abbrev table : StepData Str
table = record { values = rows; columns = (t_name, (a, some a) ∷ []) ∷ []; tables = t_name ∷ [] }

abbrev one : StepData Str
one = record table { values = ((t_name, ((a, some a), t) ∷ []) ∷ []) ∷ [] }

-- The step for one row of variables: two rows are fetched.
abbrev marked : Where Str
marked =
    binary (b'=' ∷ [])
      (constant (record { value = variable; is_var = some true; var_name = some variable }))
      (constant (record { value = a; is_var = some false; var_name = none }))

map_reduce_result :
    (data' : StepData Str) × (map_reduce_step src none union (fetch_step step) one 5
      ≡ ok (marked, 7, data'))
unfolding map_reduce_step reduce_groups fetch_dataframe_step numbered var_groups vars_of add_vars
    eqb starts_with get put mark_query_var mark_constant replace_vars replace_query_var
    unmark_query_var get_table_alias
map_reduce_result = (_, refl)

map_reduce_step-Continues_example : Continues src 5 map_reduce_result.0.values 7
map_reduce_step-Continues_example =
    map_reduce_step-Continues src none union (fetch_step step) one 5 map_reduce_result.1

-- `t.a AS b`, and `t.A`; the second is found in the column a.
abbrev aliased : Identifier
aliased = record { first = t; others = a ∷ []; alias = some ((b'b' ∷ []) ∷ []) }

-- 'A' becomes 'a'.
abbrev lower : Str → Str
lower s = if eqb s capital_a then a else s

projected :
    (data' : StepData Str) × (columns : List Column) × (project_step lower
        (ident aliased ∷ [])
        table
      ≡ ok (data', columns))
unfolding project_step project_targets named_table get_column_in_case candidates column_to_copy
    copy_cells copy_cell eqb get put
projected = (_, _, refl)

abbrev row_of : Str → Row Str
row_of value = (t_name, ((a, some a), value) ∷ []) ∷ []

rows-HasNoTwins : (value : Str) → HasNoTwins (row_of value)
rows-HasNoTwins value = HasNoTwins-singleton t_name (((a, some a), value) ∷ [])

project_step-view_example :
    (shown : List (List Str)) × (make_list_result_view projected.1 projected.0.values ≡ ok shown)
    × (length shown ≡ 2)
    × All (λ vs. length vs ≡ 1) shown
project_step-view_example =
    project_step-view lower (ident aliased ∷ []) table ((a, (b'b' ∷ []) ∷ [], refl, refl), tt)
      (rows-HasNoTwins t, (rows-HasNoTwins a, tt)) projected.2

rows-LacksName : (value : Str) → LacksName capital_a (row_of value)
unfolding get eqb
rows-LacksName value table cells h =
    let only : Cells Str = ((a, some a), value) ∷ [] in
    let e : only ≡ cells = get-singleton table t_name only h in rw (← e) refl

unaliased :
    (values : List (Row Str)) × (c : Column) × (two_parts lower t capital_a none table
      ≡ ok (values, c))
unfolding named_table get_column_in_case candidates column_to_copy copy_cells copy_cell eqb get put
unaliased = (_, _, refl)

make_list_result_view-unaliased_example :
    make_list_result_view (unaliased.1 ∷ []) unaliased.0 ≡ raise key_error
make_list_result_view-unaliased_example =
    make_list_result_view-unaliased lower t capital_a table (row_of t) (row_of a ∷ []) refl
      (rows-HasNoTwins t) (rows-LacksName t) unaliased.2
