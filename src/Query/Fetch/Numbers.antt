-- ===== src/Query/Fetch/Numbers.antt =====
-- The numbers that fetched rows get.
use mindsdb_database_ai.Prelude.{
  Exn, ℕ, suc, ◌+◌, ◌≡◌, refl, ap, ◌∙◌, arith, Option, some, List, [], ◌∷◌, ◌++◌, length,
  length-append, Result, ok, raise, >>=-eq-ok, Bool-cases, inl, inr,
}
use mindsdb_database_ai.Prelude.Text.{Str}
use mindsdb_database_ai.Prelude.StrEq.{eqb, eqb_iff}
use mindsdb_database_ai.Prelude.Key.{str_key, option_key, pair_key}
use mindsdb_database_ai.Prelude.Assoc.{Assoc, get, put, get-put_self}
use mindsdb_database_ai.Query.{TableName, Cells, Row, StepData, get_table_alias}
use mindsdb_database_ai.Query.Vars.{Where, unmark_query_var}
use mindsdb_database_ai.Query.Fetch.{
  row_id_name, FetchStep, Source, no_data, keyed, under, numbered, fetched, fetch_dataframe_step,
  substituted, reduced, reduce_groups, Substep, fetch_step, multiple, unknown, map_reduce_step,
  var_groups, or_sql_error, map_reduce_error, union,
}

pub get-keyed : {V : Type 0} (k : Str) (r : Assoc Str V) → get (k, some k) (keyed r) ≡ get k r
unfolding get
get-keyed k [] = refl
get-keyed k ((j, v) ∷ r) = ground (arith, eqb_iff j k, get-keyed k r)

pub or_sql_error-ok {ℓ} :
    {A : Type ℓ} (e : Exn) {a : A} (r : Result A) → or_sql_error e r ≡ ok a → r ≡ ok a
or_sql_error-ok e (ok b) h = h
or_sql_error-ok e (raise f) h = absurd (cc h)

module _ {V : Type 0} (src : Source V) where
  -- Each row has one table, and its number under '__mindsdb_row_id': the first has `n`, and each one
  -- more than the row before it.
  unfoldable pub IsNumbered : ℕ → List (Row V) → Type 0
  IsNumbered n [] = Unit
  IsNumbered n (row ∷ rows) =
      ((table : TableName) × (cells : Cells V) × (row ≡ (table, cells) ∷ [])
        × (get (row_id_name, some row_id_name) cells ≡ some (src.number n)))
      × IsNumbered (n + 1) rows

  IsNumbered-append :
      (n : ℕ) (xs ys : List (Row V))
      → IsNumbered n xs
      → IsNumbered (n + length xs) ys
      → IsNumbered n (xs ++ ys)
  unfolding IsNumbered
  IsNumbered-append n [] ys hx hy = let e : n + 0 ≡ n = omega arith in rw e at hy
  IsNumbered-append n (x ∷ xs) ys hx hy =
      let e : n + suc (length xs) ≡ n + 1 + length xs = omega arith in
      (hx.0, IsNumbered-append (n + 1) xs ys hx.1 (rw e at hy))

  numbered-IsNumbered :
      (table : TableName) (n : ℕ) (rows : List (Assoc Str V))
      → IsNumbered n (under table (numbered src n rows))
        × (length (under table (numbered src n rows)) ≡ length rows)
  unfolding IsNumbered numbered
  numbered-IsNumbered table n [] = (tt, refl)
  numbered-IsNumbered table n (r ∷ rows) =
      let (is, len) = numbered-IsNumbered table (n + 1) rows in
      let row = put row_id_name (src.number n) r in
      (
        (
          (
            table,
            keyed row,
            refl,
            get-keyed row_id_name row ∙ get-put_self row_id_name (src.number n) r,
          ),
          is,
        ),
        ap suc len,
      )

  -- The numbers go on from `row_id`, and the next row's number is behind them.
  abbrev pub Continues : ℕ → List (Row V) → ℕ → Type 0
  Continues row_id values row_id' = IsNumbered row_id values × (row_id' ≡ row_id + length values)

  fetch_dataframe_step-Continues :
      (database : Option Str) (step : FetchStep V) (row_id : ℕ) {r : StepData V × ℕ}
      → fetch_dataframe_step src database step row_id ≡ ok r
      → Continues row_id r.0.values r.1
  unfolding fetch_dataframe_step
  fetch_dataframe_step-Continues database step row_id {r} h =
      let (table, _, h') = >>=-eq-ok (get_table_alias step.from_table database) h in
      let (answer, _, h'') = >>=-eq-ok (src.select step) h' in
      let e : fetched src table row_id answer ≡ r = cc h'' in
      let (is, len) = numbered-IsNumbered table row_id answer.0 in rw (← e) (is, rw len refl)

  Continues-append :
      (n m k : ℕ) (xs ys : List (Row V))
      → Continues n xs m
      → Continues m ys k
      → Continues n (xs ++ ys) k
  Continues-append n m k xs ys (hx, ex) (hy, ey) =
      (IsNumbered-append n xs ys hx (rw ex at hy), omega (arith, length-append xs ys))

  reduce_groups-Continues :
      (database : Option Str) (step : FetchStep V) (n : ℕ) (groups : List (Assoc Str V))
      (w : Where V) (row_id : ℕ) (data' : StepData V) (w' : Where V) (row_id' : ℕ)
      (data'' : StepData V)
      → Continues n data'.values row_id
      → reduce_groups src database step groups w row_id data' ≡ ok (w', row_id', data'')
      → Continues n data''.values row_id'
  unfolding reduce_groups
  reduce_groups-Continues database step n [] w row_id data' w' row_id' data'' c h =
      let e : ◌≡◌ {A = ℕ} row_id row_id' = cc h in let f : data' ≡ data'' = cc h in rw (← e, ← f) c
  reduce_groups-Continues database step n (group ∷ groups) w row_id data' w' row_id' data'' c h =
      let (r, fetch, h') =
        >>=-eq-ok (fetch_dataframe_step src database (substituted src database step w group) row_id)
          h in
      let (v, _, h'') =
        >>=-eq-ok (unmark_query_var (substituted src database step w group).where_) h' in
      reduce_groups-Continues database step n groups v r.1 (reduced data' r.0) w' row_id' data''
        (Continues-append n row_id r.1 data'.values r.0.values c (
          fetch_dataframe_step-Continues database (substituted src database step w group) row_id
            fetch))
        h''

  -- A map-reduce step that succeeds gives every row that it fetched, for all groups of values
  -- together, the number behind that of the row before it, and the numbers go on there.
  pub map_reduce_step-Continues :
      (database : Option Str) (reduce : Str) (substep : Substep V) (step_data : StepData V)
      (row_id : ℕ) {w : Where V} {row_id' : ℕ} {data' : StepData V}
      → map_reduce_step src database reduce substep step_data row_id ≡ ok (w, row_id', data')
      → Continues row_id data'.values row_id'
  unfolding map_reduce_step
  map_reduce_step-Continues database reduce (fetch_step step) step_data row_id {w} {row_id'} {data'}
        h =
      elim (Bool-cases (eqb reduce union)) [
        | inl e ↦
            reduce_groups-Continues database step row_id (var_groups step_data.values) step.where_
              row_id no_data w row_id' data' (unfold IsNumbered in tt, omega arith)
              (or_sql_error-ok map_reduce_error
                (reduce_groups src database step (var_groups step_data.values) step.where_ row_id
                  no_data)
                (rw e at h))
        | inr e ↦ absurd (cc (rw e at h))
      ]
  map_reduce_step-Continues database reduce (multiple steps) step_data row_id h =
      elim (Bool-cases (eqb reduce union)) [
        | inl e ↦ absurd (cc (rw e at h))
        | inr e ↦ absurd (cc (rw e at h))
      ]
  map_reduce_step-Continues database reduce unknown step_data row_id h =
      elim (Bool-cases (eqb reduce union)) [
        | inl e ↦ absurd (cc (rw e at h))
        | inr e ↦ absurd (cc (rw e at h))
      ]
