-- ===== src/Query/Project/Shown.antt =====
-- What the view of a projected query shows.
use mindsdb_database_ai.Prelude.{
  ◌≢◌, inl, inr, ◌+◌, ◌≡◌, refl, sym, ap, ◌∙◌, arith, true, false, Option, none, some, List, [],
  ◌∷◌, ◌++◌, map, length, length-append, All, All-append, All-map, suc, ok, exception, ◌>>=◌,
  >>=-eq-ok,
}
use mindsdb_database_ai.Prelude.Text.{Str}
use mindsdb_database_ai.Prelude.Key.{≐_ne, Key-cases, str_key, option_key, pair_key, triple_key}
use mindsdb_database_ai.Prelude.Assoc.{get, has}
use mindsdb_database_ai.Query.{
  Cells, TableName, ColumnName, Row, StepData, Identifier, Column, column_of, dotted,
}
use mindsdb_database_ai.Query.Fetch.{name_or_alias}
use mindsdb_database_ai.Query.Fetch.Numbers.{or_sql_error-ok}
use mindsdb_database_ai.Query.Project.{
  Target, star, unexpected, ident, copy_cell, copy_cells, two_parts, project_target,
  project_targets, project_step, table_in, cell, data_row, make_list_result_view, named_table,
  column_to_copy, get_column_in_case,
}
use mindsdb_database_ai.Query.Project.Copied.{
  HasCell, Copied, copy_cell-Copied, has-copied, HasCell-to, HasCell-copied,
}

-- A name in two parts, `AS` another.
abbrev pub IsAliased : Target → Type 0
IsAliased (ident i) =
    (second : Str) × (alias : List Str) × (i.others ≡ second ∷ []) × (i.alias ≡ some alias)
IsAliased _ = ⊥

module _ {V : Type 0} where
  -- A table without an alias stands in no row beside one that has its name for an alias.
  abbrev pub HasNoTwins : Row V → Type 0
  HasNoTwins row =
      (database : Option Str) (name : Str)
      → has (database, name, none) row ≡ true
      → has (database, name, some name) row ≡ false

  -- A row with one table.
  pub HasNoTwins-singleton :
      (table : TableName) (cells : Cells V) → HasNoTwins ((table, cells) ∷ [])
  unfolding get
  HasNoTwins-singleton table cells database name h =
      let named : TableName = (database, name, some name) in
      let bare : TableName = (database, name, none) in
      elim (Key-cases table named) [
        | inl same ↦
            let differ : table ≢ bare = λ e. let g : named ≡ bare = sym same ∙ e in cc g in
            let g : false ≡ true = rw (≐_ne table bare differ) at h in cc g
        | inr other ↦ rw (≐_ne table named other) refl
      ]

  -- The view finds the column.
  abbrev Shows : Row V → Column → Type 0
  Shows row c = HasCell (table_in c row) (c.name, some c.alias) row

  has-HasCell :
      (t : TableName) (name : ColumnName) (row : Row V) → HasCell t name row → has t row ≡ true
  has-HasCell t name row (cells, v, e, f) = rw e refl

  pub table_in-column_of :
      (t : TableName) (name : ColumnName) (row : Row V)
      → HasNoTwins row
      → has t row ≡ true
      → table_in (column_of t name) row ≡ t
  unfolding column_of
  table_in-column_of (database, name, some alias) column row twins h = rw h refl
  table_in-column_of (database, name, none) column row twins h = rw (twins database name h) refl

  Shows-column_of :
      (t : TableName) (name alias : Str) (row : Row V)
      → HasNoTwins row
      → HasCell t (name, some alias) row
      → Shows row (column_of t (name, some alias))
  unfolding column_of
  Shows-column_of (database, table_name, table_alias) name alias row twins h =
      let t : TableName = (database, table_name, table_alias) in
      let c : ColumnName = (name, some alias) in
      rw (table_in-column_of t c row twins (has-HasCell t c row h)) h

  -- A row that a copy has changed shows what it showed, and the column that was copied.
  module _ {table : TableName} {from to : ColumnName} {row row' : Row V}
      (copied : Copied table from to row row') where
    pub HasNoTwins-copied : HasNoTwins row → HasNoTwins row'
    HasNoTwins-copied twins database name h =
        has-copied copied (database, name, some name)
        ∙ twins database name (sym (has-copied copied (database, name, none)) ∙ h)

    Shows-copied : (c : Column) → Shows row c → Shows row' c
    Shows-copied c shows =
        rw (has-copied copied (c.database, c.table_name, some c.table_alias))
          (HasCell-copied copied (table_in c row) (c.name, some c.alias) shows)

  -- The rows of a projection so far.
  abbrev Projected : List Column → Row V → Type 0
  Projected columns row = HasNoTwins row × All (Shows row) columns

  copy_cells-Projected :
      (table : TableName) (from : ColumnName) (name alias : Str) (columns : List Column)
      (rows : List (Row V)) {rows' : List (Row V)}
      → copy_cells table from (name, some alias) rows ≡ ok rows'
      → All (Projected columns) rows
      → All (Projected (columns ++ column_of table (name, some alias) ∷ [])) rows'
        × (length rows' ≡ length rows)
  unfolding copy_cells
  copy_cells-Projected table from name alias columns [] {rows'} h p =
      let e : [] ≡ rows' = cc h in rw (← e) (tt, refl)
  copy_cells-Projected table from name alias columns (row ∷ rows) {rows'} h ((twins, shown), p) =
      let to : ColumnName = (name, some alias) in
      let (row', e, h') = >>=-eq-ok (copy_cell table from to row) h in
      let (rest, f, h'') = >>=-eq-ok (copy_cells table from to rows) h' in
      let copied = copy_cell-Copied table from to row e in
      let twins' = HasNoTwins-copied copied twins in
      let (q, len) = copy_cells-Projected table from name alias columns rows f p in
      let g : row' ∷ rest ≡ rows' = cc h'' in
      rw (← g) (
        (
          (
            twins',
            All-append (Shows row') columns (column_of table to ∷ [])
                (All-map (λ c. Shows-copied copied c) columns shown)
                (Shows-column_of table name alias row' twins' (HasCell-to copied), tt),
          ),
          q,
        ),
        ap suc len,
      )

  project_target-two_parts :
      (lower : Str → Str) (i : Identifier) (second : Str) (alias : List Str) (data' : StepData V)
      → i.others ≡ second ∷ []
      → i.alias ≡ some alias
      → project_target lower (ident i) data'
        ≡ (two_parts lower i.first second (some (dotted alias)) data' >>= λ r. ok (r.0, r.1 ∷ []))
  project_target-two_parts lower i second alias data' e f = rw (e, f) refl

  two_parts-Projected :
      (lower : Str → Str) (first second alias : Str) (data' : StepData V) (columns : List Column)
      {rows : List (Row V)} {c : Column}
      → two_parts lower first second (some alias) data' ≡ ok (rows, c)
      → All (Projected columns) data'.values
      → All (Projected (columns ++ c ∷ [])) rows × (length rows ≡ length data'.values)
  two_parts-Projected lower first second alias data' columns {rows} {c} h p =
      let (t, _, h1) = >>=-eq-ok (named_table lower first second data'.columns) h in
      let (from, _, h2) =
        >>=-eq-ok (column_to_copy (get_column_in_case lower (map name_or_alias t.1) second) t.1)
          h1 in
      let (values, copy, h3) =
        >>=-eq-ok (copy_cells t.0 from (second, some alias) data'.values) h2 in
      let e : values ≡ rows = cc h3 in
      let f : column_of t.0 (second, some alias) ≡ c = cc h3 in
      rw (← e, ← f) (copy_cells-Projected t.0 from second alias columns data'.values copy p)

  project_targets-Projected :
      (lower : Str → Str) (targets : List Target) (data' : StepData V) (columns : List Column)
      {data'' : StepData V} {columns' : List Column}
      → All IsAliased targets
      → All (Projected columns) data'.values
      → project_targets lower targets data' columns ≡ ok (data'', columns')
      → All (Projected columns') data''.values
        × (length data''.values ≡ length data'.values)
        × (length columns' ≡ length columns + length targets)
  unfolding project_targets
  project_targets-Projected lower [] data' columns {data''} {columns'} al p h =
      let e : data' ≡ data'' = cc h in
      let f : columns ≡ columns' = cc h in rw (← e, ← f) (p, refl, omega arith)
  project_targets-Projected lower (ident i ∷ targets) data' columns {data''} {columns'}
        ((second, alias, e, f), al) p h =
      let (r, g, h1) = >>=-eq-ok (project_target lower (ident i) data') h in
      let (q, g', k) =
        >>=-eq-ok (two_parts lower i.first second (some (dotted alias)) data')
          (sym (project_target-two_parts lower i second alias data' e f) ∙ g) in
      let is : (q.0, q.1 ∷ []) ≡ r = cc k in
      let (projected, len) =
        two_parts-Projected lower i.first second (dotted alias) data' columns g' p in
      let (projected', len', width) =
        project_targets-Projected lower targets (record data' { values = q.0 })
          (columns ++ q.1 ∷ []) al projected (rw (← is) at h1) in
      (projected', len' ∙ len, omega (arith, width, length-append columns (q.1 ∷ [])))
  project_targets-Projected lower (star ∷ targets) data' columns al p h = absurd al.0
  project_targets-Projected lower (unexpected ∷ targets) data' columns al p h = absurd al.0

  cell-Shows : (row : Row V) (c : Column) → Shows row c → (v : V) × (cell row c ≡ ok v)
  unfolding cell
  cell-Shows row c (cells, v, e, f) = (v, rw (e, f) refl)

  data_row-Shows :
      (row : Row V) (columns : List Column)
      → All (Shows row) columns
      → (vs : List V) × (data_row row columns ≡ ok vs) × (length vs ≡ length columns)
  unfolding data_row
  data_row-Shows row [] h = ([], refl, refl)
  data_row-Shows row (c ∷ columns) h =
      let (v, e) = cell-Shows row c h.0 in
      let (vs, f, len) = data_row-Shows row columns h.1 in (v ∷ vs, rw (e, f) refl, ap suc len)

  make_list_result_view-Projected :
      (columns : List Column) (rows : List (Row V))
      → All (Projected columns) rows
      → (shown : List (List V)) × (make_list_result_view columns rows ≡ ok shown)
        × (length shown ≡ length rows)
        × All (λ vs. length vs ≡ length columns) shown
  unfolding make_list_result_view
  make_list_result_view-Projected columns [] p = ([], refl, refl, tt)
  make_list_result_view-Projected columns (row ∷ rows) p =
      let (vs, e, width) = data_row-Shows row columns p.0.1 in
      let (shown, f, len, widths) = make_list_result_view-Projected columns rows p.1 in
      (vs ∷ shown, rw (e, f) refl, ap suc len, (width, widths))

  -- A projection on columns that are named in two parts and have an alias, if it succeeds, leaves
  -- rows that the list view shows without a KeyError: as many rows as before, each with a value for
  -- each of the columns. No row has a table without alias beside one that has its name for an alias.
  pub project_step-view :
      (lower : Str → Str) (targets : List Target) (step_data : StepData V) {data' : StepData V}
      {columns : List Column}
      → All IsAliased targets
      → All HasNoTwins step_data.values
      → project_step lower targets step_data ≡ ok (data', columns)
      → (shown : List (List V)) × (make_list_result_view columns data'.values ≡ ok shown)
        × (length shown ≡ length step_data.values)
        × All (λ vs. length vs ≡ length targets) shown
  unfolding project_step
  project_step-view lower targets step_data {data'} {columns} al twins h =
      let (p, len, width) =
        project_targets-Projected lower targets step_data [] al
          (All-map (λ row t. (t, tt)) step_data.values twins)
          (or_sql_error-ok (exception "error on project step")
            (project_targets lower targets step_data []) h) in
      let (shown, e, len', widths) = make_list_result_view-Projected columns data'.values p in
      let total : length columns ≡ length targets = omega (arith, width) in
      (shown, e, len' ∙ len, All-map (λ vs w. w ∙ total) shown widths)
