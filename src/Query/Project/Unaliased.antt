-- ===== src/Query/Project/Unaliased.antt =====
-- A column that is named in another case and without an alias.
use mindsdb_database_ai.Prelude.{
  ◌≡◌, ◌≢◌, refl, ◌∙◌, true, none, some, List, [], ◌∷◌, map, ok, raise, key_error, >>=-eq-ok,
}
use mindsdb_database_ai.Prelude.Text.{Str}
use mindsdb_database_ai.Prelude.Key.{str_key, option_key, pair_key, triple_key}
use mindsdb_database_ai.Prelude.Assoc.{get, put, has, get-put_self, get-put_ne}
use mindsdb_database_ai.Query.{TableName, ColumnName, Cells, Row, StepData, Column, column_of}
use mindsdb_database_ai.Query.Fetch.{name_or_alias}
use mindsdb_database_ai.Query.Project.{
  copy_cell, copy_cells, two_parts, table_in, cell, data_row, make_list_result_view, named_table,
  column_to_copy, get_column_in_case,
}
use mindsdb_database_ai.Query.Project.Copied.{copy_cell-Copied}
use mindsdb_database_ai.Query.Project.Shown.{HasNoTwins, table_in-column_of, HasNoTwins-copied}

module _ {V : Type 0} where
  -- No table of the row has a cell under the name, in this case of its letters.
  abbrev pub LacksName : Str → Row V → Type 0
  LacksName name row =
      (t : TableName) (cells : Cells V)
      → get t row ≡ some cells
      → get (name, some name) cells ≡ none

  cell-missing :
      (row : Row V) (c : Column) (t : TableName) (cells : Cells V)
      → table_in c row ≡ t
      → get t row ≡ some cells
      → get (c.name, some c.alias) cells ≡ none
      → cell row c ≡ raise key_error
  unfolding cell
  cell-missing row c t cells e f g = rw (e, f, g) refl

  cell-copied :
      (table : TableName) (from : ColumnName) (name : Str) (row : Row V) {row' : Row V}
      → HasNoTwins row
      → LacksName name row
      → copy_cell table from (name, none) row ≡ ok row'
      → cell row' (column_of table (name, none)) ≡ raise key_error
  unfolding column_of
  cell-copied (database, table_name, table_alias) from name row {row'} twins lacks h =
      let table : TableName = (database, table_name, table_alias) in
      let to : ColumnName = (name, none) in
      let copied = copy_cell-Copied table from to row h in
      let cells : Cells V = put to copied.value copied.cells in
      let there : get table row' ≡ some cells = rw copied.written (get-put_self table cells row) in
      let differ : to ≢ (name, some name) = λ e. cc e in
      let absent : get (name, some name) cells ≡ none =
        get-put_ne (name, some name) to copied.value copied.cells differ
        ∙ lacks table copied.cells copied.found in
      let is : has table row' ≡ true = rw there refl in
      cell-missing row' (column_of table to) table cells
        (table_in-column_of table to row' (HasNoTwins-copied copied twins) is) there absent

  view-copied :
      (table : TableName) (from : ColumnName) (name : Str) (row : Row V) (rest : List (Row V))
      {rows : List (Row V)}
      → HasNoTwins row
      → LacksName name row
      → copy_cells table from (name, none) (row ∷ rest) ≡ ok rows
      → make_list_result_view (column_of table (name, none) ∷ []) rows ≡ raise key_error
  unfolding copy_cells make_list_result_view data_row
  view-copied table from name row rest {rows} twins lacks h =
      let (row', e, h') = >>=-eq-ok (copy_cell table from (name, none) row) h in
      let (rest', f, h'') = >>=-eq-ok (copy_cells table from (name, none) rest) h' in
      let g : row' ∷ rest' ≡ rows = cc h'' in
      rw (← g) (rw (cell-copied table from name row twins lacks e) refl)

  -- A projection on one column that is named in two parts, without an alias and in another case than
  -- the column has, copies the cell under a key with None for the alias, which the view does not
  -- look for: where there is a row, the view raises KeyError.
  pub make_list_result_view-unaliased :
      (lower : Str → Str) (first name : Str) (data' : StepData V) (row : Row V)
      (rest : List (Row V)) {rows : List (Row V)} {c : Column}
      → data'.values ≡ row ∷ rest
      → HasNoTwins row
      → LacksName name row
      → two_parts lower first name none data' ≡ ok (rows, c)
      → make_list_result_view (c ∷ []) rows ≡ raise key_error
  make_list_result_view-unaliased lower first name data' row rest {rows} {c} e twins lacks h =
      let (t, _, h1) = >>=-eq-ok (named_table lower first name data'.columns) h in
      let (from, _, h2) =
        >>=-eq-ok (column_to_copy (get_column_in_case lower (map name_or_alias t.1) name) t.1) h1 in
      let (values, copy, h3) = >>=-eq-ok (copy_cells t.0 from (name, none) data'.values) h2 in
      let f : values ≡ rows = cc h3 in
      let g : column_of t.0 (name, none) ≡ c = cc h3 in
      rw (← f, ← g) (view-copied t.0 from name row rest twins lacks (rw e at copy))
