-- ===== src/Query/Project/Copied.antt =====
-- What the copy of a cell leaves of a row.
use mindsdb_database_ai.Prelude.{◌≡◌, ◌∙◌, Option, none, some, ok, >>=-eq-ok, inl, inr}
use mindsdb_database_ai.Prelude.Key.{str_key, option_key, pair_key, triple_key, Key-cases}
use mindsdb_database_ai.Prelude.Assoc.{
  get, put, has, get-put_self, get-put_ne, get-put_there, has-put,
}
use mindsdb_database_ai.Query.{TableName, ColumnName, Cells, Row}
use mindsdb_database_ai.Query.Project.{copy_cell, or_key_error}

pub or_key_error-ok : {A : Type 0} (o : Option A) {a : A} → or_key_error o ≡ ok a → o ≡ some a
or_key_error-ok none h = absurd (cc h)
or_key_error-ok (some b) h = cc h

module _ {V : Type 0} where
  -- The row has a cell of the table under the name.
  abbrev pub HasCell : TableName → ColumnName → Row V → Type 0
  HasCell table name row =
      (cells : Cells V) × (v : V) × (get table row ≡ some cells) × (get name cells ≡ some v)

  -- What `copy_cell` does where it succeeds.
  pub record Copied (table : TableName) (from to : ColumnName) (row row' : Row V) : Type 0 where
    pub cells : Cells V
    pub value : V
    pub found : get table row ≡ some cells
    pub read : get from cells ≡ some value
    pub written : row' ≡ put table (put to value cells) row

  pub copy_cell-Copied :
      (table : TableName) (from to : ColumnName) (row : Row V) {row' : Row V}
      → copy_cell table from to row ≡ ok row'
      → Copied table from to row row'
  unfolding copy_cell
  copy_cell-Copied table from to row h =
      let (cells, e, h') = >>=-eq-ok (or_key_error (get table row)) h in
      let (v, f, h'') = >>=-eq-ok (or_key_error (get from cells)) h' in
      record {
        cells = cells;
        value = v;
        found = or_key_error-ok (get table row) e;
        read = or_key_error-ok (get from cells) f;
        written = cc h'';
      }

  module _ {table : TableName} {from to : ColumnName} {row row' : Row V}
      (copied : Copied table from to row row') where
    -- The tables of a row stay.
    pub has-copied : (t : TableName) → has t row' ≡ has t row
    has-copied t =
        rw copied.written (has-put t table (put to copied.value copied.cells) row copied.found)

    pub HasCell-to : HasCell table to row'
    HasCell-to =
        let cells = put to copied.value copied.cells in
        (
          cells,
          copied.value,
          rw copied.written (get-put_self table cells row),
          get-put_self to copied.value copied.cells,
        )

    pub HasCell-copied :
        (t : TableName) (name : ColumnName) → HasCell t name row → HasCell t name row'
    HasCell-copied t name (cells, v, e, f) =
        let new = put to copied.value copied.cells in
        elim (Key-cases table t) [
          | inl same ↦
              let same_cells : copied.cells ≡ cells = cc (copied.found, e, same) in
              let (w, g) = get-put_there name to copied.value cells f in
              (new, w, rw (copied.written, same) (get-put_self t new row), rw same_cells g)
          | inr other ↦ (cells, v, rw copied.written (get-put_ne t table new row other ∙ e), f)
        ]
