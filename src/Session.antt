-- ===== src/Session.antt =====
-- Prepared statements: `SessionController.register_stmt` and `unregister_stmt` of
-- mindsdb/api/mysql/mysql_proxy/controllers/session_controller.py, and the cursor that
-- `answer_stmt_fetch` of mysql_proxy.py moves. `S` is the type of the query objects.
pub mod Statements
pub mod Cursor
mod Tests
use mindsdb_database_ai.Prelude.{
  ℕ, zero, suc, ◌+◌, ◌-◌, Bool, true, false, Option, none, some, List, [], ◌∷◌, ◌&&◌, Result, ok,
  raise, ◌>>=◌, exception, key_error, slice, length, ltb, leb, ◌==◌, if◌then◌else◌,
}
use mindsdb_database_ai.Prelude.Table.{Table, lookup, contains, insert, erase}

-- `type`: what `answer_stmt_prepare` sets.
pub data StmtType : Type 0 where
  select_stmt insert_stmt delete_stmt lock_stmt show_variables : StmtType

pub record Stmt {ℓ} (S : Type ℓ) : Type ℓ where
  pub stmt_type : Option StmtType
  pub statement : S
  pub fetched : ℕ

module _ {ℓ} {S : Type ℓ} where
  -- The loop of `register_stmt` from `i` on; a hundred rounds are enough.
  unfoldable pub next_id : ℕ → ℕ → Table (Stmt S) → ℕ
  next_id zero i stmts = i
  next_id (suc f) i stmts = elim (contains i stmts && ltb i 100) [
    | true ↦ next_id f (i + 1) stmts
    | false ↦ i
  ]

  -- The new table and the number of the statement.
  unfoldable pub register_stmt : S → Table (Stmt S) → Result (Table (Stmt S) × ℕ)
  register_stmt s stmts =
      let i = next_id 100 1 stmts in
      if i == 100
      then raise (exception "Too many unclosed queries")
      else ok (insert i (record { stmt_type = none; statement = s; fetched = 0 }) stmts, i)

  unfoldable pub unregister_stmt : ℕ → Table (Stmt S) → Result (Table (Stmt S))
  unregister_stmt i stmts = if contains i stmts then ok (erase i stmts) else raise key_error

-- The status flags of the packet behind the rows.
pub data FetchStatus : Type 0 where
  last_row_sent cursor_exists : FetchStatus

-- `answer_stmt_fetch` on a query that has the rows `result`: the rows that are sent, the status,
-- and the statement with its cursor moved.
module _ {ℓ κ} {S : Type ℓ} {Row : Type κ} where
  unfoldable pub stmt_fetch : List Row → ℕ → Stmt S → List Row × FetchStatus × Stmt S
  stmt_fetch result limit stmt =
      let rows = slice result stmt.fetched limit in
      let status = if leb (length result) limit then last_row_sent else cursor_exists in
      (rows, status, record stmt { fetched = stmt.fetched + length rows })
