-- ===== src/Proxy/Command.antt =====
-- A client's command: `CommandPacket.setup` of data_types/mysql_packets/command_packet.py. `S` is
-- the type of the query objects, and `num_params` counts the parameters of one.
pub mod Requests
use mindsdb_database_ai.Prelude.{
  ℕ, Bool, true, false, Option, none, some, List, [], ◌∷◌, length, Result, ok, ◌>>=◌, or_raise,
  key_error, ◌==◌, ◌||◌, if◌then◌else◌,
}
use mindsdb_database_ai.Prelude.Bytes.{Bytes}
use mindsdb_database_ai.Prelude.Table.{Table, lookup}
use mindsdb_database_ai.Wire.Datum.{Datum, Value, eof, str_type, datum}
use mindsdb_database_ai.Wire.Handshake.{read, int_field, num_of}
use mindsdb_database_ai.Session.{
  StmtType, select_stmt, insert_stmt, delete_stmt, lock_stmt, show_variables, Stmt,
}
use mindsdb_database_ai.Proxy.Params.{read_params}

-- COMMANDS of libs/constants/mysql.py.
abbrev pub com_quit : ℕ
com_quit = 0x01

abbrev pub com_init_db : ℕ
com_init_db = 0x02

abbrev pub com_query : ℕ
com_query = 0x03

abbrev pub com_field_list : ℕ
com_field_list = 0x04

abbrev pub com_stmt_prepare : ℕ
com_stmt_prepare = 0x16

abbrev pub com_stmt_execute : ℕ
com_stmt_execute = 0x17

abbrev pub com_stmt_close : ℕ
com_stmt_close = 0x19

abbrev pub com_stmt_fetch : ℕ
com_stmt_fetch = 0x1c

-- What `setup` leaves in the packet: the type, and the fields of its branch.
pub data Command : Type 0 where
  with_sql : (type sql : Value) → Command
  execute : (stmt_id flags iteration_count : Value) → List (Option Value) → Command
  close : (stmt_id : Value) → Command
  fetch : (stmt_id limit : Value) → Command
  init_db : (database : Value) → Command
  with_data : (type rest : Value) → Command

abbrev pub eof_datum : Datum
eof_datum = datum str_type eof

abbrev pub has_params : Option StmtType → Bool
has_params (some select_stmt) = true
has_params (some insert_stmt) = true
has_params (some delete_stmt) = true
has_params _ = false

module _ {ℓ} {S : Type ℓ} (num_params : S → ℕ) (prepared_stmts : Table (Stmt S)) where
  unfoldable pub setup_execute : Bytes → Result Command
  setup_execute b1 = do
    (stmt_id, b2) ← read (int_field 4) b1
    (flags, b3) ← read (int_field 1) b2
    (iteration_count, b4) ← read (int_field 4) b3
    id ← num_of stmt_id
    prepared_stmt ← or_raise (lookup id prepared_stmts) key_error
    parameters ← elim (has_params prepared_stmt.stmt_type) [
      | true ↦ read_params b4 (num_params prepared_stmt.statement)
      | false ↦ ok []
    ]
    ok (execute stmt_id flags iteration_count parameters)

  unfoldable pub setup_fetch : Bytes → Result Command
  setup_fetch b1 = do
    (stmt_id, b2) ← read (int_field 4) b1
    (limit, b3) ← read (int_field 4) b2
    ok (fetch stmt_id limit)

  -- The branches on the type.
  unfoldable pub setup_as : ℕ → Value → Bytes → Result Command
  setup_as t type b1 =
      if t == com_query || t == com_stmt_prepare
      then (read eof_datum b1 >>= λ r. ok (with_sql type r.0))
      else if t == com_stmt_execute
      then setup_execute b1
      else if t == com_stmt_close
      then (read (int_field 4) b1 >>= λ r. ok (close r.0))
      else if t == com_stmt_fetch
      then setup_fetch b1
      else if t == com_init_db
      then (read eof_datum b1 >>= λ r. ok (init_db r.0))
      else (read eof_datum b1 >>= λ r. ok (with_data type r.0))

  -- `setup` with a body; `none` is the early return on an empty one, which sets no type.
  unfoldable pub setup : Bytes → Result (Option Command)
  setup [] = ok none
  setup (b ∷ body) = do
    (type, b1) ← read (int_field 1) (b ∷ body)
    t ← num_of type
    command ← setup_as t type b1
    ok (some command)
