-- ===== src/Proxy/ResultSet.antt =====
-- How a table is sent: `packet`, `last_packet`, `get_tabel_packets`,
-- `_get_column_defenition_packets` and `answer_select` of mindsdb/api/mysql/mysql_proxy/mysql_proxy.py,
-- and how `answer_stmt_execute` and `answer_stmt_prepare` announce columns. A row is the list of the
-- texts `str(x)` of its values, `none` for None; rows that are dicts are not modelled.
pub mod Sent
pub mod Client
pub mod Select
pub mod Prepared
pub mod Received
use Prim.Native.Nat.{max}
use mindsdb_database_ai.Prelude.{
  ℕ, zero, suc, ◌+◌, ◌-◌, ◌%◌, Bool, true, false, Option, none, some, List, [], ◌∷◌, ◌++◌, map,
  length, get_elem?, Result, ok, raise, index_error,
}
use mindsdb_database_ai.Prelude.Bytes.{Bytes}
use mindsdb_database_ai.Prelude.Text.{Str}
use mindsdb_database_ai.Proxy.Packages.{Made, accum, send_package_group}
use mindsdb_database_ai.Wire.Bodies.{
  body_of, err_packet, eof_packet, column_count_packet, stmt_prepare_header, Column,
  column_definition_packet, ok_packet, resultset_row,
}

-- What makes packets: it takes the session's number, and leaves the next one, also where it raises.
abbrev pub Making : Type 0 → Type 0
Making A = ℕ → ℕ × Result A

-- `packet`
unfoldable pub packet : Result Bytes → Making Made
packet body seq = ((seq + 1) % 256, ok (record { seq = seq; body = body }))

abbrev pub after_making : {A B : Type 0} → ℕ × Result A → (A → Making B) → ℕ × Result B
after_making (seq, ok a) next = next a seq
after_making (seq, raise e) next = (seq, raise e)

infixl 5 ◌>>=◌
abbrev pub ◌>>=◌ : {A B : Type 0} → Making A → (A → Making B) → Making B
(first >>= next) seq = after_making (first seq) next

abbrev pub made : {A : Type 0} → A → Making A
made a seq = (seq, ok a)

abbrev pub or_raised : {A : Type 0} → Result A → Making A
or_raised r seq = (seq, r)

abbrev pub TableRow : Type 0
TableRow = List (Option Str)

-- A column as a dict; `none` is a missing key.
pub record MysqlColumn : Type 0 where
  pub database : Option Str
  pub table_name : Option Str
  pub table_alias : Option Str
  pub name : Option Str
  pub alias : Option Str
  pub charset : Option ℕ
  pub flags : Option ℕ
  pub type : ℕ

-- `column.get(key, default)`
abbrev pub or_default : {A : Type 0} → Option A → A → A
or_default none default = default
or_default (some a) default = a

-- The texts 'table_name', 'column_name' and 'mindsdb_schema'.
abbrev pub table_name_text : Str
table_name_text = b't' ∷ b'a' ∷ b'b' ∷ b'l' ∷ b'e' ∷ b'_' ∷ b'n' ∷ b'a' ∷ b'm' ∷ b'e' ∷ []

abbrev pub column_name_text : Str
column_name_text = b'c' ∷ b'o' ∷ b'l' ∷ b'u' ∷ b'm' ∷ b'n' ∷ b'_' ∷ b'n' ∷ b'a' ∷ b'm' ∷ b'e' ∷ []

abbrev pub schema_text : Str
schema_text =
    b'm' ∷ b'i' ∷ b'n' ∷ b'd' ∷ b's' ∷ b'd' ∷ b'b' ∷ b'_' ∷ b's' ∷ b'c' ∷ b'h' ∷ b'e' ∷ b'm' ∷ b'a'
    ∷ []

-- CHARSET_NUMBERS["utf8_unicode_ci"]
abbrev pub utf8_unicode_ci : ℕ
utf8_unicode_ci = 192

-- The keyword arguments for a column whose longest text has `n` characters.
unfoldable pub packet_column : MysqlColumn → ℕ → Column
packet_column c n =
    let table_name = or_default c.table_name table_name_text in
    let column_name = or_default c.name column_name_text in
    record {
      schema = or_default c.database schema_text;
      table_alias = or_default c.table_alias table_name;
      table_name = table_name;
      column_alias = or_default c.alias column_name;
      column_name = column_name;
      charset = or_default c.charset utf8_unicode_ci;
      max_length = n;
      column_type = c.type;
      flags = or_default c.flags 0;
    }

-- `len(str(x))`, which for None is that of 'None'.
abbrev pub shown_length : Option Str → ℕ
shown_length none = 4
shown_length (some s) = length s

-- The loop over the rows, with the length so far.
unfoldable pub longest : ℕ → List TableRow → ℕ → Result ℕ
longest i [] n = ok n
longest i (row ∷ rows) n = elim (get_elem? row i) [
  | none ↦ raise index_error
  | some x ↦ longest i rows (max (shown_length x) n)
]

-- The length for column `i`; `mssql` says that the integration is one of MSSQL.
unfoldable pub column_length : Bool → ℕ → List TableRow → Result ℕ
column_length true i data' = ok 0x2000
column_length false i [] = ok 0xffff
column_length false i (row ∷ rows) = longest i (row ∷ rows) 1

-- `_get_column_defenition_packets` from column `i` on.
unfoldable pub definition_packets : Bool → List TableRow → ℕ → List MysqlColumn → Making (List Made)
definition_packets mssql data' i [] = made []
definition_packets mssql data' i (c ∷ cs) = do
  n ← or_raised (column_length mssql i data')
  p ← packet (body_of (column_definition_packet (packet_column c n)))
  ps ← definition_packets mssql data' (i + 1) cs
  made (p ∷ ps)

-- A list of packets with these bodies, made one after the other.
unfoldable pub packets : List (Result Bytes) → Making (List Made)
packets [] = made []
packets (body ∷ bodies) = do p ← packet body; ps ← packets bodies; made (p ∷ ps)

-- An EofPacket for a client that wants it.
unfoldable pub eof_packets : Bool → ℕ → Making (List Made)
eof_packets true status = made []
eof_packets false status = packets (body_of (eof_packet status) ∷ [])

unfoldable pub get_tabel_packets :
    (mssql deprecate_eof : Bool) → List MysqlColumn → List TableRow → ℕ → Making (List Made)
get_tabel_packets mssql deprecate_eof columns data' status = do
  count ← packet (body_of (column_count_packet (length columns)))
  definitions ← definition_packets mssql data' 0 columns
  eofs ← eof_packets deprecate_eof status
  rows ← packets (map resultset_row data')
  made (count ∷ (definitions ++ (eofs ++ rows)))

unfoldable pub last_packet : Bool → ℕ → Making Made
last_packet true status = packet (ok_packet true 0 status none)
last_packet false status = packet (body_of (eof_packet status))

-- What `query.fetch` leaves: an error, or a table.
pub data Fetched : Type 0 where
  failed : (error_code : ℕ) (msg : Str) → Fetched
  table : List MysqlColumn → List TableRow → Fetched

unfoldable pub answer_select : (mssql deprecate_eof : Bool) → Fetched → Making Bytes
answer_select mssql deprecate_eof (failed error_code msg) = do
  p ← packet (body_of (err_packet error_code msg))
  or_raised (accum p)
answer_select mssql deprecate_eof (table columns data') = do
  packages ← get_tabel_packets mssql deprecate_eof columns data' 0
  last ← last_packet deprecate_eof 2
  or_raised (send_package_group (packages ++ last ∷ []))

-- The columns of a prepared statement that was executed: `status` is 0x62 for a select, and 0x42 for
-- one that locks.
unfoldable pub announce_columns : (mssql deprecate_eof : Bool) → List MysqlColumn → ℕ → Making Bytes
announce_columns mssql deprecate_eof columns status = do
  count ← packet (body_of (column_count_packet (length columns)))
  definitions ← definition_packets mssql [] 0 columns
  last ← last_packet deprecate_eof status
  or_raised (send_package_group (count ∷ (definitions ++ last ∷ [])))

-- Definitions in the answer of `answer_stmt_prepare`, and the packet behind them, if there are any.
unfoldable pub defined : (mssql deprecate_eof : Bool) → List MysqlColumn → Making (List Made)
defined mssql deprecate_eof [] = made []
defined mssql deprecate_eof (c ∷ cs) = do
  definitions ← definition_packets mssql [] 0 (c ∷ cs)
  eofs ← eof_packets deprecate_eof 2
  made (definitions ++ eofs)

-- The end of `answer_stmt_prepare`.
unfoldable pub announce_statement :
    (mssql deprecate_eof : Bool) → ℕ → List MysqlColumn → List MysqlColumn → Making Bytes
announce_statement mssql deprecate_eof stmt_id columns_def parameters_def = do
  header ←
      packet (body_of (stmt_prepare_header stmt_id (length columns_def) (length parameters_def)))
  parameters ← defined mssql deprecate_eof parameters_def
  columns ← defined mssql deprecate_eof columns_def
  or_raised (send_package_group (header ∷ (parameters ++ columns)))
