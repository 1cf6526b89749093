-- ===== src/Proxy/TableTests.antt =====
-- The theorem on a table that is sent, at a concrete input.
use mindsdb_database_ai.Prelude.{
  ◌+◌, ◌%◌, ◌≡◌, refl, arith, false, none, some, List, [], ◌∷◌, map, ok,
}
use mindsdb_database_ai.Prelude.Bytes.{Bytes, le_bytes}
use mindsdb_database_ai.Prelude.Text.{utf8, utf8_char}
use mindsdb_database_ai.Wire.Datum.Lenenc.{protocol_int}
use mindsdb_database_ai.Wire.Bodies.Layout.{joined, Fits}
use mindsdb_database_ai.Wire.Bodies.Rows.{cells_of, row_bytes}
use mindsdb_database_ai.Proxy.ResultSet.{TableRow, MysqlColumn, packet_column, table, answer_select}
use mindsdb_database_ai.Proxy.ResultSet.Client.{read_table}
use mindsdb_database_ai.Proxy.ResultSet.Select.{IsTable}
use mindsdb_database_ai.Proxy.ResultSet.Received.{packet_count, answer_select-read_table}

abbrev id_column : MysqlColumn
id_column = record {
  database = none;
  table_name = some (116 ∷ []);
  table_alias = none;
  name = some (105 ∷ 100 ∷ []);
  alias = none;
  charset = none;
  flags = none;
  type = 253;
}

abbrev two_rows : List TableRow
two_rows = (some (55 ∷ 56 ∷ []) ∷ []) ∷ (none ∷ []) ∷ []

two_rows-IsTable : IsTable false (id_column ∷ []) two_rows
unfolding packet_column utf8 utf8_char joined protocol_int le_bytes row_bytes
two_rows-IsTable = (
  omega arith,
  omega arith,
  ((fits, (omega arith, omega arith)), tt),
  (
    (refl, (omega arith, tt), (omega arith, omega arith)),
    ((refl, (tt, tt), (omega arith, omega arith)), tt),
  ),
)
  where
    fits : Fits (packet_column id_column 4)
    fits = record {
      schema = omega arith;
      table_alias = omega arith;
      table_name = omega arith;
      column_alias = omega arith;
      column_name = omega arith;
      charset = omega arith;
      max_length = omega arith;
      column_type = omega arith;
      flags = omega arith;
    }

answer_select-read_table_example :
    (out : Bytes) × (answer_select false false (table (id_column ∷ []) two_rows) 254
      ≡ ((254 + packet_count false 1 2) % 256, ok out))
    × (read_table 3 false (record { packet_sequence_number = 0; socket = out ∷ [] })
        ≡ some (1, map cells_of two_rows))
answer_select-read_table_example =
    answer_select-read_table false false (id_column ∷ []) two_rows 0 254 3 two_rows-IsTable
      (omega arith) (omega arith)
