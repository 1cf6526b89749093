-- ===== src/Wire/BodyTests.antt =====
-- The theorems on the bodies of packets and on the handshake, at concrete inputs.
use mindsdb_database_ai.Prelude.{
  ◌≡◌, ◌+◌, ◌/◌, ◌^◌, false, map, refl, arith, none, some, Option, List, [], ◌∷◌, ◌++◌, length,
  replicate, ok,
}
use mindsdb_database_ai.Prelude.Bytes.{Bytes, le_bytes}
use mindsdb_database_ai.Prelude.Text.{Str, utf8, utf8_char}
use mindsdb_database_ai.Wire.Datum.{decimal_from, decimal}
use mindsdb_database_ai.Wire.Bodies.{Column, resultset_row}
use mindsdb_database_ai.Wire.Bodies.Layout.{Fits}
use mindsdb_database_ai.Wire.Bodies.Rows.{read_row, cells_of, resultset_row_round_trip}
use mindsdb_database_ai.Prelude.Int.{pos}
use mindsdb_database_ai.Prelude.Bits.{mask}
use mindsdb_database_ai.Wire.BinaryRow.{Cell, str_cell, int_cell, binary_row, enc_of}
use mindsdb_database_ai.Wire.BinaryRow.Layout.{is_none, values_bytes, binary_row-string}
use mindsdb_database_ai.Wire.Capabilities.{default_capabilities, has}
use mindsdb_database_ai.Wire.Handshake.{setup}
use mindsdb_database_ai.Wire.Handshake.Parse.{Client, IsClient, message, response, setup-message}

-- "no"
abbrev no : Str
no = b'n' ∷ b'o' ∷ []

abbrev column : Column
column = record {
  schema = no;
  table_alias = [];
  table_name = no;
  column_alias = no;
  column_name = no;
  charset = 33;
  max_length = 1024;
  column_type = 253;
  flags = 0;
}

column-Fits : Fits column
unfolding utf8 utf8_char
column-Fits = record {
  schema = omega arith;
  table_alias = omega arith;
  table_name = omega arith;
  column_alias = omega arith;
  column_name = omega arith;
  charset = omega arith;
  max_length = omega arith;
  column_type = omega arith;
  flags = omega arith;
}

abbrev row : List (Option Str)
row = some no ∷ none ∷ some [] ∷ []

resultset_row_round_trip_example :
    (bs : Bytes) × (resultset_row row ≡ ok bs)
    × ((rest : Bytes) → read_row (length row) (bs ++ rest) ≡ ok (cells_of row, rest))
resultset_row_round_trip_example =
    resultset_row_round_trip row
      (unfold utf8 utf8_char in omega arith, (tt, (unfold utf8 in omega arith, tt)))

-- A client with secure connections, a database and a plugin.
abbrev client : Client
client = record {
  capabilities = 0x88008;
  max_packet_size = 2 ^ 24;
  charset = 33;
  filler = replicate 23 0;
  username = no;
  auth_response = 1 ∷ 2 ∷ 0 ∷ [];
  database = no;
  plugin = no;
  attributes = 7 ∷ [];
}

client-IsClient : IsClient default_capabilities client
unfolding has
client-IsClient = record {
  capabilities = omega arith;
  max_packet_size = omega arith;
  charset = omega arith;
  filler = refl;
  username = ground arith;
  password = (omega arith, refl, refl);
  database = ground arith;
  plugin = ground arith;
}

setup-message_example :
    setup default_capabilities (message default_capabilities client)
    ≡ ok (some (response default_capabilities client client-IsClient))
setup-message_example = setup-message default_capabilities client client-IsClient

abbrev cells : List (Option Cell)
cells = some (str_cell no) ∷ none ∷ some (int_cell (pos 7)) ∷ []

binary_row-string_example :
    binary_row (λ double x. ok []) (253 ∷ 253 ∷ 253 ∷ []) cells
    ≡ ok (
        0 ∷ le_bytes ((length cells + 9) / 8) (mask (false ∷ false ∷ map is_none cells))
        ++ values_bytes cells)
unfolding enc_of decimal
binary_row-string_example =
    binary_row-string (λ double x. ok []) (253 ∷ 253 ∷ 253 ∷ []) cells refl
      (refl, (refl, (refl, tt)))
      (
        unfold utf8 utf8_char in omega arith,
        (tt, (unfold utf8 utf8_char decimal_from in omega arith, tt)),
      )
