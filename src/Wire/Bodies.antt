-- ===== src/Wire/Bodies.antt =====
-- The bodies of the packets that the server sends: data_types/mysql_packets/*.py. Each class sets
-- its fields in `setup`, and its `body` joins them in the order of the list `order`.
pub mod Layout
pub mod Rows
use Prim.Native.Nat.{bit_or}
use mindsdb_database_ai.Prelude.{
  ℕ, ◌+◌, ◌*◌, ◌/◌, ◌%◌, ◌^◌, Bool, true, false, Option, none, some, List, [], ◌∷◌, ◌++◌, map,
  length, take, drop, Result, ok, raise, ◌>>=◌, or_raise, type_error, if◌then◌else◌,
}
use mindsdb_database_ai.Prelude.Bytes.{Bytes, pack_i}
use mindsdb_database_ai.Prelude.Text.{Str}
use mindsdb_database_ai.Wire.Datum.{
  Datum, Value, VarType, fixed, lenenc, eof, nul, int_type, string_type, bytes, text, num, null,
  datum, datum_of, to_string_packet, null_value,
}

-- `x.toStringPacket()` where bytes are wanted: None cannot be added to bytes.
abbrev pub pack : Datum → Result Bytes
pack d = to_string_packet d >>= λ r. or_raise r type_error

-- `string = b''; for key in order: string += getattr(self, key).toStringPacket()`
unfoldable pub body_from : Bytes → List Datum → Result Bytes
body_from string [] = ok string
body_from string (d ∷ ds) = pack d >>= λ section_pack. body_from (string ++ section_pack) ds

abbrev pub body_of : List Datum → Result Bytes
body_of = body_from []

-- The kinds of fields.
abbrev pub int_field : ℕ → ℕ → Datum
int_field k v = datum_of int_type (fixed k) (num v)

abbrev pub lenenc_int_field : ℕ → Datum
lenenc_int_field v = datum_of int_type lenenc (num v)

abbrev pub lenenc_field : Str → Datum
lenenc_field s = datum_of string_type lenenc (text s)

abbrev pub nul_field : Str → Datum
nul_field s = datum_of string_type nul (text s)

abbrev pub eof_field : Str → Datum
eof_field s = datum_of string_type eof (text s)

abbrev pub fixed_field : ℕ → Str → Datum
fixed_field k s = datum_of string_type (fixed k) (text s)

-- ErrPacket
unfoldable pub err_packet : ℕ → Str → List Datum
err_packet err_code msg = int_field 1 255 ∷ int_field 2 err_code ∷ eof_field msg ∷ []

-- EofPacket
unfoldable pub eof_packet : ℕ → List Datum
eof_packet status = int_field 1 0xfe ∷ int_field 2 0 ∷ int_field 2 status ∷ []

-- ColumnCountPacket
unfoldable pub column_count_packet : ℕ → List Datum
column_count_packet count = lenenc_int_field count ∷ []

-- FastAuthFail
unfoldable pub fast_auth_fail : List Datum
fast_auth_fail = int_field 1 4 ∷ []

-- SwitchOutPacket
unfoldable pub switch_out_packet : Str → Str → List Datum
switch_out_packet seed method = int_field 1 0xfe ∷ nul_field method ∷ nul_field seed ∷ []

-- STMTPrepareHeaderPacket
unfoldable pub stmt_prepare_header : ℕ → ℕ → ℕ → List Datum
stmt_prepare_header stmt_id num_columns num_params =
    int_field 1 0
    ∷ int_field 4 stmt_id
    ∷ int_field 2 num_columns
    ∷ int_field 2 num_params
    ∷ int_field 1 0
    ∷ int_field 2 0
    ∷ []

-- The keyword arguments of ColumnDefenitionPacket, `setup`'s defaults filled in.
pub record Column : Type 0 where
  pub schema : Str
  pub table_alias : Str
  pub table_name : Str
  pub column_alias : Str
  pub column_name : Str
  pub charset : ℕ
  pub max_length : ℕ
  pub column_type : ℕ
  pub flags : ℕ

-- "def"
abbrev pub def_catalog : Str
def_catalog = b'd' ∷ b'e' ∷ b'f' ∷ []

unfoldable pub column_definition_packet : Column → List Datum
column_definition_packet c =
    lenenc_field def_catalog
    ∷ lenenc_field c.schema
    ∷ lenenc_field c.table_alias
    ∷ lenenc_field c.table_name
    ∷ lenenc_field c.column_alias
    ∷ lenenc_field c.column_name
    ∷ lenenc_int_field 0xc
    ∷ int_field 2 c.charset
    ∷ int_field 4 c.max_length
    ∷ int_field 1 c.column_type
    ∷ int_field 2 c.flags
    ∷ int_field 1 0
    ∷ int_field 2 0
    ∷ []

-- HandshakePacket, with the server's version and the method as texts.
unfoldable pub handshake_packet : Str → ℕ → Str → ℕ → Str → List Datum
handshake_packet server_version connection_id salt capabilities method =
    int_field 1 10
    ∷ nul_field server_version
    ∷ int_field 4 connection_id
    ∷ fixed_field 8 (take 8 salt)
    ∷ fixed_field 1 []
    ∷ int_field 2 capabilities
    ∷ int_field 1 83
    ∷ int_field 2 2
    ∷ int_field 2 (capabilities / 2 ^ 16)
    ∷ int_field 1 21
    ∷ fixed_field 6 []
    ∷ fixed_field 4 []
    ∷ nul_field (drop 8 salt)
    ∷ nul_field method
    ∷ []

-- OkPacket: one variable of `state_track`, and all of them.
unfoldable pub track_part : Str × Str → Result Bytes
track_part (name, value) = do
  name_part ← pack (lenenc_field name)
  value_part ← pack (lenenc_field value)
  kind ← pack_i 0
  size ← pack_i (length (name_part ++ value_part))
  ok (take 1 kind ++ take 1 size ++ (name_part ++ value_part))

unfoldable pub track_parts : Bytes → List (Str × Str) → Result Bytes
unfolding track_part
track_parts accum [] = ok accum
track_parts accum (el ∷ els) = track_part el >>= λ part. track_parts (accum ++ part) els

unfoldable pub state_track : List (Str × Str) → Result Bytes
unfolding track_parts
state_track els = do
  info ← pack (lenenc_field [])
  accum ← track_parts [] els
  size ← pack_i (length accum)
  ok (info ++ (take 1 size ++ accum))

-- `status | SERVER_SESSION_STATE_CHANGED`
abbrev pub ok_status : ℕ → Option (List (Str × Str)) → ℕ
ok_status status none = status
ok_status status (some els) = bit_or status (2 ^ 14)

abbrev pub track_or_nothing : Option (List (Str × Str)) → Result Bytes
track_or_nothing none = ok []
track_or_nothing (some els) = state_track els

-- `state_track` is made in `setup`, before the fields are joined.
unfoldable pub ok_packet : Bool → ℕ → ℕ → Option (List (Str × Str)) → Result Bytes
unfolding body_from
ok_packet is_eof affected_rows status track = do
  tracked ← track_or_nothing track
  front ← body_of (
      int_field 1 (if is_eof then 0xfe else 0)
      ∷ lenenc_int_field affected_rows
      ∷ lenenc_int_field 0
      ∷ int_field 2 (ok_status status track)
      ∷ int_field 2 0
      ∷ [])
  body_from (front ++ tracked) (datum string_type eof ∷ [])

-- ResultsetRowPacket: None is the null marker, every other value goes as its text `str(val)`.
abbrev pub row_field : Option Str → Result Bytes
row_field none = ok (null_value ∷ [])
row_field (some s) = pack (lenenc_field s)

unfoldable pub row_from : Bytes → List (Option Str) → Result Bytes
row_from string [] = ok string
row_from string (x ∷ xs) = row_field x >>= λ part. row_from (string ++ part) xs

unfoldable pub resultset_row : List (Option Str) → Result Bytes
unfolding row_from
resultset_row row = row_from [] row
