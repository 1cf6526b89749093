-- ===== src/Proxy/Params.antt =====
-- The parameters of a prepared statement: `CommandPacket.read_params` of
-- data_types/mysql_packets/command_packet.py.
pub mod RoundTrip
pub mod Untyped
use mindsdb_database_ai.Prelude.{
  ℕ, zero, suc, ◌+◌, ◌/◌, Bool, true, false, List, [], ◌∷◌, ◌++◌, get_elem?, Option, none, some,
  Result, ok, raise, ◌>>=◌, or_raise, struct_error, index_error, exception, ltb, ◌==◌, ◌||◌,
  if◌then◌else◌,
}
use mindsdb_database_ai.Prelude.Bits.{bits_from}
use mindsdb_database_ai.Prelude.Bytes.{Bytes}
use mindsdb_database_ai.Prelude.Text.{decode}
use mindsdb_database_ai.Wire.Datum.{
  Datum, Value, fixed, lenenc, int_type, string_type, bytes, text, datum, set_from_buff,
}

-- `_read_byte`: `struct.unpack` needs the byte.
unfoldable pub read_byte : Bytes → Result (ℕ × Bytes)
read_byte [] = raise struct_error
read_byte (b ∷ buffer) = ok (b, buffer)

-- The null map of so many bytes.
unfoldable pub read_nulls : ℕ → Bytes → Result (List Bool × Bytes)
read_nulls zero buffer = ok ([], buffer)
read_nulls (suc n) buffer = do
  (b, buffer') ← read_byte buffer
  (nulls, buffer'') ← read_nulls n buffer'
  ok (bits_from 8 0 b ++ nulls, buffer'')

-- A type and its sign for each parameter.
unfoldable pub read_types : ℕ → Bytes → Result (List (ℕ × ℕ) × Bytes)
read_types zero buffer = ok ([], buffer)
read_types (suc n) buffer = do
  (t, buffer') ← read_byte buffer
  (s, buffer'') ← read_byte buffer'
  (types, buffer''') ← read_types n buffer''
  ok ((t, s) ∷ types, buffer''')

-- `datumtypes`
unfoldable pub datum_type_of : ℕ → Option Datum
datum_type_of t =
    if t == 253 || t == 254 || t == 15
    then some (datum string_type lenenc)
    else if t == 1
    then some (datum int_type (fixed 1))
    else if t == 2
    then some (datum int_type (fixed 2))
    else if t == 3
    then some (datum int_type (fixed 4))
    else if t == 8
    then some (datum int_type (fixed 8))
    else none

-- `if isinstance(value, bytes): value = value.decode()`
abbrev pub decoded : Value → Result Value
decoded (bytes bs) = decode bs >>= λ s. ok (text s)
decoded v = ok v

-- The exception's text ends in the type's number.
abbrev pub read_typed : Option Datum → Bytes → Result (Option Value × Bytes)
read_typed none buffer = raise (exception "Unsupported type ")
read_typed (some x) buffer = do
  (x', buffer') ← set_from_buff x buffer
  value ← decoded x'.value
  ok (some value, buffer')

-- One round of the last loop.
unfoldable pub read_param : ℕ → List Bool → List (ℕ × ℕ) → Bytes → Result (Option Value × Bytes)
read_param i nulls types buffer = or_raise (get_elem? nulls i) index_error >>= λ is_null.
    elim is_null [
      | true ↦ ok (none, buffer)
      | false ↦
          or_raise (get_elem? types i) index_error >>= λ t. read_typed (datum_type_of t.0) buffer
    ]

-- The rounds from `i` on, `n` of them.
unfoldable pub read_values : ℕ → ℕ → List Bool → List (ℕ × ℕ) → Bytes → Result (List (Option Value))
read_values zero i nulls types buffer = ok []
read_values (suc n) i nulls types buffer = do
  (value, buffer') ← read_param i nulls types buffer
  parameters ← read_values n (i + 1) nulls types buffer'
  ok (value ∷ parameters)

unfoldable pub read_types_if : Bool → ℕ → Bytes → Result (List (ℕ × ℕ) × Bytes)
read_types_if true n buffer = read_types n buffer
read_types_if false n buffer = ok ([], buffer)

-- The list `parameters`, which is empty before.
unfoldable pub read_params : Bytes → ℕ → Result (List (Option Value))
read_params buffer zero = ok []
read_params buffer (suc n) = do
  (nulls, buffer') ← read_nulls ((suc n + 7) / 8) buffer
  (b, buffer'') ← read_byte buffer'
  (types, buffer''') ← read_types_if (b == 1) (suc n) buffer''
  read_values (suc n) 0 nulls types buffer'''
