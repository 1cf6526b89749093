-- ===== src/Wire/BinaryRow.antt =====
-- A row of a prepared statement's result: `BinaryResultsetRowPacket` of
-- data_types/mysql_packets/binary_resultset_row_package.py. Floating-point numbers are packed by the
-- parameter `pack_float`, which has whether the format is '<d' or '<f'.
pub mod Layout
use mindsdb_database_ai.Prelude.{
  ℕ, zero, suc, ◌+◌, ◌-◌, ◌%◌, ◌^◌, ◌<◌, Bool, true, false, Option, none, some, List, [], ◌∷◌, ◌++◌,
  Result, ok, raise, ◌>>=◌, or_raise, struct_error, index_error, value_error, exception, get_elem?,
  ltb, leb, ◌==◌, ◌&&◌, ◌||◌, ◌*◌, if◌then◌else◌,
}
use mindsdb_database_ai.Prelude.Bytes.{Bytes, le_bytes}
use mindsdb_database_ai.Prelude.Int.{ℤ, pos, negsuc}
use mindsdb_database_ai.Prelude.Text.{Str}
use mindsdb_database_ai.Wire.Datum.{str_of_int}
use mindsdb_database_ai.Wire.Bodies.{pack, lenenc_field}

-- A value that is not None.
pub data Cell : Type 0 where
  int_cell : ℤ → Cell
  str_cell : Str → Cell

-- `str(x)`
abbrev pub str_of : Cell → Str
str_of (int_cell z) = str_of_int z
str_of (str_cell s) = s

-- `nulls`, as all of the list but its last number, and that number.
abbrev pub Nulls : Type 0
Nulls = Bytes × ℕ

-- `if i > 0 and (i + 2) % 8 == 0: nulls.append(0)`
unfoldable pub grow : ℕ → Nulls → Nulls
grow i (front, last) =
    if ltb 0 i && ((i + 2) % 8 == 0) then (front ++ last ∷ [], 0) else (front, last)

-- `if el is None: nulls[-1] = nulls[-1] + …`
unfoldable pub mark : ℕ → Option Cell → Nulls → Nulls
mark i (some el) (front, last) = (front, last)
mark i none (front, last) =
    (front, if ltb i 6 then last + 2 ^ ((i + 2) % 8) else last + 2 ^ ((i - 6) % 8))

-- The loop over `data` from `i` on.
unfoldable pub nulls_from : ℕ → List (Option Cell) → Nulls → Nulls
nulls_from i [] nulls = nulls
nulls_from i (el ∷ els) nulls = nulls_from (i + 1) els (mark i el (grow i nulls))

abbrev pub all_bytes : Bytes → Bool
all_bytes [] = true
all_bytes (b ∷ bs) = ltb b 256 && all_bytes bs

-- `bytes(nulls)`
unfoldable pub bytes_of : List ℕ → Result Bytes
bytes_of ns = if all_bytes ns then ok ns else raise value_error

unfoldable pub null_map : List (Option Cell) → Result Bytes
null_map cells = let (front, last) = nulls_from 0 cells ([], 0) in bytes_of (front ++ last ∷ [])

-- The formats, by the types of libs/constants/mysql.py; `none` is the empty one.
pub data Enc : Type 0 where
  float_enc : (double : Bool) → Enc
  int_enc : (size : ℕ) → Enc
  string_enc : Enc

unfoldable pub enc_of : ℕ → Option Enc
enc_of col_type =
    if col_type == 5
    then some (float_enc true)
    else if col_type == 8
    then some (int_enc 8)
    else if col_type == 3
    then some (int_enc 4)
    else if col_type == 4
    then some (float_enc false)
    else if col_type == 13
    then some (int_enc 2)
    else if (col_type == 10)
        || (col_type == 7)
        || (col_type == 12)
        || (col_type == 11)
        || (col_type == 246)
    then none
    else some string_enc

-- `struct.pack` of a signed number in so many bytes.
unfoldable pub pack_signed : ℕ → ℤ → Result Bytes
pack_signed k (pos n) = if ltb (2 * n) (256 ^ k) then ok (le_bytes k n) else raise struct_error
pack_signed k (negsuc n) =
    if ltb (2 * n) (256 ^ k) then ok (le_bytes k (256 ^ k - (n + 1))) else raise struct_error

module _ (pack_float : Bool → Cell → Result Bytes) where
  abbrev pub pack_cell : Option Enc → Cell → Result Bytes
  pack_cell none x = raise (exception "Column with type cant be encripted")
  pack_cell (some (float_enc double)) x = pack_float double x
  pack_cell (some (int_enc k)) (int_cell z) = pack_signed k z
  pack_cell (some (int_enc k)) (str_cell s) = raise struct_error
  pack_cell (some string_enc) x = pack (lenenc_field (str_of x))

  abbrev pub pack_or_skip : ℕ → Option Cell → Result Bytes
  pack_or_skip col_type none = ok []
  pack_or_skip col_type (some x) = pack_cell (enc_of col_type) x

  -- The loop over the columns' types, of which `data` has one value each; the parts are joined.
  unfoldable pub pack_columns : ℕ → List ℕ → List (Option Cell) → Result Bytes
  pack_columns i [] cells = ok []
  pack_columns i (col_type ∷ columns) cells = do
    x ← or_raise (get_elem? cells i) index_error
    part ← pack_or_skip col_type x
    parts ← pack_columns (i + 1) columns cells
    ok (part ++ parts)

  -- `setup` and `body`
  unfoldable pub binary_row : List ℕ → List (Option Cell) → Result Bytes
  binary_row columns cells = do
    nulls ← null_map cells
    values ← pack_columns 0 columns cells
    ok (0 ∷ nulls ++ values)
