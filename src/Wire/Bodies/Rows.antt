-- ===== src/Wire/Bodies/Rows.antt =====
-- A row of a result set, read as a client reads it: a null marker or a text behind its length.
use mindsdb_database_ai.Prelude.{
  ℕ, zero, suc, ◌^◌, ◌<◌, ◌≡◌, refl, sym, ap, arith, Bool, false, Option, none, some, List, [], ◌∷◌,
  ◌++◌, length, Result, ok, raise, ◌>>=◌, append_assoc, append-nil, All, ◌==◌, if◌then◌else◌,
  index_error, type_error,
}
use mindsdb_database_ai.Prelude.Bytes.{Bytes, le_bytes}
use mindsdb_database_ai.Prelude.Text.{Str, utf8}
use mindsdb_database_ai.Wire.Datum.{
  Value, bytes, string_type, lenenc, datum, set_from_buff, null_value,
}
use mindsdb_database_ai.Wire.Datum.Lenenc.{protocol_int}
use mindsdb_database_ai.Wire.Datum.RoundTrip.{Reads-lenenc}
use mindsdb_database_ai.Wire.Datum.Written.{Writes-lenenc}
use mindsdb_database_ai.Wire.Bodies.{row_field, row_from, resultset_row}
use mindsdb_database_ai.Wire.Bodies.Layout.{protocol_text, IsShort}

abbrev bytes_of : Value → Result Bytes
bytes_of (bytes bs) = ok bs
bytes_of _ = raise type_error

-- A client's reading of one value, and of `n` values.
pub read_text : Bytes → Result (Option Bytes × Bytes)
read_text buff = do
  (d, rest) ← set_from_buff (datum string_type lenenc) buff
  bs ← bytes_of d.value
  ok (some bs, rest)

pub read_cell : Bytes → Result (Option Bytes × Bytes)
read_cell [] = raise index_error
read_cell (b ∷ buff) = if b == null_value then ok (none, buff) else read_text (b ∷ buff)

pub read_row : ℕ → Bytes → Result (List (Option Bytes) × Bytes)
read_row zero buff = ok ([], buff)
read_row (suc n) buff = do
  (cell, rest) ← read_cell buff
  (cells, rest') ← read_row n rest
  ok (cell ∷ cells, rest')

abbrev pub cell_of : Option Str → Option Bytes
cell_of none = none
cell_of (some s) = some (utf8 s)

abbrev pub cells_of : List (Option Str) → List (Option Bytes)
cells_of [] = []
cells_of (x ∷ xs) = cell_of x ∷ cells_of xs

abbrev pub IsShortCell : Option Str → Type 0
IsShortCell none = Unit {0}
IsShortCell (some s) = IsShort s

abbrev cell_bytes : Option Str → Bytes
cell_bytes none = null_value ∷ []
cell_bytes (some s) = protocol_text s

unfoldable pub row_bytes : List (Option Str) → Bytes
row_bytes [] = []
row_bytes (x ∷ xs) = cell_bytes x ++ row_bytes xs

row_field_lem : (x : Option Str) → IsShortCell x → row_field x ≡ ok (cell_bytes x)
row_field_lem none h = refl
row_field_lem (some s) h = rw (Writes-lenenc s h)

row_from_lem :
    (string : Bytes) (xs : List (Option Str))
    → All IsShortCell xs
    → row_from string xs ≡ ok (string ++ row_bytes xs)
unfolding row_from row_bytes
row_from_lem string [] h = ap (λ b. ok b) (sym (append-nil string))
row_from_lem string (x ∷ xs) h = rw (
  row_field_lem x h.0,
  row_from_lem (string ++ cell_bytes x) xs h.1,
  append_assoc string (cell_bytes x) (row_bytes xs),
)

-- A text's length never begins with the null marker.
read_cell-protocol_int :
    (n : ℕ) (tail : Bytes) → read_cell (protocol_int n ++ tail) ≡ read_text (protocol_int n ++ tail)
unfolding protocol_int read_cell
read_cell-protocol_int n tail = ground arith

read_text-protocol_text :
    (s : Str) (rest : Bytes)
    → IsShort s
    → read_text (protocol_text s ++ rest) ≡ ok (some (utf8 s), rest)
unfolding read_text
read_text-protocol_text s rest h = rw (Reads-lenenc (utf8 s) h rest)

read_cell-cell_bytes :
    (x : Option Str) (rest : Bytes)
    → IsShortCell x
    → read_cell (cell_bytes x ++ rest) ≡ ok (cell_of x, rest)
read_cell-cell_bytes none rest h = unfold read_cell in refl
read_cell-cell_bytes (some s) rest h =
    let n : Bytes = protocol_int (length (utf8 s)) in
    rw (append_assoc n (utf8 s) rest, read_cell-protocol_int, ← append_assoc n (utf8 s) rest)
      (read_text-protocol_text s rest h)

pub read_row-row_bytes :
    (xs : List (Option Str)) (rest : Bytes)
    → All IsShortCell xs
    → read_row (length xs) (row_bytes xs ++ rest) ≡ ok (cells_of xs, rest)
unfolding read_row row_bytes
read_row-row_bytes [] rest h = refl
read_row-row_bytes (x ∷ xs) rest h = rw (
  append_assoc (cell_bytes x) (row_bytes xs) rest,
  read_cell-cell_bytes x (row_bytes xs ++ rest) h.0,
  read_row-row_bytes xs rest h.1,
)

pub resultset_row-row_bytes :
    (row : List (Option Str)) → All IsShortCell row → resultset_row row ≡ ok (row_bytes row)
unfolding resultset_row
resultset_row-row_bytes row h = row_from_lem [] row h

-- Whether a packet behind the rows begins like this.
unfoldable pub is_end : Bytes → Bool
is_end [] = false
is_end (b ∷ bs) = b == 0xfe

protocol_int-begins :
    (n : ℕ) (tail : Bytes)
    → n < 2 ^ 24
    → (is_end (protocol_int n ++ tail) ≡ false) × (0 < length (protocol_int n ++ tail))
unfolding is_end protocol_int le_bytes
protocol_int-begins n tail h = (ground arith, ground arith)

-- A row of one value at least is not empty, and does not begin like the packet behind the rows.
pub row_bytes-begins :
    (x : Option Str) (xs : List (Option Str))
    → IsShortCell x
    → (is_end (row_bytes (x ∷ xs)) ≡ false) × (0 < length (row_bytes (x ∷ xs)))
unfolding row_bytes is_end
row_bytes-begins none xs h = (refl, omega arith)
row_bytes-begins (some s) xs h =
    let n : Bytes = protocol_int (length (utf8 s)) in
    let (first, more) = protocol_int-begins (length (utf8 s)) (utf8 s ++ row_bytes xs) h in
    (
      rw (append_assoc n (utf8 s) (row_bytes xs)) first,
      rw (append_assoc n (utf8 s) (row_bytes xs)) more,
    )

-- What `ResultsetRowPacket` writes for a row, whose texts have less than 2 ^ 24 bytes each, is read
-- back by a client that expects as many values: the nulls are nulls, each text is its encoding, and
-- what follows is left.
pub resultset_row_round_trip :
    (row : List (Option Str))
    → All IsShortCell row
    → (bs : Bytes) × (resultset_row row ≡ ok bs)
      × ((rest : Bytes) → read_row (length row) (bs ++ rest) ≡ ok (cells_of row, rest))
unfolding resultset_row
resultset_row_round_trip row h =
    (row_bytes row, row_from_lem [] row h, λ rest. read_row-row_bytes row rest h)
