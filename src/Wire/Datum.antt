-- ===== src/Wire/Datum.antt =====
-- mindsdb/api/mysql/mysql_proxy/data_types/mysql_datum.py: one field of a packet, its encoder
-- `toStringPacket` and its decoder `setFromBuff`. Numbers are Python ints that are not negative,
-- and no text holds a lone surrogate. The type 'string<packet>', which nothing constructs, is left
-- out. `struct`'s native formats are those of a little-endian machine.
pub mod Decimal
pub mod Lenenc
pub mod RoundTrip
pub mod Written
use mindsdb_database_ai.Prelude.{
  ℕ, zero, suc, ◌+◌, ◌-◌, ◌/◌, ◌%◌, Bool, true, false, Option, none, some, List, [], ◌∷◌, ◌++◌,
  length, take, drop, slice, replicate, drop_last, Result, ok, raise, ◌>>=◌, struct_error,
  index_error, type_error, value_error, ltb, leb, ◌==◌, ◌&&◌, if◌then◌else◌,
}
use mindsdb_database_ai.Prelude.Int.{ℤ, pos, negsuc, signed32}
use mindsdb_database_ai.Prelude.Bytes.{Bytes, le_val, pack_q, pack_i, pack_s, unpack_q}
use mindsdb_database_ai.Prelude.Text.{Str, utf8, decode}

-- `var_type` and `var_len`, the two parts of a type such as 'string<lenenc>'.
pub data VarType : Type 0 where
  int_type string_type byte_type str_type : VarType

pub data VarLen : Type 0 where
  fixed : ℕ → VarLen
  lenenc eof nul : VarLen

-- What `value` holds; `int_tuple` is the one-element tuple that `struct.unpack('i', …)` leaves.
pub data Value : Type 0 where
  bytes : Bytes → Value
  text : Str → Value
  num : ℕ → Value
  int_tuple : ℤ → Value
  null : Value

-- `type` is the declared type; `var_len` may change when the field is read.
pub record Datum : Type 0 where
  pub var_type : VarType
  pub type_len : VarLen
  pub var_len : VarLen
  pub value : Value

-- `Datum(type)` and `Datum(type, value)`
abbrev pub datum : VarType → VarLen → Datum
datum t l = record { var_type = t; type_len = l; var_len = l; value = bytes [] }

abbrev pub datum_of : VarType → VarLen → Value → Datum
datum_of t l null = datum t l
datum_of t l v = record { var_type = t; type_len = l; var_len = l; value = v }

-- The markers of libs/constants/mysql.py.
abbrev pub null_value : ℕ
null_value = 0xfb

abbrev pub one_byte_enc : ℕ
one_byte_enc = 0xfa

abbrev pub two_byte_enc : ℕ
two_byte_enc = 0xfc

abbrev pub three_byte_enc : ℕ
three_byte_enc = 0xfd

-- `int(math.ceil(math.log(value + 1, 2) / 8))`: the number of bytes of `value`.
unfoldable pub count_from : ℕ → ℕ → ℕ
count_from zero n = 0
count_from (suc f) n = elim (n == 0) [ true ↦ 0 | false ↦ suc (count_from f (n / 256)) ]

unfoldable pub byte_count : ℕ → ℕ
unfolding count_from
byte_count n = count_from n n

abbrev pub cut : ℕ → Result Bytes → Result (Option Bytes)
cut k r = r >>= λ bs. ok (some (take k bs))

-- `marker + struct.pack(…)[:k] + tail`
abbrev pub marked : ℕ → ℕ → Result Bytes → Bytes → Result (Option Bytes)
marked m k r tail = r >>= λ bs. ok (some (m ∷ take k bs ++ tail))

-- `none` is Python's None, which the function returns when no branch does.
unfoldable pub lenenc_int : ℕ → Result (Option Bytes)
lenenc_int v =
    if byte_count v == 0
    then ok (some (0 ∷ []))
    else if ltb v null_value
    then cut 1 (pack_i v)
    else if leb null_value v && leb (byte_count v) 2
    then marked two_byte_enc 2 (pack_i v) []
    else if leb (byte_count v) 3
    then marked three_byte_enc 3 (pack_i v) []
    else if leb (byte_count v) 8
    then marked three_byte_enc 8 (pack_q v) []
    else ok none

-- `self.lenencInt(n) + bs`: None has no `+`.
abbrev pub plus_bytes : Option Bytes → Bytes → Result (Option Bytes)
plus_bytes none bs = raise type_error
plus_bytes (some head) bs = ok (some (head ++ bs))

unfoldable pub lenenc_text : Str → Result (Option Bytes)
lenenc_text s =
    let n = length (utf8 s) in
    if ltb n null_value
    then (lenenc_int n >>= λ head. plus_bytes head (utf8 s))
    else if leb null_value n && leb (byte_count n) 2
    then marked two_byte_enc 2 (pack_i n) (utf8 s)
    else if leb (byte_count n) 3
    then marked three_byte_enc 3 (pack_i n) (utf8 s)
    else if leb (byte_count n) 8
    then marked three_byte_enc 8 (pack_q n) (utf8 s)
    else ok none

-- `str(n)`
unfoldable pub decimal_from : ℕ → ℕ → Str
decimal_from zero n = []
decimal_from (suc f) n = elim (ltb n 10) [
  | true ↦ (b'0' + n) ∷ []
  | false ↦ decimal_from f (n / 10) ++ (b'0' + n % 10) ∷ []
]

unfoldable pub decimal : ℕ → Str
unfolding decimal_from
decimal n = decimal_from (suc n) n

abbrev pub str_of_int : ℤ → Str
str_of_int (pos n) = decimal n
str_of_int (negsuc n) = b'-' ∷ decimal (suc n)

-- The text of a value, as `decode()` or `str(value)` gives it.
unfoldable pub text_of : Value → Result Str
text_of (bytes bs) = decode bs
text_of (text s) = ok s
text_of (num n) = ok (decimal n)
text_of (int_tuple z) = ok (b'(' ∷ str_of_int z ++ b',' ∷ b')' ∷ [])
text_of null = ok []

-- One function for each group of branches of `toStringPacket`.
unfoldable pub encode_eof : Value → Result (Option Bytes)
encode_eof (bytes []) = ok (some [])
encode_eof (text []) = ok (some [])
encode_eof (text (c ∷ s)) = let n = length (c ∷ s) in ok (some (take n (pack_s n (utf8 (c ∷ s)))))
encode_eof _ = raise type_error

unfoldable pub encode_nul : Value → Result (Option Bytes)
encode_nul (text s) = ok (some (utf8 s ++ 0 ∷ []))
encode_nul _ = raise type_error

unfoldable pub encode_fixed : VarType → ℕ → Value → Result (Option Bytes)
encode_fixed int_type n (num v) = cut n (pack_q v)
encode_fixed int_type n _ = raise struct_error
encode_fixed string_type n (text s) = ok (some (take n (pack_s n (utf8 s))))
encode_fixed string_type n _ = raise type_error
encode_fixed byte_type n (bytes bs) = ok (some (take n (pack_s n bs)))
encode_fixed byte_type n _ = raise struct_error
encode_fixed str_type n _ = ok none

unfoldable pub encode_lenenc : VarType → Value → Result (Option Bytes)
unfolding text_of
encode_lenenc t null = ok (some (null_value ∷ []))
encode_lenenc int_type (num v) = lenenc_int v
encode_lenenc int_type _ = raise type_error
encode_lenenc string_type v = text_of v >>= lenenc_text
encode_lenenc byte_type v = text_of v >>= lenenc_text
encode_lenenc str_type v = ok none

-- The branches on `var_len`, behind those on the whole type.
abbrev pub encode_by_len : VarType → VarLen → Value → Result (Option Bytes)
encode_by_len t (fixed n) v = encode_fixed t n v
encode_by_len t lenenc v = encode_lenenc t v
encode_by_len t _ v = ok none

abbrev pub encode_as : VarType → VarLen → VarLen → Value → Result (Option Bytes)
encode_as string_type eof l v = encode_eof v
encode_as byte_type eof l v = encode_eof v
encode_as string_type nul l v = encode_nul v
encode_as t _ l v = encode_by_len t l v

unfoldable pub to_string_packet : Datum → Result (Option Bytes)
unfolding encode_eof encode_nul encode_fixed encode_lenenc
to_string_packet d = encode_as d.var_type d.type_len d.var_len d.value

-- Where the length of a lenenc field stands: `start` and `end`.
unfoldable pub lenenc_span : ℕ → ℕ × ℕ
lenenc_span ln_enc =
    if leb ln_enc one_byte_enc
    then (0, 1)
    else if ln_enc == two_byte_enc
    then (1, 3)
    else if ln_enc == three_byte_enc
    then (1, 4)
    else (1, 9)

-- `struct.unpack('i', bs)`
abbrev pub unpack_i : Bytes → Result ℤ
unpack_i bs = if length bs == 4 then ok (signed32 (le_val bs)) else raise struct_error

abbrev pub read_span : Datum → Bytes → ℕ × ℕ → Result (Datum × Bytes)
read_span d buff (start, end) =
    let num_str = slice buff start end ++ replicate (8 - (end - start)) 0 in
    elim d.var_type [
      | int_type ↦ unpack_i num_str >>= λ z. ok (record d { value = int_tuple z }, drop end buff)
      | str_type ↦ raise value_error
      | _ ↦ unpack_q num_str >>= λ n.
          ok (record d { value = bytes (slice buff end (n + end)) }, drop (n + end) buff)
    ]

unfoldable pub read_lenenc : Datum → Bytes → Result (Datum × Bytes)
unfolding lenenc_span
read_lenenc d [] = raise index_error
read_lenenc d (ln_enc ∷ buff) = read_span d (ln_enc ∷ buff) (lenenc_span ln_enc)

-- The place of the first zero.
unfoldable pub find_nul : Bytes → Option ℕ
find_nul [] = none
find_nul (b ∷ bs) =
    if b == 0 then some 0 else elim (find_nul bs) [ none ↦ none | some j ↦ some (suc j) ]

-- `int(length)`: of the words 'NUL' and 'lenenc' it raises.
abbrev pub int_of_len : VarLen → Result ℕ
int_of_len (fixed n) = ok n
int_of_len _ = raise value_error

abbrev pub past_nul : Option ℕ → VarLen → Result ℕ
past_nul none l = int_of_len l
past_nul (some j) l = ok (j + 1)

abbrev pub nul_length : VarType → VarLen → VarLen → Bytes → Result ℕ
nul_length string_type nul l buff = past_nul (find_nul buff) l
nul_length t _ l buff = int_of_len l

abbrev pub strip_nul : VarLen → Bytes → Bytes
strip_nul nul bs = drop_last bs
strip_nul _ bs = bs

abbrev pub read_bytes : Datum → Bytes → ℕ → Result (Datum × Bytes)
read_bytes d buff end =
    ok (record d { value = bytes (strip_nul d.var_len (take end buff)) }, drop end buff)

abbrev pub read_num : Datum → Bytes → ℕ → Result (Datum × Bytes)
read_num d buff end =
    if ltb 8 end
    then ok (d, drop end buff)
    else (unpack_q (take end buff ++ replicate (8 - end) 0) >>= λ n.
        ok (record d { value = num n }, drop end buff))

abbrev pub read_sized : Datum → Bytes → ℕ → Result (Datum × Bytes)
read_sized d buff end = elim d.var_type [
  | int_type ↦ read_num d buff end
  | str_type ↦ read_num d buff end
  | _ ↦ read_bytes d buff end
]

-- The datum that was read, and what is left of the buffer.
unfoldable pub set_from_buff : Datum → Bytes → Result (Datum × Bytes)
unfolding read_lenenc find_nul
set_from_buff d buff = elim d.var_len [
  | lenenc ↦ read_lenenc d buff
  | eof ↦ ok (record d { var_len = fixed (length buff); value = bytes buff }, [])
  | _ ↦ nul_length d.var_type d.type_len d.var_len buff >>= read_sized d buff
]
