-- ===== src/Wire/Datum/Written.antt =====
-- What `toStringPacket` writes for each kind of field, and that `setFromBuff` reads it back.
use mindsdb_database_ai.Prelude.{
  ℕ, suc, ◌+◌, ◌-◌, ◌^◌, ◌≤◌, ◌<◌, ◌≡◌, ◌≢◌, refl, ap, arith, none, some, [], ◌∷◌, ◌++◌, length,
  take, drop, slice, replicate, All, ok, raise, struct_error, ltb, if◌then◌else◌, lt→ltb, ge→ltb,
  le→leb, take-append, length-append, length-replicate, take_all, length-take,
}
use mindsdb_database_ai.Prelude.Bytes.{
  Bytes, le_bytes, le_val, pack_q, unpack_q, length-le_bytes, take-le_bytes,
}
use mindsdb_database_ai.Prelude.Text.{
  Str, utf8, decode, IsScalar, IsAscii, decode-utf8, utf8-ascii, length-le-length-utf8,
}
use mindsdb_database_ai.Wire.Datum.{
  Datum, fixed, lenenc, eof, nul, int_type, string_type, bytes, text, num, datum, datum_of,
  lenenc_text, to_string_packet, lenenc_span, unpack_i, read_lenenc, set_from_buff,
}
use mindsdb_database_ai.Wire.Datum.Lenenc.{
  protocol_int, lenenc_int_lem, marked-pack_i, marked-pack_q, leb-byte_count, pow_mono,
}
use mindsdb_database_ai.Wire.Datum.RoundTrip.{Reads, Reads-num, Reads-nul, Reads-lenenc, NoNul}

-- `d` is written as `bs`.
abbrev pub Writes : Datum → Bytes → Type 0
Writes d bs = to_string_packet d ≡ ok (some bs)

pub Writes-num :
    (k v : ℕ) → k ≤ 8 → v < 2 ^ 64 → Writes (datum_of int_type (fixed k) (num v)) (le_bytes k v)
unfolding to_string_packet pack_q
Writes-num k v hk hv = rw (lt→ltb v (2 ^ 64) hv, take-le_bytes k 8 v hk)

pub Writes-nul : (s : Str) → Writes (datum_of string_type nul (text s)) (utf8 s ++ 0 ∷ [])
unfolding to_string_packet
Writes-nul s = refl

-- A text in a field of `k` bytes is cut or filled up to `k` bytes.
pub Writes-fixed :
    (k : ℕ) (s : Str)
    → Writes
        (datum_of string_type (fixed k) (text s))
        (take k (take k (utf8 s) ++ replicate (k - length (utf8 s)) 0))
unfolding to_string_packet
Writes-fixed k s = refl

lenenc_text_lem :
    (s : Str)
    → lenenc_text s ≡ (
        if ltb (length (utf8 s)) (2 ^ 24)
        then ok (some (protocol_int (length (utf8 s)) ++ utf8 s))
        else if ltb (length (utf8 s)) (2 ^ 64)
        then ok (some (0xfd ∷ le_bytes 8 (length (utf8 s)) ++ utf8 s))
        else ok none)
unfolding lenenc_text protocol_int
lenenc_text_lem s =
    let n : ℕ = length (utf8 s) in
    rw (leb-byte_count, leb-byte_count, leb-byte_count, lenenc_int_lem)
      (ground (
        arith,
        marked-pack_i 0xfc 2 n (utf8 s),
        marked-pack_i 0xfd 3 n (utf8 s),
        marked-pack_q 0xfd n (utf8 s),
      ))

pub Writes-lenenc :
    (s : Str)
    → length (utf8 s) < 2 ^ 24
    → Writes (datum_of string_type lenenc (text s)) (protocol_int (length (utf8 s)) ++ utf8 s)
unfolding to_string_packet
Writes-lenenc s h = rw (lenenc_text_lem, lt→ltb (length (utf8 s)) (2 ^ 24) h)

Writes-wide :
    (s : Str)
    → 2 ^ 24 ≤ length (utf8 s)
    → length (utf8 s) < 2 ^ 64
    → Writes (datum_of string_type lenenc (text s)) (0xfd ∷ le_bytes 8 (length (utf8 s)) ++ utf8 s)
unfolding to_string_packet
Writes-wide s lo hi =
    rw (lenenc_text_lem, ge→ltb (length (utf8 s)) (2 ^ 24) lo, lt→ltb (length (utf8 s)) (2 ^ 64) hi)

-- An 'EOF' text is cut to as many bytes as it has characters.
pub Writes-eof : (s : Str) → Writes (datum_of string_type eof (text s)) (take (length s) (utf8 s))
unfolding to_string_packet utf8
Writes-eof [] = refl
Writes-eof (c ∷ s) =
    let n : length (take (length (c ∷ s)) (utf8 (c ∷ s))) ≡ length (c ∷ s) =
      omega (arith, length-take (length (c ∷ s)) (utf8 (c ∷ s)), length-le-length-utf8 (c ∷ s)) in
    ap (λ b. ok (some b)) (take-append (take (length (c ∷ s)) (utf8 (c ∷ s))) _ n)

-- A number below 256 ^ k is written to a field of `k` bytes (8 at most) as exactly `k` bytes, and
-- read back from them, whatever follows.
pub num_round_trip :
    (k v : ℕ)
    → k ≤ 8
    → v < 256 ^ k
    → (bs : Bytes) × Writes (datum_of int_type (fixed k) (num v)) bs
      × (length bs ≡ k)
      × Reads (datum int_type (fixed k)) bs (num v)
num_round_trip k v hk hv = (
  le_bytes k v,
  Writes-num k v hk (omega (arith, pow_mono k 8 hk)),
  length-le_bytes k v,
  Reads-num k v hk hv,
)

-- A text whose encoding has no zero byte is written to a 'string<NUL>' field as that encoding and a
-- zero, and its encoding is read back, whatever follows.
pub nul_round_trip :
    (s : Str)
    → NoNul (utf8 s)
    → (bs : Bytes) × Writes (datum_of string_type nul (text s)) bs
      × Reads (datum string_type nul) bs (bytes (utf8 s))
nul_round_trip s h = (utf8 s ++ 0 ∷ [], Writes-nul s, Reads-nul (utf8 s) h)

-- A text of less than 2 ^ 24 encoded bytes is written to a 'string<lenenc>' field as the protocol
-- prescribes; whatever follows, its encoding is read back, and decoding gives the text.
pub lenenc_round_trip :
    (s : Str)
    → All IsScalar s
    → length (utf8 s) < 2 ^ 24
    → Writes (datum_of string_type lenenc (text s)) (protocol_int (length (utf8 s)) ++ utf8 s)
      × Reads (datum string_type lenenc) (protocol_int (length (utf8 s)) ++ utf8 s) (bytes (utf8 s))
      × (decode (utf8 s) ≡ ok s)
lenenc_round_trip s hs h = (Writes-lenenc s h, Reads-lenenc (utf8 s) h, decode-utf8 s hs)

-- An 'EOF' text of ASCII characters is written as it is; one with any other character loses the end
-- of its encoding: as many bytes are written as the text has characters.
pub eof_written :
    (s : Str)
    → Writes (datum_of string_type eof (text s)) (take (length s) (utf8 s))
      × (All IsAscii s → take (length s) (utf8 s) ≡ s)
      × (length s < length (utf8 s) → take (length s) (utf8 s) ≢ utf8 s)
eof_written s = (
  Writes-eof s,
  (λ h. rw (utf8-ascii s h) (take_all s (length s) (omega arith))),
  λ h e. omega (arith, ap length e, length-take (length s) (utf8 s)),
)

unpack_i-eight : (bs : Bytes) → length bs ≡ 8 → unpack_i bs ≡ raise struct_error
unpack_i-eight bs h = rw h

-- A marker, and the rest of a number of `k` bytes, filled up to eight.
int_marked :
    (m k v : ℕ) (rest : Bytes)
    → k ≤ 8
    → lenenc_span m ≡ (1, suc k)
    → read_lenenc (datum int_type lenenc) (m ∷ le_bytes k v ++ rest) ≡ raise struct_error
unfolding read_lenenc
int_marked m k v rest hk hs =
    let e : suc k - 1 ≡ k = omega arith in
    let n : length (le_bytes k v ++ replicate (8 - k) 0) ≡ 8 = omega (
      arith,
      length-append (le_bytes k v) (replicate (8 - k) 0),
      length-le_bytes k v,
      length-replicate {A = ℕ} (8 - k) 0,
    ) in
    rw (hs, e, take-append (le_bytes k v) rest (length-le_bytes k v), n)

int_short :
    (v : ℕ) (rest : Bytes)
    → v ≤ 0xfa
    → read_lenenc (datum int_type lenenc) (v ∷ rest) ≡ raise struct_error
unfolding read_lenenc lenenc_span
int_short v rest h = rw (le→leb v 0xfa h)

-- No 'int<lenenc>' field can be read: on what the protocol writes for any number below 2 ^ 24,
-- `setFromBuff` raises `struct.error`, whatever follows.
pub lenenc_int_unreadable :
    (v : ℕ) (rest : Bytes)
    → v < 2 ^ 24
    → set_from_buff (datum int_type lenenc) (protocol_int v ++ rest) ≡ raise struct_error
unfolding set_from_buff protocol_int lenenc_span
lenenc_int_unreadable v rest h =
    ground (arith, int_short v rest, int_marked 0xfc 2 v rest, int_marked 0xfd 3 v rest)

-- The length that the reader takes from the three bytes behind the marker.
low_three : ℕ → ℕ
low_three n = le_val (le_bytes 3 n ++ replicate 5 0)

low_three-lt : (n : ℕ) → low_three n < 2 ^ 24
unfolding low_three le_bytes le_val
low_three-lt n = omega arith

read_wide :
    (n : ℕ) (u : Bytes)
    → let buff = 0xfd ∷ le_bytes 8 n ++ u in
      set_from_buff (datum string_type lenenc) buff
      ≡ ok (
        record (datum string_type lenenc) { value = bytes (slice buff 4 (low_three n + 4)) },
        drop (low_three n + 4) buff,
      )
unfolding set_from_buff read_lenenc lenenc_span unpack_q low_three le_bytes
read_wide n u = refl

length-slice : (bs : Bytes) (n : ℕ) → length (slice bs 4 (n + 4)) ≤ n
length-slice bs n = omega (arith, length-take (n + 4 - 4) (drop 4 bs))

-- A text of 2 ^ 24 encoded bytes or more (and below 2 ^ 64) is written with a header that is read
-- back as a shorter value: the reader gets other bytes than the encoding.
pub lenenc-wide_misread :
    (s : Str)
    → 2 ^ 24 ≤ length (utf8 s)
    → length (utf8 s) < 2 ^ 64
    → (bs w rest : Bytes) × Writes (datum_of string_type lenenc (text s)) bs
      × (set_from_buff (datum string_type lenenc) bs
          ≡ ok (record (datum string_type lenenc) { value = bytes w }, rest))
      × (length w < 2 ^ 24)
      × (w ≢ utf8 s)
lenenc-wide_misread s lo hi =
    let n : ℕ = length (utf8 s) in
    let buff : Bytes = 0xfd ∷ le_bytes 8 n ++ utf8 s in
    let short : length (slice buff 4 (low_three n + 4)) < 2 ^ 24 =
      omega (arith, low_three-lt n, length-slice buff (low_three n)) in
    (
      buff,
      slice buff 4 (low_three n + 4),
      drop (low_three n + 4) buff,
      Writes-wide s lo hi,
      read_wide n (utf8 s),
      short,
      λ e. omega (arith, short, ap length e),
    )
