-- ===== src/Wire/Datum/RoundTrip.antt =====
-- What `toStringPacket` writes, and what `setFromBuff` reads back of it.
use mindsdb_database_ai.Prelude.{
  ℕ, suc, ◌+◌, ◌-◌, ◌^◌, ◌≤◌, ◌<◌, ◌≡◌, ◌≢◌, refl, ap, arith, some, [], ◌∷◌, ◌++◌, length, take,
  drop, slice, replicate, All, ok, ge→ltb, le→leb, append_assoc, take-append, drop-append,
  length-append, length-replicate, drop_last-snoc,
}
use mindsdb_database_ai.Prelude.Bytes.{
  Bytes, le_bytes, le_val, unpack_q, length-le_bytes, le_val-le_bytes, le_val-zeros,
}
use mindsdb_database_ai.Wire.Datum.{
  Datum, Value, fixed, lenenc, nul, int_type, string_type, bytes, num, datum, lenenc_span,
  read_span, read_lenenc, find_nul, set_from_buff,
}
use mindsdb_database_ai.Wire.Datum.Lenenc.{protocol_int}

-- The bytes `bs` are what stands for `v` in a field `d`: whatever follows, reading takes just them.
abbrev pub Reads : Datum → Bytes → Value → Type 0
Reads d bs v = (rest : Bytes) → set_from_buff d (bs ++ rest) ≡ ok (record d { value = v }, rest)

unpack_q-padded :
    (k v : ℕ) → k ≤ 8 → v < 256 ^ k → unpack_q (le_bytes k v ++ replicate (8 - k) 0) ≡ ok v
unfolding unpack_q
unpack_q-padded k v hk hv =
    let n : length (le_bytes k v ++ replicate (8 - k) 0) ≡ 8 = omega (
      arith,
      length-append (le_bytes k v) (replicate (8 - k) 0),
      length-le_bytes k v,
      length-replicate {A = ℕ} (8 - k) 0,
    ) in
    rw (n, le_val-zeros, le_val-le_bytes k v hv)

-- A number in a field of `k` bytes.
pub Reads-num :
    (k v : ℕ) → k ≤ 8 → v < 256 ^ k → Reads (datum int_type (fixed k)) (le_bytes k v) (num v)
unfolding set_from_buff
Reads-num k v hk hv rest = rw (
  ge→ltb 8 k hk,
  take-append (le_bytes k v) rest (length-le_bytes k v),
  drop-append (le_bytes k v) rest (length-le_bytes k v),
  unpack_q-padded k v hk hv,
)

-- Bytes in a field of as many bytes.
pub Reads-fixed :
    (bs : Bytes) {k : ℕ} → length bs ≡ k → Reads (datum string_type (fixed k)) bs (bytes bs)
unfolding set_from_buff
Reads-fixed bs h rest = rw (take-append bs rest h, drop-append bs rest h)

-- Bytes without a zero.
abbrev pub NoNul : Bytes → Type 0
NoNul bs = All (λ b. b ≢ 0) bs

find_nul-append :
    (bs rest : Bytes) → NoNul bs → find_nul ((bs ++ 0 ∷ []) ++ rest) ≡ some (length bs)
unfolding find_nul
find_nul-append [] rest h = refl
find_nul-append (b ∷ bs) rest h = ground (arith, find_nul-append bs rest h.1)

length-snoc : (bs : Bytes) → length (bs ++ 0 ∷ []) ≡ length bs + 1
length-snoc bs = omega (arith, length-append bs (0 ∷ []))

-- Bytes up to a zero.
pub Reads-nul : (bs : Bytes) → NoNul bs → Reads (datum string_type nul) (bs ++ 0 ∷ []) (bytes bs)
unfolding set_from_buff
Reads-nul bs h rest = rw (
  find_nul-append bs rest h,
  take-append (bs ++ 0 ∷ []) rest (length-snoc bs),
  drop-append (bs ++ 0 ∷ []) rest (length-snoc bs),
  drop_last-snoc bs 0,
)

-- Where the length was found, the bytes behind it are the value.
read_span-string :
    (pre bs rest : Bytes) (start end : ℕ)
    → length pre ≡ end
    → unpack_q (slice (pre ++ (bs ++ rest)) start end ++ replicate (8 - (end - start)) 0)
      ≡ ok (length bs)
    → read_span (datum string_type lenenc) (pre ++ (bs ++ rest)) (start, end)
      ≡ ok (record (datum string_type lenenc) { value = bytes bs }, rest)
read_span-string pre bs rest start end hp hq =
    let n : length bs + end - end ≡ length bs = omega arith in
    let m : length (pre ++ bs) ≡ length bs + end = omega (arith, length-append pre bs) in
    let behind : drop (length bs + end) (pre ++ (bs ++ rest)) ≡ rest =
      rw (← append_assoc pre bs rest) (drop-append (pre ++ bs) rest m) in
    rw (hq, n, drop-append pre (bs ++ rest) hp, take-append bs rest refl, behind)

-- A marker, and a length of `k` bytes.
unpack_q-span :
    (k n : ℕ) (rest : Bytes)
    → k ≤ 8
    → n < 256 ^ k
    → unpack_q (take k (le_bytes k n ++ rest) ++ replicate (8 - k) 0) ≡ ok n
unpack_q-span k n rest hk hn =
    rw (take-append (le_bytes k n) rest (length-le_bytes k n)) (unpack_q-padded k n hk hn)

unpack_q-one : (n : ℕ) → unpack_q (n ∷ replicate 7 0) ≡ ok n
unfolding unpack_q le_val
unpack_q-one n = ap ok (omega arith)

module _ (bs rest : Bytes) where
  read_marked :
      (m k : ℕ)
      → k ≤ 8
      → length bs < 256 ^ k
      → lenenc_span m ≡ (1, suc k)
      → read_lenenc (datum string_type lenenc) (m ∷ le_bytes k (length bs) ++ (bs ++ rest))
        ≡ ok (record (datum string_type lenenc) { value = bytes bs }, rest)
  unfolding read_lenenc
  read_marked m k hk hn hs =
      let n : ℕ = length bs in
      let e : suc k - 1 ≡ k = omega arith in
      rw hs (
        read_span-string (m ∷ le_bytes k n) bs rest 1 (suc k) (ap suc (length-le_bytes k n))
          (rw e (unpack_q-span k n (bs ++ rest) hk hn)))

  read_short :
      length bs < 0xfb
      → read_lenenc (datum string_type lenenc) (length bs ∷ (bs ++ rest))
        ≡ ok (record (datum string_type lenenc) { value = bytes bs }, rest)
  unfolding read_lenenc lenenc_span
  read_short h =
      rw (le→leb (length bs) 0xfa (omega arith))
        (read_span-string (length bs ∷ []) bs rest 0 1 refl (unpack_q-one (length bs)))

  Reads-lenenc_at :
      length bs < 2 ^ 24
      → read_lenenc (datum string_type lenenc) (protocol_int (length bs) ++ (bs ++ rest))
        ≡ ok (record (datum string_type lenenc) { value = bytes bs }, rest)
  unfolding protocol_int lenenc_span
  Reads-lenenc_at h = ground (arith, read_short, read_marked 0xfc 2, read_marked 0xfd 3)

-- The protocol's length before the bytes.
pub Reads-lenenc :
    (bs : Bytes)
    → length bs < 2 ^ 24
    → Reads (datum string_type lenenc) (protocol_int (length bs) ++ bs) (bytes bs)
unfolding set_from_buff
Reads-lenenc bs h rest =
    rw (append_assoc (protocol_int (length bs)) bs rest) (Reads-lenenc_at bs rest h)
