-- ===== src/Prelude/Bytes.antt =====
-- Byte strings as lists of numbers, and `struct`'s little-endian integers.
use mindsdb_database_ai.Prelude.{
  ℕ, zero, suc, ◌+◌, ◌-◌, ◌*◌, ◌/◌, ◌%◌, ◌^◌, ◌≤◌, ◌<◌, ◌≡◌, refl, ap, arith, List, [], ◌∷◌, ◌++◌,
  length, take, replicate, All, Result, ok, raise, struct_error, ltb, ◌==◌, if◌then◌else◌,
}

abbrev pub Bytes : Type 0
Bytes = List ℕ

abbrev pub IsByte : ℕ → Type 0
IsByte b = b < 256

-- The `k` low bytes of `n`, lowest first.
unfoldable pub le_bytes : ℕ → ℕ → Bytes
le_bytes zero n = []
le_bytes (suc k) n = n % 256 ∷ le_bytes k (n / 256)

-- The number that little-endian bytes stand for.
unfoldable pub le_val : Bytes → ℕ
le_val [] = 0
le_val (b ∷ bs) = b + 256 * le_val bs

-- `struct.pack('Q', n)`; 'i' on a number that is not negative; 'B' and 'H'.
unfoldable pub pack_q : ℕ → Result Bytes
pack_q n = if ltb n (2 ^ 64) then ok (le_bytes 8 n) else raise struct_error

unfoldable pub pack_i : ℕ → Result Bytes
pack_i n = if ltb n (2 ^ 31) then ok (le_bytes 4 n) else raise struct_error

unfoldable pub pack_b : ℕ → Result Bytes
pack_b n = if ltb n 256 then ok (n ∷ []) else raise struct_error

-- `struct.pack('<n>s', bs)`: cut to `n` bytes, or filled up with zeros.
abbrev pub pack_s : ℕ → Bytes → Bytes
pack_s n bs = take n bs ++ replicate (n - length bs) 0

-- `struct.unpack('Q', bs)`: the buffer must have exactly eight bytes; 'i' and 'I' four.
unfoldable pub unpack_q : Bytes → Result ℕ
unpack_q bs = if length bs == 8 then ok (le_val bs) else raise struct_error

unfoldable pub unpack_u32 : Bytes → Result ℕ
unpack_u32 bs = if length bs == 4 then ok (le_val bs) else raise struct_error

pub length-le_bytes : (k n : ℕ) → length (le_bytes k n) ≡ k
unfolding le_bytes
length-le_bytes zero n = refl
length-le_bytes (suc k) n = ap suc (length-le_bytes k (n / 256))

pub le_bytes-IsByte : (k n : ℕ) → All IsByte (le_bytes k n)
unfolding le_bytes
le_bytes-IsByte zero n = tt
le_bytes-IsByte (suc k) n = (omega arith, le_bytes-IsByte k (n / 256))

pub le_val-le_bytes : (k n : ℕ) → n < 256 ^ k → le_val (le_bytes k n) ≡ n
unfolding le_bytes le_val
le_val-le_bytes zero n h = omega arith
le_val-le_bytes (suc k) n h = omega (arith, le_val-le_bytes k (n / 256) (omega arith))

pub le_val-zeros : (bs : Bytes) (n : ℕ) → le_val (bs ++ replicate n 0) ≡ le_val bs
unfolding le_val
le_val-zeros [] zero = refl
le_val-zeros [] (suc n) = omega (arith, le_val-zeros [] n)
le_val-zeros (b ∷ bs) n = omega (arith, le_val-zeros bs n)

pub take-le_bytes : (j k n : ℕ) → j ≤ k → take j (le_bytes k n) ≡ le_bytes j n
unfolding le_bytes
take-le_bytes zero k n h = refl
take-le_bytes (suc j) zero n h = absurd (omega arith)
take-le_bytes (suc j) (suc k) n h =
    ap (λ r. n % 256 ∷ r) (take-le_bytes j k (n / 256) (omega arith))
