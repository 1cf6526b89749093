-- ===== src/Wire/Datum/Lenenc.antt =====
-- Length-encoded integers: `Datum.lenencInt` against the protocol's format.
use mindsdb_database_ai.Prelude.{
  ℕ, zero, suc, ◌/◌, ◌^◌, ◌≤◌, ◌<◌, ◌≡◌, ◌≢◌, ◌↔◌, arith, none, some, [], ◌∷◌, ◌++◌, ok, ltb, leb,
  ◌==◌, if◌then◌else◌, lt→ltb, Bool-cases, inl, inr, append-nil,
}
use mindsdb_database_ai.Prelude.Bytes.{Bytes, le_bytes, pack_i, pack_q, take-le_bytes}
use mindsdb_database_ai.Wire.Datum.{count_from, byte_count, lenenc_int, marked, cut}

pow_pos : (k : ℕ) → 0 < 256 ^ k
pow_pos zero = omega arith
pow_pos (suc k) = omega (arith, pow_pos k)

pub pow_mono : (j k : ℕ) → j ≤ k → 256 ^ j ≤ 256 ^ k
pow_mono zero k h = pow_pos k
pow_mono (suc j) zero h = absurd (omega arith)
pow_mono (suc j) (suc k) h = omega (arith, pow_mono j k (omega arith))

-- Enough rounds make the count the number of base-256 digits.
count_from-le : (f n k : ℕ) → n ≤ f → (count_from f n ≤ k) ↔ (n < 256 ^ k)
unfolding count_from
count_from-le zero n k h = (λ p. omega (arith, pow_pos k), λ p. omega arith)
count_from-le (suc f) n zero h = (λ p. ground arith, λ p. ground arith)
count_from-le (suc f) n (suc k) h = elim (Bool-cases (n == 0)) [
  | inl e ↦ (λ p. ground (arith, pow_pos (suc k)), λ p. ground arith)
  | inr e ↦
      let ih = count_from-le f (n / 256) k (ground arith) in
      (λ p. ground (arith, ih.0), λ p. ground (arith, ih.1))
]

pub byte_count-le : (n k : ℕ) → (byte_count n ≤ k) ↔ (n < 256 ^ k)
unfolding byte_count
byte_count-le n k = count_from-le n n k (omega arith)

pub leb-byte_count : (n k : ℕ) → leb (byte_count n) k ≡ ltb n (256 ^ k)
leb-byte_count n k = ground (arith, byte_count-le n k)

byte_count-==0 : (n : ℕ) → (byte_count n == 0) ≡ (n == 0)
byte_count-==0 n = ground (arith, byte_count-le n 0)

-- The protocol's length-encoded integer.
unfoldable pub protocol_int : ℕ → Bytes
protocol_int v =
    if ltb v 0xfb
    then v ∷ []
    else if ltb v (2 ^ 16)
    then 0xfc ∷ le_bytes 2 v
    else if ltb v (2 ^ 24)
    then 0xfd ∷ le_bytes 3 v
    else 0xfe ∷ le_bytes 8 v

-- The two shapes of a packed number, cut to the bytes that the format has for it.
pub marked-pack_i :
    (m k v : ℕ) (tail : Bytes)
    → v < 2 ^ 31
    → k ≤ 4
    → marked m k (pack_i v) tail ≡ ok (some (m ∷ le_bytes k v ++ tail))
unfolding pack_i
marked-pack_i m k v tail h hk = rw (lt→ltb v (2 ^ 31) h, take-le_bytes k 4 v hk)

pub marked-pack_q :
    (m v : ℕ) (tail : Bytes)
    → v < 2 ^ 64
    → marked m 8 (pack_q v) tail ≡ ok (some (m ∷ le_bytes 8 v ++ tail))
unfolding pack_q
marked-pack_q m v tail h = rw (lt→ltb v (2 ^ 64) h, take-le_bytes 8 8 v (omega arith))

cut-pack_i : (v : ℕ) → v < 256 → cut 1 (pack_i v) ≡ ok (some (v ∷ []))
unfolding pack_i le_bytes
cut-pack_i v h = ground arith

-- The code's answer, on every branch.
pub lenenc_int_lem :
    (v : ℕ)
    → lenenc_int v ≡ (
        if ltb v 0xfb
        then ok (some (v ∷ []))
        else if ltb v (2 ^ 16)
        then ok (some (0xfc ∷ le_bytes 2 v))
        else if ltb v (2 ^ 24)
        then ok (some (0xfd ∷ le_bytes 3 v))
        else if ltb v (2 ^ 64)
        then ok (some (0xfd ∷ le_bytes 8 v))
        else ok none)
unfolding lenenc_int
lenenc_int_lem v =
    rw (byte_count-==0, leb-byte_count, leb-byte_count, leb-byte_count)
      (ground (
        arith,
        cut-pack_i v,
        marked-pack_i 0xfc 2 v [],
        marked-pack_i 0xfd 3 v [],
        marked-pack_q 0xfd v [],
        append-nil (le_bytes 2 v),
        append-nil (le_bytes 3 v),
        append-nil (le_bytes 8 v),
      ))

-- Below 2 ^ 24 `lenencInt` writes the protocol's length-encoded integer.
pub lenenc_int-protocol_int : (v : ℕ) → v < 2 ^ 24 → lenenc_int v ≡ ok (some (protocol_int v))
unfolding protocol_int
lenenc_int-protocol_int v h = rw lenenc_int_lem (ground arith)

-- From 2 ^ 24 on, as long as a number fits 64 bits, `lenencInt` writes the marker of a
-- three-byte number before eight bytes, and not what the protocol prescribes.
pub lenenc_int-wide :
    (v : ℕ)
    → 2 ^ 24 ≤ v
    → v < 2 ^ 64
    → (lenenc_int v ≡ ok (some (0xfd ∷ le_bytes 8 v))) × (lenenc_int v ≢ ok (some (protocol_int v)))
unfolding protocol_int
lenenc_int-wide v lo hi = rw lenenc_int_lem (ground arith, ground arith)
