-- ===== src/Prelude/Bits.antt =====
-- The bits of bytes, and numbers as lists of bits, lowest first.
use Prim.Native.Nat.{bit_and}
use native.Mathlib.Nat.{zero-add, pow-succ', mul_assoc}
use mathlib.Core.Path.{ap₂}
use mindsdb_database_ai.Prelude.{
  ℕ, zero, suc, ◌+◌, ◌*◌, ◌/◌, ◌%◌, ◌^◌, ◌<◌, ◌≤◌, ◌≡◌, refl, ap, ◌∙◌, arith, Bool, true, false,
  not, ◌&&◌, List, [], ◌∷◌, ◌++◌, length, replicate, ◌==◌, Bool-cases, inl, inr,
}

-- `((1 << i) & b) != 0`
abbrev pub bit : ℕ → ℕ → Bool
bit i b = not (bit_and (2 ^ i) b == 0)

-- The bits of `b` from the one at `i` on, `n` of them.
unfoldable pub bits_from : ℕ → ℕ → ℕ → List Bool
bits_from zero i b = []
bits_from (suc n) i b = bit i b ∷ bits_from n (i + 1) b

-- The same by halving.
unfoldable pub low_bits : ℕ → ℕ → List Bool
low_bits zero m = []
low_bits (suc n) m = (m % 2 == 1) ∷ low_bits n (m / 2)

abbrev digit : Bool → ℕ
digit true = 1
digit false = 0

-- The number whose bits are the list.
unfoldable pub mask : List Bool → ℕ
mask [] = 0
mask (b ∷ bs) = digit b + 2 * mask bs

agree : List Bool → List Bool → Bool
agree [] [] = true
agree (true ∷ xs) (true ∷ ys) = agree xs ys
agree (false ∷ xs) (false ∷ ys) = agree xs ys
agree _ _ = false

agree-eq : (xs ys : List Bool) → agree xs ys ≡ true → xs ≡ ys
unfolding agree
agree-eq [] [] h = refl
agree-eq [] (y ∷ ys) h = cc
agree-eq (true ∷ xs) [] h = cc
agree-eq (false ∷ xs) [] h = cc
agree-eq (true ∷ xs) (true ∷ ys) h = ap (λ r. true ∷ r) (agree-eq xs ys h)
agree-eq (true ∷ xs) (false ∷ ys) h = cc
agree-eq (false ∷ xs) (true ∷ ys) h = cc
agree-eq (false ∷ xs) (false ∷ ys) h = ap (λ r. false ∷ r) (agree-eq xs ys h)

all_below : ℕ → (ℕ → Bool) → Bool
all_below zero p = true
all_below (suc n) p = p n && all_below n p

all_below-lem : (n : ℕ) (p : ℕ → Bool) → all_below n p ≡ true → (b : ℕ) → b < n → p b ≡ true
unfolding all_below
all_below-lem zero p h b hb = absurd (omega arith)
all_below-lem (suc n) p h b hb = elim (Bool-cases (b == n)) [
  | inl same ↦ (let e : b ≡ n = ground arith in rw e (ground arith))
  | inr other ↦ all_below-lem n p (ground arith) b (ground arith)
]

abbrev same_bits : ℕ → Bool
same_bits b = agree (bits_from 8 0 b) (low_bits 8 b)

same_bits_all : all_below 256 same_bits ≡ true
unfolding all_below agree bits_from low_bits
same_bits_all = refl

-- The eight bits of a byte.
pub bits_from-low_bits : (b : ℕ) → b < 256 → bits_from 8 0 b ≡ low_bits 8 b
bits_from-low_bits b h = agree-eq _ _ (all_below-lem 256 same_bits same_bits_all b h)

same_digit :
    (a b : ℕ) (xs ys : List Bool) → a % 2 ≡ b % 2 → xs ≡ ys → (a % 2 == 1) ∷ xs ≡ (b % 2 == 1) ∷ ys
same_digit a b xs ys h e = rw (h, e)

-- The bits of a number are those of its lowest byte, then those of the rest.
pub low_bits-byte :
    (n m : ℕ)
    → low_bits (suc (suc (suc (suc (suc (suc (suc (suc n)))))))) m
      ≡ low_bits 8 (m % 256) ++ low_bits n (m / 256)
unfolding low_bits
low_bits-byte n m =
    let next = same_digit in
    next _ _ _ _ (omega arith) (
      next _ _ _ _ (omega arith) (
        next _ _ _ _ (omega arith) (
          next _ _ _ _ (omega arith) (
            next _ _ _ _ (omega arith) (
              next _ _ _ _ (omega arith) (
                next _ _ _ _ (omega arith)
                  (next _ _ _ _ (omega arith) (ap (low_bits n) (omega arith)))))))))

low_bits-zero : (k : ℕ) → low_bits k 0 ≡ replicate k false
unfolding low_bits
low_bits-zero zero = refl
low_bits-zero (suc k) = ap (λ r. false ∷ r) (low_bits-zero k)

digit-odd : (b : Bool) (m : ℕ) → ((digit b + 2 * m) % 2 == 1) ≡ b
digit-odd true m = ground arith
digit-odd false m = ground arith

digit-half : (b : Bool) (m : ℕ) → (digit b + 2 * m) / 2 ≡ m
digit-half true m = omega arith
digit-half false m = omega arith

-- The bits of a mask are the list, with zeros behind.
pub low_bits-mask :
    (bs : List Bool) (k : ℕ) → low_bits (length bs + k) (mask bs) ≡ bs ++ replicate k false
unfolding low_bits mask
low_bits-mask [] k = rw (zero-add k) (low_bits-zero k)
low_bits-mask (b ∷ bs) k =
    let h : suc (length bs) + k ≡ suc (length bs + k) = omega arith in
    rw (h, low_bits)
      (ap₂ (λ x r. x ∷ r) (digit-odd b (mask bs))
        (ap (low_bits (length bs + k)) (digit-half b (mask bs)) ∙ low_bits-mask bs k))

pub mask-append : (xs ys : List Bool) → mask (xs ++ ys) ≡ mask xs + 2 ^ length xs * mask ys
unfolding mask
mask-append [] ys = omega arith
mask-append (x ∷ xs) ys =
    rw (pow-succ' 2 (length xs), mul_assoc 2 (2 ^ length xs) (mask ys))
      (omega (arith, mask-append xs ys))

digit-le : (b : Bool) → digit b ≤ 1
digit-le true = omega arith
digit-le false = omega arith

pub mask-lt : (bs : List Bool) → mask bs < 2 ^ length bs
unfolding mask
mask-lt [] = omega arith
mask-lt (b ∷ bs) = omega (arith, digit-le b, mask-lt bs, pow-succ' 2 (length bs))
