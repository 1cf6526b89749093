-- ===== src/Prelude/Int.antt =====
-- Signed integers over the native numbers.
use mindsdb_database_ai.Prelude.{ℕ, ◌+◌, ◌-◌, ◌^◌, Bool, true, ltb, if◌then◌else◌}

-- `negsuc n` is -(n + 1).
pub data ℤ : Type 0 where
  pos : ℕ → ℤ
  negsuc : ℕ → ℤ

-- The numbers that an 8-bit and a 32-bit pattern stand for.
abbrev pub signed8 : ℕ → ℤ
signed8 w = if ltb w 128 then pos w else negsuc (256 - w - 1)

abbrev pub signed32 : ℕ → ℤ
signed32 w = if ltb w (2 ^ 31) then pos w else negsuc (2 ^ 32 - w - 1)

-- `m - (n + 1)`
abbrev minus : ℕ → ℕ → ℤ
minus m n = if ltb n m then pos (m - n - 1) else negsuc (n - m)

infixl 60 ◌+ℤ◌
abbrev pub ◌+ℤ◌ : ℤ → ℤ → ℤ
pos m +ℤ pos n = pos (m + n)
pos m +ℤ negsuc n = minus m n
negsuc m +ℤ pos n = minus n m
negsuc m +ℤ negsuc n = negsuc (m + n + 1)

-- `z < n`
abbrev pub below : ℤ → ℕ → Bool
below (pos m) n = ltb m n
below (negsuc m) n = true
