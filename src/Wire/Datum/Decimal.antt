-- ===== src/Wire/Datum/Decimal.antt =====
-- `str` of a number: different numbers have different texts.
use mindsdb_database_ai.Prelude.{
  ℕ, zero, suc, ◌+◌, ◌-◌, ◌*◌, ◌/◌, ◌%◌, ◌<◌, ◌≡◌, refl, sym, ap, ◌∙◌, arith, [], ◌∷◌, ◌++◌, ltb,
  Bool-cases, inl, inr,
}
use mindsdb_database_ai.Prelude.Text.{Str}
use mindsdb_database_ai.Wire.Datum.{decimal, decimal_from}

-- The number that digits stand for, behind a number of higher digits.
number_of : ℕ → Str → ℕ
number_of high [] = high
number_of high (c ∷ s) = number_of (high * 10 + (c - b'0')) s

number_of-snoc :
    (high : ℕ) (s : Str) (c : ℕ) → number_of high (s ++ c ∷ []) ≡ number_of high s * 10 + (c - b'0')
unfolding number_of
number_of-snoc high [] c = refl
number_of-snoc high (d ∷ s) c = number_of-snoc (high * 10 + (d - b'0')) s c

number_of-digit : (c : ℕ) → number_of 0 (c ∷ []) ≡ c - b'0'
unfolding number_of
number_of-digit c = omega arith

number_of-decimal_from : (f n : ℕ) → n < f → number_of 0 (decimal_from f n) ≡ n
unfolding decimal_from
number_of-decimal_from zero n h = absurd (omega arith)
number_of-decimal_from (suc f) n h = elim (Bool-cases (ltb n 10)) [
  | inl e ↦ rw (decimal_from, e) (omega (arith, number_of-digit (b'0' + n)))
  | inr e ↦
      let less : n / 10 < f = ground arith in
      rw (decimal_from, e)
        (omega (
          arith,
          number_of-snoc 0 (decimal_from f (n / 10)) (b'0' + n % 10),
          number_of-decimal_from f (n / 10) less,
        ))
]

pub decimal-injective : (m n : ℕ) → decimal m ≡ decimal n → m ≡ n
unfolding decimal
decimal-injective m n h =
    sym (number_of-decimal_from (suc m) m (omega arith))
    ∙ ap (number_of 0) h
    ∙ number_of-decimal_from (suc n) n (omega arith)
