-- ===== src/Prelude/StrEq.antt =====
-- Comparing texts and byte strings: equality, prefixes and `in`.
use mindsdb_database_ai.Prelude.{
  ◌≡◌, ◌↔◌, refl, arith, Bool, true, false, ◌&&◌, ◌||◌, [], ◌∷◌, ◌==◌,
}
use mindsdb_database_ai.Prelude.Text.{Str}

-- `s == t`
unfoldable pub eqb : Str → Str → Bool
eqb [] [] = true
eqb [] (c ∷ t) = false
eqb (c ∷ s) [] = false
eqb (c ∷ s) (d ∷ t) = (c == d) && eqb s t

pub eqb_iff : (s t : Str) → (eqb s t ≡ true) ↔ (s ≡ t)
unfolding eqb
eqb_iff [] [] = ((λ h. refl), λ h. refl)
eqb_iff [] (c ∷ t) = ((λ h. cc), λ h. cc)
eqb_iff (c ∷ s) [] = ((λ h. cc), λ h. cc)
eqb_iff (c ∷ s) (d ∷ t) = ground (arith, eqb_iff s t)

-- `p` begins `s`, and `p in s`.
unfoldable pub starts_with : Str → Str → Bool
starts_with [] s = true
starts_with (c ∷ p) [] = false
starts_with (c ∷ p) (d ∷ s) = (c == d) && starts_with p s

unfoldable pub is_in : Str → Str → Bool
is_in p [] = starts_with p []
is_in p (d ∷ s) = starts_with p (d ∷ s) || is_in p s
