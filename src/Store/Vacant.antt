-- ===== src/Store/Vacant.antt =====
-- Which name get_vacant_name gives.
use mindsdb_database_ai.Prelude.{
  ℕ, zero, suc, ◌+◌, ◌≤◌, ◌<◌, ◌≡◌, refl, arith, true, false, some, List, Result, ok, raise,
  exception, Bool-cases, ◌==◌, ==_iff, inl, inr,
}
use mindsdb_database_ai.Prelude.Text.{Str}
use mindsdb_database_ai.Store.{is_taken, candidate, first_vacant, get_vacant_name}

module _ (base : Str) (names : List Str) where
  -- Every candidate from `i` on and below `n` is taken.
  abbrev pub Taken : (i n : ℕ) → Type 0
  Taken i n = (j : ℕ) → i ≤ j → j < n → is_taken (candidate base j) names ≡ true

  -- What a search from `i` up to `n` may give.
  pub data Search (i n : ℕ) : Result Str → Type 0 where
    found :
        (j : ℕ)
        → i ≤ j
        → j < n
        → Taken i j
        → is_taken (candidate base j) names ≡ false
        → Search i n (ok (candidate base j))
    none_left :
        Taken i n → Search i n (raise (exception "Can not find appropriate name for datasource"))

  Taken-more : (i n : ℕ) → is_taken (candidate base i) names ≡ true → Taken (i + 1) n → Taken i n
  Taken-more i n e t j lo hi = elim (Bool-cases (i == j)) [
    | inl same ↦ rw (← (==_iff i j).0 same) e
    | inr other ↦ t j (ground arith) hi
  ]

  Search-more :
      (i n : ℕ) (r : Result Str)
      → is_taken (candidate base i) names ≡ true
      → Search (i + 1) n r
      → Search i n r
  Search-more i n _ e (found j lo hi t free) = found j (omega arith) hi (Taken-more i j e t) free
  Search-more i n _ e (none_left t) = none_left (Taken-more i n e t)

  first_vacant-Search :
      (rounds i n : ℕ) → i + rounds ≡ n → Search i n (first_vacant base names rounds i)
  unfolding first_vacant
  first_vacant-Search zero i n h = none_left (λ j lo hi. absurd (omega arith))
  first_vacant-Search (suc rounds) i n h = elim (Bool-cases (is_taken (candidate base i) names)) [
    | inl e ↦ rw e (
        Search-more i n (first_vacant base names rounds (i + 1)) e
          (first_vacant-Search rounds (i + 1) n (omega arith)))
    | inr e ↦ rw e (found i (omega arith) (omega arith) (λ j lo hi. absurd (omega arith)) e)
  ]

  -- The base where it is free, and else what the search from 1 up to 1000 gives.
  pub data Choice : Result Str → Type 0 where
    base_itself : is_taken base names ≡ false → Choice (ok base)
    numbered : (r : Result Str) → is_taken base names ≡ true → Search 1 1000 r → Choice r

  -- A data source gets the base for its name when that is free, and else the first free name among
  -- base_1 to base_999; an exception is raised only where all these names are taken.
  pub get_vacant_name-Choice : Choice (get_vacant_name (some base) names)
  unfolding get_vacant_name
  get_vacant_name-Choice = elim (Bool-cases (is_taken base names)) [
    | inl e ↦
        rw e (numbered (first_vacant base names 999 1) e (first_vacant-Search 999 1 1000 refl))
    | inr e ↦ rw e (base_itself e)
  ]
