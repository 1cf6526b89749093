-- ===== src/Store.antt =====
-- Names of data sources: get_vacant_name in mindsdb/interfaces/datastore/datastore.py. The names that
-- the database has are an argument.
pub mod Vacant
mod Tests
use mindsdb_database_ai.Prelude.{
  ℕ, zero, suc, Bool, true, false, Option, none, some, List, [], ◌∷◌, ◌++◌, ◌+◌, Result, ok, raise,
  exception, if◌then◌else◌,
}
use mindsdb_database_ai.Prelude.Text.{Str}
use mindsdb_database_ai.Prelude.StrEq.{eqb}
use mindsdb_database_ai.Wire.Datum.{decimal}

-- "datasource"
abbrev pub default_base : Str
default_base = b'd' ∷ b'a' ∷ b't' ∷ b'a' ∷ b's' ∷ b'o' ∷ b'u' ∷ b'r' ∷ b'c' ∷ b'e' ∷ []

-- `name in datasources_names`
unfoldable pub is_taken : Str → List Str → Bool
is_taken name [] = false
is_taken name (m ∷ names) = if eqb m name then true else is_taken name names

-- f'{base}_{i}'
abbrev pub candidate : Str → ℕ → Str
candidate base i = base ++ b'_' ∷ decimal i

-- The loop from `i` on, with the rounds that are left.
unfoldable pub first_vacant : Str → List Str → (rounds i : ℕ) → Result Str
first_vacant base names zero i = raise (exception "Can not find appropriate name for datasource")
first_vacant base names (suc rounds) i =
    if is_taken (candidate base i) names
    then first_vacant base names rounds (i + 1)
    else ok (candidate base i)

abbrev pub vacant_from : Str → List Str → Result Str
vacant_from base names = if is_taken base names then first_vacant base names 999 1 else ok base

unfoldable pub get_vacant_name : Option Str → List Str → Result Str
get_vacant_name none names = vacant_from default_base names
get_vacant_name (some base) names = vacant_from base names
