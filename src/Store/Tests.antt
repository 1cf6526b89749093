-- ===== src/Store/Tests.antt =====
-- get_vacant_name at concrete names.
use mindsdb_database_ai.Prelude.{some, [], ◌∷◌}
use mindsdb_database_ai.Prelude.Text.{Str}
use mindsdb_database_ai.Store.{get_vacant_name}
use mindsdb_database_ai.Store.Vacant.{Choice, get_vacant_name-Choice}

-- "a"
abbrev base : Str
base = b'a' ∷ []

get_vacant_name-Choice_example : Choice base (base ∷ []) (get_vacant_name (some base) (base ∷ []))
get_vacant_name-Choice_example = get_vacant_name-Choice base (base ∷ [])
