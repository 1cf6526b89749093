-- ===== src/Config/Tests.antt =====
-- Configurations at concrete inputs.
use mindsdb_database_ai.Prelude.{◌≡◌, refl, some, List, [], ◌∷◌}
use mindsdb_database_ai.Prelude.Text.{Str}
use mindsdb_database_ai.Prelude.StrEq.{eqb}
use mindsdb_database_ai.Config.{other, dict, Fields, end, field, get, merge_configs}
use mindsdb_database_ai.Config.Merge.{IsDict, at, IsAbsent, merge_configs-at}

-- {"a": {"p": 1, "q": 2}} and {"a": {"q": 3}, "b": 4}.
abbrev original : Fields
original =
    field (b'a' ∷ [])
      (dict (field (b'p' ∷ []) (other (b'1' ∷ [])) (field (b'q' ∷ []) (other (b'2' ∷ [])) end))) end

abbrev override : Fields
override =
    field (b'a' ∷ []) (dict (field (b'q' ∷ []) (other (b'3' ∷ [])) end))
      (field (b'b' ∷ []) (other (b'4' ∷ [])) end)

override-IsDict : IsDict override
unfolding IsDict get eqb
override-IsDict = ((tt, refl, tt), refl, (tt, refl, tt))

merge_configs-at_example :
    ((path : List Str) (a : Str)
      → at path (some (dict override)) ≡ some (other a)
      → at path (some (dict (merge_configs original override))) ≡ some (other a))
    × ((path : List Str)
        → IsAbsent path (some (dict override))
        → at path (some (dict (merge_configs original override))) ≡ at path (some (dict original)))
merge_configs-at_example = merge_configs-at original override override-IsDict
