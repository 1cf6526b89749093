-- ===== src/Config.antt =====
-- Merging of configurations: mindsdb/utilities/config.py. A configuration is what json reads.
pub mod Merge
mod Tests
use mindsdb_database_ai.Prelude.{
  Bool, true, false, Option, none, some, List, [], ◌∷◌, if◌then◌else◌,
}
use mindsdb_database_ai.Prelude.Text.{Str}
use mindsdb_database_ai.Prelude.StrEq.{eqb}

-- A value is a dict or, by its JSON text, anything else.
mutual
  pub data Json : Type 0 where
    other : Str → Json
    dict : Fields → Json

  pub data Fields : Type 0 where
    end : Fields
    field : (key : Str) → Json → Fields → Fields

-- `d[key]`, and `key in d`
unfoldable pub get : Str → Fields → Option Json
get key end = none
get key (field k v d) = if eqb k key then some v else get key d

-- `d[key] = v`
unfoldable pub set : Str → Json → Fields → Fields
set key v end = field key v end
set key v (field k w d) = if eqb k key then field k v d else field k w (set key v d)

-- What a key of the target holds in the end, where `merge` is the merge of two dicts.
unfoldable mutual
  -- `_merge_key_recursive` for the value of the source.
  pub merged : Option Json → Json → Json
  merged none v = v
  merged (some w) (other a) = other a
  merged (some (other b)) (dict s) = dict s
  merged (some (dict t)) (dict s) = dict (merge_fields t s)

  -- The loop over the keys of a dict of the source.
  pub merge_fields : (target source : Fields) → Fields
  merge_fields t end = t
  merge_fields t (field k v s) = merge_fields (set k (merged (get k t) v) t) s

unfoldable pub merge_configs : (original override : Fields) → Fields
merge_configs original override = merge_fields original override
