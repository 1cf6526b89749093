-- ===== src/Query/Prepare/Merged.antt =====
-- What the view of a row as one dict has under a name.
use mindsdb_database_ai.Prelude.{◌≡◌, refl, ap, ◌∙◌, Option, none, some, [], ◌∷◌, All, inl, inr}
use mindsdb_database_ai.Prelude.Key.{str_key, option_key, pair_key, ≐_refl, ≐_ne, Key-cases}
use mindsdb_database_ai.Prelude.Assoc.{get, put, update, get-put, IsDistinct}
use mindsdb_database_ai.Query.{TableName, ColumnName, Cells, Row}
use mindsdb_database_ai.Query.Prepare.{dict_row}

module _ {V : Type 0} where
  abbrev or_before : Option V → Option V → Option V
  or_before none second = second
  or_before (some v) second = some v

  -- The value in the last of the tables that have the name, or else the one given.
  abbrev pub last_value : ColumnName → Row V → Option V → Option V
  last_value name [] before = before
  last_value name ((table, cells) ∷ row) before =
      last_value name row (or_before (get name cells) before)

  abbrev pub HasDistinct : TableName × Cells V → Type 0
  HasDistinct t = IsDistinct (t.1)

  get-update :
      (name : ColumnName) (e m : Cells V)
      → IsDistinct e
      → get name (update m e) ≡ or_before (get name e) (get name m)
  unfolding get update
  get-update name [] m h = refl
  get-update name ((k, v) ∷ e) m (fresh, h) = elim (Key-cases k name) [
    | inl same ↦
        let absent : get name e ≡ none = rw same at fresh in
        rw (get-update name e (put k v m) h, get-put name k v m, same, ≐_refl name, absent) refl
    | inr different ↦
        rw (get-update name e (put k v m) h, get-put name k v m, ≐_ne k name different) refl
  ]

  -- When the tables of a row, which are dicts, are put into a dict one after the other, a name has the
  -- value of the last table that has it, or the one from before where none has it.
  pub get-dict_row :
      (name : ColumnName) (row : Row V) (data_row : Cells V)
      → All HasDistinct row
      → get name (dict_row row data_row) ≡ last_value name row (get name data_row)
  unfolding dict_row
  get-dict_row name [] data_row h = refl
  get-dict_row name ((table, cells) ∷ row) data_row h =
      get-dict_row name row (update data_row cells) h.1
      ∙ ap (last_value name row) (get-update name cells data_row h.0)
