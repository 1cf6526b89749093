-- ===== src/Mongo/Insert/Outcomes.antt =====
-- What an insert leaves of the world, whatever the documents.
use mindsdb_database_ai.Prelude.{
  ℕ, ◌≡◌, ◌≢◌, refl, arith, Bool, true, false, Bool-cases, ◌⊎◌, inl, inr, none, some, Option, List,
  [], ◌∷◌, length, All, Exn, Result, ok, raise,
}
use mindsdb_database_ai.Prelude.Text.{Str}
use mindsdb_database_ai.Prelude.StrEq.{eqb, eqb_iff}
use mindsdb_database_ai.Mongo.Predictors.{predictors}
use mindsdb_database_ai.Mongo.Insert.Checks.{Valid, check_doc-Valid, Valid-check_doc}
use mindsdb_database_ai.Mongo.Insert.{
  InsertDoc, Backend, Checked, check_doc, predict_names, is_in, all_columns, without_id,
  answered_insert, column_missing, with_columns, with_predict, with_datasource, with_name,
  insert_checked, insert_result, insert,
}

-- A text that is the name of a column.
abbrev pub IsColumn : List Str → Option Str → Type 0
IsColumn columns none = ⊥
IsColumn columns (some col) = is_in col columns ≡ true

all_columns-All :
    (predict : List (Option Str)) (columns : List Str)
    → all_columns predict columns ≡ true
    → All (IsColumn columns) predict
all_columns-All [] columns h = tt
all_columns-All (none ∷ predict) columns h = cc
all_columns-All (some col ∷ predict) columns h = elim (Bool-cases (is_in col columns)) [
  | inl e ↦ (e, all_columns-All predict columns (rw e at h))
  | inr e ↦ absurd (contrary (rw e at h))
]
  where
    contrary : false ≡ true → ⊥
    contrary e = cc

All-all_columns :
    (predict : List (Option Str)) (columns : List Str)
    → All (IsColumn columns) predict
    → all_columns predict columns ≡ true
All-all_columns [] columns h = refl
All-all_columns (none ∷ predict) columns h = absurd h.0
All-all_columns (some col ∷ predict) columns h = rw h.0 (All-all_columns predict columns h.1)

eqb-ne : (s t : Str) → eqb s t ≡ false → s ≢ t
eqb-ne s t e h = contrary ((eqb_iff s t).1 h) e
  where
    contrary : {b : Bool} → b ≡ true → b ≡ false → ⊥
    contrary k l = cc

module _ {V W : Type 0} (backend : Backend V W) where
  -- What the checks ask of the document, without its '_id'.
  abbrev pub IsValid : W → InsertDoc V → Checked V → Type 0
  IsValid w doc c = Valid (backend.models w) (backend.integrations w) (without_id doc) c

  module _ (table : Str) (documents : List (InsertDoc V)) (w : W) where
    -- The only document, for the table 'predictors', passes the checks.
    pub record Passed (c : Checked V) : Type 0 where
      pub doc : InsertDoc V
      pub is_table : table ≡ predictors
      pub is_only : documents ≡ doc ∷ []
      pub valid : IsValid w doc c

    -- It was saved under a vacant name as a data source, which gave the world `w'`.
    pub record Saved (w' : W) (c : Checked V) (ds_name : Str) : Type 0 where
      pub passed : Passed c
      pub vacant : backend.get_vacant_name c.name w ≡ ok ds_name
      pub saved : backend.save_datasource ds_name c.connection c.select_data_query w ≡ (w', none)

  -- The values to predict and the columns of the data source were read.
  pub record Columns (c : Checked V) (ds_name : Str) (w' : W) (predict : List (Option Str))
      (columns : List Str) : Type 0 where
    pub named : predict_names backend c.predict ≡ ok predict
    pub read : backend.datasource_columns ds_name w' ≡ ok columns

  -- The ends of an insert: the world behind, the number of predictors, whether there is an error.
  pub data Outcome (table : Str) (documents : List (InsertDoc V)) (w : W)
      : W × ℕ × Bool → Type 0 where
    wrong_table : table ≢ predictors → Outcome table documents w (w, 0, true)
    not_one : table ≡ predictors → length documents ≢ 1 → Outcome table documents w (w, 0, true)
    invalid :
        (doc : InsertDoc V)
        → table ≡ predictors
        → documents ≡ doc ∷ []
        → ((c : Checked V) → ¬ IsValid w doc c)
        → Outcome table documents w (w, 0, true)
    occupied :
        {c : Checked V} {e : Exn}
        → Passed table documents w c
        → backend.get_vacant_name c.name w ≡ raise e
        → Outcome table documents w (w, 0, true)
    unsaved :
        {w' : W} {c : Checked V} {ds_name : Str} {e : Exn}
        → Passed table documents w c
        → backend.get_vacant_name c.name w ≡ ok ds_name
        → backend.save_datasource ds_name c.connection c.select_data_query w ≡ (w', some e)
        → Outcome table documents w (w', 0, true)
    unread :
        {w' : W} {e : Exn} {c : Checked V} {ds_name : Str}
        → Saved table documents w w' c ds_name
        → (predict_names backend c.predict ≡ raise e)
          ⊎ (backend.datasource_columns ds_name w' ≡ raise e)
        → Outcome table documents w (w', 0, true)
    missing :
        {w' : W} {c : Checked V} {ds_name : Str} {predict : List (Option Str)} {columns : List Str}
        → Saved table documents w w' c ds_name
        → Columns c ds_name w' predict columns
        → ¬ All (IsColumn columns) predict
        → Outcome table documents w ((backend.delete_datasource ds_name w').0, 0, true)
    unlearned :
        {w' w'' : W} {e : Exn} {c : Checked V} {ds_name : Str} {predict : List (Option Str)}
        {columns : List Str}
        → Saved table documents w w' c ds_name
        → Columns c ds_name w' predict columns
        → All (IsColumn columns) predict
        → backend.learn c.name ds_name predict c.doc w' ≡ (w'', some e)
        → Outcome table documents w (w'', 0, true)
    learned :
        {w' w'' : W} {c : Checked V} {ds_name : Str} {predict : List (Option Str)}
        {columns : List Str}
        → Saved table documents w w' c ds_name
        → Columns c ds_name w' predict columns
        → All (IsColumn columns) predict
        → backend.learn c.name ds_name predict c.doc w' ≡ (w'', none)
        → Outcome table documents w (w'', 1, false)

  module _ (table : Str) (doc : InsertDoc V) (w : W) (is_table : table ≡ predictors) where
    Ends : W × Option Exn → Type 0
    Ends r = Outcome table (doc ∷ []) w (answered_insert backend (doc ∷ []) r)

    module _ (w' : W) (c : Checked V) (ds_name : Str)
        (saved : Saved table (doc ∷ []) w w' c ds_name) where
      ends_learn :
          (predict : List (Option Str)) (columns : List Str)
          → Columns c ds_name w' predict columns
          → All (IsColumn columns) predict
          → (r : W × Option Exn) → backend.learn c.name ds_name predict c.doc w' ≡ r
          → Ends r
      unfolding Ends
      ends_learn predict columns there all (w'', none) e = learned saved there all e
      ends_learn predict columns there all (w'', some x) e = unlearned saved there all e

      answered-column_missing :
          (r : W × Option Exn)
          → answered_insert backend (doc ∷ []) (column_missing backend r) ≡ (r.0, 0, true)
      answered-column_missing (v, none) = refl
      answered-column_missing (v, some e) = refl

      ends_columns :
          (predict : List (Option Str))
          → predict_names backend c.predict ≡ ok predict
          → (r : Result (List Str)) → backend.datasource_columns ds_name w' ≡ r
          → Ends (with_columns backend c ds_name predict w' r)
      unfolding Ends
      ends_columns predict named (raise e) read = unread saved (inr read)
      ends_columns predict named (ok columns) read =
          let there : Columns c ds_name w' predict columns = record {
            named = named;
            read = read;
          } in
          elim (Bool-cases (all_columns predict columns)) [
            | inl e ↦
                let all = all_columns-All predict columns e in
                rw e (ends_learn predict columns there all _ refl)
            | inr e ↦
                let gone = answered-column_missing (backend.delete_datasource ds_name w') in
                rw (e, gone)
                  (missing saved there (λ all. not_both (All-all_columns predict columns all) e))
          ]
        where
          not_both : {b : Bool} → b ≡ true → b ≡ false → ⊥
          not_both h k = cc

      ends_predict :
          (r : Result (List (Option Str)))
          → predict_names backend c.predict ≡ r
          → Ends (with_predict backend c ds_name w' r)
      unfolding Ends
      ends_predict (raise e) named = unread saved (inl named)
      ends_predict (ok predict) named = ends_columns predict named _ refl

    ends_name :
        (c : Checked V)
        → Passed table (doc ∷ []) w c
        → (r : Result Str) → backend.get_vacant_name c.name w ≡ r
        → Ends (with_name backend c w r)
    unfolding Ends
    ends_name c passed (raise e) vacant = occupied passed vacant
    ends_name c passed (ok ds_name) vacant =
        saving (backend.save_datasource ds_name c.connection c.select_data_query w) refl
      where
        saving :
            (r : W × Option Exn)
            → backend.save_datasource ds_name c.connection c.select_data_query w ≡ r
            → Ends (with_datasource backend c ds_name r)
        saving (w', some e) s = unsaved passed vacant s
        saving (w', none) s =
            ends_predict w' c ds_name (record { passed = passed; vacant = vacant; saved = s }) _
              refl

    ends_checked :
        (r : Result (Checked V))
        → check_doc (backend.models w) (backend.integrations w) (without_id doc) ≡ r
        → Ends (insert_checked backend w r)
    unfolding Ends
    ends_checked (raise e) checked = invalid doc is_table refl (λ c valid.
        not_both
          (Valid-check_doc (backend.models w) (backend.integrations w) (without_id doc) c valid)
          checked)
      where
        not_both : {r : Result (Checked V)} {c : Checked V} → r ≡ ok c → r ≡ raise e → ⊥
        not_both h k = cc
    ends_checked (ok c) checked =
        let passed : Passed table (doc ∷ []) w c = record {
          doc = doc;
          is_table = is_table;
          is_only = refl;
          valid =
              check_doc-Valid (backend.models w) (backend.integrations w) (without_id doc) checked;
        } in
        ends_name c passed _ refl

  -- An insert ends in one of nine ways, the first with an error and the world as it was: another
  -- table than 'predictors'; not one document; a document that the checks forbid, which is so
  -- exactly where it has a key that is not allowed, no name, nothing to predict, the name of a model,
  -- no query, or no connection while there is no default one ('default_mongodb', or else the first
  -- integration whose name starts with 'mongodb_'); a name for which no vacant one is
  -- found. Then, with an error and the world that was left there: saving the data source failed; it
  -- was saved, but its columns or what to predict could not be read; or something to predict is no
  -- column of it, and then the world is what deleting that data source leaves; or the start of
  -- learning failed. Else all of these were passed, learning began, and one predictor is counted.
  pub insert-Outcome :
      (table : Str) (documents : List (InsertDoc V)) (w : W)
      → Outcome table documents w (insert backend table documents w)
  unfolding insert insert_result Ends
  insert-Outcome table [] w = elim (Bool-cases (eqb table predictors)) [
    | inl e ↦ rw e (not_one ((eqb_iff table predictors).0 e) (omega arith))
    | inr e ↦ rw e (wrong_table (eqb-ne table predictors e))
  ]
  insert-Outcome table (doc ∷ []) w = elim (Bool-cases (eqb table predictors)) [
    | inl e ↦ rw e (ends_checked table doc w ((eqb_iff table predictors).0 e) _ refl)
    | inr e ↦ rw e (wrong_table (eqb-ne table predictors e))
  ]
  insert-Outcome table (doc ∷ more ∷ documents) w = elim (Bool-cases (eqb table predictors)) [
    | inl e ↦ rw e (not_one ((eqb_iff table predictors).0 e) (omega arith))
    | inr e ↦ rw e (wrong_table (eqb-ne table predictors e))
  ]
