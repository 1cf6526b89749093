-- ===== src/Query/Join/Renamed.antt =====
-- The short names of a join's columns, there and back.
use mindsdb_database_ai.Prelude.{
  ℕ, ◌+◌, ◌<◌, ◌≡◌, ◌≢◌, refl, sym, ◌∙◌, arith, none, some, List, [], ◌∷◌, ◌++◌, append_assoc,
  length, length-append, inl, inr,
}
use mindsdb_database_ai.Prelude.Text.{Str}
use mindsdb_database_ai.Prelude.Key.{≐_ne, ≐_refl, Key-cases, str_key, option_key, pair_key}
use mindsdb_database_ai.Prelude.Assoc.{Assoc, get, put, get-put_self, get-put_ne}
use mindsdb_database_ai.Wire.Datum.Decimal.{decimal-injective}
use mindsdb_database_ai.Query.{ColumnName}
use mindsdb_database_ai.Query.Join.{short_name, columns_map, columns_map_reverse}

tail-eq {ℓ} : {A : Type ℓ} {x y : A} {xs ys : List A} → x ∷ xs ≡ y ∷ ys → xs ≡ ys
tail-eq e = cc e

short_name-injective : (letter i j : ℕ) → short_name letter i ≡ short_name letter j → i ≡ j
short_name-injective letter i j e = decimal-injective i j (tail-eq e)

module _ (letter : ℕ) where
  get-columns_map_later :
      (i j : ℕ) (columns : List ColumnName)
      → i < j
      → get (short_name letter i) (columns_map letter j columns) ≡ none
  unfolding get columns_map
  get-columns_map_later i j [] h = refl
  get-columns_map_later i j (c ∷ columns) h =
      let differ : short_name letter j ≢ short_name letter i =
        λ e. let same = short_name-injective letter j i e in absurd (omega arith) in
      rw (≐_ne (short_name letter j) (short_name letter i) differ)
        (get-columns_map_later i (j + 1) columns (omega arith))

  -- The name of a column behind `before` leads back to it.
  get-columns_map :
      (before : List ColumnName) (i n : ℕ) (c : ColumnName) (after : List ColumnName)
      → n ≡ i + length before
      → get (short_name letter n) (columns_map letter i (before ++ c ∷ after)) ≡ some c
  unfolding get columns_map
  get-columns_map [] i n c after h =
      let e : n ≡ i = omega arith in rw (e, ≐_refl (short_name letter i)) refl
  get-columns_map (b ∷ before) i n c after h =
      let differ : short_name letter i ≢ short_name letter n =
        λ e. let same = short_name-injective letter i n e in absurd (omega arith) in
      rw (≐_ne (short_name letter i) (short_name letter n) differ)
        (get-columns_map before (i + 1) n c after (omega arith))

  -- Every short name that a column has leads back to it.
  abbrev pub LeadsBack : Assoc Str ColumnName → Assoc ColumnName Str → Type 0
  LeadsBack there back =
      (c : ColumnName) (name : Str)
      → get c back ≡ some name
      → (get name there ≡ some c) × ((i : ℕ) × (name ≡ short_name letter i))

  LeadsBack-reverse :
      (all before columns : List ColumnName) (back : Assoc ColumnName Str)
      → all ≡ before ++ columns
      → LeadsBack (columns_map letter 0 all) back
      → LeadsBack
          (columns_map letter 0 all)
          (columns_map_reverse letter (length before) columns back)
  unfolding columns_map_reverse
  LeadsBack-reverse all before [] back e h = h
  LeadsBack-reverse all before (c ∷ columns) back e h =
      let name : Str = short_name letter (length before) in
      let here : get name (columns_map letter 0 all) ≡ some c =
        rw e (get-columns_map before 0 (length before) c columns (omega arith)) in
      let h' : LeadsBack (columns_map letter 0 all) (put c name back) = λ d short there.
        elim (Key-cases c d) [
          | inl same ↦
              let f : name ≡ short = cc (rw same at there, get-put_self d name back) in
              (rw (← f, ← same) here, (length before, sym f))
          | inr other ↦ h d short (sym (get-put_ne d c name back other) ∙ there)
        ] in
      let len : length (before ++ c ∷ []) ≡ length before + 1 =
        omega (arith, length-append before (c ∷ [])) in
      rw len at (
        LeadsBack-reverse all (before ++ c ∷ []) columns (put c name back)
          (e ∙ sym (append_assoc before (c ∷ []) columns)) h')

  pub reverse-LeadsBack :
      (columns : List ColumnName)
      → LeadsBack (columns_map letter 0 columns) (columns_map_reverse letter 0 columns [])
  unfolding get
  reverse-LeadsBack columns =
      LeadsBack-reverse columns [] columns [] refl
        (λ c name h. let g : none ≡ some name = h in cc g)
