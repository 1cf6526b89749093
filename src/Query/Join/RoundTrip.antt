-- ===== src/Query/Join/RoundTrip.antt =====
-- A joined record gives back the two rows that it is made of.
use mindsdb_database_ai.Prelude.{
  ℕ, ◌≡◌, refl, sym, ap, ◌∙◌, true, false, none, some, List, [], ◌∷◌, ◌++◌, ok, >>=-eq-ok,
  append_assoc, append-nil, inl, inr,
}
use mindsdb_database_ai.Prelude.Text.{Str}
use mindsdb_database_ai.Prelude.StrEq.{starts_with}
use mindsdb_database_ai.Prelude.Key.{Key-cases, str_key, option_key, pair_key}
use mindsdb_database_ai.Prelude.Assoc.{
  Assoc, get, put, get-put_ne, put-fresh, get-there, get-head, IsDistinct,
}
use mindsdb_database_ai.Query.{ColumnName, Cells}
use mindsdb_database_ai.Query.Project.{or_key_error}
use mindsdb_database_ai.Query.Project.Copied.{or_key_error-ok}
use mindsdb_database_ai.Query.Join.{columns_map, columns_map_reverse, renamed, restore}
use mindsdb_database_ai.Query.Join.Renamed.{LeadsBack, reverse-LeadsBack}

module _ {V : Type 0} where
  -- The record has the cells in their order, under their short names.
  Renames : Assoc ColumnName Str → Cells V → Assoc Str V → Type 0
  Renames back [] [] = Unit
  Renames back ((c, v) ∷ cells) ((name, w) ∷ record_) =
      (get c back ≡ some name) × (w ≡ v) × Renames back cells record_
  Renames back _ _ = ⊥

  -- No short name of the cells is in the record so far.
  abbrev IsNew : Assoc ColumnName Str → Assoc Str V → Cells V → Type 0
  IsNew back record_ cells =
      (c : ColumnName) (v : V) (name : Str)
      → get c cells ≡ some v
      → get c back ≡ some name
      → get name record_ ≡ none

  IsNew-put :
      (letter : ℕ) (there : Assoc Str ColumnName) (back : Assoc ColumnName Str)
      (record_ : Assoc Str V) (c : ColumnName) (v : V) (name : Str) (cells : Cells V)
      → LeadsBack letter there back
      → get c cells ≡ none
      → get c back ≡ some name
      → IsNew back record_ ((c, v) ∷ cells)
      → IsNew back (put name v record_) cells
  IsNew-put letter there back record_ c v name cells leads absent named new d w short here there' =
      elim (Key-cases name short) [
        | inl same ↦
            let e : c ≡ d = cc ((leads c name named).0, (leads d short there').0, same) in
            let g : none ≡ some w = sym absent ∙ rw e here in cc g
        | inr other ↦
            get-put_ne short name v record_ other
            ∙ new d w short (get-there d c v cells absent here) there'
      ]

  renamed-Renames :
      (letter : ℕ) (there : Assoc Str ColumnName) (back : Assoc ColumnName Str) (cells : Cells V)
      (record_ : Assoc Str V) {r : Assoc Str V}
      → LeadsBack letter there back
      → IsDistinct cells
      → IsNew back record_ cells
      → renamed back cells record_ ≡ ok r
      → (added : Assoc Str V) × (r ≡ record_ ++ added) × Renames back cells added
  unfolding renamed Renames
  renamed-Renames letter there back [] record_ {r} leads distinct new h =
      let e : record_ ≡ r = cc h in ([], sym e ∙ sym (append-nil record_), tt)
  renamed-Renames letter there back ((c, v) ∷ cells) record_ {r} leads (absent, distinct) new h =
      let (name, e, h') = >>=-eq-ok (or_key_error (get c back)) h in
      let named : get c back ≡ some name = or_key_error-ok (get c back) e in
      let fresh : get name record_ ≡ none = new c v name (get-head c v cells) named in
      let (added, f, is) =
        renamed-Renames letter there back cells (put name v record_) leads distinct
          (IsNew-put letter there back record_ c v name cells leads absent named new) h' in
      (
        (name, v) ∷ added,
        f
            ∙ (ap (λ m. m ++ added) (put-fresh name v record_ fresh)
                ∙ append_assoc record_ ((name, v) ∷ []) added),
        (named, refl, is),
      )

  -- No column of the cells is among those before.
  abbrev IsOther : Cells V → Cells V → Type 0
  IsOther before cells = (c : ColumnName) (v : V) → get c cells ≡ some v → get c before ≡ none

  IsOther-put :
      (before : Cells V) (c : ColumnName) (v : V) (cells : Cells V)
      → get c cells ≡ none
      → IsOther before ((c, v) ∷ cells)
      → IsOther (put c v before) cells
  IsOther-put before c v cells absent other d w here = elim (Key-cases c d) [
    | inl same ↦ let g : none ≡ some w = sym absent ∙ rw same here in cc g
    | inr differ ↦ get-put_ne d c v before differ ∙ other d w (get-there d c v cells absent here)
  ]

  put-append :
      (c : ColumnName) (v : V) (before cells : Cells V)
      → get c before ≡ none
      → put c v before ++ cells ≡ before ++ (c, v) ∷ cells
  put-append c v before cells absent =
      ap (λ m. m ++ cells) (put-fresh c v before absent) ∙ append_assoc before ((c, v) ∷ []) cells

  module _ (left_map right_map : Assoc Str ColumnName) (back : Assoc ColumnName Str) where
    restore-left :
        (cells : Cells V) (record_ more : Assoc Str V) (left right : Cells V)
        → LeadsBack b'a' left_map back
        → Renames back cells record_
        → IsDistinct cells
        → IsOther left cells
        → restore left_map right_map (record_ ++ more) left right
          ≡ restore left_map right_map more (left ++ cells) right
    unfolding restore Renames starts_with
    restore-left [] [] more left right leads is distinct other = rw (append-nil left) refl
    restore-left ((c, v) ∷ cells) [] more left right leads is distinct other = absurd is
    restore-left [] (x ∷ record_) more left right leads is distinct other = absurd is
    restore-left ((c, v) ∷ cells) ((name, w) ∷ record_) more left right leads (named, e, is)
          (absent, distinct) other =
        let (found, (i, f)) = leads c name named in
        let starts : starts_with (b'a' ∷ []) name ≡ true = rw f refl in
        let rest =
          restore-left cells record_ more (put c v left) right leads is distinct
            (IsOther-put left c v cells absent other) in
        rw (starts, found, e)
          (rest
            ∙ ap (λ m. restore left_map right_map more m right)
                (put-append c v left cells (other c v (get-head c v cells))))

    restore-right :
        (cells : Cells V) (record_ more : Assoc Str V) (left right : Cells V)
        → LeadsBack b'b' right_map back
        → Renames back cells record_
        → IsDistinct cells
        → IsOther right cells
        → restore left_map right_map (record_ ++ more) left right
          ≡ restore left_map right_map more left (right ++ cells)
    unfolding restore Renames starts_with
    restore-right [] [] more left right leads is distinct other = rw (append-nil right) refl
    restore-right ((c, v) ∷ cells) [] more left right leads is distinct other = absurd is
    restore-right [] (x ∷ record_) more left right leads is distinct other = absurd is
    restore-right ((c, v) ∷ cells) ((name, w) ∷ record_) more left right leads (named, e, is)
          (absent, distinct) other =
        let (found, (i, f)) = leads c name named in
        let starts : starts_with (b'a' ∷ []) name ≡ false = rw f refl in
        let rest =
          restore-right cells record_ more left (put c v right) leads is distinct
            (IsOther-put right c v cells absent other) in
        rw (starts, found, e)
          (rest
            ∙ ap (λ m. restore left_map right_map more left m)
                (put-append c v right cells (other c v (get-head c v cells))))

  -- The rows of the two sides are given short names, 'a' with a number on the left and 'b' on the
  -- right; a record that has the values of both, as a full join makes it of two rows with one number,
  -- is taken apart into just the cells of the left row and those of the right one.
  pub restore-renamed :
      (left_columns right_columns : List ColumnName) (left right : Cells V) {l r : Assoc Str V}
      → IsDistinct left
      → IsDistinct right
      → renamed (columns_map_reverse b'a' 0 left_columns []) left [] ≡ ok l
      → renamed (columns_map_reverse b'b' 0 right_columns []) right [] ≡ ok r
      → restore (columns_map b'a' 0 left_columns) (columns_map b'b' 0 right_columns) (l ++ r) [] []
        ≡ ok (left, right)
  restore-renamed left_columns right_columns left right {l} {r} distinct distinct' hl hr =
      let left_map = columns_map b'a' 0 left_columns in
      let right_map = columns_map b'b' 0 right_columns in
      let back = columns_map_reverse b'a' 0 left_columns [] in
      let back' = columns_map_reverse b'b' 0 right_columns [] in
      let leads = reverse-LeadsBack b'a' left_columns in
      let leads' = reverse-LeadsBack b'b' right_columns in
      let (added, e, is) =
        renamed-Renames b'a' left_map back left [] leads distinct (λ c v n h k. unfold get in refl)
          hl in
      let (added', e', is') =
        renamed-Renames b'b' right_map back' right [] leads' distinct'
          (λ c v n h k. unfold get in refl) hr in
      rw (e, e')
        (restore-left left_map right_map back left added added' [] [] leads is distinct
            (λ c v h. unfold get in refl)
          ∙ (ap (λ m. restore left_map right_map m left []) (sym (append-nil added'))
              ∙ (restore-right left_map right_map back' right added' [] left [] leads' is' distinct'
                    (λ c v h. unfold get in refl)
                  ∙ unfold restore in refl)))
