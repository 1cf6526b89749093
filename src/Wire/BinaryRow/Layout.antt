-- ===== src/Wire/BinaryRow/Layout.antt =====
-- The null map and the values of a row, as the protocol lays them out.
use mathlib.Core.Path.{ap₂}
use native.Mathlib.Nat.{pow-le-pow_right}
use mindsdb_database_ai.Prelude.{
  ℕ, suc, ◌+◌, ◌-◌, ◌*◌, ◌/◌, ◌%◌, ◌^◌, ◌≤◌, ◌<◌, ◌≡◌, refl, sym, ap, ◌∙◌, arith, Bool, true, false,
  Option, none, some, List, [], ◌∷◌, ◌++◌, map, length, get_elem?-at, All, Result, ok, ltb,
  if◌then◌else◌, Bool-cases, inl, inr, lt→ltb, append_assoc, append-nil, length-append, All-append,
}
use mindsdb_database_ai.Prelude.Bits.{mask, mask-append, mask-lt}
use mindsdb_database_ai.Prelude.Bytes.{Bytes, IsByte, le_bytes, le_bytes-IsByte}
use mindsdb_database_ai.Wire.Datum.Written.{Writes-lenenc}
use mindsdb_database_ai.Wire.Bodies.Layout.{protocol_text, IsShort}
use mindsdb_database_ai.Wire.BinaryRow.{
  Cell, str_of, string_enc, enc_of, pack_or_skip, pack_columns, binary_row, Nulls, grow, mark,
  nulls_from, all_bytes, bytes_of, null_map,
}

abbrev pub is_none : Option Cell → Bool
is_none none = true
is_none (some x) = false

-- Bits in groups of eight.
abbrev joined : List (List Bool) → List Bool
joined [] = []
joined (g ∷ gs) = g ++ joined gs

abbrev IsOctet : List Bool → Type 0
IsOctet g = length g ≡ 8

abbrev masks : List (List Bool) → Bytes
masks gs = map mask gs

le_bytes-mask :
    (g bs : List Bool) (k : ℕ)
    → IsOctet g
    → le_bytes (suc k) (mask (g ++ bs)) ≡ mask g ∷ le_bytes k (mask bs)
unfolding le_bytes
le_bytes-mask g bs k h =
    let sum = rw h at (mask-append g bs) in
    let low = rw h at (mask-lt g) in
    ap₂ (λ b r. b ∷ r) (omega (arith, sum, low)) (ap (le_bytes k) (omega (arith, sum, low)))

-- Whole groups and a last one that is not empty are the bytes of the number with these bits.
pow_le : (n k : ℕ) → n ≤ k → 2 ^ n ≤ 2 ^ k
pow_le n k h = pow-le-pow_right (omega arith) h

masks-le_bytes :
    (gs : List (List Bool)) (r : List Bool)
    → All IsOctet gs
    → length r ≤ 8
    → masks gs ++ mask r ∷ [] ≡ le_bytes (suc (length gs)) (mask (joined gs ++ r))
masks-le_bytes [] r h hr =
    unfold le_bytes in ap (λ b. b ∷ []) (omega (arith, mask-lt r, pow_le (length r) 8 hr))
masks-le_bytes (g ∷ gs) r h hr =
    rw (append_assoc g (joined gs) r, le_bytes-mask g (joined gs ++ r) (suc (length gs)) h.0)
      (ap (λ bs. mask g ∷ bs) (masks-le_bytes gs r h.1 hr))

shift-lem :
    (i n last : ℕ)
    → (i + 2) % 8 ≡ n
    → (if ltb i 6 then last + 2 ^ ((i + 2) % 8) else last + 2 ^ ((i - 6) % 8)) ≡ last + 2 ^ n
shift-lem i n last h = elim (Bool-cases (ltb i 6)) [
  | inl low ↦ rw (low, h)
  | inr high ↦ (let e : (i - 6) % 8 ≡ n = ground arith in rw (high, e))
]

mask-snoc : (r : List Bool) → mask (r ++ true ∷ []) ≡ mask r + 2 ^ length r
mask-snoc r = unfold mask in omega (arith, mask-append r (true ∷ []))

mask-snoc_zero : (r : List Bool) → mask (r ++ false ∷ []) ≡ mask r
mask-snoc_zero r = unfold mask in omega (arith, mask-append r (false ∷ []))

-- One round of the loop, on the groups before and the bits of the last group.
module _ (gs : List (List Bool)) (r : List Bool) (i : ℕ) where
  grow-room :
      0 < length r
      → length r < 8
      → i + 2 ≡ 8 * length gs + length r
      → grow i (masks gs, mask r) ≡ (masks gs, mask r)
  unfolding grow
  grow-room p h e = ground arith

  grow-full :
      0 < i → i + 2 ≡ 8 * length gs + 8 → grow i (masks gs, mask r) ≡ (masks gs ++ mask r ∷ [], 0)
  unfolding grow
  grow-full p e = ground arith

  round_same :
      (el : Option Cell)
      → 0 < length r
      → length r < 8
      → i + 2 ≡ 8 * length gs + length r
      → mark i el (grow i (masks gs, mask r)) ≡ (masks gs, mask (r ++ is_none el ∷ []))
  unfolding mark
  round_same none p h e =
      rw (grow-room p h e, shift-lem i (length r) (mask r) (omega arith), mask-snoc r)
  round_same (some x) p h e = rw (grow-room p h e, mask-snoc_zero r)

  round_grown :
      (el : Option Cell)
      → i + 2 ≡ 8 * length gs + 8
      → 0 < i
      → mark i el (grow i (masks gs, mask r)) ≡ (masks gs ++ mask r ∷ [], mask (is_none el ∷ []))
  unfolding mark mask
  round_grown none e p = rw (grow-full p e, shift-lem i 0 0 (omega arith))
  round_grown (some x) e p = rw (grow-full p e)

masks-snoc :
    (gs : List (List Bool)) (r : List Bool) → masks (gs ++ r ∷ []) ≡ masks gs ++ mask r ∷ []
masks-snoc [] r = refl
masks-snoc (g ∷ gs) r = ap (λ bs. mask g ∷ bs) (masks-snoc gs r)

joined-snoc : (gs : List (List Bool)) (r : List Bool) → joined (gs ++ r ∷ []) ≡ joined gs ++ r
joined-snoc [] r = append-nil r
joined-snoc (g ∷ gs) r = ap (λ bs. g ++ bs) (joined-snoc gs r) ∙ sym (append_assoc g (joined gs) r)

abbrev whole : Nulls → Bytes
whole (front, last) = front ++ last ∷ []

nulls_from-lem :
    (els : List (Option Cell)) (gs : List (List Bool)) (r : List Bool) (i : ℕ)
    → All IsOctet gs
    → 0 < length r
    → length r ≤ 8
    → i + 2 ≡ 8 * length gs + length r
    → whole (nulls_from i els (masks gs, mask r))
      ≡ le_bytes ((i + length els + 9) / 8) (mask (joined gs ++ r ++ map is_none els))
unfolding nulls_from
nulls_from-lem [] gs r i h p hr e =
    let k : (i + 0 + 9) / 8 ≡ suc (length gs) = omega arith in
    rw (k, append-nil (joined gs ++ r)) (masks-le_bytes gs r h hr)
nulls_from-lem (el ∷ els) gs r i h p hr e = elim (Bool-cases (ltb (length r) 8)) [
  | inl room ↦
      let next =
        nulls_from-lem els gs (r ++ is_none el ∷ []) (i + 1) h
          (omega (arith, length-append r (is_none el ∷ [])))
          (ground (arith, length-append r (is_none el ∷ [])))
          (omega (arith, length-append r (is_none el ∷ []))) in
      let k : i + 1 + length els + 9 ≡ i + suc (length els) + 9 = omega arith in
      ap (λ st. whole (nulls_from (i + 1) els st)) (round_same gs r i el p (ground arith) e)
      ∙ rw
          (
            ← k,
            append_assoc (joined gs) r (is_none el ∷ map is_none els),
            ← append_assoc r (is_none el ∷ []) (map is_none els),
            ← append_assoc (joined gs) (r ++ is_none el ∷ []) (map is_none els),
          )
          next
  | inr full ↦
      let eight : length r ≡ 8 = ground arith in
      let next =
        nulls_from-lem els (gs ++ r ∷ []) (is_none el ∷ []) (i + 1)
          (All-append IsOctet gs (r ∷ []) h (eight, tt)) (omega arith) (omega arith)
          (omega (arith, length-append gs (r ∷ []))) in
      let k : i + 1 + length els + 9 ≡ i + suc (length els) + 9 = omega arith in
      let next' =
        rw
          (
            masks-snoc gs r,
            joined-snoc gs r,
            append_assoc (joined gs ++ r) (is_none el ∷ []) (map is_none els),
            k,
          )
          at next in
      ap (λ st. whole (nulls_from (i + 1) els st))
        (round_grown gs r i el (omega arith) (omega arith))
      ∙ next'
]

all_bytes-IsByte : (bs : Bytes) → All IsByte bs → all_bytes bs ≡ true
all_bytes-IsByte [] h = refl
all_bytes-IsByte (b ∷ bs) h = rw (lt→ltb b 256 h.0, all_bytes-IsByte bs h.1)

bytes_of-IsByte : (ns bs : Bytes) → ns ≡ bs → All IsByte bs → bytes_of ns ≡ ok bs
unfolding bytes_of
bytes_of-IsByte ns bs e h = rw (e, all_bytes-IsByte bs h)

-- The null map of a row is the protocol's: two bits of zero, then a bit for each value, which is set
-- where the value is None, in as many whole bytes as these bits need; no number in it is too large
-- for a byte.
pub null_map-mask :
    (cells : List (Option Cell))
    → null_map cells
      ≡ ok (le_bytes ((length cells + 9) / 8) (mask (false ∷ false ∷ map is_none cells)))
unfolding null_map mask
null_map-mask cells =
    let found =
      nulls_from-lem cells [] (false ∷ false ∷ []) 0 tt (omega arith) (omega arith) refl in
    let size : 0 + length cells + 9 ≡ length cells + 9 = omega arith in
    bytes_of-IsByte _ _ (unfold mask in rw size at found) (le_bytes-IsByte _ _)

abbrev IsShortCell : Option Cell → Type 0
IsShortCell none = Unit {0}
IsShortCell (some x) = IsShort (str_of x)

abbrev IsString : ℕ → Type 0
IsString col_type = enc_of col_type ≡ some string_enc

abbrev pub cell_bytes : Option Cell → Bytes
cell_bytes none = []
cell_bytes (some x) = protocol_text (str_of x)

pub values_bytes : List (Option Cell) → Bytes
values_bytes [] = []
values_bytes (x ∷ xs) = cell_bytes x ++ values_bytes xs

module _ (pack_float : Bool → Cell → Result Bytes) where
  pack_or_skip-string :
      (t : ℕ) (x : Option Cell)
      → IsString t
      → IsShortCell x
      → pack_or_skip pack_float t x ≡ ok (cell_bytes x)
  pack_or_skip-string t none ht h = refl
  pack_or_skip-string t (some x) ht h = rw (ht, Writes-lenenc (str_of x) h)

  pack_columns-string :
      (columns : List ℕ) (front cells : List (Option Cell)) (i : ℕ)
      → length front ≡ i
      → length columns ≡ length cells
      → All IsString columns
      → All IsShortCell cells
      → pack_columns pack_float i columns (front ++ cells) ≡ ok (values_bytes cells)
  unfolding pack_columns values_bytes
  pack_columns-string [] front [] i hi e ht h = refl
  pack_columns-string [] front (x ∷ cells) i hi e ht h = absurd (omega arith)
  pack_columns-string (t ∷ columns) front [] i hi e ht h = absurd (omega arith)
  pack_columns-string (t ∷ columns) front (x ∷ cells) i hi e ht h =
      let rest =
        pack_columns-string columns (front ++ x ∷ []) cells (i + 1)
          (omega (arith, length-append front (x ∷ []))) (omega arith) ht.1 h.1 in
      rw (
        get_elem?-at front i x cells hi,
        pack_or_skip-string t x ht.0 h.0,
        rw (append_assoc front (x ∷ []) cells) at rest,
      )

  -- A row whose columns all go as texts, one value for each column and each text of less than 2 ^ 24
  -- bytes: a zero, the null map, and the texts of the values that are not None behind their lengths.
  pub binary_row-string :
      (columns : List ℕ) (cells : List (Option Cell))
      → length columns ≡ length cells
      → All IsString columns
      → All IsShortCell cells
      → binary_row pack_float columns cells
        ≡ ok (
            0 ∷ le_bytes ((length cells + 9) / 8) (mask (false ∷ false ∷ map is_none cells))
            ++ values_bytes cells)
  unfolding binary_row
  binary_row-string columns cells e ht h =
      rw (null_map-mask cells, pack_columns-string columns [] cells 0 refl e ht h)
