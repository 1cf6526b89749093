-- ===== src/Proxy/Params/RoundTrip.antt =====
-- Parameters that a client lays out as the protocol prescribes are read back.
use mindsdb_database_ai.Prelude.{
  get_elem?-at, ℕ, zero, suc, ◌+◌, ◌-◌, ◌*◌, ◌/◌, ◌%◌, ◌^◌, ◌≤◌, ◌<◌, ◌≡◌, refl, ap, arith, Bool,
  true, false, List, [], ◌∷◌, ◌++◌, length, get_elem?, replicate, map, Option, none, some, All, ok,
  append_assoc, length-append,
}
use mindsdb_database_ai.Prelude.Bits.{
  mask, low_bits, bits_from-low_bits, low_bits-byte, low_bits-mask,
}
use mindsdb_database_ai.Prelude.Bytes.{Bytes, le_bytes}
use mindsdb_database_ai.Prelude.Text.{Str, utf8, IsScalar, decode-utf8}
use mindsdb_database_ai.Wire.Datum.{Value, text, num}
use mindsdb_database_ai.Wire.Datum.RoundTrip.{Reads-num, Reads-lenenc}
use mindsdb_database_ai.Wire.Bodies.Layout.{protocol_text, IsShort}
use mindsdb_database_ai.Proxy.Params.{
  read_byte, read_nulls, read_types, read_types_if, datum_type_of, read_param, read_values,
  read_params,
}

-- What a client binds: a null; a number of one, two, four or eight bytes, sent as signed or not; the
-- number -(n + 1) as a signed one; or a text.
pub data Width : Type 0 where
  tiny short long longlong : Width

pub data Param : Type 0 where
  null_param : Param
  int_param : Width → (signed : Bool) → ℕ → Param
  negative_param : Width → (n : ℕ) → Param
  text_param : Str → Param

abbrev pub width : Width → ℕ
width tiny = 1
width short = 2
width long = 4
width longlong = 8

abbrev pub IsParam : Param → Type 0
IsParam null_param = Unit {0}
IsParam (int_param w true v) = 2 * v < 256 ^ width w
IsParam (int_param w false v) = v < 256 ^ width w
IsParam (negative_param w n) = 2 * (n + 1) ≤ 256 ^ width w
IsParam (text_param s) = All IsScalar s × IsShort s

abbrev pub is_null : Param → Bool
is_null null_param = true
is_null _ = false

abbrev width_type : Width → ℕ
width_type tiny = 1
width_type short = 2
width_type long = 3
width_type longlong = 8

-- The type's number and the byte behind it, 128 for a number without a sign.
abbrev pub type_of : Param → ℕ × ℕ
type_of null_param = (6, 0)
type_of (int_param w true v) = (width_type w, 0)
type_of (int_param w false v) = (width_type w, 128)
type_of (negative_param w n) = (width_type w, 0)
type_of (text_param s) = (253, 0)

abbrev pub value_bytes : Param → Bytes
value_bytes null_param = []
value_bytes (int_param w signed v) = le_bytes (width w) v
value_bytes (negative_param w n) = le_bytes (width w) (256 ^ width w - (n + 1))
value_bytes (text_param s) = protocol_text s

-- What the server makes of it: -(n + 1) of k bytes becomes 256 ^ k - (n + 1).
abbrev pub read_as : Param → Option Value
read_as null_param = none
read_as (int_param w signed v) = some (num v)
read_as (negative_param w n) = some (num (256 ^ width w - (n + 1)))
read_as (text_param s) = some (text s)

pub types_bytes : List (ℕ × ℕ) → Bytes
types_bytes [] = []
types_bytes (t ∷ ts) = t.0 ∷ t.1 ∷ types_bytes ts

pub values_bytes : List Param → Bytes
values_bytes [] = []
values_bytes (p ∷ ps) = value_bytes p ++ values_bytes ps

-- The null map, the mark that types follow, the types, and the values.
abbrev pub params_bytes : List Param → Bytes
params_bytes [] = []
params_bytes (p ∷ ps) =
    le_bytes ((length (p ∷ ps) + 7) / 8) (mask (map is_null (p ∷ ps)))
    ++ (1 ∷ types_bytes (map type_of (p ∷ ps)) ++ values_bytes (p ∷ ps))

pub read_nulls-le_bytes :
    (k m : ℕ) (rest : Bytes) → read_nulls k (le_bytes k m ++ rest) ≡ ok (low_bits (8 * k) m, rest)
unfolding read_nulls read_byte le_bytes
read_nulls-le_bytes zero m rest = unfold low_bits in refl
read_nulls-le_bytes (suc k) m rest =
    let e : 8 * suc k ≡ suc (suc (suc (suc (suc (suc (suc (suc (8 * k)))))))) = omega arith in
    rw (
      read_nulls-le_bytes k (m / 256) rest,
      bits_from-low_bits (m % 256) (omega arith),
      e,
      low_bits-byte (8 * k) m,
    )

read_types-types_bytes :
    (ts : List (ℕ × ℕ)) (n : ℕ) (rest : Bytes)
    → length ts ≡ n
    → read_types n (types_bytes ts ++ rest) ≡ ok (ts, rest)
unfolding read_types read_byte types_bytes
read_types-types_bytes [] zero rest h = refl
read_types-types_bytes [] (suc n) rest h = absurd (omega arith)
read_types-types_bytes (t ∷ ts) zero rest h = absurd (omega arith)
read_types-types_bytes (t ∷ ts) (suc n) rest h = rw (read_types-types_bytes ts n rest (omega arith))

read_param-number :
    (w : Width) (sign v i : ℕ) (nulls : List Bool) (types : List (ℕ × ℕ)) (rest : Bytes)
    → v < 256 ^ width w
    → get_elem? nulls i ≡ some false
    → get_elem? types i ≡ some (width_type w, sign)
    → read_param i nulls types (le_bytes (width w) v ++ rest) ≡ ok (some (num v), rest)
unfolding read_param datum_type_of
read_param-number tiny sign v i nulls types rest h en et =
    rw (en, et, Reads-num 1 v (omega arith) h rest)
read_param-number short sign v i nulls types rest h en et =
    rw (en, et, Reads-num 2 v (omega arith) h rest)
read_param-number long sign v i nulls types rest h en et =
    rw (en, et, Reads-num 4 v (omega arith) h rest)
read_param-number longlong sign v i nulls types rest h en et =
    rw (en, et, Reads-num 8 v (omega arith) h rest)

read_param-value_bytes :
    (p : Param) (i : ℕ) (nulls : List Bool) (types : List (ℕ × ℕ)) (rest : Bytes)
    → IsParam p
    → get_elem? nulls i ≡ some (is_null p)
    → get_elem? types i ≡ some (type_of p)
    → read_param i nulls types (value_bytes p ++ rest) ≡ ok (read_as p, rest)
unfolding read_param datum_type_of
read_param-value_bytes null_param i nulls types rest h en et = rw en
read_param-value_bytes (int_param w true v) i nulls types rest h en et =
    read_param-number w 0 v i nulls types rest (omega arith) en et
read_param-value_bytes (int_param w false v) i nulls types rest h en et =
    read_param-number w 128 v i nulls types rest h en et
read_param-value_bytes (negative_param w n) i nulls types rest h en et =
    read_param-number w 0 (256 ^ width w - (n + 1)) i nulls types rest (omega arith) en et
read_param-value_bytes (text_param s) i nulls types rest h en et =
    rw (en, et, Reads-lenenc (utf8 s) h.1 rest, decode-utf8 s h.0)

pub length-map {ℓ κ} :
    {A : Type ℓ} {B : Type κ} (f : A → B) (xs : List A) → length (map f xs) ≡ length xs
length-map f [] = refl
length-map f (x ∷ xs) = ap suc (length-map f xs)

-- The loop over the values, behind those of `nulls` and `types`.
read_values-values_bytes :
    (ps : List Param) (i : ℕ) (nulls more : List Bool) (types : List (ℕ × ℕ)) (rest : Bytes)
    → length nulls ≡ i
    → length types ≡ i
    → All IsParam ps
    → read_values
        (length ps)
        i
        (nulls ++ (map is_null ps ++ more))
        (types ++ map type_of ps)
        (values_bytes ps ++ rest)
      ≡ ok (map read_as ps)
unfolding read_values values_bytes
read_values-values_bytes [] i nulls more types rest ln lt h = refl
read_values-values_bytes (p ∷ ps) i nulls more types rest ln lt h =
    let next =
      read_values-values_bytes ps (i + 1) (nulls ++ is_null p ∷ []) more (types ++ type_of p ∷ [])
        rest (omega (arith, length-append nulls (is_null p ∷ [])))
        (omega (arith, length-append types (type_of p ∷ []))) h.1 in
    let next' =
      rw
        (
          append_assoc nulls (is_null p ∷ []) (map is_null ps ++ more),
          append_assoc types (type_of p ∷ []) (map type_of ps),
        )
        at next in
    rw (
      read_values,
      append_assoc (value_bytes p) (values_bytes ps) rest,
      read_param-value_bytes p i _ _ (values_bytes ps ++ rest) h.0
          (get_elem?-at nulls i (is_null p) (map is_null ps ++ more) ln)
          (get_elem?-at types i (type_of p) (map type_of ps) lt),
      next',
    )

-- A list of parameters sent with their types is read in its order, whatever follows it: a null, a
-- text and a number that is not negative as they were bound; a negative number z of k bytes, whose
-- sign is not looked at, as z + 256 ^ k. Numbers fit their widths, and texts have less than
-- 2 ^ 24 bytes.
pub read_params-params_bytes :
    (ps : List Param) (rest : Bytes)
    → All IsParam ps
    → read_params (params_bytes ps ++ rest) (length ps) ≡ ok (map read_as ps)
unfolding read_params read_byte read_types_if
read_params-params_bytes [] rest h = refl
read_params-params_bytes (p ∷ ps) rest h =
    let n : ℕ = suc (length ps) in
    let k : ℕ = (n + 7) / 8 in
    let nulls : List Bool = map is_null (p ∷ ps) in
    let types : List (ℕ × ℕ) = map type_of (p ∷ ps) in
    let pad : length nulls + (8 * k - n) ≡ 8 * k = omega (arith, length-map is_null (p ∷ ps)) in
    let bits = rw pad at (low_bits-mask nulls (8 * k - n)) in
    rw (
      append_assoc (le_bytes k (mask nulls)) (1 ∷ types_bytes types ++ values_bytes (p ∷ ps)) rest,
      append_assoc (types_bytes types) (values_bytes (p ∷ ps)) rest,
      read_nulls-le_bytes k (mask nulls) _,
      bits,
      read_types-types_bytes types n (values_bytes (p ∷ ps) ++ rest) (length-map type_of (p ∷ ps)),
      read_values-values_bytes (p ∷ ps) 0 [] (replicate (8 * k - n) false) [] rest refl refl h,
    )
