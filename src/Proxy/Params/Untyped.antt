-- ===== src/Proxy/Params/Untyped.antt =====
-- Parameters that a client sends without their types.
use mindsdb_database_ai.Prelude.{
  get_elem?-at, ℕ, suc, ◌+◌, ◌-◌, ◌*◌, ◌/◌, ◌≡◌, refl, arith, Bool, true, false, List, [], ◌∷◌,
  ◌++◌, length, replicate, map, Option, none, Result, ok, raise, index_error, ◌>>=◌, Bool-cases,
  inl, inr, append_assoc, length-append,
}
use mindsdb_database_ai.Prelude.Bits.{mask, low_bits-mask}
use mindsdb_database_ai.Prelude.Bytes.{Bytes, le_bytes}
use mindsdb_database_ai.Wire.Datum.{Value}
use mindsdb_database_ai.Proxy.Params.RoundTrip.{Param, is_null, length-map, read_nulls-le_bytes}
use mindsdb_database_ai.Proxy.Params.{
  read_byte, read_types_if, read_param, read_values, read_params,
}

-- The parameters of a statement that is executed again without their types: only nulls are read.
abbrev pub read_again : List Param → Result (List (Option Value))
read_again [] = ok []
read_again (p ∷ ps) =
    let rest = read_again ps in
    elim (is_null p) [
      | true ↦ rest >>= λ parameters. ok (none ∷ parameters)
      | false ↦ raise index_error
    ]

read_values-again :
    (ps : List Param) (i : ℕ) (nulls more : List Bool) (buffer : Bytes)
    → length nulls ≡ i
    → read_values (length ps) i (nulls ++ (map is_null ps ++ more)) [] buffer ≡ read_again ps
unfolding read_values read_param
read_values-again [] i nulls more buffer ln = refl
read_values-again (p ∷ ps) i nulls more buffer ln =
    let next =
      read_values-again ps (i + 1) (nulls ++ is_null p ∷ []) more buffer
        (omega (arith, length-append nulls (is_null p ∷ []))) in
    let next' = rw (append_assoc nulls (is_null p ∷ []) (map is_null ps ++ more)) at next in
    let en = get_elem?-at nulls i (is_null p) (map is_null ps ++ more) ln in
    elim (Bool-cases (is_null p)) [
      | inl e ↦
          (let next'' = rw e at next' in
            rw (read_values, read_param, read_again, en, e, next'') refl)
      | inr e ↦ rw (read_values, read_param, read_again, en, e) refl
    ]

-- The null map, the mark that no types follow, and whatever stands for the values.
abbrev pub untyped_bytes : List Param → Bytes → Bytes
untyped_bytes ps rest = le_bytes ((length ps + 7) / 8) (mask (map is_null ps)) ++ (0 ∷ rest)

-- Without types, a parameter that is not null raises an IndexError.
pub read_params-untyped :
    (p : Param) (ps : List Param) (rest : Bytes)
    → read_params (untyped_bytes (p ∷ ps) rest) (length (p ∷ ps)) ≡ read_again (p ∷ ps)
unfolding read_params read_byte read_types_if
read_params-untyped p ps rest =
    let n : ℕ = suc (length ps) in
    let k : ℕ = (n + 7) / 8 in
    let nulls : List Bool = map is_null (p ∷ ps) in
    let pad : length nulls + (8 * k - n) ≡ 8 * k = omega (arith, length-map is_null (p ∷ ps)) in
    let bits = rw pad at (low_bits-mask nulls (8 * k - n)) in
    rw (
      read_nulls-le_bytes k (mask nulls) (0 ∷ rest),
      bits,
      read_values-again (p ∷ ps) 0 [] (replicate (8 * k - n) false) rest refl,
    )
