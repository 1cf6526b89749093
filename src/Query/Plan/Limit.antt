-- ===== src/Query/Plan/Limit.antt =====
-- Which rows LIMIT and OFFSET leave.
use mindsdb_database_ai.Prelude.{
  ℕ, zero, suc, ◌+◌, ◌-◌, ◌≡◌, refl, arith, none, some, List, [], ◌∷◌, length, take, drop,
  get_elem?, ltb, if◌then◌else◌,
}
use mindsdb_database_ai.Prelude.Int.{pos, negsuc}
use mindsdb_database_ai.Query.{StepData}
use mindsdb_database_ai.Query.Plan.{limit_offset_step}

get_elem?-drop {ℓ} :
    {A : Type ℓ} (n i : ℕ) (xs : List A) → get_elem? (drop n xs) i ≡ get_elem? xs (n + i)
get_elem?-drop zero i xs = let e : 0 + i ≡ i = omega arith in rw e refl
get_elem?-drop (suc n) i [] = refl
get_elem?-drop (suc n) i (x ∷ xs) =
    let e : suc n + i ≡ suc (n + i) = omega arith in rw e (get_elem?-drop n i xs)

get_elem?-take {ℓ} :
    {A : Type ℓ} (n i : ℕ) (xs : List A)
    → get_elem? (take n xs) i ≡ (if ltb i n then get_elem? xs i else none)
get_elem?-take zero i xs = ground arith
get_elem?-take (suc n) i [] = ground arith
get_elem?-take (suc n) zero (x ∷ xs) = ground arith
get_elem?-take (suc n) (suc i) (x ∷ xs) = ground (arith, get_elem?-take n i xs)

module _ {V : Type 0} (step_data : StepData V) where
  -- With a limit and an offset that are not negative, row `i` of the result is row `offset + i` of
  -- the data if `i` is below the limit, and there is none otherwise; an offset without a limit leaves
  -- all rows behind it; a limit of -(n + 1) takes the last n + 1 rows away; columns stay.
  pub limit_offset_step-get_elem? :
      (limit offset n i : ℕ)
      → (get_elem? (limit_offset_step (some (pos limit)) (some (pos offset)) step_data).values i
          ≡ (if ltb i limit then get_elem? step_data.values (offset + i) else none))
        × (get_elem? (limit_offset_step none (some (pos offset)) step_data).values i
            ≡ get_elem? step_data.values (offset + i))
        × (get_elem? (limit_offset_step (some (negsuc n)) none step_data).values i ≡ (
            if ltb i (length step_data.values - (n + 1))
            then get_elem? step_data.values i
            else none))
        × ((limit_offset_step (some (pos limit)) (some (pos offset)) step_data).columns
            ≡ step_data.columns)
  unfolding limit_offset_step
  limit_offset_step-get_elem? limit offset n i = (
    rw
        (
          get_elem?-take limit i (drop offset step_data.values),
          get_elem?-drop offset i step_data.values,
        )
        refl,
    get_elem?-drop offset i step_data.values,
    get_elem?-take (length step_data.values - (n + 1)) i step_data.values,
    refl,
  )
