-- ===== src/Mongo/Predictors/Deleted.antt =====
-- What a delete does to the predictors.
use mindsdb_database_ai.Prelude.{
  ℕ, suc, ◌≡◌, ◌≢◌, ◌+◌, refl, sym, ◌∙◌, arith, Bool, true, false, ◌&&◌, Option, none, some, Exn,
  ok, ◌>>=◌, List, [], ◌∷◌, if◌then◌else◌, Bool-cases, inl, inr,
}
use mindsdb_database_ai.Prelude.Text.{Str}
use mindsdb_database_ai.Prelude.StrEq.{eqb, eqb_iff}
use mindsdb_database_ai.Mongo.Predictors.{
  predictors, name_key, is_model, Cleanup, raised_or, answered, delete_record, delete_model,
  delete_named, delete_result, delete,
}

-- How many of the records have the name.
unfoldable pub records_of : Str → List Str → ℕ
records_of name [] = 0
records_of name (m ∷ models) =
    let rest = records_of name models in if eqb m name then suc rest else rest

records_of-delete_record :
    (name : Str) (models : List Str)
    → records_of name (delete_record name models) + (if is_model name models then 1 else 0)
      ≡ records_of name models
unfolding is_model delete_record records_of
records_of-delete_record name [] = refl
records_of-delete_record name (m ∷ models) = elim (Bool-cases (eqb m name)) [
  | inl e ↦ rw (delete_record, e) (omega arith)
  | inr e ↦ rw (delete_record, e, records_of, e) (records_of-delete_record name models)
]

records_of-delete_record_ne :
    (name other : Str) (models : List Str)
    → other ≢ name
    → records_of other (delete_record name models) ≡ records_of other models
unfolding delete_record records_of
records_of-delete_record_ne name other [] h = refl
records_of-delete_record_ne name other (m ∷ models) h = elim (Bool-cases (eqb m name)) [
  | inl e ↦ elim (Bool-cases (eqb m other)) [
    | inl q ↦ absurd (h (sym ((eqb_iff m other).0 q) ∙ (eqb_iff m name).0 e))
    | inr q ↦ rw (delete_record, e, records_of, q) refl
  ]
  | inr e ↦ rw (delete_record, e, records_of, records_of-delete_record_ne name other models h) refl
]

abbrev pub is_none {ℓ} : {A : Type ℓ} → Option A → Bool
is_none none = true
is_none (some a) = false

-- Neither of the calls behind the commit raises.
abbrev pub cleans : Cleanup → Str → Bool
cleans cleanup name =
    is_none (cleanup.unregister_predictor name) && is_none (cleanup.delete_files name)

-- The answer to a delete by name.
abbrev pub answer_to : (is_there is_clean : Bool) → ℕ × Bool
answer_to false is_clean = (0, false)
answer_to true true = (1, false)
answer_to true false = (0, true)

answered-cleans :
    (cleanup : Cleanup) (name : Str) (left : List Str)
    → answered (
      left,
      raised_or
            (cleanup.unregister_predictor name)
            (raised_or (cleanup.delete_files name) (ok true))
          >>= λ done. ok 1,
    )
      ≡ (answer_to true (cleans cleanup name), left)
answered-cleans cleanup name left =
    at (cleanup.unregister_predictor name) (cleanup.delete_files name)
  where
    at :
        (u d : Option Exn)
        → answered (left, raised_or u (raised_or d (ok true)) >>= λ done. ok 1)
          ≡ (answer_to true (is_none u && is_none d), left)
    at (some e) d = refl
    at none (some e) = refl
    at none none = refl

-- A delete by name answers 0 where there is no predictor of the name, and all records stay. Where
-- there is one, one record of the name goes, whatever happens then: the answer is 1 where the calls
-- behind the commit return, and 0 with a write error where one of them raises. Every other name keeps
-- its records.
pub delete-named :
    (cleanup : Cleanup) (name : Str) (models : List Str)
    → let (answer, left) = delete cleanup predictors (((name_key, name) ∷ []) ∷ []) models in
      (answer ≡ answer_to (is_model name models) (cleans cleanup name))
      × (records_of name left + (if is_model name models then 1 else 0) ≡ records_of name models)
      × ((other : Str) → other ≢ name → records_of other left ≡ records_of other models)
unfolding delete delete_result delete_named delete_model eqb
delete-named cleanup name models = elim (Bool-cases (is_model name models)) [
  | inl e ↦
      let removed = records_of-delete_record name models in
      let done = answered-cleans cleanup name (delete_record name models) in
      rw (delete_named, e, delete_model, done)
        (refl, rw e at removed, λ other h. records_of-delete_record_ne name other models h)
  | inr e ↦ rw (delete_named, e) (refl, omega arith, λ other h. refl)
]
