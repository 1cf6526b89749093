-- ===== src/Mongo/Responders.antt =====
-- Which responder answers a request: mindsdb/api/mongo/classes/responder.py and
-- responder_collection.py. A document is a dict of values of type `V`, which `same` compares; `Env`
-- is what a responder may read and change.
pub mod First
use Prim.Native.String.{String}
use mindsdb_database_ai.Prelude.{
  Bool, true, false, not, Option, none, some, List, [], ◌∷◌, ◌++◌, Result, ok, raise, exception,
  ◌&&◌, if◌then◌else◌,
}
use mindsdb_database_ai.Prelude.Dict.{Dict, lookup}

-- A value of the dict `when`: a function or a value to compare with.
pub data Test {ℓ} (V : Type ℓ) : Type ℓ where
  call : (V → Bool) → Test V
  equals : V → Test V

pub data When {ℓ} (V : Type ℓ) : Type ℓ where
  keys : Dict (Test V) → When V
  callable : (Dict V → Bool) → When V

-- `result`: a document, or a function of the request and the environment; None is no answer.
pub data Answer {ℓ κ} (V : Type ℓ) (Env : Type κ) : Type (ℓ ⊔ κ) where
  document : Dict V → Answer V Env
  function : (Dict V → Env → Result (Env × Option (Dict V))) → Answer V Env

pub record Responder {ℓ κ} (V : Type ℓ) (Env : Type κ) : Type (ℓ ⊔ κ) where
  pub when : When V
  pub result : Answer V Env

module _ {ℓ} {V : Type ℓ} (same : V → V → Bool) where
  abbrev pub passes : Test V → Option V → Bool
  passes test none = false
  passes (call f) (some v) = f v
  passes (equals w) (some v) = same w v

  -- The loop over the items of `when`.
  unfoldable pub match_keys : Dict (Test V) → Dict V → Bool
  match_keys [] query = true
  match_keys (item ∷ items) query =
      if passes item.1 (lookup item.0 query) then match_keys items query else false

module _ {ℓ κ} {V : Type ℓ} {Env : Type κ} (same : V → V → Bool) where
  unfoldable pub match : Responder V Env → Dict V → Bool
  match r query = elim r.when [ keys items ↦ match_keys same items query | callable f ↦ f query ]

  unfoldable pub find_match : List (Responder V Env) → Dict V → Result (Responder V Env)
  find_match [] query = raise (exception "Is not responder for query")
  find_match (r ∷ rs) query = if match r query then ok r else find_match rs query

module _ {ℓ κ} {V : Type ℓ} {Env : Type κ} where
  unfoldable pub handle : Responder V Env → Dict V → Env → Result (Env × Option (Dict V))
  handle r query env = elim r.result [ document d ↦ ok (env, some d) | function f ↦ f query env ]

  -- `add`
  unfoldable pub add : List (Responder V Env) → When V → Answer V Env → List (Responder V Env)
  add responders when result = responders ++ record { when = when; result = result } ∷ []
