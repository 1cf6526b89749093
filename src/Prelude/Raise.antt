-- ===== src/Prelude/Raise.antt =====
-- Python's exceptions as values.
use Prim.Native.String.{String}
use mathlib.Core.Path.{◌≡◌, refl}
use mathlib.Core.Option.{Option, none, some}

-- The classes that the modelled code raises; `exception` is `Exception(text)`.
pub data Exn : Type 0 where
  struct_error index_error key_error type_error value_error unicode_error : Exn
  assertion_error attribute_error not_implemented : Exn
  exception : String → Exn

pub data Result {ℓ} (A : Type ℓ) : Type ℓ where
  ok : A → Result A
  raise : Exn → Result A

-- What comes after a call that may raise.
module _ {ℓ} {A : Type ℓ} where
  infixl 5 ◌>>=◌
  abbrev pub ◌>>=◌ {κ} : {B : Type κ} → Result A → (A → Result B) → Result B
  raise e >>= after = raise e
  ok a >>= after = after a

  abbrev pub or_raise : Option A → Exn → Result A
  or_raise (some a) e = ok a
  or_raise none e = raise e

  -- A chain returns only where its first call does.
  pub >>=-eq-ok {κ} :
      {B : Type κ} {b : B} (first : Result A) {after : A → Result B}
      → (first >>= after) ≡ ok b
      → (a : A) × (first ≡ ok a) × (after a ≡ ok b)
  >>=-eq-ok (raise e) h = cc
  >>=-eq-ok (ok a) h = (a, refl, h)

  pub >>=-ok : (call : Result A) → (call >>= λ a. ok a) ≡ call
  >>=-ok (raise e) = refl
  >>=-ok (ok a) = refl
