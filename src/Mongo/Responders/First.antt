-- ===== src/Mongo/Responders/First.antt =====
-- The responder that is found is the first that matches.
use Prim.Native.String.{String}
use mindsdb_database_ai.Prelude.{
  ◌≡◌, ◌↔◌, refl, Bool, true, false, Option, none, some, List, [], ◌∷◌, ◌++◌, Result, ok, raise,
  All, Bool-cases, inl, inr,
}
use mindsdb_database_ai.Prelude.Dict.{Dict, lookup}
use mindsdb_database_ai.Mongo.Responders.{Test, Responder, passes, match_keys, match, find_match}

module _ {ℓ} {V : Type ℓ} (same : V → V → Bool) where
  -- An item of `when` is met: the key stands in the request with a value that passes its test.
  abbrev pub IsMet : Dict V → String × Test V → Type ℓ
  IsMet query item = (v : V) × (lookup item.0 query ≡ some v) × (passes same item.1 (some v) ≡ true)

  passes-IsMet :
      (query : Dict V) (item : String × Test V) (o : Option V)
      → lookup item.0 query ≡ o
      → (passes same item.1 o ≡ true) ↔ IsMet query item
  passes-IsMet query item none e = ((λ h. cc), λ h. cc)
  passes-IsMet query item (some v) e =
      ((λ h. (v, e, h)), λ h. let (w, found, p) = h in let q : v ≡ w = cc in rw q p)

  -- A dict `when` matches a request exactly when all its items are met, whatever else it asks.
  pub match_keys-IsMet :
      (items : Dict (Test V)) (query : Dict V)
      → (match_keys same items query ≡ true) ↔ All (IsMet query) items
  unfolding match_keys
  match_keys-IsMet [] query = ((λ h. tt), λ h. refl)
  match_keys-IsMet (item ∷ items) query =
      let here = passes-IsMet query item (lookup item.0 query) refl in
      let ih = match_keys-IsMet items query in
      elim (Bool-cases (passes same item.1 (lookup item.0 query))) [
        | inl e ↦ rw (match_keys, e) ((λ h. (here.0 e, ih.0 h)), λ h. ih.1 h.1)
        | inr e ↦ rw (match_keys, e) ((λ h. cc), λ h. absurd (contrary (here.1 h.0) e))
      ]
    where
      contrary : {b : Bool} → b ≡ true → b ≡ false → ⊥
      contrary h e = cc

module _ {ℓ κ} {V : Type ℓ} {Env : Type κ} (same : V → V → Bool) where
  -- What `find_match` says of the responders: the first that matches, or that none does.
  abbrev pub Found : List (Responder V Env) → Dict V → Result (Responder V Env) → Type (ℓ ⊔ κ)
  Found rs query (ok r) =
      (before : List (Responder V Env)) × (after : List (Responder V Env)) × (rs
        ≡ before ++ r ∷ after)
      × All (λ q. match same q query ≡ false) before
      × (match same r query ≡ true)
  Found rs query (raise e) = Unit {ℓ ⊔ κ} × All (λ q. match same q query ≡ false) rs

  Found-more :
      (q : Responder V Env) (rs : List (Responder V Env)) (query : Dict V)
      (x : Result (Responder V Env))
      → match same q query ≡ false
      → Found rs query x
      → Found (q ∷ rs) query x
  Found-more q rs query (ok r) e (before, after, split, none_before, here) =
      (q ∷ before, after, rw split, (e, none_before), here)
  Found-more q rs query (raise x) e (_, all) = (tt, (e, all))

  -- Requests go to the first responder, in the order in which they were added, that matches; the
  -- search fails exactly when none does.
  pub find_match-Found :
      (rs : List (Responder V Env)) (query : Dict V) → Found rs query (find_match same rs query)
  unfolding find_match
  find_match-Found [] query = (tt, tt)
  find_match-Found (q ∷ rs) query = elim (Bool-cases (match same q query)) [
    | inl e ↦ rw (find_match, e) ([], rs, refl, tt, e)
    | inr e ↦ rw (find_match, e) (Found-more q rs query _ e (find_match-Found rs query))
  ]
