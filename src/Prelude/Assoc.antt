-- ===== src/Prelude/Assoc.antt =====
-- Python's `dict` as an association list in insertion order, with any keys that compare.
use mindsdb_database_ai.Prelude.{
  ◌≡◌, ◌≢◌, refl, Bool, true, false, Option, none, some, List, [], ◌∷◌, arith, if◌then◌else◌,
  Bool-cases, inl, inr, ◌∙◌, sym, ap, ◌++◌,
}
use mindsdb_database_ai.Prelude.Key.{Key, ◌≐◌, ≐_refl, ≐_ne, Key-cases}

abbrev pub Assoc {ℓ κ} : Type ℓ → Type κ → Type (ℓ ⊔ κ)
Assoc K V = List (K × V)

abbrev pub is_some {ℓ} : {A : Type ℓ} → Option A → Bool
is_some none = false
is_some (some v) = true

module _ {ℓ κ} {K : Type ℓ} {V : Type κ} ⦃key : Key K⦄ where
  unfoldable pub get : K → Assoc K V → Option V
  get k [] = none
  get k ((j, v) ∷ m) = if j ≐ k then some v else get k m

  -- `k in d`
  abbrev pub has : K → Assoc K V → Bool
  has k m = is_some (get k m)

  -- `d[k] = v`
  unfoldable pub put : K → V → Assoc K V → Assoc K V
  put k v [] = (k, v) ∷ []
  put k v ((j, w) ∷ m) = if j ≐ k then (j, v) ∷ m else (j, w) ∷ put k v m

  -- `d.update(e)`
  unfoldable pub update : Assoc K V → Assoc K V → Assoc K V
  update m [] = m
  update m ((k, v) ∷ e) = update (put k v m) e

  pub get-put :
      (j k : K) (v : V) (m : Assoc K V) → get j (put k v m) ≡ (if k ≐ j then some v else get j m)
  unfolding get put
  get-put j k v [] = refl
  get-put j k v ((i, w) ∷ m) =
      ground (arith, key.beq_iff k j, key.beq_iff i k, key.beq_iff i j, get-put j k v m)

  pub get-put_self : (k : K) (v : V) (m : Assoc K V) → get k (put k v m) ≡ some v
  get-put_self k v m = rw (get-put k k v m, ≐_refl k) refl

  pub get-put_ne : (j k : K) (v : V) (m : Assoc K V) → k ≢ j → get j (put k v m) ≡ get j m
  get-put_ne j k v m h = rw (get-put j k v m, ≐_ne k j h) refl

  -- A value that is there is not lost, and a write where one was adds no key.
  pub get-put_there :
      (j k : K) (v : V) (m : Assoc K V) {w : V}
      → get j m ≡ some w
      → (w' : V) × (get j (put k v m) ≡ some w')
  get-put_there j k v m {w} h = elim (Key-cases k j) [
    | inl same ↦ (v, rw same (get-put_self j v m))
    | inr other ↦ (w, get-put_ne j k v m other ∙ h)
  ]

  pub has-put :
      (j k : K) (v : V) (m : Assoc K V) {w : V} → get k m ≡ some w → has j (put k v m) ≡ has j m
  has-put j k v m {w} h = elim (Key-cases k j) [
    | inl same ↦ rw (get-put j k v m, same, ≐_refl j, rw same at h) refl
    | inr other ↦ rw (get-put_ne j k v m other) refl
  ]

  pub get-singleton : (j k : K) (v : V) {w : V} → get j ((k, v) ∷ []) ≡ some w → v ≡ w
  unfolding get
  get-singleton j k v {w} h = elim (Bool-cases (k ≐ j)) [
    | inl e ↦ cc (rw e at h)
    | inr e ↦ let g : none ≡ some w = rw e at h in cc g
  ]

  -- A new key stands at the end.
  pub put-fresh : (k : K) (v : V) (m : Assoc K V) → get k m ≡ none → put k v m ≡ m ++ (k, v) ∷ []
  unfolding get put
  put-fresh k v [] h = refl
  put-fresh k v ((j, w) ∷ m) h = elim (Bool-cases (j ≐ k)) [
    | inl e ↦ let g : some w ≡ none = rw e at h in cc g
    | inr e ↦ rw e (ap (λ r. (j, w) ∷ r) (put-fresh k v m (rw e at h)))
  ]

  -- No key stands twice.
  abbrev pub IsDistinct : Assoc K V → Type κ
  IsDistinct [] = Unit {κ}
  IsDistinct ((k, v) ∷ m) = (get k m ≡ none) × IsDistinct m

  pub get-there :
      (j k : K) (v : V) (m : Assoc K V) {w : V}
      → get k m ≡ none
      → get j m ≡ some w
      → get j ((k, v) ∷ m) ≡ some w
  unfolding get
  get-there j k v m {w} absent there = elim (Key-cases k j) [
    | inl same ↦ let g : some w ≡ none = sym there ∙ rw (← same) absent in cc g
    | inr other ↦ rw (≐_ne k j other) there
  ]

  pub get-head : (k : K) (v : V) (m : Assoc K V) → get k ((k, v) ∷ m) ≡ some v
  unfolding get
  get-head k v m = rw (≐_refl k) refl
