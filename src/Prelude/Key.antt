-- ===== src/Prelude/Key.antt =====
-- Types whose values Python compares as keys of dicts, and dicts over them in insertion order.
use mindsdb_database_ai.Prelude.{
  ℕ, ◌≡◌, ◌≢◌, refl, ap, ◌↔◌, ◌⊎◌, Bool, true, false, ◌&&◌, Option, none, some, List, arith, inl,
  inr, Bool-cases,
}
use mindsdb_database_ai.Prelude.StrEq.{eqb, eqb_iff}

pub record Key {ℓ} (A : Type ℓ) : Type ℓ where
  pub beq : A → A → Bool
  pub beq_iff : (a b : A) → (beq a b ≡ true) ↔ (a ≡ b)

infix 50 ◌≐◌
abbrev pub ◌≐◌ {ℓ} : {A : Type ℓ} ⦃k : Key A⦄ → A → A → Bool
◌≐◌ ⦃k⦄ = k.beq

module _ {ℓ} {A : Type ℓ} ⦃key : Key A⦄ where
  pub ≐_refl : (k : A) → (k ≐ k) ≡ true
  ≐_refl k = (key.beq_iff k k).1 refl

  pub ≐_ne : (j k : A) → j ≢ k → (j ≐ k) ≡ false
  ≐_ne j k h = elim (Bool-cases (j ≐ k)) [ inl e ↦ absurd (h ((key.beq_iff j k).0 e)) | inr e ↦ e ]

  pub Key-cases : (j k : A) → (j ≡ k) ⊎ (j ≢ k)
  Key-cases j k = elim (Bool-cases (j ≐ k)) [
    | inl e ↦ inl ((key.beq_iff j k).0 e)
    | inr e ↦ inr (λ h. let g : true ≡ false = rw (← (key.beq_iff j k).1 h) e in cc g)
  ]

instance abbrev pub str_key : Key (List ℕ)
str_key = record { beq = eqb; beq_iff = eqb_iff }

module _ {ℓ} {A : Type ℓ} ⦃k : Key A⦄ where
  abbrev option_beq : Option A → Option A → Bool
  option_beq none none = true
  option_beq none (some b) = false
  option_beq (some a) none = false
  option_beq (some a) (some b) = k.beq a b

  pub option_beq_iff : (a b : Option A) → (option_beq a b ≡ true) ↔ (a ≡ b)
  option_beq_iff none none = (λ h. refl, λ h. refl)
  option_beq_iff none (some b) = (λ h. absurd (cc h), λ h. absurd (cc h))
  option_beq_iff (some a) none = (λ h. absurd (cc h), λ h. absurd (cc h))
  option_beq_iff (some a) (some b) =
      (λ h. ap some ((k.beq_iff a b).0 h), λ h. (k.beq_iff a b).1 (cc h))

  instance abbrev pub option_key : Key (Option A)
  option_key = record { beq = option_beq; beq_iff = option_beq_iff }

module _ {ℓ κ} {A : Type ℓ} {B : Type κ} ⦃k : Key A⦄ ⦃l : Key B⦄ where
  abbrev pair_beq : A × B → A × B → Bool
  pair_beq (a, b) (c, d) = k.beq a c && l.beq b d

  pub pair_beq_iff : (p q : A × B) → (pair_beq p q ≡ true) ↔ (p ≡ q)
  pair_beq_iff (a, b) (c, d) = ground (arith, k.beq_iff a c, l.beq_iff b d)

  instance abbrev pub pair_key : Key (A × B)
  pair_key = record { beq = pair_beq; beq_iff = pair_beq_iff }

-- A triple is no pair of a pair.
module _ {ℓ κ μ} {A : Type ℓ} {B : Type κ} {C : Type μ} ⦃k : Key A⦄ ⦃l : Key B⦄ ⦃m : Key C⦄ where
  abbrev triple_beq : A × B × C → A × B × C → Bool
  triple_beq (a, b, c) (d, e, f) = k.beq a d && (l.beq b e && m.beq c f)

  pub triple_beq_iff : (p q : A × B × C) → (triple_beq p q ≡ true) ↔ (p ≡ q)
  triple_beq_iff (a, b, c) (d, e, f) = ground (arith, k.beq_iff a d, l.beq_iff b e, m.beq_iff c f)

  instance abbrev pub triple_key : Key (A × B × C)
  triple_key = record { beq = triple_beq; beq_iff = triple_beq_iff }
