-- ===== src/Proxy/Auth/Rules.antt =====
-- When a client is let in, and with which password.
use mindsdb_database_ai.Prelude.{
  ◌≡◌, ◌↔◌, ◌⊎◌, inl, inr, refl, sym, ◌∙◌, Bool, true, false, not, ◌&&◌, Option, none, some, List,
  [], ◌∷◌, Bool-cases, if◌then◌else◌, ◌==◌, length,
}
use mindsdb_database_ai.Prelude.Bytes.{Bytes}
use mindsdb_database_ai.Prelude.Text.{Str, utf8}
use mindsdb_database_ai.Prelude.StrEq.{eqb, eqb_iff, is_in, starts_with}
use mindsdb_database_ai.Proxy.Auth.{
  Password, str_password, bytes_password, AuthData, failure, success, password_bytes, user_of,
  extracted, find_integration, check_auth_with, native, caching, asked, switch_out, ask_other,
  ask_password,
}

-- The user's own name, or that of the user for an integration of the list.
abbrev pub NamesOne : Str → Str → List (Str × Str) → Type 0
NamesOne user username [] = ⊥
NamesOne user username (x ∷ xs) = (username ≡ user_of user x.0) ⊎ NamesOne user username xs

abbrev pub IsSuccess : AuthData → Type 0
IsSuccess failure = ⊥
IsSuccess (success u integration) = Unit {0}

abbrev IsFound : Option (Str × Str) → Type 0
IsFound none = ⊥
IsFound (some x) = Unit {0}

contrary : {b : Bool} → b ≡ true → b ≡ false → ⊥
contrary h e = cc

module _ (user username : Str) where
  find_integration-IsFound :
      (xs : List (Str × Str)) (o : Option (Str × Str))
      → IsFound (find_integration user username xs o) ↔ (IsFound o ⊎ NamesOne user username xs)
  unfolding find_integration
  find_integration-IsFound [] o = (λ h. inl h, λ h. elim h [ inl f ↦ f | inr f ↦ absurd f ])
  find_integration-IsFound (x ∷ xs) o =
      let same = eqb_iff username (user_of user x.0) in
      elim (Bool-cases (eqb username (user_of user x.0))) [
        | inl e ↦
            let ih = find_integration-IsFound xs (some x) in
            rw e (λ h. inr (inl (same.0 e)), λ h. ih.1 (inl tt))
        | inr e ↦
            let ih = find_integration-IsFound xs o in
            rw e (
              (λ h. elim (ih.0 h) [ inl f ↦ inl f | inr m ↦ inr (inr m) ]),
              λ h. ih.1 (elim h [
                | inl f ↦ inl f
                | inr n ↦ elim n [ inl q ↦ absurd (contrary (same.1 q) e) | inr m ↦ inr m ]
              ]),
            )
      ]

abbrev pub Fits : Str → Str → Option (Str × Str) → Type 0
Fits user username none = Unit {0}
Fits user username (some x) = username ≡ user_of user x.0

find_integration-Fits :
    (user username : Str) (xs : List (Str × Str)) (o : Option (Str × Str))
    → Fits user username o
    → Fits user username (find_integration user username xs o)
unfolding find_integration
find_integration-Fits user username [] o h = h
find_integration-Fits user username (x ∷ xs) o h =
    elim (Bool-cases (eqb username (user_of user x.0))) [
      | inl e ↦ rw e (
          find_integration-Fits user username xs (some x)
            ((eqb_iff username (user_of user x.0)).0 e))
      | inr e ↦ rw e (find_integration-Fits user username xs o h)
    ]

success-injective :
    {v u : Str} {o p : Option (Str × Str)} → success v o ≡ success u p → (v ≡ u) × (o ≡ p)
success-injective h = (cc, cc)

success-tests :
    (a b c : Bool) (v : Str) (o : Option (Str × Str)) {u : Str} {integration : Option (Str × Str)}
    → (if not a then failure else if not b && not c then failure else success v o)
      ≡ success u integration
    → (a ≡ true) × (v ≡ u) × (o ≡ integration)
success-tests false b c v o h = cc
success-tests true false false v o h = cc
success-tests true true c v o h = let (p, q) = success-injective h in (refl, p, q)
success-tests true false true v o h = let (p, q) = success-injective h in (refl, p, q)

extracted_lem :
    (user username : Str) (o : Option (Str × Str))
    → (eqb (extracted user username o) user ≡ true) ↔ ((username ≡ user) ⊎ IsFound o)
extracted_lem user username none =
    let same = eqb_iff username user in
    ((λ h. inl (same.0 h)), λ h. elim h [ inl q ↦ same.1 q | inr f ↦ absurd f ])
extracted_lem user username (some x) = ((λ h. inr tt), λ h. (eqb_iff user user).1 refl)

IsSuccess-tests :
    (a b c : Bool) (u : Str) (o : Option (Str × Str))
    → IsSuccess (if not a then failure else if not b && not c then failure else success u o)
      ↔ ((a ≡ true) × ((b ≡ true) ⊎ (c ≡ true)))
IsSuccess-tests false b c u o = ((λ h. absurd h), λ h. cc)
IsSuccess-tests true true c u o = ((λ h. (refl, inl refl)), λ h. tt)
IsSuccess-tests true false true u o = ((λ h. (refl, inr refl)), λ h. tt)
IsSuccess-tests true false false u o = ((λ h. absurd h), λ h. elim h.1 [ inl e ↦ cc | inr e ↦ cc ])

module _ (scramble : Str → Str → Bytes) (user word : Str) (integrations : List (Str × Str))
    (username : Str) (password : Password) (salt : Str) where
  -- A client is let in exactly when its name is the user's or stands for an integration, and what it
  -- sends is the password or the hash of the password and the salt.
  pub check_auth_with-IsSuccess :
      IsSuccess (check_auth_with scramble user word integrations username password salt) ↔ (
        ((username ≡ user) ⊎ NamesOne user username integrations)
        × ((password_bytes password ≡ utf8 word) ⊎ (password_bytes password ≡ scramble word salt)))
  unfolding check_auth_with
  check_auth_with-IsSuccess =
      let integration = find_integration user username integrations none in
      let found = find_integration-IsFound user username integrations none in
      let who = extracted_lem user username integration in
      let plain = eqb_iff (password_bytes password) (utf8 word) in
      let hash = eqb_iff (password_bytes password) (scramble word salt) in
      let tests =
        IsSuccess-tests (eqb (extracted user username integration) user)
          (eqb (password_bytes password) (utf8 word))
          (eqb (password_bytes password) (scramble word salt)) (extracted user username integration)
          integration in
      (
        (λ h.
            let (known, proof) = tests.0 h in
            (
              elim (who.0 known) [
                | inl own ↦ inl own
                | inr f ↦ elim (found.0 f) [ inl e ↦ absurd e | inr m ↦ inr m ]
              ],
              elim proof [ inl p ↦ inl (plain.0 p) | inr q ↦ inr (hash.0 q) ],
            )),
        λ h. tests.1 (
          who.1 (elim h.0 [ inl own ↦ inl own | inr m ↦ inr (found.1 (inr m)) ]),
          elim h.1 [ inl p ↦ inl (plain.1 p) | inr q ↦ inr (hash.1 q) ],
        ),
      )

  -- A client that is let in is the configured user; where it has an integration, the name that it
  -- gave is the one that stands for this integration.
  pub check_auth_with-success :
      {u : Str} {integration : Option (Str × Str)}
      → check_auth_with scramble user word integrations username password salt
        ≡ success u integration
      → (u ≡ user) × Fits user username integration
  unfolding check_auth_with
  check_auth_with-success {u} {integration} h =
      let found = find_integration user username integrations none in
      let (known, same, o) =
        success-tests (eqb (extracted user username found) user)
          (eqb (password_bytes password) (utf8 word))
          (eqb (password_bytes password) (scramble word salt)) _ _ h in
      (
        sym same ∙ (eqb_iff (extracted user username found) user).0 known,
        rw o at (find_integration-Fits user username integrations none tt),
      )

-- The rule behind the branches of `handshake`: a client that names the default method and sends one
-- zero byte has the empty password; every other client is asked to switch to the native method, and
-- its answer is the password, or the hash of no password where it is empty. No client is refused
-- here, and FastAuthFail is never sent.
pub ask_password-rule :
    (scramble : Str → Str → Bytes) (is_ssl : Bool) (client_auth_plugin : Str) (enc_password : Bytes)
    (salt : Str) (answer : Bytes) (fast_answer : Option Str)
    → ask_password scramble is_ssl client_auth_plugin enc_password salt answer fast_answer ≡ (
        if eqb client_auth_plugin caching && eqb enc_password (0 ∷ [])
        then asked [] (str_password [])
        else asked
            (switch_out native ∷ [])
            (bytes_password (if length answer == 0 then scramble [] salt else answer)))
unfolding ask_password ask_other
ask_password-rule scramble is_ssl plugin enc salt answer fast =
    elim (Bool-cases (eqb plugin caching)) [
      | inl e ↦
          (let p : plugin ≡ caching = (eqb_iff plugin caching).0 e in
            rw p (unfold eqb is_in starts_with in refl))
      | inr e ↦ elim (Bool-cases (eqb plugin native)) [
        | inl n ↦ rw (e, n) (unfold eqb in refl)
        | inr n ↦ rw (e, n) (unfold eqb in refl)
      ]
    ]
