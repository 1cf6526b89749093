-- ===== src/Mongo/Scram/Proof.antt =====
-- Which second message of a client is accepted.
use mindsdb_database_ai.Prelude.{
  ℕ, ◌≡◌, ◌≢◌, refl, arith, none, some, List, [], ◌∷◌, ◌++◌, length, take, drop, All, ok, raise,
  exception, if◌then◌else◌, Bool-cases, inl, inr, append_assoc, append-nil, take-append,
  drop-append, ==_ne,
}
use mindsdb_database_ai.Prelude.Bytes.{Bytes}
use mindsdb_database_ai.Prelude.Text.{Str}
use mindsdb_database_ai.Prelude.StrEq.{eqb, starts_with}
use mindsdb_database_ai.Prelude.Table.{lookup, insert}
use mindsdb_database_ai.Mongo.Scram.{
  Crypto, Scram, split_from, add_parts, split_payload, get_salted_password,
  process_client_first_message, iterations, proof_mark, rfind, client_proof, server_answer,
  process_client_second_message,
}

-- Base64 has no comma.
abbrev pub NoComma : Str → Type 0
NoComma s = All (λ c. c ≢ b',') s

rfind-NoComma : (s : Str) → NoComma s → rfind s ≡ none
unfolding rfind starts_with
rfind-NoComma [] h = refl
rfind-NoComma (c ∷ s) h = rw (rfind-NoComma s h.1) (ground (arith, h.0))

rfind-proof :
    (front proof : Str)
    → NoComma proof
    → rfind (front ++ (proof_mark ++ proof)) ≡ some (length front)
unfolding rfind starts_with
rfind-proof [] proof h = rw (rfind-NoComma proof h)
rfind-proof (c ∷ front) proof h = rw (rfind-proof front proof h)

module _ (crypto : Crypto) (s : Scram) (salted : Bytes) (front proof : Str) where
  -- Behind a first message, a second message with the proof at its end is answered exactly when the
  -- proof is the one that follows from the salted password and all that was said before it, and every
  -- other proof is refused as a wrong password.
  pub process_client_second_message-proof :
      s.salted_password ≡ some salted
      → NoComma proof
      → let messages : List Str = s.messages ++ front ∷ [] in
        (process_client_second_message crypto s (front ++ (proof_mark ++ proof))).1 ≡ (
          if eqb (client_proof crypto s.method salted messages) proof
          then ok (server_answer crypto s.method salted messages)
          else raise (exception "wrong password"))
  unfolding process_client_second_message
  process_client_second_message-proof e h =
      let payload : Str = front ++ (proof_mark ++ proof) in
      let messages : List Str = s.messages ++ front ∷ [] in
      let behind : drop (length front) payload ≡ proof_mark ++ proof =
        drop-append front (proof_mark ++ proof) refl in
      let before : take (length front) payload ≡ front =
        take-append front (proof_mark ++ proof) refl in
      rw (rfind-proof front proof h, e, before, behind)
        (elim (Bool-cases (eqb (client_proof crypto s.method salted messages) proof)) [
          | inl same ↦ rw same
          | inr other ↦ rw other
        ])

split_from-NoComma :
    (part xs rest : Str)
    → NoComma xs
    → split_from part (xs ++ b',' ∷ rest) ≡ (part ++ xs) ∷ split_from [] rest
unfolding split_from
split_from-NoComma part [] rest h = rw (append-nil part)
split_from-NoComma part (x ∷ xs) rest h = rw (
  ==_ne x b',' h.0,
  split_from-NoComma (part ++ x ∷ []) xs rest h.1,
  append_assoc part (x ∷ []) xs,
)

split_from-last : (part xs : Str) → NoComma xs → split_from part xs ≡ (part ++ xs) ∷ []
unfolding split_from
split_from-last part [] h = rw (append-nil part)
split_from-last part (x ∷ xs) h =
    rw (==_ne x b',' h.0, split_from-last (part ++ x ∷ []) xs h.1, append_assoc part (x ∷ []) xs)

-- "n=user,r=nonce", the first message without its three first characters.
abbrev pub bare_message : (user nonce : Str) → Str
bare_message user nonce = b'n' ∷ b'=' ∷ user ++ b',' ∷ b'r' ∷ b'=' ∷ nonce

split_payload-bare :
    (user nonce : Str)
    → NoComma user
    → NoComma nonce
    → split_payload (bare_message user nonce) ≡ (b'n', user) ∷ (b'r', nonce) ∷ []
unfolding split_payload add_parts insert
split_payload-bare user nonce hu hn = rw (
  split_from-NoComma [] (b'n' ∷ b'=' ∷ user) (b'r' ∷ b'=' ∷ nonce) (omega arith, (omega arith, hu)),
  split_from-last [] (b'r' ∷ b'=' ∷ nonce) (omega arith, (omega arith, hn)),
)

-- "r=", both nonces, ",s=", the salt, and the iterations.
abbrev pub first_answer : Scram → Str → Str
first_answer s nonce = b'r' ∷ b'=' ∷ nonce ++ s.snonce ++ b',' ∷ b's' ∷ b'=' ∷ s.salt ++ iterations

-- A first message of the configured user is answered with both nonces, the salt and the iterations;
-- the object then has the salted password and what both have said. Any other user is refused.
pub process_client_first_message-bare :
    (crypto : Crypto) (real_user password : Str) (s : Scram) (g1 g2 g3 : ℕ) (user nonce : Str)
    → NoComma user
    → NoComma nonce
    → process_client_first_message crypto real_user password s
        (g1 ∷ g2 ∷ g3 ∷ bare_message user nonce)
      ≡ (if eqb user real_user
          then (
            record s {
              salted_password = some (crypto.salt_password s.method real_user password s.salt);
              messages = s.messages ++ bare_message user nonce ∷ first_answer s nonce ∷ [];
            },
            ok (first_answer s nonce),
          )
          else (s, raise (exception "Wrong username")))
unfolding process_client_first_message get_salted_password lookup
process_client_first_message-bare crypto real_user password s g1 g2 g3 user nonce hu hn =
    elim (Bool-cases (eqb user real_user)) [
      | inl same ↦ rw (process_client_first_message, split_payload-bare user nonce hu hn, same)
      | inr other ↦ rw (process_client_first_message, split_payload-bare user nonce hu hn, other)
    ]
