-- ===== src/Mongo/Sasl/Exchange.antt =====
-- A whole login.
use mindsdb_database_ai.Prelude.{
  ℕ, ◌≡◌, refl, true, false, Option, none, some, List, [], ◌∷◌, ◌++◌, All, Result, ok, raise,
  if◌then◌else◌, Bool-cases, inl, inr,
}
use mindsdb_database_ai.Prelude.Bytes.{Bytes}
use mindsdb_database_ai.Prelude.Text.{Str, utf8, IsScalar, decode-utf8}
use mindsdb_database_ai.Prelude.StrEq.{eqb, eqb_iff}
use mindsdb_database_ai.Mongo.Scram.{
  Crypto, Method, sha1, Scram, proof_mark, client_proof, server_answer,
  process_client_second_message,
}
use mindsdb_database_ai.Mongo.Scram.Proof.{
  NoComma, bare_message, first_answer, process_client_first_message-bare,
  process_client_second_message-proof,
}
use mindsdb_database_ai.Mongo.Sasl.{
  Reply, success, failure, second_reply, sasl_start, sasl_continue,
}

module _ (crypto : Crypto) (user password nonce : Str) (fresh : Method → Scram) where
  -- "n,," and the bare message.
  abbrev pub first_message : Str
  first_message = b'n' ∷ b',' ∷ b',' ∷ bare_message user nonce

  abbrev pub salted : Bytes
  salted = crypto.salt_password (fresh sha1).method user password (fresh sha1).salt

  abbrev pub started : Scram
  started = record (fresh sha1) {
    salted_password = some salted;
    messages =
        (fresh sha1).messages ++ bare_message user nonce ∷ first_answer (fresh sha1) nonce ∷ [];
  }

  -- The configured user's first message starts an exchange, whatever the session had before.
  sasl_start-first_message :
      (scram : Option Scram)
      → NoComma user
      → NoComma nonce
      → All IsScalar first_message
      → sasl_start crypto user password fresh none (utf8 first_message) scram
        ≡ (some started, success false (some (first_answer (fresh sha1) nonce)))
  unfolding sasl_start eqb
  sasl_start-first_message scram hu hn hs =
      let same : eqb user user ≡ true = (eqb_iff user user).1 refl in
      rw (
        sasl_start,
        decode-utf8 first_message hs,
        process_client_first_message-bare crypto user password (fresh sha1) b'n' b',' b',' user
            nonce hu hn,
        same,
      )

  abbrev reply_of : Result Str → Reply
  reply_of (ok answer) = success false (some answer)
  reply_of (raise e) = failure

  second_reply_lem : (p : Scram × Result Str) → (second_reply crypto p).1 ≡ reply_of p.1
  second_reply_lem (s, ok answer) = refl
  second_reply_lem (s, raise e) = refl

  -- A login with SCRAM-SHA-1, whatever the session had before: the configured user's first message is
  -- answered, and the second message is answered with the server's signature exactly when it ends in
  -- the proof that follows from the salted password and from all three messages before it; with any
  -- other proof the login fails. User, nonce and proof have no comma.
  pub sasl_exchange :
      (scram : Option Scram) (c : ℕ) (front proof : Str)
      → NoComma user
      → NoComma nonce
      → NoComma proof
      → All IsScalar first_message
      → All IsScalar ((c ∷ front) ++ (proof_mark ++ proof))
      → let (scram', reply) =
          sasl_start crypto user password fresh none (utf8 first_message) scram in
        let reply' =
          (sasl_continue crypto (utf8 ((c ∷ front) ++ (proof_mark ++ proof))) scram').1 in
        let messages = started.messages ++ (c ∷ front) ∷ [] in
        (reply ≡ success false (some (first_answer (fresh sha1) nonce)))
        × (reply' ≡ (
            if eqb (client_proof crypto started.method salted messages) proof
            then success false (some (server_answer crypto started.method salted messages))
            else failure))
  unfolding sasl_continue
  sasl_exchange scram c front proof hu hn hp hs hs' =
      let first = sasl_start-first_message scram hu hn hs in
      let payload : Str = (c ∷ front) ++ (proof_mark ++ proof) in
      let messages : List Str = started.messages ++ (c ∷ front) ∷ [] in
      let second =
        process_client_second_message-proof crypto started salted (c ∷ front) proof refl hp in
      rw first (
        refl,
        rw
            (
              decode-utf8 payload hs',
              second_reply_lem (process_client_second_message crypto started payload),
              second,
            )
            (elim (Bool-cases (eqb (client_proof crypto started.method salted messages) proof)) [
              | inl same ↦ rw same
              | inr other ↦ rw other
            ]),
      )
