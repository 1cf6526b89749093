-- ===== src/Mongo/LoginTests.antt =====
-- The theorems on the login and on the predictors at concrete inputs.
use mindsdb_database_ai.Prelude.{
  ◌≡◌, ◌≢◌, ◌+◌, refl, arith, false, key_error, none, some, [], ◌∷◌, ◌++◌, All, if◌then◌else◌,
}
use mindsdb_database_ai.Prelude.Text.{Str, utf8, IsScalar}
use mindsdb_database_ai.Prelude.StrEq.{eqb}
use mindsdb_database_ai.Mongo.Scram.{
  Crypto, Method, sha1, Scram, proof_mark, client_proof, server_answer,
}
use mindsdb_database_ai.Mongo.Scram.Proof.{first_answer}
use mindsdb_database_ai.Mongo.Sasl.{success, failure, sasl_start, sasl_continue}
use mindsdb_database_ai.Mongo.Sasl.Exchange.{first_message, salted, started, sasl_exchange}
use mindsdb_database_ai.Mongo.Predictors.{predictors, name_key, is_model, Cleanup, delete}
use mindsdb_database_ai.Mongo.Predictors.Deleted.{records_of, cleans, answer_to, delete-named}

-- Hashes that only join their arguments.
abbrev crypto : Crypto
crypto = record {
  hmac = λ m key msg. key ++ msg;
  digest = λ m msg. msg;
  xor = λ a b. a;
  b64encode = λ bs. bs;
  salt_password = λ m user password salt. utf8 (user ++ password ++ salt);
}

abbrev fresh : Method → Scram
fresh m = record {
  method = m;
  snonce = b'7' ∷ [];
  salt = b's' ∷ [];
  messages = [];
  salted_password = none;
}

-- "me", "pw", a nonce, a message and a proof.
abbrev me : Str
me = b'm' ∷ b'e' ∷ []

abbrev pw : Str
pw = b'p' ∷ b'w' ∷ []

abbrev nonce : Str
nonce = b'1' ∷ []

abbrev proof : Str
proof = b'z' ∷ []

first_message-IsScalar : All IsScalar (first_message crypto me pw nonce fresh)
first_message-IsScalar =
    (refl, (refl, (refl, (refl, (refl, (refl, (refl, (refl, (refl, (refl, (refl, tt)))))))))))

sasl_exchange_example :
    let (scram', reply) =
      sasl_start crypto me pw fresh none (utf8 (first_message crypto me pw nonce fresh)) none in
    let reply' = (sasl_continue crypto (utf8 ((b'c' ∷ []) ++ (proof_mark ++ proof))) scram').1 in
    let messages = (started crypto me pw nonce fresh).messages ++ (b'c' ∷ []) ∷ [] in
    (reply ≡ success false (some (first_answer (fresh sha1) nonce)))
    × (reply' ≡ (
        if eqb (client_proof crypto sha1 (salted crypto me pw nonce fresh) messages) proof
        then success false
            (some (server_answer crypto sha1 (salted crypto me pw nonce fresh) messages))
        else failure))
sasl_exchange_example =
    sasl_exchange crypto me pw nonce fresh none b'c' [] proof (omega arith, (omega arith, tt))
      (omega arith, tt) (omega arith, tt) first_message-IsScalar
      (refl, (refl, (refl, (refl, (refl, tt)))))

-- Taking a name out of the handlers works, and deleting files fails.
abbrev no_files : Cleanup
no_files = record { unregister_predictor = λ name. none; delete_files = λ name. some key_error }

delete-named_example :
    let (answer, left) = delete no_files predictors (((name_key, me) ∷ []) ∷ []) (pw ∷ me ∷ []) in
    (answer ≡ answer_to (is_model me (pw ∷ me ∷ [])) (cleans no_files me))
    × (records_of me left + (if is_model me (pw ∷ me ∷ []) then 1 else 0)
        ≡ records_of me (pw ∷ me ∷ []))
    × ((other : Str) → other ≢ me → records_of other left ≡ records_of other (pw ∷ me ∷ []))
delete-named_example = delete-named no_files me (pw ∷ me ∷ [])
