-- ===== src/Mongo/Sasl.antt =====
-- The responders of a login: mindsdb/api/mongo/responders/sasl_start.py and sasl_continue.py, and
-- init_scram of classes/session.py. `fresh` makes the object Scram of a new exchange.
pub mod Exchange
use mindsdb_database_ai.Prelude.{
  Bool, true, false, Option, none, some, [], ◌∷◌, Result, ok, raise, if◌then◌else◌,
}
use mindsdb_database_ai.Prelude.Bytes.{Bytes}
use mindsdb_database_ai.Prelude.Text.{Str, decode}
use mindsdb_database_ai.Prelude.StrEq.{eqb}
use mindsdb_database_ai.Mongo.Scram.{
  Crypto, Method, sha1, sha256, Scram, process_client_first_message, process_client_second_message,
}

-- The dict of an answer: with 'ok': 1, whether the exchange is done, and the payload; or 'ok': 0.
pub data Reply : Type 0 where
  success : (done : Bool) → Option Str → Reply
  failure : Reply

-- "SCRAM-SHA-1" and "SCRAM-SHA-256"
abbrev pub scram_sha_1 : Str
scram_sha_1 = b'S' ∷ b'C' ∷ b'R' ∷ b'A' ∷ b'M' ∷ b'-' ∷ b'S' ∷ b'H' ∷ b'A' ∷ b'-' ∷ b'1' ∷ []

abbrev pub scram_sha_256 : Str
scram_sha_256 =
    b'S' ∷ b'C' ∷ b'R' ∷ b'A' ∷ b'M' ∷ b'-' ∷ b'S' ∷ b'H' ∷ b'A' ∷ b'-' ∷ b'2' ∷ b'5' ∷ b'6' ∷ []

-- `session.scram`, which a session gets with its first exchange.
abbrev pub init_scram : (Method → Scram) → Str → Option Scram → Option Scram
init_scram fresh mechanism scram =
    if eqb mechanism scram_sha_1
    then some (fresh sha1)
    else if eqb mechanism scram_sha_256
    then some (fresh sha256)
    else scram

module _ (crypto : Crypto) (real_user password : Str) where
  abbrev pub first_reply : Scram × Result Str → Option Scram × Reply
  first_reply (s, ok answer) = (some s, success false (some answer))
  first_reply (s, raise e) = (some s, failure)

  abbrev pub start_with : Option Scram → Str → Option Scram × Reply
  start_with none payload = (none, failure)
  start_with (some s) payload =
      first_reply (process_client_first_message crypto real_user password s payload)

  abbrev pub start_decoded :
      (Method → Scram) → Str → Option Scram → Result Str → Option Scram × Reply
  start_decoded fresh mechanism scram (raise e) = (scram, failure)
  start_decoded fresh mechanism scram (ok payload) =
      start_with (init_scram fresh mechanism scram) payload

  -- `saslStart`
  unfoldable pub sasl_start :
      (Method → Scram) → (mechanism : Option Str) → Bytes → Option Scram → Option Scram × Reply
  sasl_start fresh none payload scram = start_decoded fresh scram_sha_1 scram (decode payload)
  sasl_start fresh (some mechanism) payload scram =
      start_decoded fresh mechanism scram (decode payload)

module _ (crypto : Crypto) where
  abbrev pub second_reply : Scram × Result Str → Option Scram × Reply
  second_reply (s, ok answer) = (some s, success false (some answer))
  second_reply (s, raise e) = (some s, failure)

  abbrev pub continue_with : Option Scram → Result Str → Option Scram × Reply
  continue_with scram (raise e) = (scram, failure)
  continue_with scram (ok []) = (scram, success true none)
  continue_with none (ok (c ∷ payload)) = (none, failure)
  continue_with (some s) (ok (c ∷ payload)) =
      second_reply (process_client_second_message crypto s (c ∷ payload))

  -- `saslContinue`
  unfoldable pub sasl_continue : Bytes → Option Scram → Option Scram × Reply
  sasl_continue payload scram = continue_with scram (decode payload)
