-- ===== src/Mongo/Scram.antt =====
-- Authentication of a MongoDB client: mindsdb/api/mongo/classes/scram.py, get_salted_password of
-- classes/session.py, and the responders sasl_start.py and sasl_continue.py. Hashes and base64 are
-- the record Crypto; the nonce and the salt of a new exchange are arguments.
pub mod Proof
use mindsdb_database_ai.Prelude.{
  ℕ, zero, suc, Bool, true, false, not, Option, none, some, List, [], ◌∷◌, ◌++◌, length, take, drop,
  drop_last, Exn, Result, ok, raise, ◌>>=◌, or_raise, key_error, attribute_error, exception, ◌==◌,
  if◌then◌else◌,
}
use mindsdb_database_ai.Prelude.Bytes.{Bytes}
use mindsdb_database_ai.Prelude.Text.{Str, utf8}
use mindsdb_database_ai.Prelude.StrEq.{eqb, starts_with}
use mindsdb_database_ai.Prelude.Table.{Table, lookup, insert}

pub data Method : Type 0 where
  sha1 sha256 : Method

pub record Crypto : Type 0 where
  pub hmac : Method → (key msg : Bytes) → Bytes
  pub digest : Method → Bytes → Bytes
  pub xor : Bytes → Bytes → Bytes
  pub b64encode : Bytes → Str
  pub salt_password : Method → (user password salt : Str) → Bytes

-- An object Scram; what is set later is an Option. client_user and unonce, which nothing reads again,
-- are left out.
pub record Scram : Type 0 where
  pub method : Method
  pub snonce : Str
  pub salt : Str
  pub messages : List Str
  pub salted_password : Option Bytes

-- `payload.split(',')`, the part that is being read first.
unfoldable pub split_from : Str → Str → List Str
split_from part [] = part ∷ []
split_from part (c ∷ s) =
    if c == b',' then part ∷ split_from [] s else split_from (part ++ c ∷ []) s

-- The loop of `_split_payload`: the first character of a part is its key.
abbrev pub add_part : Str → Table Str → Table Str
add_part [] parts = parts
add_part (c ∷ s) parts = insert c (drop 1 s) parts

unfoldable pub add_parts : List Str → Table Str → Table Str
add_parts [] parts = parts
add_parts (p ∷ ps) parts = add_parts ps (add_part p parts)

unfoldable pub split_payload : Str → Table Str
split_payload payload = add_parts (split_from [] payload) []

-- ",p="
abbrev pub proof_mark : Str
proof_mark = b',' ∷ b'p' ∷ b'=' ∷ []

-- `payload.rfind(',p=')`
unfoldable pub rfind : Str → Option ℕ
rfind [] = none
rfind (c ∷ s) = elim (rfind s) [
  | some j ↦ some (suc j)
  | none ↦ if starts_with proof_mark (c ∷ s) then some 0 else none
]

-- `payload[:i]` and `payload[i + 3:]` for the place `i`, which is -1 where there is none.
abbrev pub before_proof : Str → Option ℕ → Str
before_proof payload none = drop_last payload
before_proof payload (some i) = take i payload

abbrev pub behind_proof : Str → Option ℕ → Str
behind_proof payload none = drop 2 payload
behind_proof payload (some i) = drop 3 (drop i payload)

-- `','.join(messages)`
unfoldable pub join : List Str → Str
join [] = []
join (m ∷ []) = m
join (m ∷ n ∷ ms) = m ++ b',' ∷ join (n ∷ ms)

-- b'Server Key' and b'Client Key'
abbrev server_word : Bytes
server_word = b'S' ∷ b'e' ∷ b'r' ∷ b'v' ∷ b'e' ∷ b'r' ∷ b' ' ∷ b'K' ∷ b'e' ∷ b'y' ∷ []

abbrev client_word : Bytes
client_word = b'C' ∷ b'l' ∷ b'i' ∷ b'e' ∷ b'n' ∷ b't' ∷ b' ' ∷ b'K' ∷ b'e' ∷ b'y' ∷ []

-- "i=4096" behind a comma
abbrev pub iterations : Str
iterations = b',' ∷ b'i' ∷ b'=' ∷ b'4' ∷ b'0' ∷ b'9' ∷ b'6' ∷ []

module _ (crypto : Crypto) where
  -- The proof that a client owes who knows the salted password.
  unfoldable pub client_proof : Method → Bytes → List Str → Str
  client_proof m salted messages =
      let client_key = crypto.hmac m salted client_word in
      let client_signature = crypto.hmac m (crypto.digest m client_key) (utf8 (join messages)) in
      crypto.b64encode (crypto.xor client_key client_signature)

  unfoldable pub server_answer : Method → Bytes → List Str → Str
  server_answer m salted messages =
      b'v'
      ∷ b'='
      ∷ crypto.b64encode (crypto.hmac m (crypto.hmac m salted server_word) (utf8 (join messages)))

  abbrev pub check_proof : Scram → List Str → Str → Option Bytes → Result Str
  check_proof s messages income none = raise attribute_error
  check_proof s messages income (some salted) =
      if not (eqb (client_proof s.method salted messages) income)
      then raise (exception "wrong password")
      else ok (server_answer s.method salted messages)

  unfoldable pub process_client_second_message : Scram → Str → Scram × Result Str
  process_client_second_message s payload =
      let messages = s.messages ++ before_proof payload (rfind payload) ∷ [] in
      (
        record s { messages = messages },
        check_proof s messages (behind_proof payload (rfind payload)) s.salted_password,
      )

module _ (crypto : Crypto) (real_user password : Str) where
  -- `get_salted_password`
  unfoldable pub get_salted_password : Scram → Str → Result Bytes
  get_salted_password s username =
      if eqb username real_user
      then ok (crypto.salt_password s.method real_user password s.salt)
      else raise (exception "Wrong username")

  -- Behind the salted password, with the client's nonce where it has sent one.
  abbrev pub with_salted : Scram → Str → Result Bytes → Option Str → Scram × Result Str
  with_salted s bare (raise e) r = (s, raise e)
  with_salted s bare (ok salted) none =
      (record s { salted_password = some salted }, raise key_error)
  with_salted s bare (ok salted) (some unonce) =
      let answer = b'r' ∷ b'=' ∷ unonce ++ s.snonce ++ b',' ∷ b's' ∷ b'=' ∷ s.salt ++ iterations in
      (
        record s { salted_password = some salted; messages = s.messages ++ bare ∷ answer ∷ [] },
        ok answer,
      )

  -- The answer to the first message, and what the object then holds. The salt is encoded again as it
  -- was decoded.
  unfoldable pub process_client_first_message : Scram → Str → Scram × Result Str
  process_client_first_message s payload =
      let parts = split_payload (drop 3 payload) in
      with_salted s (drop 3 payload)
        (or_raise (lookup b'n' parts) key_error >>= get_salted_password s) (lookup b'r' parts)
