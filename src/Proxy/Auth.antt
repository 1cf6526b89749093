-- ===== src/Proxy/Auth.antt =====
-- Who may connect: `check_auth` and the choice of the password in `MysqlProxy.handshake`, both of
-- mindsdb/api/mysql/mysql_proxy/mysql_proxy.py. `scramble` is `scramble_func`, the hash of a
-- password and a salt, which comes from PyMySQL.
pub mod Rules
use mindsdb_database_ai.Prelude.{
  ℕ, Bool, true, false, not, Option, none, some, List, [], ◌∷◌, ◌++◌, ◌&&◌, length, ◌==◌,
  if◌then◌else◌,
}
use mindsdb_database_ai.Prelude.Bytes.{Bytes}
use mindsdb_database_ai.Prelude.Text.{Str, utf8}
use mindsdb_database_ai.Prelude.StrEq.{eqb, is_in}

-- config['api']['mysql']: a key may be missing.
pub record Config : Type 0 where
  pub user : Option Str
  pub password : Option Str

-- What a client proves itself with.
pub data Password : Type 0 where
  no_password : Password
  str_password : Str → Password
  bytes_password : Bytes → Password

-- The dict that `check_auth` returns.
pub data AuthData : Type 0 where
  failure : AuthData
  success : (username : Str) → Option (Str × Str) → AuthData

-- `if password is None: password = ''`, and `encode`.
abbrev pub password_bytes : Password → Bytes
password_bytes no_password = []
password_bytes (str_password s) = utf8 s
password_bytes (bytes_password bs) = bs

-- f'{hardcoded_user}_{integration_name}'
abbrev pub user_of : Str → Str → Str
user_of hardcoded_user name = hardcoded_user ++ b'_' ∷ name

-- The loop over the names and types of the integrations, `integration` being the last that fits.
unfoldable pub find_integration :
    Str → Str → List (Str × Str) → Option (Str × Str) → Option (Str × Str)
find_integration hardcoded_user username [] integration = integration
find_integration hardcoded_user username (x ∷ xs) integration =
    find_integration hardcoded_user username xs
      (if eqb username (user_of hardcoded_user x.0) then some x else integration)

abbrev pub extracted : Str → Str → Option (Str × Str) → Str
extracted hardcoded_user username none = username
extracted hardcoded_user username (some x) = hardcoded_user

-- "mysql_native_password"
abbrev pub native : Str
native =
    b'm' ∷ b'y' ∷ b's' ∷ b'q' ∷ b'l' ∷ b'_' ∷ b'n' ∷ b'a' ∷ b't' ∷ b'i' ∷ b'v' ∷ b'e' ∷ b'_' ∷ b'p'
    ∷ b'a' ∷ b's' ∷ b's' ∷ b'w' ∷ b'o' ∷ b'r' ∷ b'd' ∷ []

-- "caching_sha2_password", which is DEFAULT_AUTH_METHOD too.
abbrev pub caching : Str
caching =
    b'c' ∷ b'a' ∷ b'c' ∷ b'h' ∷ b'i' ∷ b'n' ∷ b'g' ∷ b'_' ∷ b's' ∷ b'h' ∷ b'a' ∷ b'2' ∷ b'_' ∷ b'p'
    ∷ b'a' ∷ b's' ∷ b's' ∷ b'w' ∷ b'o' ∷ b'r' ∷ b'd' ∷ []

abbrev pub default_auth_method : Str
default_auth_method = caching

-- What the server sends while it asks for a password.
pub data Sent : Type 0 where
  switch_out : (method : Str) → Sent
  fast_auth_fail : Sent
  error_packet : Sent

-- `handshake` goes on with a password, or returns False.
pub data Asked : Type 0 where
  refused : List Sent → Asked
  asked : List Sent → Password → Asked

module _ (scramble : Str → Str → Bytes) where
  -- `none` is what is left when an exception was caught: the function returns None.
  unfoldable pub check_auth_with : Str → Str → List (Str × Str) → Str → Password → Str → AuthData
  check_auth_with hardcoded_user hardcoded_password integrations username password salt =
      let integration = find_integration hardcoded_user username integrations none in
      let given = password_bytes password in
      if not (eqb (extracted hardcoded_user username integration) hardcoded_user)
      then failure
      else if not (eqb given (utf8 hardcoded_password))
          && not (eqb given (scramble hardcoded_password salt))
      then failure
      else success (extracted hardcoded_user username integration) integration

  unfoldable pub check_auth : Config → List (Str × Str) → Str → Password → Str → Option AuthData
  check_auth config integrations username password salt = elim config.user [
    | none ↦ none
    | some user ↦ elim config.password [
      | none ↦ none
      | some word ↦ some (check_auth_with user word integrations username password salt)
    ]
  ]

  -- `switch_auth`: the client's answer, or the hash of no password where it is empty.
  abbrev pub switched : Str → Str → Bytes → Password
  switched salt method answer =
      bytes_password
        (if eqb method native && (length answer == 0) then scramble [] salt else answer)

  -- `get_fast_auth_password`, whose answer may hold no password.
  abbrev pub fast_auth : List Sent → Option Str → Asked
  fast_auth sent none = asked (sent ++ fast_auth_fail ∷ error_packet ∷ []) no_password
  fast_auth sent (some s) = asked (sent ++ fast_auth_fail ∷ []) (str_password s)

  abbrev pub is_zero : Bytes → Bool
  is_zero bs = eqb bs (0 ∷ [])

  -- The branch of a plugin that is neither the default nor the native one.
  unfoldable pub ask_other : Bool → Str → Str → Bytes → Option Str → Asked
  ask_other is_ssl client_auth_plugin salt answer fast_answer =
      let new_method = if eqb client_auth_plugin caching then caching else native in
      if eqb new_method caching && not is_ssl
      then refused (error_packet ∷ [])
      else if eqb new_method caching
      then (if is_zero answer
          then asked (switch_out new_method ∷ []) (str_password [])
          else fast_auth (switch_out new_method ∷ []) fast_answer)
      else asked (switch_out new_method ∷ []) (switched salt new_method answer)

  -- The password that `handshake` comes to, and the packets that it sends for it. `answer` is what
  -- the client says to a switch, `fast_answer` what it says to FastAuthFail.
  unfoldable pub ask_password : Bool → Str → Bytes → Str → Bytes → Option Str → Asked
  ask_password is_ssl client_auth_plugin enc_password salt answer fast_answer =
      if not (eqb client_auth_plugin default_auth_method)
      then (if eqb client_auth_plugin native
          then asked (switch_out native ∷ []) (switched salt native answer)
          else ask_other is_ssl client_auth_plugin salt answer fast_answer)
      else if is_in caching client_auth_plugin
      then (if is_zero enc_password
          then asked [] (str_password [])
          else asked (switch_out native ∷ []) (switched salt native answer))
      else if is_in native client_auth_plugin
      then asked [] (bytes_password enc_password)
      else asked (switch_out native ∷ []) (switched salt native answer)
