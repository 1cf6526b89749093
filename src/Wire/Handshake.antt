-- ===== src/Wire/Handshake.antt =====
-- The client's answer to the handshake: `HandshakeResponsePacket.setup` of
-- data_types/mysql_packets/handshake_response_packet.py.
pub mod Parse
use mindsdb_database_ai.Prelude.{
  ℕ, Bool, true, false, List, [], ◌∷◌, ◌&&◌, length, drop, replicate, Option, none, some, Result,
  ok, raise, ◌>>=◌, type_error, ◌==◌, if◌then◌else◌,
}
use mindsdb_database_ai.Prelude.Bytes.{Bytes}
use mindsdb_database_ai.Wire.Datum.{
  Datum, Value, VarType, fixed, lenenc, nul, int_type, string_type, bytes, text, num, int_tuple,
  null, datum, set_from_buff,
}
use mindsdb_database_ai.Wire.Capabilities.{
  has, client_connect_with_db, client_plugin_auth, client_plugin_auth_lenenc_client_data,
  client_secure_connection,
}

-- `type`
pub data Kind : Type 0 where
  ssl_request handshake_response : Kind

-- The values of the fields; a field that was not read has b''.
pub record Response : Type 0 where
  pub kind : Kind
  pub capabilities : Value
  pub max_packet_size : Value
  pub charset : Value
  pub username : Value
  pub enc_password : Value
  pub database : Value
  pub client_auth_plugin : Value

abbrev pub empty : Kind → Response
empty k = record {
  kind = k;
  capabilities = bytes [];
  max_packet_size = bytes [];
  charset = bytes [];
  username = bytes [];
  enc_password = bytes [];
  database = bytes [];
  client_auth_plugin = bytes [];
}

-- `buffer = field.setFromBuff(buffer)`
abbrev pub read : Datum → Bytes → Result (Value × Bytes)
read d buffer = set_from_buff d buffer >>= λ r. ok (r.0.value, r.1)

abbrev pub int_field : ℕ → Datum
int_field k = datum int_type (fixed k)

abbrev pub nul_field : Datum
nul_field = datum string_type nul

-- A value that code uses as a number.
abbrev pub num_of : Value → Result ℕ
num_of (num n) = ok n
num_of _ = raise type_error

-- The three ways in which the password is read.
unfoldable pub read_password : ℕ → ℕ → Bytes → Result (Value × Bytes)
read_password server_capabilities capabilities buffer =
    if has server_capabilities client_plugin_auth_lenenc_client_data
      && has capabilities client_plugin_auth_lenenc_client_data
    then read (datum string_type lenenc) buffer
    else if has server_capabilities client_secure_connection
        && has capabilities client_secure_connection
    then (read (int_field 1) buffer >>= λ r.
        num_of r.0 >>= λ auth_resp_len. read (datum string_type (fixed auth_resp_len)) r.1)
    else (read (int_field 1) buffer >>= λ r. ok (bytes [], r.1))

-- `if flag: buffer = field.setFromBuff(buffer)`
abbrev pub read_if : Bool → Bytes → Result (Value × Bytes)
read_if true buffer = read nul_field buffer
read_if false buffer = ok (bytes [], buffer)

unfoldable pub parse_ssl_request : Bytes → Result Response
parse_ssl_request body = do
  (capabilities, buffer) ← read (int_field 4) body
  (max_packet_size, buffer') ← read (int_field 4) buffer
  (charset, buffer'') ← read (int_field 1) buffer'
  ok (record (empty ssl_request) {
    capabilities = capabilities;
    max_packet_size = max_packet_size;
    charset = charset;
  })

unfoldable pub parse_response : ℕ → Bytes → Result Response
parse_response server_capabilities body = do
  (capabilities, b1) ← read (int_field 4) body
  (max_packet_size, b2) ← read (int_field 4) b1
  (charset, b3) ← read (int_field 1) b2
  (reserved, b4) ← read (datum string_type (fixed 23)) b3
  (username, b5) ← read nul_field b4
  caps ← num_of capabilities
  (enc_password, b6) ← read_password server_capabilities caps b5
  (database, b7) ← read_if (has caps client_connect_with_db) b6
  (client_auth_plugin, b8) ← read_if (has caps client_plugin_auth) b7
  ok (record {
    kind = handshake_response;
    capabilities = capabilities;
    max_packet_size = max_packet_size;
    charset = charset;
    username = username;
    enc_password = enc_password;
    database = database;
    client_auth_plugin = client_auth_plugin;
  })

-- `body == bytes of zeros`
abbrev pub all_zero : Bytes → Bool
all_zero [] = true
all_zero (b ∷ bs) = b == 0 && all_zero bs

-- `len(body) == 32 and body[9:] == b'\x00' * 23`
unfoldable pub is_ssl_request : Bytes → Bool
is_ssl_request body = length body == 32 && all_zero (drop 9 body)

-- `setup` with a body; `none` is the early return on an empty one.
unfoldable pub setup : ℕ → Bytes → Result (Option Response)
setup server_capabilities [] = ok none
setup server_capabilities (b ∷ body) =
    (if is_ssl_request (b ∷ body)
      then parse_ssl_request (b ∷ body)
      else parse_response server_capabilities (b ∷ body))
    >>= λ r. ok (some r)
