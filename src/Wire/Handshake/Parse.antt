-- ===== src/Wire/Handshake/Parse.antt =====
-- A client's answer, laid out as the protocol prescribes, is taken apart into its fields.
use mindsdb_database_ai.Prelude.{
  ℕ, ◌^◌, ◌≤◌, ◌<◌, ◌≡◌, ◌≢◌, refl, arith, Bool, true, false, some, [], ◌∷◌, ◌++◌, ◌&&◌, length,
  replicate, ok, ◌>>=◌, ==_ne, length-append, append_assoc, Bool-cases, inl, inr,
}
use mindsdb_database_ai.Prelude.Bytes.{Bytes, le_bytes}
use mindsdb_database_ai.Wire.Datum.{Datum, Value, bytes, num}
use mindsdb_database_ai.Wire.Datum.RoundTrip.{
  Reads, Reads-num, Reads-nul, Reads-fixed, Reads-lenenc, NoNul,
}
use mindsdb_database_ai.Wire.Datum.Lenenc.{protocol_int}
use mindsdb_database_ai.Wire.Capabilities.{
  has, client_connect_with_db, client_plugin_auth, client_plugin_auth_lenenc_client_data,
  client_secure_connection,
}
use mindsdb_database_ai.Wire.Handshake.{
  Response, handshake_response, ssl_request, empty, read, read_if, read_password, parse_response,
  parse_ssl_request, is_ssl_request, setup, nul_field,
}

-- What a client sends; `database` and `plugin` only with their flags.
pub record Client : Type 0 where
  pub capabilities : ℕ
  pub max_packet_size : ℕ
  pub charset : ℕ
  pub filler : Bytes
  pub username : Bytes
  pub auth_response : Bytes
  pub database : Bytes
  pub plugin : Bytes
  pub attributes : Bytes

-- The length of the password's answer is a length-encoded number.
abbrev pub uses_lenenc : ℕ → Client → Bool
uses_lenenc server_capabilities c =
    has server_capabilities client_plugin_auth_lenenc_client_data
    && has c.capabilities client_plugin_auth_lenenc_client_data

-- Otherwise it is one byte, and both sides use secure connections.
abbrev pub PasswordFits : Bool → ℕ → Client → Type 0
PasswordFits true server_capabilities c = length c.auth_response < 2 ^ 24
PasswordFits false server_capabilities c =
    (length c.auth_response < 256)
    × (has server_capabilities client_secure_connection ≡ true)
    × (has c.capabilities client_secure_connection ≡ true)

pub record IsClient (server_capabilities : ℕ) (c : Client) : Type 0 where
  pub capabilities : c.capabilities < 2 ^ 32
  pub max_packet_size : c.max_packet_size < 2 ^ 32
  pub charset : c.charset < 256
  pub filler : length c.filler ≡ 23
  pub username : NoNul c.username
  pub password : PasswordFits (uses_lenenc server_capabilities c) server_capabilities c
  pub database : NoNul c.database
  pub plugin : NoNul c.plugin

-- A text field with its flag.
abbrev pub part_if : Bool → Bytes → Bytes
part_if true bs = bs ++ 0 ∷ []
part_if false bs = []

abbrev pub value_if : Bool → Bytes → Value
value_if true bs = bytes bs
value_if false bs = bytes []

abbrev pub length_bytes : Bool → ℕ → Bytes
length_bytes true n = protocol_int n
length_bytes false n = le_bytes 1 n

abbrev pub behind_name : ℕ → Client → Bytes
behind_name s c =
    (length_bytes (uses_lenenc s c) (length c.auth_response) ++ c.auth_response)
    ++ (part_if (has c.capabilities client_connect_with_db) c.database
        ++ (part_if (has c.capabilities client_plugin_auth) c.plugin ++ c.attributes))

-- The answer to a server with these capabilities.
abbrev pub message : ℕ → Client → Bytes
message s c =
    le_bytes 4 c.capabilities
    ++ (le_bytes 4 c.max_packet_size
        ++ (le_bytes 1 c.charset ++ (c.filler ++ ((c.username ++ 0 ∷ []) ++ behind_name s c))))

read-Reads :
    (d : Datum) (bs : Bytes) (v : Value) (rest : Bytes)
    → Reads d bs v
    → read d (bs ++ rest) ≡ ok (v, rest)
read-Reads d bs v rest h = rw (h rest)

read_if-part_if :
    (flag : Bool) (bs rest : Bytes)
    → NoNul bs
    → read_if flag (part_if flag bs ++ rest) ≡ ok (value_if flag bs, rest)
read_if-part_if true bs rest h =
    read-Reads nul_field (bs ++ 0 ∷ []) (bytes bs) rest (Reads-nul bs h)
read_if-part_if false bs rest h = refl

-- `setup` on a body that is not empty.
setup-response :
    (s : ℕ) (body : Bytes)
    → 0 < length body
    → is_ssl_request body ≡ false
    → setup s body ≡ (parse_response s body >>= λ r. ok (some r))
unfolding setup
setup-response s [] h e = absurd (omega arith)
setup-response s (b ∷ body) h e = rw e

setup-ssl :
    (s : ℕ) (body : Bytes)
    → 0 < length body
    → is_ssl_request body ≡ true
    → setup s body ≡ (parse_ssl_request body >>= λ r. ok (some r))
unfolding setup
setup-ssl s [] h e = absurd (omega arith)
setup-ssl s (b ∷ body) h e = rw e

is_ssl_request_ne : (body : Bytes) → length body ≢ 32 → is_ssl_request body ≡ false
unfolding is_ssl_request
is_ssl_request_ne body h = rw (==_ne (length body) 32 h)

module _ (server_capabilities : ℕ) (c : Client) (h : IsClient server_capabilities c) where
  read_auth_response :
      (rest : Bytes)
      → read_password server_capabilities c.capabilities (
          (length_bytes (uses_lenenc server_capabilities c) (length c.auth_response)
            ++ c.auth_response)
          ++ rest)
        ≡ ok (bytes c.auth_response, rest)
  unfolding read_password
  read_auth_response rest = elim (Bool-cases (uses_lenenc server_capabilities c)) [
    | inl e ↦
        (let short = rw e at (h.password) in
          rw (read_password, e, Reads-lenenc c.auth_response short rest) refl)
    | inr e ↦
        (let (short, server_secure, client_secure) = rw e at (h.password) in
          rw
            (
              read_password,
              e,
              server_secure,
              client_secure,
              append_assoc (le_bytes 1 (length c.auth_response)) c.auth_response rest,
              Reads-num 1 (length c.auth_response) (omega arith) (omega (arith, short))
                  (c.auth_response ++ rest),
              Reads-fixed c.auth_response refl rest,
            )
            refl)
  ]

  length-message : 33 ≤ length (message server_capabilities c)
  length-message =
      unfold le_bytes in
      omega (
        arith,
        h.filler,
        length-append c.filler ((c.username ++ 0 ∷ []) ++ behind_name server_capabilities c),
        length-append (c.username ++ 0 ∷ []) (behind_name server_capabilities c),
        length-append c.username (0 ∷ []),
      )

  abbrev pub response : Response
  response = record {
    kind = handshake_response;
    capabilities = num c.capabilities;
    max_packet_size = num c.max_packet_size;
    charset = num c.charset;
    username = bytes c.username;
    enc_password = bytes c.auth_response;
    database = value_if (has c.capabilities client_connect_with_db) c.database;
    client_auth_plugin = value_if (has c.capabilities client_plugin_auth) c.plugin;
  }

  parse-message : parse_response server_capabilities (message server_capabilities c) ≡ ok response
  unfolding parse_response
  parse-message = rw (
    Reads-num 4 c.capabilities (omega arith) h.capabilities,
    Reads-num 4 c.max_packet_size (omega arith) h.max_packet_size,
    Reads-num 1 c.charset (omega arith) (omega (arith, h.charset)),
    Reads-fixed c.filler h.filler,
    Reads-nul c.username h.username,
    read_auth_response,
    read_if-part_if (has c.capabilities client_connect_with_db) c.database _ h.database,
    read_if-part_if (has c.capabilities client_plugin_auth) c.plugin _ h.plugin,
  )

  -- A client's answer in the protocol's layout, where the client and the server both send the
  -- password's answer with a length-encoded length (below 2 ^ 24) or else both use secure
  -- connections: every field has the value that the client put there, whatever attributes follow; a
  -- database and a plugin that the flags leave out are empty. Numbers fit their fields, and the
  -- names have no NUL.
  pub setup-message : setup server_capabilities (message server_capabilities c) ≡ ok (some response)
  setup-message = rw (
    setup-response server_capabilities (message server_capabilities c)
        (omega (arith, length-message))
        (is_ssl_request_ne (message server_capabilities c) (omega (arith, length-message))),
    parse-message,
  )

-- The answer that only asks for TLS: its 32 bytes are read as three numbers, and nothing else is.
pub setup-ssl_request :
    (server_capabilities capabilities max_packet_size charset : ℕ)
    → capabilities < 2 ^ 32
    → max_packet_size < 2 ^ 32
    → charset < 256
    → setup server_capabilities (
        le_bytes 4 capabilities
        ++ (le_bytes 4 max_packet_size ++ (le_bytes 1 charset ++ replicate 23 0)))
      ≡ ok (
          some (record (empty ssl_request) {
            capabilities = num capabilities;
            max_packet_size = num max_packet_size;
            charset = num charset;
          }))
setup-ssl_request s a m c ha hm hc =
    let body : Bytes = le_bytes 4 a ++ (le_bytes 4 m ++ (le_bytes 1 c ++ replicate 23 0)) in
    rw (setup-ssl s body (unfold le_bytes in omega arith) (unfold is_ssl_request le_bytes in refl))
      (unfold parse_ssl_request in
        rw (
          Reads-num 4 a (omega arith) ha,
          Reads-num 4 m (omega arith) hm,
          Reads-num 1 c (omega arith) (omega arith),
        ))
