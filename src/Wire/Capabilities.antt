-- ===== src/Wire/Capabilities.antt =====
-- Capability flags: mindsdb/api/mysql/mysql_proxy/classes/client_capabilities.py and
-- server_capabilities.py. The numbers are those of libs/constants/mysql.py.
use Prim.Native.Nat.{bit_and, bit_or}
use mindsdb_database_ai.Prelude.{ℕ, ◌+◌, ◌-◌, ◌^◌, Bool, ltb, if◌then◌else◌}

abbrev pub client_connect_with_db : ℕ
client_connect_with_db = 8

abbrev pub client_plugin_auth : ℕ
client_plugin_auth = 2 ^ 19

abbrev pub client_plugin_auth_lenenc_client_data : ℕ
client_plugin_auth_lenenc_client_data = 2 ^ 21

abbrev pub client_deprecate_eof : ℕ
client_deprecate_eof = 2 ^ 24

abbrev pub client_secure_connection : ℕ
client_secure_connection = 0x8000

-- DEFAULT_CAPABILITIES
abbrev pub default_capabilities : ℕ
default_capabilities = 1 + 4 + 8 + 512 + 8192 + 2 + 128 + 2 ^ 20 + 2 ^ 19 + 2048 + 0x8000 + 2 ^ 24

-- `has`, the same in both classes: capabilities first.
unfoldable pub has : ℕ → ℕ → Bool
has capabilities cap = ltb 0 (bit_and cap capabilities)

-- `ServerCapabilities.set`: to clear the flags of `cap` is to take away those that are set.
unfoldable pub set : ℕ → ℕ → Bool → ℕ
set capabilities cap value =
    if value then bit_or capabilities cap else capabilities - bit_and capabilities cap
