-- ===== src/Proxy/Packages.antt =====
-- Packets that are sent together: `accum` of
-- mindsdb/api/mysql/mysql_proxy/data_types/mysql_packet.py, and `send_package_group` of
-- mindsdb/api/mysql/mysql_proxy/mysql_proxy.py.
use mindsdb_database_ai.Prelude.{ℕ, List, [], ◌∷◌, ◌++◌, length, Result, ok, ◌>>=◌}
use mindsdb_database_ai.Prelude.Bytes.{Bytes}
use mindsdb_database_ai.Wire.Packet.{load_from_params, get_packet_string}

-- A packet that was made: the sequence number of that moment, and what its `body` comes to.
pub record Made : Type 0 where
  pub seq : ℕ
  pub body : Result Bytes

-- `accum`, and the bytes of all packets.
unfoldable pub accum : Made → Result Bytes
accum p = p.body >>= λ body. get_packet_string (load_from_params (length body) p.seq body)

unfoldable pub send_package_group : List Made → Result Bytes
send_package_group [] = ok []
send_package_group (p ∷ ps) = accum p >>= λ bs. send_package_group ps >>= λ rest. ok (bs ++ rest)
