-- ===== src/Mongo/Socket.antt =====
-- `MongoRequestHandler._read_bytes` of mindsdb/api/mongo/server.py, over a socket that is the list of
-- segments in which the peer's bytes become available.
pub mod Segments
use mindsdb_database_ai.Prelude.{
  ℕ, zero, suc, ◌-◌, Bool, true, false, Option, none, some, [], ◌∷◌, ◌++◌, length, ◌==◌,
}
use mindsdb_database_ai.Prelude.Bytes.{Bytes}
use mindsdb_database_ai.Wire.Packet.{Socket, recv}

-- What a call leaves: the bytes, or `none` for the answer False, and the socket behind.
abbrev pub Reading : Type 0
Reading = Option Bytes × Socket

-- The loop with `length` bytes to come, on fuel; `none` means that the fuel ran out.
unfoldable pub read_loop : ℕ → ℕ → Socket → Bytes → Option Reading
read_loop zero n sock buffer = none
read_loop (suc f) zero sock buffer = some (some buffer, sock)
read_loop (suc f) (suc n) sock buffer =
    let (chunk, sock') = recv (suc n) sock in
    elim (length chunk == 0) [
      | true ↦ some (none, sock')
      | false ↦ read_loop f (suc n - length chunk) sock' (buffer ++ chunk)
    ]

-- Each round takes a byte at least.
unfoldable pub read_bytes : ℕ → Socket → Option Reading
read_bytes n sock = read_loop (suc n) n sock []
