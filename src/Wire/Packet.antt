-- ===== src/Wire/Packet.antt =====
-- mindsdb/api/mysql/mysql_proxy/data_types/mysql_packet.py: packets on a connection.
-- The socket is the list of segments in which the peer's bytes become available; `recv(n)` gives
-- bytes of the first segment only, as many as `n` at most, and nothing after the peer has closed.
pub mod Framing
pub mod Stream
pub mod Faults
use mathlib.Core.Option
use mindsdb_database_ai.Prelude.{
  ℕ, zero, suc, ◌+◌, ◌%◌, Option, none, some, true, false, List, [], ◌∷◌, ◌++◌, length, take, drop,
  get_elem?, Result, ok, raise, ◌>>=◌, or_raise, index_error, ltb, leb, ◌==◌, if◌then◌else◌,
}
use mindsdb_database_ai.Prelude.Bytes.{Bytes, le_val, pack_i, pack_b, unpack_u32}

-- MAX_PACKET_SIZE of libs/constants/mysql.py.
abbrev pub max_packet_size : ℕ
max_packet_size = 16777215

pub record Packet : Type 0 where
  pub packet_length : ℕ
  pub seq : ℕ
  pub body : Bytes

-- `load_from_params`
abbrev pub load_from_params : ℕ → ℕ → Bytes → Packet
load_from_params n seq body = record { packet_length = n; seq = seq; body = body }

unfoldable pub set_body : Packet → Bytes → Packet
set_body p body_string = record p { body = body_string; packet_length = length body_string }

unfoldable pub load_from_packet_string : Bytes → Result Packet
unfolding unpack_u32
load_from_packet_string s = do
  len_header ← unpack_u32 (take 3 s ++ 0 ∷ [])
  count_header ← or_raise (get_elem? s 3) index_error
  ok (load_from_params len_header count_header (drop 4 s))

-- `get_packet_string`: three bytes of length, one of the sequence number, the body.
unfoldable pub get_packet_string : Packet → Result Bytes
unfolding pack_i pack_b
get_packet_string p = do
  len_header ← pack_i p.packet_length
  count_header ← pack_b p.seq
  ok (take 3 len_header ++ count_header ++ p.body)

abbrev pub Socket : Type 0
Socket = List Bytes

unfoldable pub recv : ℕ → Socket → Bytes × Socket
recv n [] = ([], [])
recv n (c ∷ cs) = if leb (length c) n then (c, cs) else (take n c, drop n c ∷ cs)

-- The part of the session that packets use, and its socket.
pub record Conn : Type 0 where
  pub packet_sequence_number : ℕ
  pub socket : Socket

unfoldable pub inc_packet_sequence_number : Conn → Conn
inc_packet_sequence_number c = record c {
  packet_sequence_number = (c.packet_sequence_number + 1) % 256;
}

-- What a round of the loop in `get` comes to: False, the end of the loop with the last count and
-- the body, or another round.
pub data Round : Type 0 where
  closed : Socket → Round
  done : Socket → ℕ → Bytes → Round
  again : Socket → Bytes → Round

abbrev pub chunk_round : ℕ → ℕ → Bytes → Bytes × Socket → Round
chunk_round len_header count body (chunk, sock) =
    if len_header == max_packet_size
    then again sock (body ++ chunk)
    else done sock count (body ++ chunk)

abbrev pub body_round : ℕ → ℕ → Bytes → Socket → Round
body_round len_header count body sock =
    if len_header == 0
    then done sock count body
    else chunk_round len_header count body (recv len_header sock)

abbrev pub count_round : Option ℕ → ℕ → Bytes → Socket → Round
count_round none len_header body sock = closed sock
count_round (some count) len_header body sock = body_round len_header count body sock

abbrev pub header_round : Bytes → Bytes × Socket → Round
header_round body (packet_string, sock) =
    count_round (get_elem? packet_string 3) (le_val (take 3 packet_string)) body sock

unfoldable pub get_round : Socket → Bytes → Round
get_round sock body = header_round body (recv 4 sock)

-- The socket behind, and `none` for the answer False, or the last count and the body.
abbrev pub Got : Type 0
Got = Socket × Option (ℕ × Bytes)

-- The loop of `get`, with fuel; `none` means that the fuel ran out.
unfoldable pub get_loop : ℕ → Socket → Bytes → Option Got
get_loop zero sock body = none
get_loop (suc f) sock body = elim (get_round sock body) [
  | closed sock' ↦ some (sock', none)
  | done sock' count body' ↦ some (sock', some (count, body'))
  | again sock' body' ↦ get_loop f sock' body'
]

abbrev pub bytes_pending : Socket → ℕ
bytes_pending [] = 0
bytes_pending (c ∷ cs) = length c + bytes_pending cs

abbrev pub finish : Conn → Got → Conn × Option Packet
finish c (sock, none) = (record c { socket = sock }, none)
finish c (sock, some (count, body)) = (
  record { packet_sequence_number = (count + 1) % 256; socket = sock },
  some (load_from_params (length body) count body),
)

-- `get` with the packet that it has read; each round takes the four bytes of a header at least, so
-- the bytes on their way bound the rounds.
unfoldable pub get : Conn → Option (Conn × Option Packet)
unfolding get_loop
get c = Option.map (finish c) (get_loop (suc (bytes_pending c.socket)) c.socket [])
