-- ===== src/Mongo/Reply.antt =====
-- The loop of a MongoDB connection: `MongoRequestHandler.handle` and `get_answer` of
-- mindsdb/api/mongo/server.py, and the replies of `to_bytes`. The library bson is the parameter
-- `encode` and the responders' `handle` are `respond`; `W` is what they may change, also where they
-- raise, and `none` stands for one that does not return.
pub mod Frames
pub mod Headers
pub mod Rounds
use mindsdb_database_ai.Prelude.{
  ℕ, zero, suc, ◌+◌, ◌-◌, ◌^◌, ◌<◌, Bool, true, false, Option, none, some, List, [], ◌∷◌, ◌++◌,
  length, take, drop, Exn, Result, ok, raise, ◌>>=◌, type_error, struct_error, not_implemented,
  value_error, ltb, ◌==◌, if◌then◌else◌,
}
use mindsdb_database_ai.Prelude.Bytes.{Bytes, le_bytes, le_val, pack_i}
use mindsdb_database_ai.Prelude.Int.{ℤ, pos, negsuc, signed32}
use mindsdb_database_ai.Wire.BinaryRow.{pack_signed}
use mindsdb_database_ai.Wire.Packet.{Socket}
use mindsdb_database_ai.Mongo.Socket.{Reading, read_bytes}

abbrev pub op_reply : ℕ
op_reply = 1

abbrev pub op_insert : ℕ
op_insert = 2002

abbrev pub op_query : ℕ
op_query = 2004

abbrev pub op_msg : ℕ
op_msg = 2013

-- `unpack(INT, buffer, start)` at the front of what is left: `struct` needs four bytes.
unfoldable pub unpack_int : Bytes → Result (ℤ × Bytes)
unpack_int buffer =
    if length (take 4 buffer) == 4
    then ok (signed32 (le_val (take 4 buffer)), drop 4 buffer)
    else raise struct_error

-- `struct.pack("<iiii", …)`
unfoldable pub pack_header : ℤ → ℤ → ℤ → ℤ → Result Bytes
pack_header size reply_id response_to opcode = do
  a ← pack_signed 4 size
  b ← pack_signed 4 reply_id
  c ← pack_signed 4 response_to
  d ← pack_signed 4 opcode
  ok (a ++ (b ++ (c ++ d)))

module _ {ℓ} {Doc : Type ℓ} (encode : Doc → Result Bytes) where
  -- `OpMsgResponder.to_bytes`
  unfoldable pub msg_to_bytes : Doc → ℤ → Result Bytes
  msg_to_bytes response request_id = do
    payload_data ← encode response
    let data' = le_bytes 4 0 ++ (le_bytes 1 0 ++ payload_data)
    header ← pack_header (pos (16 + length data')) (pos 0) request_id (pos op_msg)
    ok (header ++ data')

  -- `OpQueryResponder.to_bytes`
  unfoldable pub query_to_bytes : Doc → ℤ → Result Bytes
  query_to_bytes request request_id = do
    payload ← encode request
    let data' = (le_bytes 4 0 ++ (le_bytes 8 0 ++ (le_bytes 4 0 ++ le_bytes 4 1))) ++ payload
    header ← pack_header (pos (16 + length data')) (pos 123) request_id (pos op_reply)
    ok (header ++ data')

-- The header of a request.
pub record Header : Type 0 where
  pub size : ℤ
  pub request_id : ℤ
  pub response_to : ℤ
  pub opcode : ℤ

unfoldable pub read_header : Bytes → Result Header
read_header header = do
  (size, b1) ← unpack_int header
  (request_id, b2) ← unpack_int b1
  (response_to, b3) ← unpack_int b2
  (opcode, b4) ← unpack_int b3
  ok (record { size = size; request_id = request_id; response_to = response_to; opcode = opcode })

-- `operationsHandlersMap`
pub data Operation : Type 0 where
  query_operation msg_operation insert_operation : Operation

unfoldable pub operation_of : ℤ → Option Operation
operation_of (pos n) =
    if n == op_query
    then some query_operation
    else if n == op_msg
    then some msg_operation
    else if n == op_insert
    then some insert_operation
    else none
operation_of (negsuc n) = none

module _ {ℓ κ} {Doc : Type ℓ} {W : Type κ} (encode : Doc → Result Bytes)
    (respond : Operation → Bytes → ℤ → W → Option (W × Result (Option Doc))) where
  -- `to_bytes`; that of OP_INSERT is empty.
  unfoldable pub to_bytes : Operation → Doc → ℤ → Result (Option Bytes)
  to_bytes query_operation response request_id =
      query_to_bytes encode response request_id >>= λ b. ok (some b)
  to_bytes msg_operation response request_id =
      msg_to_bytes encode response request_id >>= λ b. ok (some b)
  to_bytes insert_operation response request_id = ok none

  -- What a call leaves of the world, and what it returns or raises; `none` where it does not end.
  abbrev pub Call : Type κ
  Call = Option (W × Result (Option Bytes))

  abbrev pub answer_bytes : Operation → ℤ → Option (W × Result (Option Doc)) → Call
  answer_bytes op request_id none = none
  answer_bytes op request_id (some (w, raise e)) = some (w, raise e)
  answer_bytes op request_id (some (w, ok none)) = some (w, ok none)
  answer_bytes op request_id (some (w, ok (some response))) =
      some (w, to_bytes op response request_id)

  unfoldable pub get_answer : ℤ → ℤ → Bytes → W → Call
  get_answer request_id opcode msg_bytes w = elim (operation_of opcode) [
    | none ↦ some (w, raise not_implemented)
    | some op ↦ answer_bytes op request_id (respond op msg_bytes request_id w)
  ]

  -- The bytes behind a header: recv refuses a negative number, and 0 bytes are read at once.
  unfoldable pub read_message : Header → Socket → Result (Option Reading)
  read_message h sock = elim h.size [
    | negsuc n ↦ raise value_error
    | pos n ↦ if ltb n 16 then raise value_error else ok (read_bytes (n - 16) sock)
  ]

  abbrev pub no_message : W → Option Operation → Call
  no_message w none = some (w, raise not_implemented)
  no_message w (some op) = some (w, raise type_error)

  -- A round behind a header: the bytes of the message, or False where the peer has closed, which no
  -- responder takes.
  abbrev pub answer_reading : Header → Reading → W → Call
  answer_reading h (some msg_bytes, sock) w = get_answer h.request_id h.opcode msg_bytes w
  answer_reading h (none, sock) w = no_message w (operation_of h.opcode)

  abbrev pub sent_of : Option Bytes → List Bytes
  sent_of none = []
  sent_of (some answer) = answer ∷ []

  -- How a connection ends: with the exception that ended it, or because the client closed it; the
  -- answers that were sent, and what the responders left of the world.
  abbrev pub Served : Type κ
  Served = W × List Bytes × Option Exn

  abbrev pub after_round : Call → (W → Option Served) → Option Served
  after_round none next = none
  after_round (some (w, raise e)) next = some (w, [], some e)
  after_round (some (w, ok answer)) next = elim (next w) [
    | none ↦ none
    | some served ↦ some (served.0, sent_of answer ++ served.1, served.2)
  ]

  abbrev pub after_reading :
      W → Header → Result (Option Reading) → (Socket → W → Option Served) → Option Served
  after_reading w h (raise e) next = some (w, [], some e)
  after_reading w h (ok none) next = none
  after_reading w h (ok (some r)) next = after_round (answer_reading h r w) (next r.1)

  abbrev pub after_header :
      W → Result Header → Socket → (Socket → W → Option Served) → Option Served
  after_header w (raise e) sock next = some (w, [], some e)
  after_header w (ok h) sock next = after_reading w h (read_message h sock) next

  abbrev pub round : W → Option Reading → (Socket → W → Option Served) → Option Served
  round w none next = none
  round w (some (none, sock)) next = some (w, [], none)
  round w (some (some header, sock)) next = after_header w (read_header header) sock next

  -- The loop of `handle`, with fuel for so many rounds; `none` means that it ran out, or that a
  -- responder does not return.
  unfoldable pub serve : ℕ → Socket → W → Option Served
  serve zero sock w = none
  serve (suc f) sock w = round w (read_bytes 16 sock) (serve f)
