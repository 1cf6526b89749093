-- ===== src/Mongo/Reply/Headers.antt =====
-- A client reads the headers of the replies as they were meant.
use mindsdb_database_ai.Prelude.{
  ℕ, ◌+◌, ◌-◌, ◌*◌, ◌^◌, ◌<◌, ◌≡◌, refl, arith, ◌++◌, length, drop, Result, ok, ◌>>=◌, lt→ltb,
  ge→ltb, append_assoc, take-append, drop-append, length-append,
}
use mindsdb_database_ai.Prelude.Bytes.{Bytes, le_bytes, length-le_bytes, le_val-le_bytes}
use mindsdb_database_ai.Prelude.Int.{ℤ, pos, negsuc, signed32}
use mindsdb_database_ai.Wire.BinaryRow.{pack_signed}
use mindsdb_database_ai.Mongo.Reply.{
  unpack_int, pack_header, msg_to_bytes, query_to_bytes, Header, read_header, op_msg, op_reply,
}

abbrev pub IsInt32 : ℤ → Type 0
IsInt32 (pos n) = n < 2 ^ 31
IsInt32 (negsuc n) = n < 2 ^ 31

-- The four bytes of a number.
abbrev pub word : ℤ → Bytes
word (pos n) = le_bytes 4 n
word (negsuc n) = le_bytes 4 (2 ^ 32 - (n + 1))

pack_signed-word : (z : ℤ) → IsInt32 z → pack_signed 4 z ≡ ok (word z)
unfolding pack_signed
pack_signed-word (pos n) h = rw (lt→ltb (2 * n) (2 ^ 32) (omega (arith, h)))
pack_signed-word (negsuc n) h = rw (lt→ltb (2 * n) (2 ^ 32) (omega (arith, h)))

unpack_int-le_bytes :
    (w : ℕ) (rest : Bytes) → w < 2 ^ 32 → unpack_int (le_bytes 4 w ++ rest) ≡ ok (signed32 w, rest)
unfolding unpack_int
unpack_int-le_bytes w rest h = rw (
  take-append (le_bytes 4 w) rest (length-le_bytes 4 w),
  drop-append (le_bytes 4 w) rest (length-le_bytes 4 w),
  length-le_bytes 4 w,
  le_val-le_bytes 4 w h,
)

unpack_int-word : (z : ℤ) (rest : Bytes) → IsInt32 z → unpack_int (word z ++ rest) ≡ ok (z, rest)
unpack_int-word (pos n) rest h =
    rw (unpack_int-le_bytes n rest (omega (arith, h)), lt→ltb n (2 ^ 31) h)
unpack_int-word (negsuc n) rest h =
    let w : ℕ = 2 ^ 32 - (n + 1) in
    let back : 2 ^ 32 - w - 1 ≡ n = omega (arith, h) in
    rw (unpack_int-le_bytes w rest (omega (arith, h)), ge→ltb w (2 ^ 31) (omega (arith, h)), back)

pub length-word : (z : ℤ) → length (word z) ≡ 4
length-word (pos n) = length-le_bytes 4 n
length-word (negsuc n) = length-le_bytes 4 (2 ^ 32 - (n + 1))

abbrev pub header : ℤ → ℤ → ℤ → ℤ → Header
header size request_id response_to opcode = record {
  size = size;
  request_id = request_id;
  response_to = response_to;
  opcode = opcode;
}

abbrev words : ℤ → ℤ → ℤ → ℤ → Bytes
words a b c d = word a ++ (word b ++ (word c ++ word d))

module _ (a b c d : ℤ) (ha : IsInt32 a) (hb : IsInt32 b) (hc : IsInt32 c) (hd : IsInt32 d) where
  pack_header-words : pack_header a b c d ≡ ok (words a b c d)
  unfolding pack_header
  pack_header-words =
      rw
        (pack_signed-word a ha, pack_signed-word b hb, pack_signed-word c hc, pack_signed-word d hd)

  read_header-words : (rest : Bytes) → read_header (words a b c d ++ rest) ≡ ok (header a b c d)
  unfolding read_header
  read_header-words rest = rw (
    append_assoc (word a) (word b ++ (word c ++ word d)) rest,
    append_assoc (word b) (word c ++ word d) rest,
    append_assoc (word c) (word d) rest,
    unpack_int-word a _ ha,
    unpack_int-word b _ hb,
    unpack_int-word c _ hc,
    unpack_int-word d rest hd,
  )

  length-words : length (words a b c d) ≡ 16
  length-words = omega (
    arith,
    length-append (word a) (word b ++ (word c ++ word d)),
    length-append (word b) (word c ++ word d),
    length-append (word c) (word d),
    length-word a,
    length-word b,
    length-word c,
    length-word d,
  )

-- What a client finds in a reply: the header, whose size is that of the whole reply and which names
-- the request, and behind its 16 bytes the document at the end.
abbrev pub IsReply : Bytes → ℤ → ℤ → ℤ → Bytes → Type 0
IsReply out reply_id request_id opcode payload =
    (read_header out ≡ ok (header (pos (length out)) reply_id request_id opcode))
    × ((front : Bytes) × (drop 16 out ≡ front ++ payload))

module _ (n m : ℕ) (rid : ℤ) (front payload : Bytes) (hn : n < 2 ^ 31) (hm : m < 2 ^ 31)
    (h : IsInt32 rid) where
  framed :
      (body : Bytes)
      → body ≡ front ++ payload
      → 16 + length body < 2 ^ 31
      → (out : Bytes) × ((pack_header (pos (16 + length body)) (pos n) rid (pos m) >>= λ header.
            ok (header ++ body))
          ≡ ok out)
        × IsReply out (pos n) rid (pos m) payload
  framed body e size =
      let a : ℤ = pos (16 + length body) in
      let w : Bytes = words a (pos n) rid (pos m) in
      let l : length w ≡ 16 = length-words a (pos n) rid (pos m) size hn h hm in
      let total : length (w ++ body) ≡ 16 + length body = omega (arith, l, length-append w body) in
      (
        w ++ body,
        rw (pack_header-words a (pos n) rid (pos m) size hn h hm),
        (
          rw total (read_header-words a (pos n) rid (pos m) size hn h hm body),
          (front, rw (drop-append w body l) e),
        ),
      )

-- A document that bson can encode, and that is not too long for the size field, is sent: the reply
-- has a header with the size of the whole and the number of the request, and ends in the document.
pub replies-IsReply {ℓ} :
    {Doc : Type ℓ} (encode : Doc → Result Bytes) (response : Doc) (request_id : ℤ) (payload : Bytes)
    → encode response ≡ ok payload
    → length payload + 36 < 2 ^ 31
    → IsInt32 request_id
    → ((out : Bytes) × (msg_to_bytes encode response request_id ≡ ok out)
        × IsReply out (pos 0) request_id (pos op_msg) payload)
      × ((out : Bytes) × (query_to_bytes encode response request_id ≡ ok out)
          × IsReply out (pos 123) request_id (pos op_reply) payload)
unfolding msg_to_bytes query_to_bytes
replies-IsReply encode response request_id payload e size h =
    let msg : Bytes = le_bytes 4 0 ++ le_bytes 1 0 in
    let query : Bytes = le_bytes 4 0 ++ (le_bytes 8 0 ++ (le_bytes 4 0 ++ le_bytes 4 1)) in
    (
      rw (msg_to_bytes, e)
          (framed 0 op_msg request_id msg payload (omega arith) (omega arith) h
            (le_bytes 4 0 ++ (le_bytes 1 0 ++ payload)) (unfold le_bytes in refl)
            (unfold le_bytes in omega arith)),
      rw (query_to_bytes, e)
          (framed 123 op_reply request_id query payload (omega arith) (omega arith) h
            (query ++ payload) refl (unfold le_bytes in omega arith)),
    )
