-- ===== src/Mongo/Request.antt =====
-- How the messages of a MongoDB client are read: `unpack`, `get_utf8_string`, `decode_documents` and
-- the methods `handle` of `OpInsertResponder`, `OpMsgResponder` and `OpQueryResponder` in
-- mindsdb/api/mongo/server.py. `decode_all` is that of the library bson, whose documents are dicts of
-- values of type `V`. Positions are Python's: a negative one counts from the end of the buffer.
pub mod At
pub mod Sections
pub mod Stuck
pub mod Commands
use mindsdb_database_ai.Prelude.{
  ℕ, zero, suc, ◌+◌, ◌-◌, ◌^◌, Bool, true, false, Option, none, some, List, [], ◌∷◌, ◌++◌, map,
  length, take, drop, Result, ok, raise, ◌>>=◌, struct_error, value_error, index_error, key_error,
  exception, or_raise, ltb, ◌==◌, if◌then◌else◌,
}
use mindsdb_database_ai.Prelude.Bytes.{Bytes, le_val}
use mindsdb_database_ai.Prelude.Bits.{bit}
use mindsdb_database_ai.Prelude.Int.{ℤ, pos, negsuc, signed8, signed32, ◌+ℤ◌, below}
use mindsdb_database_ai.Prelude.Text.{Str, decode}
use mindsdb_database_ai.Prelude.StrEq.{eqb}
use mindsdb_database_ai.Prelude.Key.{str_key}
use mindsdb_database_ai.Prelude.Assoc.{Assoc, get, put, update}

-- Where a position stands in a sequence of `n`.
abbrev pub from_start : ℕ → ℤ → ℕ
from_start n (pos i) = i
from_start n (negsuc i) = n - suc i

-- `buffer[start:end]`
abbrev pub slice_at : Bytes → ℤ → ℤ → Bytes
slice_at buffer start end =
    let n = length buffer in
    take (from_start n end - from_start n start) (drop (from_start n start) buffer)

-- `unpack` with a format of `size` bytes: the bytes as a number without a sign, and the end.
unfoldable pub unpack : ℕ → Bytes → ℤ → Result (ℕ × ℤ)
unpack size buffer start =
    let end = start +ℤ pos size in
    if length (slice_at buffer start end) == size
    then ok (le_val (slice_at buffer start end), end)
    else raise struct_error

-- The formats UINT, INT and BYTE.
abbrev pub unpack_uint : Bytes → ℤ → Result (ℕ × ℤ)
unpack_uint = unpack 4

unfoldable pub unpack_int : Bytes → ℤ → Result (ℤ × ℤ)
unpack_int buffer start = unpack 4 buffer start >>= λ r. ok (signed32 (r.0), r.1)

unfoldable pub unpack_byte : Bytes → ℤ → Result (ℤ × ℤ)
unpack_byte buffer start = unpack 1 buffer start >>= λ r. ok (signed8 (r.0), r.1)

-- `bytes.index(b"\x00")`
unfoldable pub index_nul : Bytes → Result ℕ
index_nul [] = raise value_error
index_nul (zero ∷ bs) = ok 0
index_nul (suc b ∷ bs) = index_nul bs >>= λ i. ok (suc i)

unfoldable pub get_utf8_string : Bytes → ℤ → Result (Str × ℤ)
get_utf8_string buffer start = do
  let first = from_start (length buffer) start
  i ← index_nul (drop first buffer)
  s ← decode (slice_at buffer start (pos (first + i)))
  ok (s, pos (first + i + 1))

abbrev pub Document {ℓ} : Type ℓ → Type ℓ
Document V = Assoc Str V

-- A field of a request: one of a document that was sent, or the documents of a sequence.
pub data Field {ℓ} (V : Type ℓ) : Type ℓ where
  value : V → Field V
  documents : List (Document V) → Field V

abbrev pub RequestFields {ℓ} : Type ℓ → Type ℓ
RequestFields V = Assoc Str (Field V)

-- What the responders get: a dict, or for OP_INSERT the list of all documents.
pub data Query {ℓ} (V : Type ℓ) : Type ℓ where
  fields : RequestFields V → Query V
  all_documents : List (Document V) → Query V

-- `request_args`
pub data RequestArgs {ℓ} (V : Type ℓ) : Type ℓ where
  insert_args : ℤ → RequestArgs V
  msg_args : ℤ → Field V → RequestArgs V
  query_args : ℤ → ℤ → ℤ → Bool → RequestArgs V

module _ {ℓ} {V : Type ℓ} where
  -- A document as a dict that may get fields.
  abbrev pub fields_of : Document V → RequestFields V
  fields_of = map (λ kv. (kv.0, value kv.1))

  -- `docs[0]`
  abbrev pub first_document : List (Document V) → Result (Document V)
  first_document [] = raise index_error
  first_document (d ∷ ds) = ok d

module _ {ℓ} {V : Type ℓ} (decode_all : Bytes → Result (List (Document V))) where
  unfoldable pub decode_documents : Bytes → ℤ → ℤ → Result (List (Document V) × ℤ)
  decode_documents buffer start content_size =
      decode_all (slice_at buffer start (start +ℤ content_size)) >>= λ docs.
      ok (docs, start +ℤ content_size)

  unfoldable pub read_body : Bytes → ℤ → RequestFields V → Result (RequestFields V × ℤ)
  read_body buffer start query = do
    (section_size, behind) ← unpack_int buffer start
    (docs, end) ← decode_documents buffer start section_size
    d ← first_document docs
    ok (update query (fields_of d), end)

  -- `docs_len` is the size less 4, less the length of the id, less 1.
  unfoldable pub read_sequence : Bytes → ℤ → RequestFields V → Result (RequestFields V × ℤ)
  read_sequence buffer start query = do
    (section_size, p) ← unpack_int buffer start
    (seq_id, q) ← get_utf8_string buffer p
    let docs_len = section_size +ℤ negsuc (4 + length seq_id)
    (docs, end) ← decode_documents buffer q docs_len
    ok (put seq_id (documents docs) query, end)

  -- A section of the kind that was read; one of another kind is passed over byte by byte.
  abbrev pub of_kind : ℤ → Bytes → ℤ → RequestFields V → Result (RequestFields V × ℤ)
  of_kind (pos zero) buffer start query = read_body buffer start query
  of_kind (pos (suc zero)) buffer start query = read_sequence buffer start query
  of_kind (pos (suc (suc n))) buffer start query = ok (query, start)
  of_kind (negsuc n) buffer start query = ok (query, start)

  unfoldable pub read_section : Bytes → ℤ → RequestFields V → Result (RequestFields V × ℤ)
  read_section buffer start query =
      unpack_byte buffer start >>= λ r. of_kind (r.0) buffer (r.1) query

  abbrev pub Sections : Type ℓ
  Sections = Option (Result (RequestFields V × ℤ))

  abbrev pub after_section :
      Result (RequestFields V × ℤ) → (ℤ → RequestFields V → Sections) → Sections
  after_section (raise e) next = some (raise e)
  after_section (ok (query, p)) next = next p query

  -- The loop over the sections up to `msg_len`, on fuel; `none` means that it ran out.
  unfoldable pub read_sections : ℕ → Bytes → ℕ → ℤ → RequestFields V → Sections
  read_sections zero buffer msg_len start query = none
  read_sections (suc f) buffer msg_len start query = elim (below start msg_len) [
    | false ↦ some (ok (query, start))
    | true ↦ after_section (read_section buffer start query) (read_sections f buffer msg_len)
  ]

  -- What must be left behind the sections: four bytes of a checksum, or nothing.
  abbrev pub check_rest : Bool → Bytes → RequestFields V × ℤ → Result (RequestFields V)
  check_rest true buffer (query, pos n) =
      if n + 4 == length buffer
      then ok query
      else raise (exception "should be checksum at the end of message")
  check_rest false buffer (query, pos n) =
      if n == length buffer then ok query else raise (exception "is bytes left after msg parsing")
  check_rest true buffer (query, negsuc n) =
      raise (exception "should be checksum at the end of message")
  check_rest false buffer (query, negsuc n) = raise (exception "is bytes left after msg parsing")

  abbrev pub checked : Bool → Bytes → Sections → Option (Result (RequestFields V))
  checked checksum_present buffer none = none
  checked checksum_present buffer (some r) = some (r >>= check_rest checksum_present buffer)

  abbrev pub msg_len_of : Bool → Bytes → ℕ
  msg_len_of checksum_present buffer = if checksum_present then length buffer - 4 else length buffer

  abbrev pub msg_behind : ℕ → Bytes → Result (ℕ × ℤ) → Option (Result (RequestFields V))
  msg_behind f buffer (raise e) = some (raise e)
  msg_behind f buffer (ok (flags, start)) =
      checked (bit 0 flags) buffer
        (read_sections f buffer (msg_len_of (bit 0 flags) buffer) start [])

  -- `OpMsgResponder.handle` up to the log.
  unfoldable pub parse_msg : ℕ → Bytes → Option (Result (RequestFields V))
  parse_msg f buffer = msg_behind f buffer (unpack_uint buffer (pos 0))

-- The text '$db'.
abbrev pub db_key : Str
db_key = 36 ∷ 100 ∷ 98 ∷ []

-- The text '.$cmd'.
abbrev pub cmd_suffix : Str
cmd_suffix = 46 ∷ 36 ∷ 99 ∷ 109 ∷ 100 ∷ []

-- `namespace.endswith('.$cmd')`
abbrev pub is_command : Str → Bool
is_command s = eqb (drop (length s - 5) s) cmd_suffix

-- `find_match` and the method `handle` of the responder that it finds.
module _ {ℓ ρ κ} {V : Type ℓ} {R : Type ρ} {W : Type κ}
    (decode_all : Bytes → Result (List (Document V))) (find_match : Query V → Result R)
    (handle : R → Query V → RequestArgs V → W → Result (W × Option (Document V))) where
  unfoldable pub respond_msg : ℤ → RequestFields V → W → Result (W × Option (Document V))
  respond_msg request_id query w = do
    responder ← find_match (fields query)
    database ← or_raise (get db_key query) key_error
    handle responder (fields query) (msg_args request_id database) w

  unfoldable pub handle_msg : ℕ → Bytes → ℤ → W → Option (Result (W × Option (Document V)))
  handle_msg f buffer request_id w = elim (parse_msg decode_all f buffer) [
    | none ↦ none
    | some r ↦ some (r >>= λ query. respond_msg request_id query w)
  ]

  unfoldable pub handle_query : Bytes → ℤ → W → Result (W × Option (Document V))
  handle_query buffer request_id w = do
    (flags, p0) ← unpack_uint buffer (pos 0)
    (namespace, p1) ← get_utf8_string buffer p0
    (num_to_skip, p2) ← unpack_int buffer p1
    (num_to_return, p3) ← unpack_int buffer p2
    docs ← decode_all (slice_at buffer p3 (pos (length buffer)))
    query ← first_document docs
    responder ← find_match (fields (fields_of query))
    handle responder (fields (fields_of query))
        (query_args num_to_skip num_to_return request_id (is_command namespace)) w

  unfoldable pub handle_insert : Bytes → ℤ → W → Result (W × Option (Document V))
  handle_insert buffer request_id w = do
    (flags, p0) ← unpack_uint buffer (pos 0)
    (namespace, p1) ← get_utf8_string buffer p0
    docs ← decode_all (slice_at buffer p1 (pos (length buffer)))
    responder ← find_match (all_documents docs)
    handle responder (all_documents docs) (insert_args request_id) w
