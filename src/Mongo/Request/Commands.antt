-- ===== src/Mongo/Request/Commands.antt =====
-- The messages OP_QUERY and OP_INSERT of older clients are read as they were written.
use mindsdb_database_ai.Prelude.{
  ℕ, ◌+◌, ◌≡◌, refl, List, ◌∷◌, ◌++◌, length, drop, All, Option, Result, ok, ◌>>=◌, drop-append,
}
use mindsdb_database_ai.Prelude.Bytes.{Bytes, le_bytes, length-le_bytes}
use mindsdb_database_ai.Prelude.Int.{ℤ}
use mindsdb_database_ai.Prelude.Text.{Str, utf8}
use mindsdb_database_ai.Prelude.Key.{str_key}
use mindsdb_database_ai.Mongo.Reply.Headers.{IsInt32, word, length-word}
use mindsdb_database_ai.Mongo.Request.{
  Document, Query, fields, all_documents, RequestArgs, insert_args, query_args, fields_of,
  handle_query, handle_insert, is_command,
}
use mindsdb_database_ai.Mongo.Request.At.{
  drop-next, unpack-At, unpack_word-At, IsNameChar, get_utf8_string-At, drop-name, slice_at-rest,
}

abbrev pub insert_bytes : ℕ → Str → Bytes → Bytes
insert_bytes flags namespace payload = le_bytes 4 flags ++ (utf8 namespace ++ 0 ∷ payload)

abbrev pub query_bytes : ℕ → Str → ℤ → ℤ → Bytes → Bytes
query_bytes flags namespace skip limit payload =
    insert_bytes flags namespace (word skip ++ (word limit ++ payload))

module _ {ℓ ρ κ} {V : Type ℓ} {R : Type ρ} {W : Type κ}
    (decode_all : Bytes → Result (List (Document V))) (find_match : Query V → Result R)
    (handle : R → Query V → RequestArgs V → W → Result (W × Option (Document V))) where
  module _ (flags : ℕ) (namespace : Str) (name : All IsNameChar namespace) where
    name_at :
        (rest : Bytes) → drop 4 (insert_bytes flags namespace rest) ≡ utf8 namespace ++ 0 ∷ rest
    name_at rest = drop-append (le_bytes 4 flags) _ (length-le_bytes 4 flags)

    insert_written :
        (payload : Bytes) (docs : List (Document V)) (request_id : ℤ) (w : W)
        → decode_all payload ≡ ok docs
        → handle_insert decode_all find_match handle
            (insert_bytes flags namespace payload)
            request_id
            w
          ≡ (find_match (all_documents docs) >>= λ r.
              handle r (all_documents docs) (insert_args request_id) w)
    unfolding handle_insert
    insert_written payload docs request_id w e =
        let buffer : Bytes = insert_bytes flags namespace payload in
        rw (
          unpack-At buffer 0 (le_bytes 4 flags) _ refl 4 (length-le_bytes 4 flags),
          get_utf8_string-At buffer 4 namespace payload (name_at payload) name,
          slice_at-rest buffer (4 + length (utf8 namespace) + 1) payload
              (drop-name buffer 4 namespace payload (name_at payload)),
          e,
        )

    query_written :
        (skip limit : ℤ) (payload : Bytes) (d : Document V) (ds : List (Document V))
        (request_id : ℤ) (w : W)
        → decode_all payload ≡ ok (d ∷ ds)
        → IsInt32 skip
        → IsInt32 limit
        → handle_query decode_all find_match handle
            (query_bytes flags namespace skip limit payload)
            request_id
            w
          ≡ (find_match (fields (fields_of d)) >>= λ r.
              handle r
                (fields (fields_of d))
                (query_args skip limit request_id (is_command namespace))
                w)
    unfolding handle_query
    query_written skip limit payload d ds request_id w e hs hl =
        let buffer : Bytes = query_bytes flags namespace skip limit payload in
        let p : ℕ = 4 + length (utf8 namespace) + 1 in
        let numbers : Bytes = word skip ++ (word limit ++ payload) in
        let at_skip : drop p buffer ≡ numbers =
          drop-name buffer 4 namespace numbers (name_at numbers) in
        let at_limit : drop (p + 4) buffer ≡ word limit ++ payload =
          drop-next buffer p (word skip) _ at_skip 4 (length-word skip) in
        let at_end : drop (p + 4 + 4) buffer ≡ payload =
          drop-next buffer (p + 4) (word limit) payload at_limit 4 (length-word limit) in
        rw (
          unpack-At buffer 0 (le_bytes 4 flags) _ refl 4 (length-le_bytes 4 flags),
          get_utf8_string-At buffer 4 namespace numbers (name_at numbers) name,
          unpack_word-At buffer p skip _ at_skip hs,
          unpack_word-At buffer (p + 4) limit payload at_limit hl,
          slice_at-rest buffer (p + 4 + 4) payload at_end,
          e,
        )

  -- An OP_QUERY with a name without NUL, two 32-bit numbers and documents that bson reads goes to
  -- the responder that is found for the first document, with the numbers and whether the name ends
  -- in '.$cmd'; an OP_INSERT goes to the one that is found for the list of all its documents.
  pub handles-written :
      (flags : ℕ) (namespace : Str) (skip limit : ℤ) (payload : Bytes) (d : Document V)
      (ds : List (Document V)) (request_id : ℤ) (w : W)
      → decode_all payload ≡ ok (d ∷ ds)
      → All IsNameChar namespace
      → IsInt32 skip
      → IsInt32 limit
      → (handle_query decode_all find_match handle
            (query_bytes flags namespace skip limit payload)
            request_id
            w
          ≡ (find_match (fields (fields_of d)) >>= λ r.
              handle r
                (fields (fields_of d))
                (query_args skip limit request_id (is_command namespace))
                w))
        × (handle_insert decode_all find_match handle
              (insert_bytes flags namespace payload)
              request_id
              w
            ≡ (find_match (all_documents (d ∷ ds)) >>= λ r.
                handle r (all_documents (d ∷ ds)) (insert_args request_id) w))
  handles-written flags namespace skip limit payload d ds request_id w e name hs hl = (
    query_written flags namespace name skip limit payload d ds request_id w e hs hl,
    insert_written flags namespace name payload (d ∷ ds) request_id w e,
  )
