-- ===== src/Mongo/RequestTests.antt =====
-- The theorems on the requests of a MongoDB client at concrete inputs.
use mindsdb_database_ai.Prelude.{
  ℕ, ◌+◌, ◌≡◌, refl, arith, none, some, Option, List, [], ◌∷◌, ◌++◌, All, Result, ok, raise,
  value_error, length, ◌>>=◌,
}
use mindsdb_database_ai.Prelude.Bytes.{Bytes, le_bytes}
use mindsdb_database_ai.Prelude.Int.{pos, negsuc}
use mindsdb_database_ai.Prelude.Text.{Str, IsAscii, utf8, utf8_char}
use mindsdb_database_ai.Mongo.Request.{
  Document, Query, fields, all_documents, RequestArgs, insert_args, query_args, fields_of,
  parse_msg, handle_query, handle_insert, is_command,
}
use mindsdb_database_ai.Mongo.Request.At.{IsNameChar}
use mindsdb_database_ai.Mongo.Request.Sections.{
  Section, body, sequence, sections_bytes, collect, IsSection, parse_msg-sections,
}
use mindsdb_database_ai.Mongo.Request.Stuck.{bad_sequence, parse_msg-stuck}
use mindsdb_database_ai.Mongo.Request.Commands.{query_bytes, insert_bytes, handles-written}

-- Documents of one field 'n', whose value is the fifth byte.
abbrev document : ℕ → Document ℕ
document v = ((110 ∷ []), v) ∷ []

abbrev decode_all : Bytes → Result (List (Document ℕ))
decode_all [] = ok []
decode_all (a ∷ b ∷ c ∷ d ∷ v ∷ []) = ok (document v ∷ [])
decode_all _ = raise value_error

abbrev payload : ℕ → Bytes
payload v = le_bytes 4 5 ++ v ∷ []

abbrev docs_name : Str
docs_name = 100 ∷ 111 ∷ []

abbrev sections : List (Section ℕ)
sections = body (payload 7) (document 7) ∷ sequence docs_name (payload 9) (document 9 ∷ []) ∷ []

docs_name-IsAscii : All IsAscii docs_name
docs_name-IsAscii = (omega arith, (omega arith, tt))

docs_name-IsNameChar : All IsNameChar docs_name
docs_name-IsNameChar = ((refl, omega arith), ((refl, omega arith), tt))

sections-IsSection : All (IsSection decode_all) sections
unfolding le_bytes utf8_char
sections-IsSection = (
  (refl, (7 ∷ [], refl), omega arith),
  ((refl, docs_name-IsAscii, docs_name-IsNameChar, unfold utf8 in omega arith), tt),
)

parse_msg-sections_example :
    parse_msg decode_all 3 (le_bytes 4 1 ++ (sections_bytes sections ++ 0 ∷ 0 ∷ 0 ∷ 0 ∷ []))
    ≡ some (ok (collect sections []))
parse_msg-sections_example =
    parse_msg-sections decode_all 1 sections (0 ∷ 0 ∷ 0 ∷ 0 ∷ []) 3 (omega arith) sections-IsSection
      refl (omega arith)

parse_msg-stuck_example :
    parse_msg decode_all 1000 (le_bytes 4 0 ++ bad_sequence docs_name []) ≡ none
parse_msg-stuck_example =
    parse_msg-stuck decode_all 0 docs_name [] refl docs_name-IsAscii docs_name-IsNameChar
      (omega arith) 1000

abbrev responder_of : Query ℕ → Result ℕ
responder_of (fields request) = ok (length request)
responder_of (all_documents docs) = ok (length docs)

abbrev handle : ℕ → Query ℕ → RequestArgs ℕ → ℕ → Result (ℕ × Option (Document ℕ))
handle r query args w = ok (w + r, none)

handles-written_example :
    (handle_query decode_all responder_of handle
        (query_bytes 0 docs_name (pos 0) (negsuc 0) (payload 7))
        (pos 4)
        10
      ≡ (responder_of (fields (fields_of (document 7))) >>= λ r.
          handle r
            (fields (fields_of (document 7)))
            (query_args (pos 0) (negsuc 0) (pos 4) (is_command docs_name))
            10))
    × (handle_insert decode_all responder_of handle
          (insert_bytes 0 docs_name (payload 7))
          (pos 4)
          10
        ≡ (responder_of (all_documents (document 7 ∷ [])) >>= λ r.
            handle r (all_documents (document 7 ∷ [])) (insert_args (pos 4)) 10))
handles-written_example =
    handles-written decode_all responder_of handle 0 docs_name (pos 0) (negsuc 0) (payload 7)
      (document 7) [] (pos 4) 10 (unfold le_bytes in refl) docs_name-IsNameChar (omega arith)
      (omega arith)
