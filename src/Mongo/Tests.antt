-- ===== src/Mongo/Tests.antt =====
-- The theorems on the MongoDB protocol at concrete inputs.
use mindsdb_database_ai.Prelude.{
  ℕ, ◌+◌, ◌≡◌, refl, arith, Bool, Option, some, List, [], ◌∷◌, All, Result, ok, ◌==◌, length,
}
use mindsdb_database_ai.Prelude.Bytes.{Bytes}
use mindsdb_database_ai.Prelude.Dict.{Dict}
use mindsdb_database_ai.Prelude.Int.{ℤ, pos}
use mindsdb_database_ai.Wire.Packet.{Socket}
use mindsdb_database_ai.Mongo.Socket.{Reading, read_bytes}
use mindsdb_database_ai.Mongo.Socket.Segments.{flat, IsSegment, Read, read_bytes-Read}
use mindsdb_database_ai.Mongo.Responders.{Test, call, equals, keys, document, Responder, find_match}
use mindsdb_database_ai.Mongo.Responders.First.{Found, find_match-Found}
use mindsdb_database_ai.Mongo.Reply.{
  Operation, serve, msg_to_bytes, query_to_bytes, op_msg, op_reply,
}
use mindsdb_database_ai.Mongo.Reply.Frames.{serve-IsFlat}
use mindsdb_database_ai.Mongo.Reply.Headers.{IsReply, replies-IsReply}
use mindsdb_database_ai.Mongo.Reply.Rounds.{Ended, serve-Ends}

abbrev segments : Socket
segments = (1 ∷ 2 ∷ []) ∷ (3 ∷ []) ∷ (4 ∷ 5 ∷ []) ∷ []

segments-IsSegment : All IsSegment segments
segments-IsSegment = (omega arith, (omega arith, (omega arith, tt)))

read_bytes-Read_example : (r : Reading) × (read_bytes 4 segments ≡ some r) × Read 4 segments [] r
read_bytes-Read_example = read_bytes-Read 4 segments segments-IsSegment

-- {'ping': a true value, 'lang': 3}
abbrev ping : Dict (Test ℕ)
ping = ("ping", call (λ v. v == 1)) ∷ ("lang", equals 3) ∷ []

abbrev request : Dict ℕ
request = ("$db", 9) ∷ ("lang", 3) ∷ ("ping", 1) ∷ []

abbrev same : ℕ → ℕ → Bool
same a b = a == b

abbrev responders : List (Responder ℕ ℕ)
responders = record { when = keys ping; result = document (("ok", 1) ∷ []) } ∷ []

find_match-Found_example : Found same responders request (find_match same responders request)
find_match-Found_example = find_match-Found same responders request

abbrev encode : ℕ → Result Bytes
encode n = ok (n ∷ [])

abbrev respond : Operation → Bytes → ℤ → ℕ → Option (ℕ × Result (Option ℕ))
respond op msg_bytes request_id w = some (w + 1, ok (some (length msg_bytes)))

serve-IsFlat_example :
    serve encode respond 3 segments 0 ≡ serve encode respond 3 ((1 ∷ 2 ∷ 3 ∷ 4 ∷ 5 ∷ []) ∷ []) 0
serve-IsFlat_example =
    serve-IsFlat encode respond 3 segments ((1 ∷ 2 ∷ 3 ∷ 4 ∷ 5 ∷ []) ∷ []) 0 segments-IsSegment
      (omega arith, tt) refl

serve-Ends_example : Ended encode respond (flat segments) (serve encode respond 6 segments 0)
serve-Ends_example = serve-Ends encode respond 6 segments 0 segments-IsSegment (omega arith)

replies-IsReply_example :
    ((out : Bytes) × (msg_to_bytes encode 7 (pos 5) ≡ ok out)
      × IsReply out (pos 0) (pos 5) (pos op_msg) (7 ∷ []))
    × ((out : Bytes) × (query_to_bytes encode 7 (pos 5) ≡ ok out)
        × IsReply out (pos 123) (pos 5) (pos op_reply) (7 ∷ []))
replies-IsReply_example = replies-IsReply encode 7 (pos 5) (7 ∷ []) refl (omega arith) (omega arith)
