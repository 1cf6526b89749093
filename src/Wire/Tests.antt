-- ===== src/Wire/Tests.antt =====
-- Concrete runs of the wire protocol, and its theorems at concrete inputs.
use mindsdb_database_ai.Prelude.{
  ℕ, ◌+◌, ◌%◌, ◌≡◌, ◌≢◌, refl, arith, some, List, [], ◌∷◌, ◌++◌, length, replicate, All, ok,
  length-replicate, ap, ◌∙◌, zero, suc,
}
use mindsdb_database_ai.Prelude.Bytes.{Bytes, le_bytes, pack_i}
use mindsdb_database_ai.Prelude.Text.{Str, utf8, utf8_char, decode, IsAscii, utf8-ascii}
use mindsdb_database_ai.Wire.Datum.{
  lenenc, string_type, bytes, text, datum, datum_of, byte_count, lenenc_int, lenenc_text,
  to_string_packet,
}
use mindsdb_database_ai.Wire.Datum.Lenenc.{protocol_int}
use mindsdb_database_ai.Wire.Datum.RoundTrip.{Reads}
use mindsdb_database_ai.Wire.Datum.Written.{Writes, lenenc_round_trip}
use mindsdb_database_ai.Wire.Packet.{load_from_params, get_packet_string, get, max_packet_size}
use mindsdb_database_ai.Wire.Packet.Framing.{header, push, get-get_packet_string}
use mindsdb_database_ai.Wire.Packet.Stream.{stream, last_seq, concat, get-stream}
use mindsdb_database_ai.Wire.Packet.Faults.{get-split}

-- "é!" has two characters and three bytes.
abbrev e_acute : Str
e_acute = 0xe9 ∷ b'!' ∷ []

lenenc_300 : lenenc_int 300 ≡ ok (some (0xfc ∷ 0x2c ∷ 1 ∷ []))
unfolding lenenc_int byte_count pack_i le_bytes
lenenc_300 = refl

lenenc_e_acute :
    to_string_packet (datum_of string_type lenenc (text e_acute))
    ≡ ok (some (3 ∷ 0xc3 ∷ 0xa9 ∷ b'!' ∷ []))
unfolding to_string_packet lenenc_text lenenc_int byte_count pack_i le_bytes utf8 utf8_char
lenenc_e_acute = refl

lenenc_round_trip_example :
    Writes
      (datum_of string_type lenenc (text e_acute))
      (protocol_int (length (utf8 e_acute)) ++ utf8 e_acute)
    × Reads
        (datum string_type lenenc)
        (protocol_int (length (utf8 e_acute)) ++ utf8 e_acute)
        (bytes (utf8 e_acute))
    × (decode (utf8 e_acute) ≡ ok e_acute)
lenenc_round_trip_example =
    lenenc_round_trip e_acute (refl, (refl, tt)) (unfold utf8 utf8_char in omega arith)

abbrev ping : Bytes
ping = 0x0e ∷ []

get-get_packet_string_example :
    (bs : Bytes) × (get_packet_string (load_from_params 1 0 ping) ≡ ok bs)
    × ((more : Bytes) (cs : List Bytes) (old : ℕ)
        → get (record { packet_sequence_number = old; socket = (bs ++ more) ∷ cs })
          ≡ some (
            record { packet_sequence_number = (0 + 1) % 256; socket = push more cs },
            some (load_from_params 1 0 ping),
          ))
get-get_packet_string_example =
    get-get_packet_string 0 ping (omega arith) (omega arith) (omega arith)

get-split_example :
    (get (record { packet_sequence_number = 7; socket = (header 2 0 ++ ping) ∷ (1 ∷ []) ∷ [] })
      ≡ some (
        record { packet_sequence_number = (0 + 1) % 256; socket = (1 ∷ []) ∷ [] },
        some (load_from_params 1 0 ping),
      ))
    × (ping ≢ ping ++ 1 ∷ [])
get-split_example = get-split 7 0 ping (1 ∷ []) [] (omega arith) (omega arith) (omega arith)

-- Bodies and texts of `n` bytes, too long to be written out.
run_of : ℕ → Bytes
run_of n = replicate n b'a'

length-run_of : (n : ℕ) → length (run_of n) ≡ n
unfolding run_of
length-run_of n = length-replicate n b'a'

run_of-IsAscii : (n : ℕ) → All IsAscii (run_of n)
unfolding run_of
run_of-IsAscii zero = tt
run_of-IsAscii (suc n) = (omega arith, run_of-IsAscii n)

length-utf8-run_of : (n : ℕ) → length (utf8 (run_of n)) ≡ n
length-utf8-run_of n = ap length (utf8-ascii (run_of n) (run_of-IsAscii n)) ∙ length-run_of n

abbrev full_frame : List Bytes
full_frame = run_of max_packet_size ∷ []

get-stream_example :
    get (record { packet_sequence_number = 0; socket = stream 255 full_frame ping ∷ [] })
    ≡ some (
      record { packet_sequence_number = (last_seq 255 full_frame + 1) % 256; socket = [] },
      some (
          load_from_params
            (length (concat full_frame ++ ping))
            (last_seq 255 full_frame)
            (concat full_frame ++ ping)),
    )
get-stream_example =
    get-stream 0 255 full_frame ping (length-run_of max_packet_size, tt) (omega arith)
