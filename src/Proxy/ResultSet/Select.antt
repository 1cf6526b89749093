-- ===== src/Proxy/ResultSet/Select.antt =====
-- The packets that `answer_select` sends for a table, as bodies and their numbers.
use mindsdb_database_ai.Prelude.{
  ℕ, ◌+◌, ◌%◌, ◌/◌, ◌<◌, ◌≡◌, refl, ap, arith, Bool, true, false, none, List, [], ◌∷◌, ◌++◌, map,
  length, Result, ok, All, All-append, append_assoc, lt→ltb,
}
use mindsdb_database_ai.Prelude.Bytes.{Bytes, le_bytes, pack_q}
use mindsdb_database_ai.Wire.Datum.{
  to_string_packet, encode_fixed, encode_lenenc, lenenc_int, encode_eof, byte_count,
}
use mindsdb_database_ai.Wire.Datum.Lenenc.{protocol_int}
use mindsdb_database_ai.Wire.Bodies.{
  body_of, body_from, column_count_packet, eof_packet, Column, ok_packet, resultset_row,
}
use mindsdb_database_ai.Wire.Bodies.Layout.{
  column_count_layout, eof_packet_layout, Fits, definition_bytes, column_definition_layout,
}
use mindsdb_database_ai.Wire.Bodies.Rows.{row_bytes, resultset_row-row_bytes}
use mindsdb_database_ai.Proxy.Packages.{send_package_group}
use mindsdb_database_ai.Proxy.ResultSet.{
  TableRow, MysqlColumn, packet, packets, eof_packets, get_tabel_packets, last_packet, table,
  answer_select,
}
use mindsdb_database_ai.Proxy.ResultSet.Sent.{
  advance, made_from, packets_lem, advance-append, made_from-append, definition_columns,
  definition_body, definition_packets_lem, Reaches, IsFrame,
}
use mindsdb_database_ai.Proxy.ResultSet.Client.{IsRow}

-- A column whose definition goes as one packet.
abbrev pub IsColumn : Column → Type 0
IsColumn c = Fits c × IsFrame (definition_bytes c)

abbrev pub written : List Bytes → List (Result Bytes)
written = map (λ b. ok b)

written-append : (xs ys : List Bytes) → written (xs ++ ys) ≡ written xs ++ written ys
written-append [] ys = refl
written-append (x ∷ xs) ys = ap (λ r. ok x ∷ r) (written-append xs ys)

definitions_written :
    (cs : List Column)
    → All IsColumn cs
    → map definition_body cs ≡ written (map definition_bytes cs)
definitions_written [] h = refl
definitions_written (c ∷ cs) h = rw (column_definition_layout c h.0.0, definitions_written cs h.1)

rows_written :
    (n : ℕ) (rows : List TableRow)
    → All (IsRow n) rows
    → map resultset_row rows ≡ written (map row_bytes rows)
rows_written n [] h = refl
rows_written n (row ∷ rows) h = rw (resultset_row-row_bytes row h.0.1, rows_written n rows h.1)

-- The packets behind the definitions and at the end.
abbrev pub eof_bodies : Bool → List Bytes
eof_bodies true = []
eof_bodies false = (0xfe ∷ 0 ∷ 0 ∷ 0 ∷ 0 ∷ []) ∷ []

abbrev pub last_body : Bool → Bytes
last_body true = 0xfe ∷ 0 ∷ 0 ∷ 2 ∷ 0 ∷ 0 ∷ 0 ∷ []
last_body false = 0xfe ∷ 0 ∷ 0 ∷ 2 ∷ 0 ∷ []

eof_written :
    (status : ℕ) → status < 256 → body_of (eof_packet status) ≡ ok (0xfe ∷ 0 ∷ 0 ∷ status ∷ 0 ∷ [])
unfolding le_bytes
eof_written status h =
    let low : status % 256 ≡ status = omega (arith, h) in
    let high : status / 256 % 256 ≡ 0 = omega (arith, h) in
    rw (low, high) at (eof_packet_layout status (omega (arith, h)))

ok_written : ok_packet true 0 2 none ≡ ok (last_body true)
unfolding ok_packet body_from to_string_packet encode_fixed encode_lenenc lenenc_int encode_eof
    pack_q byte_count le_bytes
ok_written = refl

eof_packets_lem :
    (deprecate_eof : Bool) (seq : ℕ)
    → eof_packets deprecate_eof 0 seq ≡ packets (written (eof_bodies deprecate_eof)) seq
unfolding eof_packets packets
eof_packets_lem true seq = refl
eof_packets_lem false seq = rw (eof_written 0 (omega arith))

last_packet_lem :
    (deprecate_eof : Bool) (seq : ℕ)
    → last_packet deprecate_eof 2 seq ≡ packet (ok (last_body deprecate_eof)) seq
unfolding last_packet
last_packet_lem true seq = rw ok_written
last_packet_lem false seq = rw (eof_written 2 (omega arith))

-- The packets of a table, and the last one, as made in one go.
module _ (d e r : List (Result Bytes)) (l : Result Bytes) where
  made_in_parts :
      (seq : ℕ)
      → (made_from seq d
            ++ (made_from (advance seq d) e ++ made_from (advance (advance seq d) e) r))
          ++ record { seq = advance (advance (advance seq d) e) r; body = l } ∷ []
        ≡ made_from seq (d ++ (e ++ (r ++ l ∷ [])))
  made_in_parts seq = rw (
    made_from-append d (e ++ (r ++ l ∷ [])) seq,
    made_from-append e (r ++ l ∷ []) (advance seq d),
    made_from-append r (l ∷ []) (advance (advance seq d) e),
    append_assoc (made_from seq d)
        (made_from (advance seq d) e ++ made_from (advance (advance seq d) e) r)
        (record { seq = advance (advance (advance seq d) e) r; body = l } ∷ []),
    append_assoc (made_from (advance seq d) e) (made_from (advance (advance seq d) e) r)
        (record { seq = advance (advance (advance seq d) e) r; body = l } ∷ []),
  )

  advance_in_parts :
      (seq : ℕ)
      → (advance (advance (advance seq d) e) r + 1) % 256 ≡ advance seq (d ++ (e ++ (r ++ l ∷ [])))
  advance_in_parts seq = rw (
    advance-append d (e ++ (r ++ l ∷ [])) seq,
    advance-append e (r ++ l ∷ []) (advance seq d),
    advance-append r (l ∷ []) (advance (advance seq d) e),
  )

pub advance-lt {ℓ} : {A : Type ℓ} (xs : List A) (seq : ℕ) → seq < 256 → advance seq xs < 256
advance-lt [] seq h = h
advance-lt (x ∷ xs) seq h = advance-lt xs ((seq + 1) % 256) (omega arith)

module _ (mssql : Bool) (columns : List MysqlColumn) (data' : List TableRow) where
  abbrev pub packet_columns : List Column
  packet_columns = definition_columns mssql data' 0 columns

  -- What a client of this table needs: few columns, a definition of each that fits its packet, and
  -- rows that have a value for each and fit theirs.
  abbrev pub IsTable : Type 0
  IsTable =
      (0 < length columns)
      × (length columns < 251)
      × All IsColumn packet_columns
      × All (IsRow (length columns)) data'

  reaches :
      All (IsRow (length columns)) data'
      → (j : ℕ) → j < length columns
      → All (Reaches (0 + j)) data'
  reaches h j l = go data' h
    where
      go : (rows : List TableRow) → All (IsRow (length columns)) rows → All (Reaches (0 + j)) rows
      go [] t = tt
      go (row ∷ rows) t = (omega (arith, t.0.0, l), go rows t.1)

  count_written :
      length columns < 251
      → body_of (column_count_packet (length columns)) ≡ ok (length columns ∷ [])
  unfolding protocol_int
  count_written h =
      rw (lt→ltb (length columns) 0xfb h) at
        (column_count_layout (length columns) (omega (arith, h)))

  module _ (deprecate_eof : Bool) where
    abbrev pub behind_definitions : List Bytes
    behind_definitions =
        eof_bodies deprecate_eof ++ (map row_bytes data' ++ last_body deprecate_eof ∷ [])

    abbrev pub sent_bodies : List Bytes
    sent_bodies =
        (length columns ∷ []) ∷ (map definition_bytes packet_columns ++ behind_definitions)

    pub answer_select-made :
        (seq : ℕ)
        → IsTable
        → answer_select mssql deprecate_eof (table columns data') seq ≡ (
          advance seq (written sent_bodies),
          send_package_group (made_from seq (written sent_bodies)),
        )
    unfolding answer_select get_tabel_packets packet
    answer_select-made seq (some_columns, few, fit, rows) =
        let s1 : ℕ = (seq + 1) % 256 in
        let d : List (Result Bytes) = written (map definition_bytes packet_columns) in
        let e : List (Result Bytes) = written (eof_bodies deprecate_eof) in
        let r : List (Result Bytes) = written (map row_bytes data') in
        rw (
          count_written few,
          definition_packets_lem mssql data' 0 columns s1 (reaches rows),
          definitions_written packet_columns fit,
          packets_lem d s1,
          eof_packets_lem deprecate_eof (advance s1 d),
          packets_lem e (advance s1 d),
          rows_written (length columns) data' rows,
          packets_lem r (advance (advance s1 d) e),
          last_packet_lem deprecate_eof (advance (advance (advance s1 d) e) r),
          written-append (map definition_bytes packet_columns) behind_definitions,
          written-append (eof_bodies deprecate_eof)
              (map row_bytes data' ++ last_body deprecate_eof ∷ []),
          written-append (map row_bytes data') (last_body deprecate_eof ∷ []),
          made_in_parts d e r (ok (last_body deprecate_eof)) s1,
          advance_in_parts d e r (ok (last_body deprecate_eof)) s1,
        )

    pub sent_bodies-IsFrame : IsTable → All IsFrame sent_bodies
    sent_bodies-IsFrame (some_columns, few, fit, rows) = (
      (omega arith, omega arith),
      All-append IsFrame (map definition_bytes packet_columns) behind_definitions
          (definition_bodies packet_columns fit)
          (All-append IsFrame (eof_bodies deprecate_eof)
            (map row_bytes data' ++ last_body deprecate_eof ∷ []) (eofs deprecate_eof)
            (All-append IsFrame (map row_bytes data') (last_body deprecate_eof ∷ []) (go data' rows)
              (last deprecate_eof, tt))),
    )
      where
        definition_bodies :
            (cs : List Column) → All IsColumn cs → All IsFrame (map definition_bytes cs)
        definition_bodies [] t = tt
        definition_bodies (c ∷ cs) t = (t.0.1, definition_bodies cs t.1)

        eofs : (b : Bool) → All IsFrame (eof_bodies b)
        eofs true = tt
        eofs false = ((omega arith, omega arith), tt)

        last : (b : Bool) → IsFrame (last_body b)
        last true = (omega arith, omega arith)
        last false = (omega arith, omega arith)

        go : (rs : List TableRow) → All (IsRow (length columns)) rs → All IsFrame (map row_bytes rs)
        go [] t = tt
        go (row ∷ rs) t = (t.0.2, go rs t.1)
