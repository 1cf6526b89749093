-- ===== src/Wire/Bodies/Layout.antt =====
-- The bodies byte by byte, as the protocol lays them out.
use mindsdb_database_ai.Prelude.{
  ℕ, ◌^◌, ◌<◌, ◌≡◌, sym, ◌∙◌, ap, arith, List, [], ◌∷◌, ◌++◌, length, ok, append_assoc, append-nil,
  All,
}
use mindsdb_database_ai.Prelude.Bytes.{Bytes, le_bytes}
use mindsdb_database_ai.Prelude.Text.{Str, utf8, utf8_char, IsAscii}
use mindsdb_database_ai.Wire.Datum.{Datum, to_string_packet}
use mindsdb_database_ai.Wire.Datum.Lenenc.{protocol_int, lenenc_int-protocol_int}
use mindsdb_database_ai.Wire.Datum.Written.{Writes, Writes-num, Writes-lenenc, eof_written}
use mindsdb_database_ai.Wire.Bodies.{
  body_from, body_of, lenenc_int_field, err_packet, eof_packet, column_count_packet,
  stmt_prepare_header, Column, column_definition_packet, def_catalog,
}

-- The fields, one after the other, are written as the byte strings of the list.
abbrev pub WritesAll : List Datum → List Bytes → Type 0
WritesAll [] [] = Unit {0}
WritesAll (d ∷ ds) (bs ∷ bss) = Writes d bs × WritesAll ds bss
WritesAll _ _ = ⊥

unfoldable pub joined : List Bytes → Bytes
joined [] = []
joined (bs ∷ bss) = bs ++ joined bss

body_from-WritesAll :
    (string : Bytes) (ds : List Datum) (bss : List Bytes)
    → WritesAll ds bss
    → body_from string ds ≡ ok (string ++ joined bss)
unfolding body_from joined
body_from-WritesAll string [] [] h = ap (λ b. ok b) (sym (append-nil string))
body_from-WritesAll string [] (bs ∷ bss) h = absurd h
body_from-WritesAll string (d ∷ ds) [] h = absurd h
body_from-WritesAll string (d ∷ ds) (bs ∷ bss) (hd, hds) =
    rw (hd, body_from-WritesAll (string ++ bs) ds bss hds, append_assoc string bs (joined bss))

-- A body is the fields' bytes, joined in their order.
pub body_of-WritesAll :
    (ds : List Datum) (bss : List Bytes) → WritesAll ds bss → body_of ds ≡ ok (joined bss)
body_of-WritesAll ds bss h = body_from-WritesAll [] ds bss h

Writes-lenenc_int : (v : ℕ) → v < 2 ^ 24 → Writes (lenenc_int_field v) (protocol_int v)
unfolding to_string_packet
Writes-lenenc_int v h = lenenc_int-protocol_int v h

-- A count of columns is one length-encoded number.
pub column_count_layout :
    (count : ℕ) → count < 2 ^ 24 → body_of (column_count_packet count) ≡ ok (protocol_int count)
unfolding column_count_packet joined
column_count_layout count h =
    body_of-WritesAll _ (protocol_int count ∷ []) (Writes-lenenc_int count h, tt)
    ∙ ap (λ b. ok b) (append-nil (protocol_int count))

-- The end-of-rows packet is five bytes: the marker 0xfe, no warnings, and the status.
pub eof_packet_layout :
    (status : ℕ)
    → status < 2 ^ 16
    → body_of (eof_packet status) ≡ ok (0xfe ∷ 0 ∷ 0 ∷ le_bytes 2 status)
unfolding eof_packet joined le_bytes
eof_packet_layout status h =
    body_of-WritesAll _ ((0xfe ∷ []) ∷ (0 ∷ 0 ∷ []) ∷ le_bytes 2 status ∷ []) (
      Writes-num 1 0xfe (omega arith) (omega arith),
      (
        Writes-num 2 0 (omega arith) (omega arith),
        (Writes-num 2 status (omega arith) (omega arith), tt),
      ),
    )

-- The answer to a prepared statement is twelve bytes: the status, the statement's number, the counts
-- of columns and parameters, a filler, and no warnings.
pub stmt_prepare_header_layout :
    (stmt_id num_columns num_params : ℕ)
    → stmt_id < 2 ^ 32
    → num_columns < 2 ^ 16
    → num_params < 2 ^ 16
    → body_of (stmt_prepare_header stmt_id num_columns num_params)
      ≡ ok (
          0 ∷ le_bytes 4 stmt_id
          ++ le_bytes 2 num_columns
          ++ le_bytes 2 num_params
          ++ 0 ∷ 0 ∷ 0 ∷ [])
unfolding stmt_prepare_header joined le_bytes
stmt_prepare_header_layout i c p hi hc hp =
    body_of-WritesAll _
      ((0 ∷ []) ∷ le_bytes 4 i ∷ le_bytes 2 c ∷ le_bytes 2 p ∷ (0 ∷ []) ∷ (0 ∷ 0 ∷ []) ∷ [])
      (
        Writes-num 1 0 (omega arith) (omega arith),
        (
          Writes-num 4 i (omega arith) (omega arith),
          (
            Writes-num 2 c (omega arith) (omega arith),
            (
              Writes-num 2 p (omega arith) (omega arith),
              (
                Writes-num 1 0 (omega arith) (omega arith),
                (Writes-num 2 0 (omega arith) (omega arith), tt),
              ),
            ),
          ),
        ),
      )

-- An error packet is the marker 0xff, the code, and a message of ASCII characters as it is.
pub err_packet_layout :
    (err_code : ℕ) (msg : Str)
    → err_code < 2 ^ 16
    → All IsAscii msg
    → body_of (err_packet err_code msg) ≡ ok (255 ∷ le_bytes 2 err_code ++ msg)
unfolding err_packet joined le_bytes
err_packet_layout code msg h ha =
    let (written, same, _) = eof_written msg in
    body_of-WritesAll _ ((255 ∷ []) ∷ le_bytes 2 code ∷ msg ∷ []) (
      Writes-num 1 255 (omega arith) (omega arith),
      (Writes-num 2 code (omega arith) (omega arith), (rw (same ha) at written, tt)),
    )
    ∙ ap (λ r. ok (255 ∷ le_bytes 2 code ++ r)) (append-nil msg)

-- A text behind its length.
abbrev pub protocol_text : Str → Bytes
protocol_text s = protocol_int (length (utf8 s)) ++ utf8 s

abbrev pub IsShort : Str → Type 0
IsShort s = length (utf8 s) < 2 ^ 24

-- What the names and numbers of a column have to fit.
pub record Fits (c : Column) : Type 0 where
  pub schema : IsShort c.schema
  pub table_alias : IsShort c.table_alias
  pub table_name : IsShort c.table_name
  pub column_alias : IsShort c.column_alias
  pub column_name : IsShort c.column_name
  pub charset : c.charset < 2 ^ 16
  pub max_length : c.max_length < 2 ^ 32
  pub column_type : c.column_type < 2 ^ 8
  pub flags : c.flags < 2 ^ 16

-- The bytes of a column definition.
abbrev pub definition_bytes : Column → Bytes
definition_bytes c = joined (
    protocol_text def_catalog
    ∷ protocol_text c.schema
    ∷ protocol_text c.table_alias
    ∷ protocol_text c.table_name
    ∷ protocol_text c.column_alias
    ∷ protocol_text c.column_name
    ∷ protocol_int 12
    ∷ le_bytes 2 c.charset
    ∷ le_bytes 4 c.max_length
    ∷ le_bytes 1 c.column_type
    ∷ le_bytes 2 c.flags
    ∷ le_bytes 1 0
    ∷ le_bytes 2 0
    ∷ [])

-- A column definition is the catalog "def", the five names behind their lengths, and the twelve bytes
-- that the 0xc announces: character set, length, type, flags, no decimals, and a filler.
pub column_definition_layout :
    (c : Column)
    → Fits c
    → body_of (column_definition_packet c)
      ≡ ok (
          joined (
            protocol_text def_catalog
            ∷ protocol_text c.schema
            ∷ protocol_text c.table_alias
            ∷ protocol_text c.table_name
            ∷ protocol_text c.column_alias
            ∷ protocol_text c.column_name
            ∷ protocol_int 12
            ∷ le_bytes 2 c.charset
            ∷ le_bytes 4 c.max_length
            ∷ le_bytes 1 c.column_type
            ∷ le_bytes 2 c.flags
            ∷ le_bytes 1 0
            ∷ le_bytes 2 0
            ∷ []))
unfolding column_definition_packet
column_definition_layout c h = body_of-WritesAll (column_definition_packet c) _ (
  Writes-lenenc def_catalog (unfold utf8 utf8_char in omega arith),
  (
    Writes-lenenc c.schema h.schema,
    (
      Writes-lenenc c.table_alias h.table_alias,
      (
        Writes-lenenc c.table_name h.table_name,
        (
          Writes-lenenc c.column_alias h.column_alias,
          (
            Writes-lenenc c.column_name h.column_name,
            (
              Writes-lenenc_int 12 (omega arith),
              (
                Writes-num 2 c.charset (omega arith) (omega (arith, h.charset)),
                (
                  Writes-num 4 c.max_length (omega arith) (omega (arith, h.max_length)),
                  (
                    Writes-num 1 c.column_type (omega arith) (omega (arith, h.column_type)),
                    (
                      Writes-num 2 c.flags (omega arith) (omega (arith, h.flags)),
                      (
                        Writes-num 1 0 (omega arith) (omega arith),
                        (Writes-num 2 0 (omega arith) (omega arith), tt),
                      ),
                    ),
                  ),
                ),
              ),
            ),
          ),
        ),
      ),
    ),
  ),
)
