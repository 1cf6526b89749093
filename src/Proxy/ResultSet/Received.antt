-- ===== src/Proxy/ResultSet/Received.antt =====
-- A client gets the table that `answer_select` was given.
use mindsdb_database_ai.Prelude.{
  ℕ, suc, ◌+◌, ◌%◌, ◌<◌, ◌≡◌, refl, ap, ◌∙◌, arith, Bool, true, false, some, List, [], ◌∷◌, ◌++◌,
  map, length, ok, All, All-append, append_assoc, length-append,
}
use mindsdb_database_ai.Prelude.Bytes.{Bytes}
use mindsdb_database_ai.Wire.Packet.Framing.{header, push-append}
use mindsdb_database_ai.Wire.Bodies.Layout.{definition_bytes}
use mindsdb_database_ai.Wire.Bodies.Rows.{cells_of, row_bytes, is_end}
use mindsdb_database_ai.Proxy.ResultSet.{TableRow, MysqlColumn, table, answer_select}
use mindsdb_database_ai.Proxy.ResultSet.Sent.{
  advance, definition_columns, IsFrame, frames, send_package_group_lem,
}
use mindsdb_database_ai.Proxy.ResultSet.Client.{
  ReadRow, or_nothing, arrived, next_body-arrived, skip, skip-arrived, IsRow, read_rows,
  read_rows-arrived, read_table,
}
use mindsdb_database_ai.Proxy.ResultSet.Select.{
  IsTable, packet_columns, written, last_body, behind_definitions, sent_bodies, answer_select-made,
  sent_bodies-IsFrame, advance-lt,
}

length-map {ℓ κ} :
    {A : Type ℓ} {B : Type κ} (f : A → B) (xs : List A) → length (map f xs) ≡ length xs
length-map f [] = refl
length-map f (x ∷ xs) = ap suc (length-map f xs)

length-definition_columns :
    (mssql : Bool) (data' : List TableRow) (i : ℕ) (cs : List MysqlColumn)
    → length (definition_columns mssql data' i cs) ≡ length cs
length-definition_columns mssql data' i [] = refl
length-definition_columns mssql data' i (c ∷ cs) =
    ap suc (length-definition_columns mssql data' (i + 1) cs)

advance_lem {ℓ} :
    {A : Type ℓ} (xs : List A) (seq : ℕ) → seq < 256 → advance seq xs ≡ (seq + length xs) % 256
advance_lem [] seq h = omega (arith, h)
advance_lem (x ∷ xs) seq h = advance_lem xs ((seq + 1) % 256) (omega arith) ∙ omega arith

-- How many packets a table takes.
abbrev pub packet_count : Bool → ℕ → ℕ → ℕ
packet_count true columns rows = 2 + columns + rows
packet_count false columns rows = 3 + columns + rows

All-split {ℓ κ} :
    {A : Type ℓ} (P : A → Type κ) (xs ys : List A) → All P (xs ++ ys) → All P xs × All P ys
All-split P [] ys h = (tt, h)
All-split P (x ∷ xs) ys h = let (a, b) = All-split P xs ys h.1 in ((h.0, a), b)

-- What a client reads behind the definitions, of which there are `n`, with the packet behind them.
module _ (old seq f n : ℕ) (rows : List TableRow) (last : Bytes) (hs : seq < 256)
    (hf : length rows < f) (hn : 0 < n) (h : All (IsRow n) rows) (hl : IsFrame last)
    (e : is_end last ≡ true) where
  rows_behind :
      (k : ℕ) (xs : List Bytes)
      → length xs ≡ k
      → All IsFrame xs
      → or_nothing {B = ℕ × List ReadRow}
          (skip k (arrived old seq (xs ++ (map row_bytes rows ++ last ∷ []))))
          (λ c'. or_nothing (read_rows f n c') (λ rs. some (n, rs)))
        ≡ some (n, map cells_of rows)
  rows_behind k xs l hx =
      let (old', skipped) = skip-arrived old seq xs (map row_bytes rows ++ last ∷ []) hs hx in
      rw (
        ← l,
        skipped,
        read_rows-arrived old' (advance seq xs) f n rows last (advance-lt xs seq hs) hf hn h hl e,
      )

module _ (mssql : Bool) (columns : List MysqlColumn) (data' : List TableRow) where
  definition_bodies : List Bytes
  definition_bodies = map definition_bytes (packet_columns mssql columns data')

  length-definition_bodies : length definition_bodies ≡ length columns
  unfolding definition_bodies
  length-definition_bodies =
      length-map definition_bytes (packet_columns mssql columns data')
      ∙ length-definition_columns mssql data' 0 columns

  length-sent_bodies :
      (deprecate_eof : Bool)
      → length (sent_bodies mssql columns data' deprecate_eof)
        ≡ packet_count deprecate_eof (length columns) (length data')
  unfolding definition_bodies
  length-sent_bodies true = omega (
    arith,
    length-append definition_bodies (behind_definitions mssql columns data' true),
    length-definition_bodies,
    length-append (map row_bytes data') (last_body true ∷ []),
    length-map row_bytes data',
  )
  length-sent_bodies false = omega (
    arith,
    length-append definition_bodies (behind_definitions mssql columns data' false),
    length-definition_bodies,
    length-append (map row_bytes data') (last_body false ∷ []),
    length-map row_bytes data',
  )

  read_table-arrived :
      (deprecate_eof : Bool) (old seq f : ℕ)
      → IsTable mssql columns data'
      → seq < 256
      → length data' < f
      → read_table f deprecate_eof (arrived old seq (sent_bodies mssql columns data' deprecate_eof))
        ≡ some (length columns, map cells_of data')
  unfolding read_table definition_bodies is_end
  read_table-arrived true old seq f valid hs hf =
      let (some_columns, few, fit, rows) = valid in
      let s1 : ℕ = (seq + 1) % 256 in
      let behind : List Bytes = behind_definitions mssql columns data' true in
      let framed = sent_bodies-IsFrame mssql columns data' true valid in
      rw (next_body-arrived old seq (length columns ∷ []) (definition_bodies ++ behind) hs framed.0)
        (rows_behind s1 s1 f (length columns) data' (last_body true) (omega arith) hf some_columns
          rows (omega arith, omega arith) refl (length columns) definition_bodies
          length-definition_bodies (All-split IsFrame definition_bodies behind framed.1).0)
  read_table-arrived false old seq f valid hs hf =
      let (some_columns, few, fit, rows) = valid in
      let s1 : ℕ = (seq + 1) % 256 in
      let behind : List Bytes = behind_definitions mssql columns data' false in
      let eof : Bytes = 0xfe ∷ 0 ∷ 0 ∷ 0 ∷ 0 ∷ [] in
      let framed = sent_bodies-IsFrame mssql columns data' false valid in
      let more : length (definition_bodies ++ eof ∷ []) ≡ suc (length columns) =
        omega (arith, length-append definition_bodies (eof ∷ []), length-definition_bodies) in
      let rest : List Bytes = map row_bytes data' ++ last_body false ∷ [] in
      rw (next_body-arrived old seq (length columns ∷ []) (definition_bodies ++ behind) hs framed.0)
        (rw (append_assoc definition_bodies (eof ∷ []) rest) at (
          rows_behind s1 s1 f (length columns) data' (last_body false) (omega arith) hf some_columns
            rows (omega arith, omega arith) refl (suc (length columns))
            (definition_bodies ++ eof ∷ []) more
            (All-append IsFrame definition_bodies (eof ∷ [])
              (All-split IsFrame definition_bodies behind framed.1).0
              ((omega arith, omega arith), tt))))

-- A table of 1 to 250 columns, whose definitions and rows fit a packet each and whose rows have a
-- value for each column, is sent, and the session goes on with the number behind those of its
-- packets. A client on whose connection the bytes arrive in one segment reads the number of columns
-- and the rows: nulls as nulls, texts as their encodings. This holds with and without the packet
-- behind the definitions, whatever the integration, when the client may read more packets than there
-- are rows.
pub answer_select-read_table :
    (mssql deprecate_eof : Bool) (columns : List MysqlColumn) (data' : List TableRow)
    (old seq f : ℕ)
    → IsTable mssql columns data'
    → seq < 256
    → length data' < f
    → (out : Bytes) × (answer_select mssql deprecate_eof (table columns data') seq
        ≡ ((seq + packet_count deprecate_eof (length columns) (length data')) % 256, ok out))
      × (read_table f deprecate_eof (record { packet_sequence_number = old; socket = out ∷ [] })
          ≡ some (length columns, map cells_of data'))
unfolding frames
answer_select-read_table mssql deprecate_eof columns data' old seq f valid hs hf =
    let bodies : List Bytes = sent_bodies mssql columns data' deprecate_eof in
    let framed = sent_bodies-IsFrame mssql columns data' deprecate_eof valid in
    let more : Bytes = frames ((seq + 1) % 256) (
      map definition_bytes (packet_columns mssql columns data')
      ++ behind_definitions mssql columns data' deprecate_eof) in
    let long : 0 < length (header 1 seq ++ length columns ∷ []) =
      omega (arith, length-append (header 1 seq) (length columns ∷ [])) in
    let sent = send_package_group_lem seq bodies hs framed in
    let next : advance seq (written bodies)
        ≡ (seq + packet_count deprecate_eof (length columns) (length data')) % 256 =
      advance_lem (written bodies) seq hs
      ∙ ap (λ k. (seq + k) % 256)
          (length-map _ bodies ∙ length-sent_bodies mssql columns data' deprecate_eof) in
    (
      frames seq bodies,
      answer_select-made mssql columns data' deprecate_eof seq valid ∙ rw (next, sent),
      rw (push-append (header 1 seq ++ length columns ∷ []) more [] long) at
          (read_table-arrived mssql columns data' deprecate_eof old seq f valid hs hf),
    )
