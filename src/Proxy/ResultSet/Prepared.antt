-- ===== src/Proxy/ResultSet/Prepared.antt =====
-- The answer of `answer_stmt_prepare` as packets, against what Proxy.Dispatch says is sent.
use mindsdb_database_ai.Prelude.{
  ℕ, ◌+◌, ◌%◌, ◌≡◌, refl, Bool, true, false, List, [], ◌∷◌, ◌++◌, map, length, replicate, Result,
}
use mindsdb_database_ai.Prelude.Bytes.{Bytes}
use mindsdb_database_ai.Wire.Bodies.{body_of, eof_packet, stmt_prepare_header, Column}
use mindsdb_database_ai.Proxy.Packages.{send_package_group}
use mindsdb_database_ai.Proxy.Dispatch.{
  Engine, Sent, header_sent, column_sent, eof_sent, definitions,
}
use mindsdb_database_ai.Proxy.ResultSet.{
  MysqlColumn, packet, packets, eof_packets, defined, announce_statement,
}
use mindsdb_database_ai.Proxy.ResultSet.Sent.{
  advance, made_from, packets_lem, advance-append, made_from-append, definition_columns,
  definition_body, definition_packets_lem,
}

abbrev pub eof_of : Bool → List (Result Bytes)
eof_of true = []
eof_of false = body_of (eof_packet 2) ∷ []

abbrev pub defined_bodies : (mssql deprecate_eof : Bool) → List MysqlColumn → List (Result Bytes)
defined_bodies mssql deprecate_eof [] = []
defined_bodies mssql deprecate_eof (c ∷ cs) =
    map definition_body (definition_columns mssql [] 0 (c ∷ cs)) ++ eof_of deprecate_eof

eof_packets_made :
    (deprecate_eof : Bool) (seq : ℕ)
    → eof_packets deprecate_eof 2 seq ≡ packets (eof_of deprecate_eof) seq
unfolding eof_packets packets
eof_packets_made true seq = refl
eof_packets_made false seq = refl

defined_lem :
    (mssql deprecate_eof : Bool) (cs : List MysqlColumn) (seq : ℕ)
    → defined mssql deprecate_eof cs seq ≡ packets (defined_bodies mssql deprecate_eof cs) seq
unfolding defined
defined_lem mssql deprecate_eof [] seq = unfold packets in refl
defined_lem mssql deprecate_eof (c ∷ cs) seq =
    let d : List (Result Bytes) = map definition_body (definition_columns mssql [] 0 (c ∷ cs)) in
    let e : List (Result Bytes) = eof_of deprecate_eof in
    rw (
      definition_packets_lem mssql [] 0 (c ∷ cs) seq (λ j. λ l. tt),
      packets_lem d seq,
      eof_packets_made deprecate_eof (advance seq d),
      packets_lem e (advance seq d),
      packets_lem (d ++ e) seq,
      advance-append d e seq,
      made_from-append d e seq,
    )

-- The bodies of the packets, the header first.
abbrev pub statement_bodies :
    (mssql deprecate_eof : Bool) → ℕ → List MysqlColumn → List MysqlColumn → List (Result Bytes)
statement_bodies mssql deprecate_eof stmt_id columns_def parameters_def =
    body_of (stmt_prepare_header stmt_id (length columns_def) (length parameters_def))
    ∷ (defined_bodies mssql deprecate_eof parameters_def
        ++ defined_bodies mssql deprecate_eof columns_def)

announce_statement-made :
    (mssql deprecate_eof : Bool) (stmt_id : ℕ) (columns_def parameters_def : List MysqlColumn)
    (seq : ℕ)
    → let bodies = statement_bodies mssql deprecate_eof stmt_id columns_def parameters_def in
      announce_statement mssql deprecate_eof stmt_id columns_def parameters_def seq
      ≡ (advance seq bodies, send_package_group (made_from seq bodies))
unfolding announce_statement packet
announce_statement-made mssql deprecate_eof stmt_id columns_def parameters_def seq =
    let s1 : ℕ = (seq + 1) % 256 in
    let p : List (Result Bytes) = defined_bodies mssql deprecate_eof parameters_def in
    let c : List (Result Bytes) = defined_bodies mssql deprecate_eof columns_def in
    rw (
      defined_lem mssql deprecate_eof parameters_def s1,
      packets_lem p s1,
      defined_lem mssql deprecate_eof columns_def (advance s1 p),
      packets_lem c (advance s1 p),
      advance-append p c s1,
      made_from-append p c s1,
    )

-- A packet is one of the kind that is said to be sent.
module _ {ℓ κ} {Row : Type ℓ} {R : Type κ} where
  abbrev pub Realises : Sent Row R → Result Bytes → Type 0
  Realises (header_sent stmt_id c p) body = body ≡ body_of (stmt_prepare_header stmt_id c p)
  Realises column_sent body = (c : Column) × (body ≡ definition_body c)
  Realises eof_sent body = (status : ℕ) × (body ≡ body_of (eof_packet status))
  Realises _ body = ⊥

  abbrev pub RealisesAll : List (Sent Row R) → List (Result Bytes) → Type 0
  RealisesAll [] [] = Unit {0}
  RealisesAll (x ∷ xs) (body ∷ bodies) = Realises x body × RealisesAll xs bodies
  RealisesAll _ _ = ⊥

  RealisesAll-append :
      (xs ys : List (Sent Row R)) (cs bs : List (Result Bytes))
      → RealisesAll xs cs
      → RealisesAll ys bs
      → RealisesAll (xs ++ ys) (cs ++ bs)
  RealisesAll-append [] ys [] bs h k = k
  RealisesAll-append [] ys (a ∷ cs) bs h k = absurd h
  RealisesAll-append (x ∷ xs) ys [] bs h k = absurd h
  RealisesAll-append (x ∷ xs) ys (a ∷ cs) bs h k = (h.0, RealisesAll-append xs ys cs bs h.1 k)

module _ {ℓ κ μ ν} {S : Type ℓ} {W : Type κ} {Row : Type μ} {R : Type ν} (engine : Engine S W Row R)
    (mssql : Bool) where
  columns_realised :
      (i : ℕ) (cs : List MysqlColumn)
      → RealisesAll {Row = Row} {R = R}
          (replicate (length cs) column_sent)
          (map definition_body (definition_columns mssql [] i cs))
  columns_realised i [] = tt
  columns_realised i (c ∷ cs) = ((_, refl), columns_realised (i + 1) cs)

  definitions_realised :
      (deprecate_eof : Bool) (cs : List MysqlColumn)
      → RealisesAll
          (definitions engine deprecate_eof (length cs))
          (defined_bodies mssql deprecate_eof cs)
  definitions_realised deprecate_eof [] = tt
  definitions_realised true (c ∷ cs) =
      RealisesAll-append (replicate (length (c ∷ cs)) column_sent) []
        (map definition_body (definition_columns mssql [] 0 (c ∷ cs))) []
        (columns_realised 0 (c ∷ cs)) tt
  definitions_realised false (c ∷ cs) =
      RealisesAll-append (replicate (length (c ∷ cs)) column_sent) (eof_sent ∷ [])
        (map definition_body (definition_columns mssql [] 0 (c ∷ cs))) (body_of (eof_packet 2) ∷ [])
        (columns_realised 0 (c ∷ cs)) ((2, refl), tt)

  -- The end of `answer_stmt_prepare` makes packets with the session's next numbers and sends them in
  -- one piece. Their bodies are `statement_bodies`: the header, with the number of the statement and
  -- of the columns and parameters; the definition of each parameter in order and, where there is one
  -- and the client wants it, an end packet with the status 2; then the same of the columns. Packet
  -- by packet they are of the kinds that the loop says it sends.
  pub announce_statement-Realises :
      (deprecate_eof : Bool) (stmt_id : ℕ) (columns_def parameters_def : List MysqlColumn) (seq : ℕ)
      → let bodies = statement_bodies mssql deprecate_eof stmt_id columns_def parameters_def in
        (announce_statement mssql deprecate_eof stmt_id columns_def parameters_def seq
          ≡ (advance seq bodies, send_package_group (made_from seq bodies)))
        × RealisesAll
            (header_sent stmt_id (length columns_def) (length parameters_def)
              ∷ (definitions engine deprecate_eof (length parameters_def)
                  ++ definitions engine deprecate_eof (length columns_def)))
            bodies
  announce_statement-Realises deprecate_eof stmt_id columns_def parameters_def seq = (
    announce_statement-made mssql deprecate_eof stmt_id columns_def parameters_def seq,
    (
      refl,
      RealisesAll-append (definitions engine deprecate_eof (length parameters_def))
          (definitions engine deprecate_eof (length columns_def))
          (defined_bodies mssql deprecate_eof parameters_def)
          (defined_bodies mssql deprecate_eof columns_def)
          (definitions_realised deprecate_eof parameters_def)
          (definitions_realised deprecate_eof columns_def),
    ),
  )
