-- ===== src/Proxy/ResultSet/Sent.antt =====
-- The packets of a table one after the other, with their numbers, and the bytes that are sent.
use Prim.Native.Nat.{max}
use mindsdb_database_ai.Prelude.{
  ℕ, zero, suc, ◌+◌, ◌%◌, ◌<◌, ◌≡◌, refl, ap, arith, Bool, true, false, none, some, List, [], ◌∷◌,
  ◌++◌, map, length, get_elem?, Result, ok, All,
}
use mindsdb_database_ai.Prelude.Bytes.{Bytes}
use mindsdb_database_ai.Wire.Packet.{max_packet_size}
use mindsdb_database_ai.Wire.Packet.Framing.{header, get_packet_string_lem}
use mindsdb_database_ai.Wire.Bodies.{body_of, Column, column_definition_packet}
use mindsdb_database_ai.Proxy.Packages.{Made, accum, send_package_group}
use mindsdb_database_ai.Proxy.ResultSet.{
  TableRow, MysqlColumn, or_default, packet_column, shown_length, longest, column_length, packet,
  packets, definition_packets,
}

-- The number behind those of a list of packets.
abbrev pub advance {ℓ} : {A : Type ℓ} → ℕ → List A → ℕ
advance seq [] = seq
advance seq (x ∷ xs) = advance ((seq + 1) % 256) xs

abbrev pub made_from : ℕ → List (Result Bytes) → List Made
made_from seq [] = []
made_from seq (body ∷ bodies) =
    record { seq = seq; body = body } ∷ made_from ((seq + 1) % 256) bodies

pub packets_lem :
    (bodies : List (Result Bytes)) (seq : ℕ)
    → packets bodies seq ≡ (advance seq bodies, ok (made_from seq bodies))
unfolding packets packet
packets_lem [] seq = refl
packets_lem (body ∷ bodies) seq = rw (packets_lem bodies ((seq + 1) % 256))

pub advance-append {ℓ} :
    {A : Type ℓ} (xs ys : List A) (seq : ℕ) → advance seq (xs ++ ys) ≡ advance (advance seq xs) ys
advance-append [] ys seq = refl
advance-append (x ∷ xs) ys seq = advance-append xs ys ((seq + 1) % 256)

pub made_from-append :
    (xs ys : List (Result Bytes)) (seq : ℕ)
    → made_from seq (xs ++ ys) ≡ made_from seq xs ++ made_from (advance seq xs) ys
made_from-append [] ys seq = refl
made_from-append (x ∷ xs) ys seq =
    ap (λ r. record { seq = seq; body = x } ∷ r) (made_from-append xs ys ((seq + 1) % 256))

-- The length that a column is announced with: that of its longest text.
abbrev pub widest : ℕ → List TableRow → ℕ → ℕ
widest i [] n = n
widest i (row ∷ rows) n = widest i rows (max (shown_length (or_default (get_elem? row i) none)) n)

abbrev pub column_width : Bool → ℕ → List TableRow → ℕ
column_width true i data' = 0x2000
column_width false i [] = 0xffff
column_width false i (row ∷ rows) = widest i (row ∷ rows) 1

abbrev pub definition_columns : Bool → List TableRow → ℕ → List MysqlColumn → List Column
definition_columns mssql data' i [] = []
definition_columns mssql data' i (c ∷ cs) =
    packet_column c (column_width mssql i data') ∷ definition_columns mssql data' (i + 1) cs

get_elem?-there {ℓ} :
    {A : Type ℓ} (xs : List A) (i : ℕ) → i < length xs → (a : A) × (get_elem? xs i ≡ some a)
get_elem?-there [] i h = absurd (omega arith)
get_elem?-there (x ∷ xs) zero h = (x, refl)
get_elem?-there (x ∷ xs) (suc i) h = get_elem?-there xs i (omega (arith, h))

-- A row that has a value in column `i`.
abbrev pub Reaches : ℕ → TableRow → Type 0
Reaches i row = i < length row

longest_lem :
    (i : ℕ) (rows : List TableRow) (n : ℕ)
    → All (Reaches i) rows
    → longest i rows n ≡ ok (widest i rows n)
unfolding longest
longest_lem i [] n h = refl
longest_lem i (row ∷ rows) n h =
    let (x, e) = get_elem?-there row i h.0 in
    rw (longest, e) (longest_lem i rows (max (shown_length x) n) h.1)

column_length_lem :
    (mssql : Bool) (i : ℕ) (data' : List TableRow)
    → All (Reaches i) data'
    → column_length mssql i data' ≡ ok (column_width mssql i data')
unfolding column_length
column_length_lem true i data' h = refl
column_length_lem false i [] h = refl
column_length_lem false i (row ∷ rows) h = longest_lem i (row ∷ rows) 1 h

abbrev pub definition_body : Column → Result Bytes
definition_body c = body_of (column_definition_packet c)

-- Definitions are made as a list of packets.
pub definition_packets_lem :
    (mssql : Bool) (data' : List TableRow) (i : ℕ) (cs : List MysqlColumn) (seq : ℕ)
    → ((j : ℕ) → j < length cs → All (Reaches (i + j)) data')
    → definition_packets mssql data' i cs seq
      ≡ packets (map definition_body (definition_columns mssql data' i cs)) seq
unfolding definition_packets packets packet
definition_packets_lem mssql data' i [] seq h = refl
definition_packets_lem mssql data' i (c ∷ cs) seq h =
    let here : All (Reaches i) data' =
      let e : i + 0 ≡ i = omega arith in rw e at (h 0 (omega arith)) in
    let next : (j : ℕ) → j < length cs → All (Reaches (i + 1 + j)) data' = λ j.
      λ l. let e : i + 1 + j ≡ i + suc j = omega arith in rw e (h (suc j) (omega (arith, l))) in
    rw (
      column_length_lem mssql i data' here,
      definition_packets_lem mssql data' (i + 1) cs ((seq + 1) % 256) next,
    )

-- A body that goes as one frame.
abbrev pub IsFrame : Bytes → Type 0
IsFrame body = (0 < length body) × (length body < max_packet_size)

unfoldable pub frames : ℕ → List Bytes → Bytes
frames seq [] = []
frames seq (body ∷ bodies) = (header (length body) seq ++ body) ++ frames ((seq + 1) % 256) bodies

-- What is sent for bodies that could be written: their frames.
pub send_package_group_lem :
    (seq : ℕ) (bodies : List Bytes)
    → seq < 256
    → All IsFrame bodies
    → send_package_group (made_from seq (map (λ b. ok b) bodies)) ≡ ok (frames seq bodies)
unfolding send_package_group accum frames
send_package_group_lem seq [] hs h = refl
send_package_group_lem seq (body ∷ bodies) hs h = rw (
  get_packet_string_lem (length body) seq body (omega (arith, h.0.1)) hs,
  send_package_group_lem ((seq + 1) % 256) bodies (omega arith) h.1,
)
