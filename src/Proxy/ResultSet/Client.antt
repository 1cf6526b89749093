-- ===== src/Proxy/ResultSet/Client.antt =====
-- A client that reads packets as `Packet.get` does, on a connection where frames have arrived.
use mindsdb_database_ai.Prelude.{
  ℕ, zero, suc, ◌+◌, ◌%◌, ◌<◌, ◌≡◌, refl, arith, Bool, true, Option, none, some, List, [], ◌∷◌,
  ◌++◌, map, length, Result, ok, raise, All, append_assoc, append-nil, length-append, if◌then◌else◌,
}
use mindsdb_database_ai.Prelude.Bytes.{Bytes}
use mindsdb_database_ai.Wire.Packet.{Packet, Conn, get}
use mindsdb_database_ai.Wire.Packet.Framing.{header, push, push-append, get_round-last, get-done}
use mindsdb_database_ai.Wire.Bodies.Rows.{
  read_row, cells_of, IsShortCell, row_bytes, read_row-row_bytes, is_end, row_bytes-begins,
}
use mindsdb_database_ai.Proxy.ResultSet.{TableRow}
use mindsdb_database_ai.Proxy.ResultSet.Sent.{advance, IsFrame, frames}

abbrev pub or_nothing {ℓ κ} : {A : Type ℓ} {B : Type κ} → Option A → (A → Option B) → Option B
or_nothing none next = none
or_nothing (some a) next = next a

abbrev pub packet_body : Conn × Option Packet → Option (Conn × Bytes)
packet_body (c, none) = none
packet_body (c, some p) = some (c, p.body)

-- The body of the next packet.
pub next_body : Conn → Option (Conn × Bytes)
next_body c = or_nothing (get c) packet_body

pub skip : ℕ → Conn → Option Conn
skip zero c = some c
skip (suc n) c = or_nothing (next_body c) (λ r. skip n r.0)

abbrev pub ReadRow : Type 0
ReadRow = List (Option Bytes)

abbrev with_row : Result (ReadRow × Bytes) → Option (List ReadRow) → Option (List ReadRow)
with_row (ok (cells, rest)) (some rows) = some (cells ∷ rows)
with_row (ok (cells, rest)) none = none
with_row (raise e) rows = none

abbrev row_or_end : ℕ → Bytes → Option (List ReadRow) → Option (List ReadRow)
row_or_end n body rows = if is_end body then some [] else with_row (read_row n body) rows

-- Rows of `n` values up to the packet that ends them, on fuel.
pub read_rows : ℕ → ℕ → Conn → Option (List ReadRow)
read_rows zero n c = none
read_rows (suc f) n c = or_nothing (next_body c) (λ r. row_or_end n r.1 (read_rows f n r.0))

abbrev count_of : Bytes → ℕ
count_of [] = 0
count_of (b ∷ bs) = b

-- A result set of fewer than 251 columns: their number, their definitions, a packet behind them
-- unless `deprecate_eof`, the rows.
unfoldable pub read_table : ℕ → Bool → Conn → Option (ℕ × List ReadRow)
read_table f deprecate_eof c = or_nothing (next_body c) (λ r.
    let n = count_of r.1 in
    or_nothing (skip (if deprecate_eof then n else suc n) r.0)
      (λ c'. or_nothing (read_rows f n c') (λ rows. some (n, rows))))

-- A connection on which the frames of the bodies have arrived.
abbrev pub arrived : ℕ → ℕ → List Bytes → Conn
arrived old seq bodies = record {
  packet_sequence_number = old;
  socket = push (frames seq bodies) [];
}

pub next_body-arrived :
    (old seq : ℕ) (body : Bytes) (bodies : List Bytes)
    → seq < 256
    → IsFrame body
    → next_body (arrived old seq (body ∷ bodies))
      ≡ some (arrived ((seq + 1) % 256) ((seq + 1) % 256) bodies, body)
unfolding next_body frames
next_body-arrived old seq body bodies hs (lo, hi) =
    let more : Bytes = frames ((seq + 1) % 256) bodies in
    let h : Bytes = header (length body) seq in
    let long : 0 < length (h ++ body) = omega (arith, length-append h body) in
    rw (
      push-append (h ++ body) more [] long,
      append_assoc h body more,
      get-done (record { packet_sequence_number = old; socket = (h ++ (body ++ more)) ∷ [] })
          (push more []) seq body (get_round-last seq [] body more [] (omega (arith, hi)) lo hi),
    )

pub skip-arrived :
    (old seq : ℕ) (xs ys : List Bytes)
    → seq < 256
    → All IsFrame xs
    → (old' : ℕ) × (skip (length xs) (arrived old seq (xs ++ ys))
        ≡ some (arrived old' (advance seq xs) ys))
unfolding skip
skip-arrived old seq [] ys hs h = (old, refl)
skip-arrived old seq (x ∷ xs) ys hs h =
    let next : ℕ = (seq + 1) % 256 in
    let (old', e) = skip-arrived next next xs ys (omega arith) h.1 in
    (old', rw (next_body-arrived old seq x (xs ++ ys) hs h.0) e)

-- A row that a client of `n` columns can read.
abbrev pub IsRow : ℕ → TableRow → Type 0
IsRow n row = (length row ≡ n) × All IsShortCell row × IsFrame (row_bytes row)

pub read_rows-arrived :
    (old seq f n : ℕ) (rows : List TableRow) (last : Bytes)
    → seq < 256
    → length rows < f
    → 0 < n
    → All (IsRow n) rows
    → IsFrame last
    → is_end last ≡ true
    → read_rows f n (arrived old seq (map row_bytes rows ++ last ∷ [])) ≡ some (map cells_of rows)
unfolding read_rows
read_rows-arrived old seq zero n rows last hs hf hn h hl e = absurd (omega (arith, hf))
read_rows-arrived old seq (suc f) n [] last hs hf hn h hl e =
    rw (next_body-arrived old seq last [] hs hl, e)
read_rows-arrived old seq (suc f) n ([] ∷ rows) last hs hf hn h hl e =
    absurd (omega (arith, hn, h.0.0))
read_rows-arrived old seq (suc f) n ((x ∷ xs) ∷ rows) last hs hf hn h hl e =
    let next : ℕ = (seq + 1) % 256 in
    let body : Bytes = row_bytes (x ∷ xs) in
    let whole : read_row n body ≡ ok (cells_of (x ∷ xs), []) =
      rw (append-nil body, h.0.0) at (read_row-row_bytes (x ∷ xs) [] h.0.1) in
    rw (
      next_body-arrived old seq body (map row_bytes rows ++ last ∷ []) hs h.0.2,
      (row_bytes-begins x xs h.0.1.0).0,
      whole,
      read_rows-arrived next next f n rows last (omega arith) (omega (arith, hf)) hn h.1 hl e,
    )
