-- ===== src/Wire/Packet/Framing.antt =====
-- `Packet.get` reads what `get_packet_string` wrote, and always ends.
use mathlib.Core.Option
use mindsdb_database_ai.Prelude.{
  ℕ, zero, suc, ◌+◌, ◌%◌, ◌^◌, ◌≤◌, ◌<◌, ◌≡◌, ◌≢◌, refl, ap, arith, none, some, [], ◌∷◌, ◌++◌,
  length, take, get_elem?, ok, lt→ltb, le→leb, gt→leb, ==_ne, Option-cases, inl, inr, append_assoc,
  append-nil, take-append, drop-append, length-append, length-take, length-drop,
}
use mindsdb_database_ai.Prelude.Bytes.{
  Bytes, le_bytes, le_val, length-le_bytes, le_val-le_bytes, take-le_bytes,
}
use mindsdb_database_ai.Wire.Packet.{
  load_from_params, get_packet_string, Socket, recv, Conn, get_loop, bytes_pending, finish, get,
  max_packet_size, Round, closed, done, again, get_round, body_round, chunk_round,
}

-- The four bytes in front of a body.
unfoldable pub header : ℕ → ℕ → Bytes
header n seq = le_bytes 3 n ++ seq ∷ []

-- What is sent: three bytes of the length, the sequence number, the body.
pub get_packet_string_lem :
    (n seq : ℕ) (body : Bytes)
    → n < 2 ^ 31
    → seq < 256
    → get_packet_string (load_from_params n seq body) ≡ ok (header n seq ++ body)
unfolding get_packet_string header
get_packet_string_lem n seq body hn hs =
    rw (lt→ltb n (2 ^ 31) hn, lt→ltb seq 256 hs, take-le_bytes 3 4 n (omega arith))

bytes_pending-recv :
    (n : ℕ) (s : Socket) → length (recv n s).0 + bytes_pending (recv n s).1 ≡ bytes_pending s
unfolding recv
bytes_pending-recv n [] = refl
bytes_pending-recv n (c ∷ cs) = ground (arith, length-take n c, length-drop n c)

length-get_elem : (bs : Bytes) {b : ℕ} → get_elem? bs 3 ≡ some b → 4 ≤ length bs
length-get_elem (a ∷ b ∷ c ∷ d ∷ bs) e = omega arith
length-get_elem (a ∷ b ∷ c ∷ []) e = cc
length-get_elem (a ∷ b ∷ []) e = cc
length-get_elem (a ∷ []) e = cc
length-get_elem [] e = cc

-- Another round takes four bytes at least.
get_round_takes :
    (s : Socket) (body : Bytes) {s' : Socket} {body' : Bytes}
    → get_round s body ≡ again s' body'
    → bytes_pending s' < bytes_pending s
unfolding get_round
get_round_takes s body e =
    let first = recv 4 s in
    let n : ℕ = le_val (take 3 first.0) in
    elim (Option-cases (get_elem? first.0 3)) [
      | inl h ↦ ground arith
      | inr (b, h) ↦
          ground
            (arith, bytes_pending-recv 4 s, bytes_pending-recv n first.1, length-get_elem first.0 h)
    ]

-- The loop ends before its fuel does.
get_loop_total :
    (f : ℕ) (s : Socket) (body : Bytes) → bytes_pending s < f → get_loop f s body ≢ none
unfolding get_loop
get_loop_total zero s body h = absurd (omega arith)
get_loop_total (suc f) s body h = go (get_round s body) refl (λ s' b l. get_loop_total f s' b l)
  where
    go :
        (r : Round)
        → get_round s body ≡ r
        → ((s' : Socket) (b : Bytes) → bytes_pending s' < f → get_loop f s' b ≢ none)
        → get_loop (suc f) s body ≢ none
    go (closed s') e ih = ground arith
    go (done s' c b) e ih = ground arith
    go (again s' b) e ih = ground (arith, ih s' b (omega (arith, get_round_takes s body e)))

-- `get` ends on every socket: the fuel never runs out.
pub get_total : (c : Conn) → get c ≢ none
unfolding get
get_total c = ground (arith, get_loop_total (suc (bytes_pending c.socket)) c.socket [])

-- The segment's bytes behind those that were taken.
abbrev pub push : Bytes → Socket → Socket
push [] cs = cs
push (x ∷ xs) cs = (x ∷ xs) ∷ cs

pub recv-push :
    (hd xs : Bytes) (cs : Socket) {n : ℕ}
    → length hd ≡ n
    → recv n ((hd ++ xs) ∷ cs) ≡ (hd, push xs cs)
unfolding recv
recv-push hd [] cs {n} h = rw (append-nil hd, le→leb (length hd) n (omega arith))
recv-push hd (x ∷ xs) cs {n} h = rw (
  gt→leb (length (hd ++ x ∷ xs)) n (omega (arith, length-append hd (x ∷ xs))),
  take-append hd (x ∷ xs) h,
  drop-append hd (x ∷ xs) h,
)

pub push-append :
    (bs more : Bytes) (cs : Socket) → 0 < length bs → push (bs ++ more) cs ≡ (bs ++ more) ∷ cs
push-append [] more cs h = absurd (omega arith)
push-append (b ∷ bs) more cs h = refl

-- The first four bytes of a frame.
recv-header :
    (n seq : ℕ) (xs : Bytes) (cs : Socket)
    → recv 4 ((header n seq ++ xs) ∷ cs) ≡ (header n seq, push xs cs)
recv-header n seq xs cs = recv-push (header n seq) xs cs (unfold header le_bytes in refl)

header_length : (n seq : ℕ) → n < 2 ^ 24 → le_val (take 3 (header n seq)) ≡ n
unfolding header
header_length n seq h =
    rw (take-append (le_bytes 3 n) (seq ∷ []) (length-le_bytes 3 n)) (le_val-le_bytes 3 n h)

header_count : (n seq : ℕ) → get_elem? (header n seq) 3 ≡ some seq
unfolding header le_bytes
header_count n seq = refl

pub get_round-header :
    (n seq : ℕ) (acc xs : Bytes) (cs : Socket)
    → n < 2 ^ 24
    → get_round ((header n seq ++ xs) ∷ cs) acc ≡ body_round n seq acc (push xs cs)
unfolding get_round
get_round-header n seq acc xs cs h =
    rw (recv-header n seq xs cs, header_count, header_length n seq h)

-- One round on a frame: it is empty, the last one, or a full one.
module _ (seq : ℕ) (acc body more : Bytes) (cs : Socket)
    (fits : length body ≤ max_packet_size) where
  abbrev pub segment : Socket
  segment = (header (length body) seq ++ (body ++ more)) ∷ cs

  frame_header : get_round segment acc ≡ body_round (length body) seq acc (push (body ++ more) cs)
  frame_header = get_round-header (length body) seq acc (body ++ more) cs (omega arith)

  pub get_round-empty :
      length body ≡ 0 → get_round segment acc ≡ done (push (body ++ more) cs) seq acc
  get_round-empty h = rw (frame_header, h)

  body_received :
      0 < length body
      → body_round (length body) seq acc (push (body ++ more) cs)
        ≡ chunk_round (length body) seq acc (body, push more cs)
  body_received h =
      rw (
        ==_ne (length body) 0 (omega arith),
        push-append body more cs h,
        recv-push body more cs refl,
      )

  pub get_round-last :
      0 < length body
      → length body < max_packet_size
      → get_round segment acc ≡ done (push more cs) seq (acc ++ body)
  get_round-last lo hi =
      rw (frame_header, body_received lo, ==_ne (length body) max_packet_size (omega arith))

  pub get_round-full :
      length body ≡ max_packet_size → get_round segment acc ≡ again (push more cs) (acc ++ body)
  get_round-full h = rw (frame_header, body_received (omega arith), h)

-- What the loop answers, by its first round.
module _ (f : ℕ) (s s' : Socket) (acc body : Bytes) where
  pub get_loop-done :
      (count : ℕ)
      → get_round s acc ≡ done s' count body
      → get_loop (suc f) s acc ≡ some (s', some (count, body))
  unfolding get_loop
  get_loop-done count e = rw (e, get_loop)

  pub get_loop-again : get_round s acc ≡ again s' body → get_loop (suc f) s acc ≡ get_loop f s' body
  unfolding get_loop
  get_loop-again e = rw (e, get_loop)

-- What `get` answers, by the first round of its loop.
pub get-done :
    (c : Conn) (s' : Socket) (count : ℕ) (body : Bytes)
    → get_round c.socket [] ≡ done s' count body
    → get c ≡ some (finish c (s', some (count, body)))
unfolding get
get-done c s' count body e =
    ap (Option.map (finish c)) (get_loop-done (bytes_pending c.socket) c.socket s' [] body count e)

-- A packet with a body that is not empty and shorter than 2 ^ 24 - 1 bytes is sent as a header and
-- the body. A connection on which these bytes arrive in one segment, with any bytes behind them,
-- gets the packet back; it goes on with the next sequence number and the bytes behind.
pub get-get_packet_string :
    (seq : ℕ) (body : Bytes)
    → seq < 256
    → 0 < length body
    → length body < max_packet_size
    → (bs : Bytes) × (get_packet_string (load_from_params (length body) seq body) ≡ ok bs)
      × ((more : Bytes) (cs : Socket) (old : ℕ)
          → get (record { packet_sequence_number = old; socket = (bs ++ more) ∷ cs })
            ≡ some (
              record { packet_sequence_number = (seq + 1) % 256; socket = push more cs },
              some (load_from_params (length body) seq body),
            ))
get-get_packet_string seq body hs lo hi = (
  header (length body) seq ++ body,
  get_packet_string_lem (length body) seq body (omega arith) hs,
  λ more cs old.
      rw (append_assoc (header (length body) seq) body more) (
        get-done _ (push more cs) seq body
          (get_round-last seq [] body more cs (omega arith) lo hi)),
)
