-- ===== src/Wire/Packet/Faults.antt =====
-- Where `get` and `get_packet_string` leave the protocol.
use mindsdb_database_ai.Prelude.{
  ℕ, ◌+◌, ◌%◌, ◌^◌, ◌≤◌, ◌<◌, ◌≡◌, ◌≢◌, ap, arith, some, [], ◌∷◌, ◌++◌, length, take, ok, le→leb,
  ==_ne, append-nil, length-append,
}
use mindsdb_database_ai.Prelude.Bytes.{Bytes, le_bytes, le_val}
use mindsdb_database_ai.Wire.Packet.{
  load_from_params, get_packet_string, Socket, recv, get, max_packet_size, done, get_round,
}
use mindsdb_database_ai.Wire.Packet.Framing.{
  header, push, get-done, get_packet_string_lem, get_round-header, push-append,
}

recv-short : (c : Bytes) (cs : Socket) (n : ℕ) → length c ≤ n → recv n (c ∷ cs) ≡ (c, cs)
unfolding recv
recv-short c cs n h = rw (le→leb (length c) n h)

push-nonempty : (bs : Bytes) (cs : Socket) → 0 < length bs → push bs cs ≡ bs ∷ cs
push-nonempty bs cs h = rw (append-nil bs) at (push-append bs [] cs h)

-- A round gets no more of the body than the first segment has.
get_round-split :
    (seq n : ℕ) (front : Bytes) (cs : Socket)
    → 0 < length front
    → length front ≤ n
    → n < max_packet_size
    → get_round ((header n seq ++ front) ∷ cs) [] ≡ done cs seq front
get_round-split seq n front cs hf hn h = rw (
  get_round-header n seq [] front cs (omega arith),
  push-nonempty front cs hf,
  ==_ne n 0 (omega arith),
  recv-short front cs n hn,
  ==_ne n max_packet_size (omega arith),
)

-- A body that arrives in two segments is cut: `get` answers with the first part alone, and leaves
-- the second to be read as the next header.
pub get-split :
    (old seq : ℕ) (front back : Bytes) (cs : Socket)
    → 0 < length front
    → 0 < length back
    → length (front ++ back) < max_packet_size
    → (get (record {
      packet_sequence_number = old;
      socket = (header (length (front ++ back)) seq ++ front) ∷ back ∷ cs;
    })
        ≡ some (
          record { packet_sequence_number = (seq + 1) % 256; socket = back ∷ cs },
          some (load_from_params (length front) seq front),
        ))
      × (front ≢ front ++ back)
get-split old seq front back cs hf hb h = (
  get-done _ (back ∷ cs) seq front (
      get_round-split seq (length (front ++ back)) front (back ∷ cs) hf
        (omega (arith, length-append front back)) h),
  λ e. omega (arith, ap length e, length-append front back),
)

-- A body of 2 ^ 24 bytes or more (and below 2 ^ 31) is sent in one frame, whose header has the
-- length modulo 2 ^ 24.
pub get_packet_string-long :
    (seq : ℕ) (body : Bytes)
    → seq < 256
    → 2 ^ 24 ≤ length body
    → length body < 2 ^ 31
    → (bs : Bytes) × (get_packet_string (load_from_params (length body) seq body) ≡ ok bs)
      × (le_val (take 3 bs) ≡ length body % 2 ^ 24)
      × (le_val (take 3 bs) ≢ length body)
get_packet_string-long seq body hs lo hi =
    let low : le_val (take 3 (header (length body) seq ++ body)) ≡ length body % 2 ^ 24 =
      unfold header le_bytes le_val in omega arith in
    (
      header (length body) seq ++ body,
      get_packet_string_lem (length body) seq body hi hs,
      low,
      λ e. omega (arith, low, e),
    )
