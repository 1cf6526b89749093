-- ===== src/Mongo/Socket/Segments.antt =====
-- `_read_bytes` gives the next bytes, in whatever segments they come.
use mindsdb_database_ai.Prelude.{
  ℕ, zero, suc, ◌-◌, ◌≤◌, ◌<◌, ◌≡◌, refl, sym, ap, ◌∙◌, arith, false, none, some, List, [], ◌∷◌,
  ◌++◌, length, take, drop, All, leb, ◌==◌, Bool-cases, inl, inr, append_assoc, append-nil,
  length-append, length-take, length-drop, take-append-drop,
}
use mindsdb_database_ai.Prelude.Bytes.{Bytes}
use mindsdb_database_ai.Wire.Packet.{Socket, recv}
use mindsdb_database_ai.Mongo.Socket.{Reading, read_loop, read_bytes}

-- All the bytes that are on their way.
abbrev pub flat : Socket → Bytes
flat [] = []
flat (c ∷ cs) = c ++ flat cs

-- `recv` gives no bytes only behind the last segment.
abbrev pub IsSegment : Bytes → Type 0
IsSegment c = 0 < length c

-- What `recv` takes.
record Taken (n : ℕ) (sock : Socket) (r : Bytes × Socket) : Type 0 where
  pub some_bytes : 0 < length r.0
  pub at_most : length r.0 ≤ n
  pub rest : r.0 ++ flat r.1 ≡ flat sock
  pub segments : All IsSegment r.1

recv-Taken :
    (n : ℕ) (c : Bytes) (cs : Socket)
    → 0 < n
    → All IsSegment (c ∷ cs)
    → Taken n (c ∷ cs) (recv n (c ∷ cs))
unfolding recv
recv-Taken n c cs p h = elim (Bool-cases (leb (length c) n)) [
  | inl small ↦
      rw (recv, small)
        (record { some_bytes = h.0; at_most = ground arith; rest = refl; segments = h.1 })
  | inr large ↦
      rw (recv, large)
        (record {
          some_bytes = ground (arith, length-take n c);
          at_most = omega (arith, length-take n c);
          rest =
              sym (append_assoc (take n c) (drop n c) (flat cs))
              ∙ ap (λ x. x ++ flat cs) (take-append-drop n c);
          segments = (ground (arith, length-drop n c), h.1);
        })
]

take-append_more {ℓ} :
    {A : Type ℓ} (n : ℕ) (xs ys : List A)
    → length xs ≤ n
    → take n (xs ++ ys) ≡ xs ++ take (n - length xs) ys
take-append_more n [] ys h = ap (λ m. take m ys) (omega arith)
take-append_more zero (x ∷ xs) ys h = absurd (omega arith)
take-append_more (suc n) (x ∷ xs) ys h =
    let e : suc n - suc (length xs) ≡ n - length xs = omega arith in
    rw e (ap (λ r. x ∷ r) (take-append_more n xs ys (omega arith)))

drop-append_more {ℓ} :
    {A : Type ℓ} (n : ℕ) (xs ys : List A)
    → length xs ≤ n
    → drop n (xs ++ ys) ≡ drop (n - length xs) ys
drop-append_more n [] ys h = ap (λ m. drop m ys) (omega arith)
drop-append_more zero (x ∷ xs) ys h = absurd (omega arith)
drop-append_more (suc n) (x ∷ xs) ys h =
    let e : suc n - suc (length xs) ≡ n - length xs = omega arith in
    rw e (drop-append_more n xs ys (omega arith))

-- What reading `n` more bytes behind `buffer` gives: enough bytes are taken from the front of what is
-- on its way and the others stay; where there are not enough, the answer is False.
abbrev pub Read : ℕ → Socket → Bytes → Reading → Type 0
Read n sock buffer (none, sock') = (length (flat sock) < n) × (sock' ≡ [])
Read n sock buffer (some bs, sock') =
    (n ≤ length (flat sock))
    × (bs ≡ buffer ++ take n (flat sock))
    × (flat sock' ≡ drop n (flat sock))
    × All IsSegment sock'

Read-step :
    (n : ℕ) (sock : Socket) (buffer : Bytes) (t : Bytes × Socket)
    → Taken n sock t
    → (r : Reading) → Read (n - length t.0) t.1 (buffer ++ t.0) r
    → Read n sock buffer r
Read-step n sock buffer t taken (none, sock') (short, e) =
    (omega (arith, ap length taken.rest, length-append t.0 (flat t.1), taken.at_most), e)
Read-step n sock buffer t taken (some bs, sock') (enough, e, e', h) = (
  omega (arith, ap length taken.rest, length-append t.0 (flat t.1), taken.at_most),
  rw (← taken.rest, take-append_more n t.0 (flat t.1) taken.at_most)
      (e ∙ append_assoc buffer t.0 (take (n - length t.0) (flat t.1))),
  rw (← taken.rest, drop-append_more n t.0 (flat t.1) taken.at_most) e',
  h,
)

read_loop-Read :
    (f n : ℕ) (sock : Socket) (buffer : Bytes)
    → n < f
    → All IsSegment sock
    → (r : Reading) × (read_loop f n sock buffer ≡ some r) × Read n sock buffer r
unfolding read_loop
read_loop-Read zero n sock buffer hf h = absurd (omega arith)
read_loop-Read (suc f) zero sock buffer hf h =
    ((some buffer, sock), refl, (omega arith, sym (append-nil buffer), refl, h))
read_loop-Read (suc f) (suc n) [] buffer hf h =
    ((none, []), unfold recv in refl, (omega arith, refl))
read_loop-Read (suc f) (suc n) (c ∷ cs) buffer hf h =
    let t : Bytes × Socket = recv (suc n) (c ∷ cs) in
    let taken : Taken (suc n) (c ∷ cs) t = recv-Taken (suc n) c cs (omega arith) h in
    let (r, e, read) =
      read_loop-Read f (suc n - length t.0) t.1 (buffer ++ t.0) (omega (arith, taken.some_bytes))
        taken.segments in
    let more : (length t.0 == 0) ≡ false = ground (arith, taken.some_bytes) in
    (r, rw (read_loop, more) e, Read-step (suc n) (c ∷ cs) buffer t taken r read)

-- Reading `n` bytes always ends. Where `n` bytes are on their way before the peer closes, it gives
-- the next `n` and leaves the others, however they are cut into segments that are not empty; where
-- fewer are, it answers False.
pub read_bytes-Read :
    (n : ℕ) (sock : Socket)
    → All IsSegment sock
    → (r : Reading) × (read_bytes n sock ≡ some r) × Read n sock [] r
unfolding read_bytes
read_bytes-Read n sock h = read_loop-Read (suc n) n sock [] (omega arith) h
