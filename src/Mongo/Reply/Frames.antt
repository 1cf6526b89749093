-- ===== src/Mongo/Reply/Frames.antt =====
-- What the connection makes of the bytes on their way does not depend on their segments, and a
-- client can read the headers of the replies.
use mindsdb_database_ai.Prelude.{
  ℕ, zero, suc, ◌-◌, ◌≡◌, refl, sym, ap, ◌∙◌, arith, Option, none, some, List, [], ◌++◌, length,
  take, drop, All, Exn, Result, ok, raise, ltb, Bool-cases, inl, inr,
}
use mindsdb_database_ai.Prelude.Bytes.{Bytes}
use mindsdb_database_ai.Prelude.Int.{ℤ, pos, negsuc}
use mindsdb_database_ai.Wire.Packet.{Socket}
use mindsdb_database_ai.Mongo.Socket.{Reading}
use mindsdb_database_ai.Mongo.Socket.Segments.{flat, IsSegment, Read, read_bytes-Read}
use mindsdb_database_ai.Mongo.Reply.{
  Header, Operation, operation_of, read_header, read_message, get_answer, no_message, after_round,
  after_reading, after_header, round, serve,
}

-- Two readings that agree but for the segments of what is left.
abbrev Alike : Reading → Reading → Type 0
Alike (none, s) (none, t) = Unit {0}
Alike (some b, s) (some c, t) = (b ≡ c) × (flat s ≡ flat t) × All IsSegment s × All IsSegment t
Alike _ _ = ⊥

Read-Alike :
    (n : ℕ) (s t : Socket) (r q : Reading)
    → flat s ≡ flat t
    → Read n s [] r
    → Read n t [] q
    → Alike r q
Read-Alike n s t (none, s') (none, t') e h k = tt
Read-Alike n s t (none, s') (some c, t') e h k = absurd (omega (arith, ap length e, h.0, k.0))
Read-Alike n s t (some b, s') (none, t') e h k = absurd (omega (arith, ap length e, h.0, k.0))
Read-Alike n s t (some b, s') (some c, t') e (_, hb, hs, h) (_, kb, ks, k) =
    (hb ∙ ap (λ x. [] ++ take n x) e ∙ sym kb, hs ∙ ap (λ x. drop n x) e ∙ sym ks, h, k)

module _ {ℓ κ} {Doc : Type ℓ} {W : Type κ} (encode : Doc → Result Bytes)
    (respond : Operation → Bytes → ℤ → W → Option (W × Result (Option Doc))) where
  module _ (next : Socket → W → Option (W × List Bytes × Option Exn)) where
    -- Going on does not tell apart sockets with the same bytes.
    abbrev IsFlat : Type κ
    IsFlat =
        (s t : Socket) (w : W)
        → All IsSegment s
        → All IsSegment t
        → flat s ≡ flat t
        → next s w ≡ next t w

    after_round-IsFlat :
        (x : Option (W × Result (Option Bytes))) (s t : Socket)
        → IsFlat
        → All IsSegment s
        → All IsSegment t
        → flat s ≡ flat t
        → after_round encode respond x (next s) ≡ after_round encode respond x (next t)
    after_round-IsFlat none s t g hs ht h = refl
    after_round-IsFlat (some (w, raise e)) s t g hs ht h = refl
    after_round-IsFlat (some (w, ok answer)) s t g hs ht h = rw (after_round, g s t w hs ht h)

    after_round-no_message :
        (w : W) (op : Option Operation) (s t : Socket)
        → after_round encode respond (no_message encode respond w op) (next s)
          ≡ after_round encode respond (no_message encode respond w op) (next t)
    after_round-no_message w none s t = refl
    after_round-no_message w (some op) s t = refl

    after_reading-IsFlat :
        (w : W) (h : Header) (r q : Reading)
        → IsFlat
        → Alike r q
        → after_reading encode respond w h (ok (some r)) next
          ≡ after_reading encode respond w h (ok (some q)) next
    after_reading-IsFlat w h (none, s) (none, t) g a =
        after_round-no_message w (operation_of h.opcode) s t
    after_reading-IsFlat w h (none, s) (some c, t) g a = absurd a
    after_reading-IsFlat w h (some b, s) (none, t) g a = absurd a
    after_reading-IsFlat w h (some b, s) (some c, t) g (e, flat_same, hs, ht) = rw e (
        after_round-IsFlat (get_answer encode respond h.request_id h.opcode c w) s t g hs ht
          flat_same)

    after_message-IsFlat :
        (w : W) (h : Header) (s t : Socket)
        → IsFlat
        → All IsSegment s
        → All IsSegment t
        → flat s ≡ flat t
        → after_reading encode respond w h (read_message encode respond h s) next
          ≡ after_reading encode respond w h (read_message encode respond h t) next
    unfolding read_message
    after_message-IsFlat w h s t g hs ht e = sized h.size refl
      where
        sized :
            (z : ℤ)
            → h.size ≡ z
            → after_reading encode respond w h (read_message encode respond h s) next
              ≡ after_reading encode respond w h (read_message encode respond h t) next
        sized (negsuc n) z = rw (read_message, z)
        sized (pos n) z = elim (Bool-cases (ltb n 16)) [
          | inl small ↦ rw (read_message, z, small)
          | inr large ↦
              let (r, er, hr) = read_bytes-Read (n - 16) s hs in
              let (q, eq, hq) = read_bytes-Read (n - 16) t ht in
              rw (read_message, z, large, er, eq)
                (after_reading-IsFlat w h r q g (Read-Alike (n - 16) s t r q e hr hq))
        ]

    after_header-IsFlat :
        (w : W) (h : Result Header) (s t : Socket)
        → IsFlat
        → All IsSegment s
        → All IsSegment t
        → flat s ≡ flat t
        → after_header encode respond w h s next ≡ after_header encode respond w h t next
    after_header-IsFlat w (raise x) s t g hs ht e = refl
    after_header-IsFlat w (ok h) s t g hs ht e = after_message-IsFlat w h s t g hs ht e

    round-IsFlat :
        (w : W) (r q : Reading)
        → IsFlat
        → Alike r q
        → round encode respond w (some r) next ≡ round encode respond w (some q) next
    round-IsFlat w (none, s) (none, t) g a = refl
    round-IsFlat w (none, s) (some c, t) g a = absurd a
    round-IsFlat w (some b, s) (none, t) g a = absurd a
    round-IsFlat w (some b, s) (some c, t) g (e, flat_same, hs, ht) =
        rw e (after_header-IsFlat w (read_header c) s t g hs ht flat_same)

  -- The requests that are read, the answers that are sent and the end of the connection depend on the
  -- bytes that come, not on the segments (none of them empty) in which they come.
  pub serve-IsFlat :
      (f : ℕ) (s t : Socket) (w : W)
      → All IsSegment s
      → All IsSegment t
      → flat s ≡ flat t
      → serve encode respond f s w ≡ serve encode respond f t w
  unfolding serve
  serve-IsFlat zero s t w hs ht e = refl
  serve-IsFlat (suc f) s t w hs ht e =
      let (r, er, hr) = read_bytes-Read 16 s hs in
      let (q, eq, hq) = read_bytes-Read 16 t ht in
      rw (serve, er, eq)
        (round-IsFlat (serve encode respond f) w r q
          (λ a b w' ha hb h. serve-IsFlat f a b w' ha hb h) (Read-Alike 16 s t r q e hr hq))
