-- ===== src/Wire/Packet/Stream.antt =====
-- `Packet.get` on a body that the peer has split in several frames.
use mathlib.Core.Option
use mindsdb_database_ai.Prelude.{
  ℕ, zero, suc, ◌+◌, ◌%◌, ◌≤◌, ◌<◌, ◌≡◌, refl, sym, ◌∙◌, ap, arith, some, List, [], ◌∷◌, ◌++◌,
  length, append_assoc, append-nil, length-append, All,
}
use mindsdb_database_ai.Prelude.Bytes.{Bytes, le_bytes}
use mindsdb_database_ai.Wire.Packet.{
  load_from_params, Socket, get_loop, bytes_pending, finish, get, max_packet_size, done, again,
  get_round,
}
use mindsdb_database_ai.Wire.Packet.Framing.{
  header, push, segment, get_round-empty, get_round-last, get_round-full, get_loop-done,
  get_loop-again,
}

-- A long body in frames: full ones, and a shorter one at the end; the numbers go round at 256.
pub stream : ℕ → List Bytes → Bytes → Bytes
stream seq [] last = header (length last) seq ++ last
stream seq (b ∷ bs) last = header (length b) seq ++ (b ++ stream ((seq + 1) % 256) bs last)

pub last_seq : ℕ → List Bytes → ℕ
last_seq seq [] = seq
last_seq seq (b ∷ bs) = last_seq ((seq + 1) % 256) bs

pub concat : List Bytes → Bytes
concat [] = []
concat (b ∷ bs) = b ++ concat bs

abbrev pub IsFull : Bytes → Type 0
IsFull b = length b ≡ max_packet_size

length-stream :
    (seq : ℕ) (bs : List Bytes) (last : Bytes) → length bs + 4 ≤ length (stream seq bs last)
unfolding stream header le_bytes
length-stream seq [] last = omega arith
length-stream seq (b ∷ bs) last = omega (
  arith,
  length-stream ((seq + 1) % 256) bs last,
  length-append b (stream ((seq + 1) % 256) bs last),
)

push-nonempty : (bs : Bytes) (cs : Socket) → 0 < length bs → push bs cs ≡ bs ∷ cs
push-nonempty [] cs h = absurd (omega arith)
push-nonempty (b ∷ bs) cs h = refl

push-stream :
    (seq : ℕ) (bs : List Bytes) (last : Bytes)
    → push (stream seq bs last) [] ≡ stream seq bs last ∷ []
push-stream seq bs last = push-nonempty _ [] (omega (arith, length-stream seq bs last))

get_loop-stream :
    (f seq : ℕ) (acc : Bytes) (bs : List Bytes) (last : Bytes)
    → All IsFull bs
    → length last < max_packet_size
    → length bs ≤ f
    → get_loop (suc f) (stream seq bs last ∷ []) acc
      ≡ some ([], some (last_seq seq bs, acc ++ (concat bs ++ last)))
unfolding stream last_seq concat
get_loop-stream f seq acc [] [] full hl hf =
    get_loop-done f _ [] acc (acc ++ []) seq (
      get_round-empty seq acc [] [] [] (omega arith) refl ∙ ap (done [] seq) (sym (append-nil acc)))
get_loop-stream f seq acc [] (x ∷ last) full hl hf =
    get_loop-done f _ [] acc (acc ++ x ∷ last) seq (
      rw (append-nil last) at
        (get_round-last seq acc (x ∷ last) [] [] (omega arith) (omega arith) hl))
get_loop-stream zero seq acc (b ∷ bs) last full hl hf = absurd (omega arith)
get_loop-stream (suc f) seq acc (b ∷ bs) last full hl hf =
    let rest : Bytes = stream ((seq + 1) % 256) bs last in
    let first : get_round (segment seq acc b rest [] (omega arith)) acc
        ≡ again (rest ∷ []) (acc ++ b) =
      rw (← push-stream ((seq + 1) % 256) bs last)
        (get_round-full seq acc b rest [] (omega arith) full.0) in
    get_loop-again (suc f) _ (rest ∷ []) acc (acc ++ b) first
    ∙ get_loop-stream f ((seq + 1) % 256) (acc ++ b) bs last full.1 hl (omega arith)
    ∙ rw (append_assoc acc b (concat bs ++ last), append_assoc b (concat bs) last)

-- A body that the peer sends as full frames of 2 ^ 24 - 1 bytes and a shorter one, which may be
-- empty, is put together again, if the frames arrive in one segment; the connection goes on with
-- the number behind the last frame's.
pub get-stream :
    (old seq : ℕ) (bs : List Bytes) (last : Bytes)
    → All IsFull bs
    → length last < max_packet_size
    → get (record { packet_sequence_number = old; socket = stream seq bs last ∷ [] })
      ≡ some (
        record { packet_sequence_number = (last_seq seq bs + 1) % 256; socket = [] },
        some (load_from_params (length (concat bs ++ last)) (last_seq seq bs) (concat bs ++ last)),
      )
unfolding get
get-stream old seq bs last full hl =
    ap
      (Option.map
        (finish (record { packet_sequence_number = old; socket = stream seq bs last ∷ [] })))
      (get_loop-stream (bytes_pending (stream seq bs last ∷ [])) seq [] bs last full hl
        (omega (arith, length-stream seq bs last)))
