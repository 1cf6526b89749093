-- ===== src/Mongo/Reply/Rounds.antt =====
-- A connection ends once the client has closed it, unless a responder does not return.
use mindsdb_database_ai.Prelude.{
  ℕ, zero, suc, ◌-◌, ◌≤◌, ◌<◌, ◌≡◌, refl, sym, ap, ◌∙◌, arith, Option, none, some, List, [], ◌++◌,
  length, take-append-drop, append_assoc, All, Exn, Result, ok, raise, ltb, ◌⊎◌, Bool-cases, inl,
  inr, length-drop,
}
use mindsdb_database_ai.Prelude.Bytes.{Bytes}
use mindsdb_database_ai.Prelude.Int.{ℤ, pos, negsuc}
use mindsdb_database_ai.Wire.Packet.{Socket}
use mindsdb_database_ai.Mongo.Socket.{Reading, read_bytes}
use mindsdb_database_ai.Mongo.Socket.Segments.{flat, IsSegment, Read, read_bytes-Read}
use mindsdb_database_ai.Mongo.Reply.{
  Header, Operation, operation_of, read_header, read_message, get_answer, no_message, answer_bytes,
  after_round, after_reading, after_header, round, serve,
}

abbrev pub IsSome {ℓ} : {A : Type ℓ} → Option A → Type 0
IsSome none = ⊥
IsSome (some a) = Unit {0}

-- A reading takes its bytes from the front of `sent`, and leaves no more than `m`.
abbrev Left : ℕ → Bytes → Reading → Type 0
Left m sent (none, s) = Unit {0}
Left m sent (some b, s) = (length (flat s) ≤ m) × (sent ≡ b ++ flat s) × All IsSegment s

Read-Left :
    (n : ℕ) (s : Socket) (r : Reading) → Read n s [] r → Left (length (flat s) - n) (flat s) r
Read-Left n s (none, s') h = tt
Read-Left n s (some b, s') (enough, eb, e', h) = (
  omega (arith, ap length e', length-drop n (flat s)),
  rw (eb, e') (sym (take-append-drop n (flat s))),
  h,
)

Left-mono : (k m : ℕ) (sent : Bytes) (r : Reading) → k ≤ m → Left k sent r → Left m sent r
Left-mono k m sent (none, s) h l = tt
Left-mono k m sent (some b, s) h (l, e, hs) = (omega arith, e, hs)

module _ {ℓ κ} {Doc : Type ℓ} {W : Type κ} (encode : Doc → Result Bytes)
    (respond : Operation → Bytes → ℤ → W → Option (W × Result (Option Doc))) where
  -- Among the bytes that came there is a header, and behind it a message on which the responder that
  -- the header names does not return.
  pub record Stuck (sent : Bytes) : Type (ℓ ⊔ κ) where
    pub before : Bytes
    pub header : Bytes
    pub msg_bytes : Bytes
    pub after : Bytes
    pub came : sent ≡ before ++ (header ++ (msg_bytes ++ after))
    pub h : Header
    pub is_header : read_header header ≡ ok h
    pub op : Operation
    pub is_operation : operation_of h.opcode ≡ some op
    pub w : W
    pub no_return : respond op msg_bytes h.request_id w ≡ none

  abbrev pub Ended {μ} : {A : Type μ} → Bytes → Option A → Type (ℓ ⊔ κ)
  Ended sent o = IsSome o ⊎ Stuck sent

  Stuck-behind : (front rest sent : Bytes) → sent ≡ front ++ rest → Stuck rest → Stuck sent
  Stuck-behind front rest sent e st =
      let all : Bytes = st.header ++ (st.msg_bytes ++ st.after) in
      record {
        before = front ++ st.before;
        header = st.header;
        msg_bytes = st.msg_bytes;
        after = st.after;
        came = e ∙ ap (λ l. front ++ l) st.came ∙ sym (append_assoc front st.before all);
        h = st.h;
        is_header = st.is_header;
        op = st.op;
        is_operation = st.is_operation;
        w = st.w;
        no_return = st.no_return;
      }

  module _ (sent b c rest : Bytes) (h : Header) (came : sent ≡ b ++ (c ++ rest))
      (is_header : read_header b ≡ ok h) (w : W) where
    get_answer-Ended : Ended sent (get_answer encode respond h.request_id h.opcode c w)
    unfolding get_answer
    get_answer-Ended = at (operation_of h.opcode) refl
      where
        answered :
            (op : Operation) (r : Option (W × Result (Option Doc)))
            → operation_of h.opcode ≡ some op
            → respond op c h.request_id w ≡ r
            → Ended sent (answer_bytes encode respond op h.request_id r)
        answered op none k e = inr (record {
          before = [];
          header = b;
          msg_bytes = c;
          after = rest;
          came = came;
          h = h;
          is_header = is_header;
          op = op;
          is_operation = k;
          w = w;
          no_return = e;
        })
        answered op (some (v, raise x)) k e = inl tt
        answered op (some (v, ok none)) k e = inl tt
        answered op (some (v, ok (some response))) k e = inl tt

        at :
            (o : Option Operation)
            → operation_of h.opcode ≡ o
            → Ended sent (get_answer encode respond h.request_id h.opcode c w)
        at none e = rw (get_answer, e) (inl tt)
        at (some op) e = rw (get_answer, e) (answered op _ e refl)

  module _ (next : Socket → W → Option (W × List Bytes × Option Exn)) (m : ℕ) (sent : Bytes) where
    -- Going on ends where no more than `m` bytes are to come.
    abbrev Ends : Type (ℓ ⊔ κ)
    Ends = (s : Socket) (w : W) → All IsSegment s → length (flat s) ≤ m → Ended (flat s) (next s w)

    after_round-Ends :
        (x : Option (W × Result (Option Bytes))) (front : Bytes) (s : Socket)
        → Ended sent x
        → Ends
        → All IsSegment s
        → length (flat s) ≤ m
        → sent ≡ front ++ flat s
        → Ended sent (after_round encode respond x (next s))
    after_round-Ends x front s (inr stuck) g h l e = inr stuck
    after_round-Ends none front s (inl returned) g h l e = absurd returned
    after_round-Ends (some (w, raise x)) front s (inl returned) g h l e = inl tt
    after_round-Ends (some (w, ok answer)) front s (inl returned) g h l e =
        joined (next s w) (g s w h l)
      where
        joined :
            (o : Option (W × List Bytes × Option Exn))
            → Ended (flat s) o
            → Ended sent (after_round encode respond (some (w, ok answer)) (λ v. o))
        joined o (inr stuck) = inr (Stuck-behind front (flat s) sent e stuck)
        joined none (inl i) = absurd i
        joined (some x) (inl i) = inl tt

    module _ (b behind : Bytes) (h : Header) (came : sent ≡ b ++ behind)
        (is_header : read_header b ≡ ok h) where
      after_reading-Ends :
          (w : W) (r : Reading)
          → Ends
          → Left m behind r
          → Ended sent (after_reading encode respond w h (ok (some r)) next)
      after_reading-Ends w (none, s) g l = closed (operation_of h.opcode)
        where
          closed :
              (o : Option Operation)
              → Ended sent (after_round encode respond (no_message encode respond w o) (next s))
          closed none = inl tt
          closed (some op) = inl tt
      after_reading-Ends w (some c, s) g (l, e, hs) =
          let all : sent ≡ b ++ (c ++ flat s) = came ∙ ap (λ x. b ++ x) e in
          after_round-Ends (get_answer encode respond h.request_id h.opcode c w) (b ++ c) s
            (get_answer-Ended sent b c (flat s) h all is_header w) g hs l
            (all ∙ sym (append_assoc b c (flat s)))

      after_message-Ends :
          (w : W) (s : Socket)
          → Ends
          → All IsSegment s
          → length (flat s) ≤ m
          → flat s ≡ behind
          → Ended sent (after_reading encode respond w h (read_message encode respond h s) next)
      unfolding read_message
      after_message-Ends w s g hs l e = sized h.size refl
        where
          sized :
              (z : ℤ)
              → h.size ≡ z
              → Ended sent (after_reading encode respond w h (read_message encode respond h s) next)
          sized (negsuc n) z = rw (read_message, z) (inl tt)
          sized (pos n) z = elim (Bool-cases (ltb n 16)) [
            | inl small ↦ rw (read_message, z, small) (inl tt)
            | inr large ↦
                let (r, er, hr) = read_bytes-Read (n - 16) s hs in
                let left = rw e at (Read-Left (n - 16) s r hr) in
                rw (read_message, z, large, er)
                  (after_reading-Ends w r g (
                    Left-mono (length behind - (n - 16)) m behind r (omega (arith, ap length e))
                      left))
          ]

    round-Ends :
        (w : W) (r : Reading)
        → Ends
        → Left m sent r
        → Ended sent (round encode respond w (some r) next)
    round-Ends w (none, s) g l = inl tt
    round-Ends w (some b, s) g (l, e, hs) = headed (read_header b) refl
      where
        headed :
            (x : Result Header)
            → read_header b ≡ x
            → Ended sent (after_header encode respond w x s next)
        headed (raise x) k = inl tt
        headed (ok h) k = after_message-Ends b (flat s) h e k w s g hs l refl

  -- When the client has closed the connection, a round for each byte on its way and one more are
  -- always enough for its loop to end; or else there is, among the bytes that came, a message on which
  -- the responder that its header names does not return.
  pub serve-Ends :
      (f : ℕ) (s : Socket) (w : W)
      → All IsSegment s
      → length (flat s) < f
      → Ended (flat s) (serve encode respond f s w)
  unfolding serve
  serve-Ends zero s w h l = absurd (omega arith)
  serve-Ends (suc f) s w h l =
      ended (read_bytes-Read 16 s h) (λ enough s' w' h' l'. serve-Ends f s' w' h' (omega arith))
    where
      ended :
          (r : Reading) × (read_bytes 16 s ≡ some r) × Read 16 s [] r
          → (16 ≤ length (flat s) → Ends (serve encode respond f) (length (flat s) - 16) (flat s))
          → Ended (flat s) (serve encode respond (suc f) s w)
      ended ((none, s'), e, hr) rest = rw (serve, e) (inl tt)
      ended ((some b, s'), e, hr) rest =
          rw (serve, e)
            (round-Ends (serve encode respond f) (length (flat s) - 16) (flat s) w (some b, s')
              (rest hr.0) (Read-Left 16 s (some b, s') hr))
