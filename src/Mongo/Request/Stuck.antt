-- ===== src/Mongo/Request/Stuck.antt =====
-- A document sequence whose size is -1: the loop over the sections does not get past it.
use mindsdb_database_ai.Prelude.{
  ℕ, zero, suc, ◌+◌, ◌-◌, ◌^◌, ◌<◌, ◌≤◌, ◌≡◌, refl, ap, sym, arith, none, List, [], ◌∷◌, ◌++◌,
  length, drop, All, Result, ok, length-append, drop-append, lt→ltb, Bool-cases, inl, inr,
}
use mindsdb_database_ai.Prelude.Bytes.{Bytes, le_bytes, le_val, length-le_bytes, le_val-le_bytes}
use mindsdb_database_ai.Prelude.Bits.{bit}
use mindsdb_database_ai.Prelude.Int.{ℤ, pos, negsuc}
use mindsdb_database_ai.Prelude.Text.{Str, IsAscii, utf8, utf8-ascii}
use mindsdb_database_ai.Prelude.Key.{str_key}
use mindsdb_database_ai.Prelude.Assoc.{put}
use mindsdb_database_ai.Mongo.Reply.Headers.{word, length-word}
use mindsdb_database_ai.Mongo.Request.{
  unpack_byte, Document, documents, RequestFields, decode_documents, read_sequence, read_section,
  read_sections, parse_msg,
}
use mindsdb_database_ai.Mongo.Request.At.{
  drop-next, unpack-At, unpack_word-At, IsNameChar, get_utf8_string-At,
}

abbrev minus_one : ℤ
minus_one = negsuc 0

-- The bytes of the sequence, and what stands behind them.
abbrev pub bad_sequence : Str → Bytes → Bytes
bad_sequence seq_id rest = 1 ∷ word minus_one ++ (utf8 seq_id ++ 0 ∷ rest)

module _ {ℓ} {V : Type ℓ} (decode_all : Bytes → Result (List (Document V))) (buffer : Bytes) (n : ℕ)
    (seq_id : Str) (rest : Bytes) (nothing : decode_all [] ≡ ok []) (ascii : All IsAscii seq_id)
    (name : All IsNameChar seq_id) (h : drop n buffer ≡ bad_sequence seq_id rest) where
  -- The round ends where it began.
  read_section-again :
      (query : RequestFields V)
      → read_section decode_all buffer (pos n) query ≡ ok (put seq_id (documents []) query, pos n)
  unfolding read_section unpack_byte read_sequence decode_documents le_val put
  read_section-again query =
      let k : ℕ = length (utf8 seq_id) in
      let same : length seq_id ≡ k = ap length (sym (utf8-ascii seq_id ascii)) in
      let there : drop (n + 1) buffer ≡ word minus_one ++ (utf8 seq_id ++ 0 ∷ rest) =
        drop-next buffer n (1 ∷ []) _ h 1 refl in
      let behind : drop (n + 1 + 4) buffer ≡ utf8 seq_id ++ 0 ∷ rest =
        drop-next buffer (n + 1) (word minus_one) _ there 4 (length-word minus_one) in
      let q : ℕ = n + 1 + 4 + k + 1 in
      let back : q - (0 + (4 + k) + 1) - 1 ≡ n = omega arith in
      let empty : n - q ≡ 0 = omega arith in
      rw (
        unpack-At buffer n (1 ∷ []) _ h 1 refl,
        unpack_word-At buffer (n + 1) minus_one _ there (omega arith),
        get_utf8_string-At buffer (n + 1 + 4) seq_id rest behind name,
        same,
        lt→ltb (0 + (4 + k) + 1) q (omega arith),
        back,
        empty,
        nothing,
      )

  read_sections-stuck :
      (f msg_len : ℕ) (query : RequestFields V)
      → n < msg_len
      → read_sections decode_all f buffer msg_len (pos n) query ≡ none
  unfolding read_sections
  read_sections-stuck zero msg_len query l = refl
  read_sections-stuck (suc f) msg_len query l =
      rw (read_sections, lt→ltb n msg_len l, read_section-again query)
        (read_sections-stuck f msg_len (put seq_id (documents []) query) l)

-- A message whose first section is a sequence of documents with an ASCII name and with the size -1 is
-- never read to its end: no number of rounds is enough, whatever stands behind the name, when an
-- empty string of bytes holds no documents.
pub parse_msg-stuck {ℓ} :
    {V : Type ℓ} (decode_all : Bytes → Result (List (Document V))) (flags : ℕ) (seq_id : Str)
    (rest : Bytes)
    → decode_all [] ≡ ok []
    → All IsAscii seq_id
    → All IsNameChar seq_id
    → flags < 2 ^ 32
    → (f : ℕ) → parse_msg decode_all f (le_bytes 4 flags ++ bad_sequence seq_id rest) ≡ none
unfolding parse_msg
parse_msg-stuck decode_all flags seq_id rest nothing ascii name small f =
    let front : Bytes = le_bytes 4 flags in
    let buffer : Bytes = front ++ bad_sequence seq_id rest in
    let l : length front ≡ 4 = length-le_bytes 4 flags in
    let long : 10 ≤ length buffer = omega (
      arith,
      l,
      length-append front (bad_sequence seq_id rest),
      length-append (word minus_one) (utf8 seq_id ++ 0 ∷ rest),
      length-append (utf8 seq_id) (0 ∷ rest),
      length-word minus_one,
    ) in
    let stuck : (m : ℕ) → 4 < m → read_sections decode_all f buffer m (pos 4) [] ≡ none = λ m.
      λ less.
        read_sections-stuck decode_all buffer 4 seq_id rest nothing ascii name
          (drop-append front (bad_sequence seq_id rest) l) f m [] less in
    rw (unpack-At buffer 0 front (bad_sequence seq_id rest) refl 4 l, le_val-le_bytes 4 flags small)
      (elim (Bool-cases (bit 0 flags)) [
        | inl e ↦ rw (e, stuck (length buffer - 4) (omega (arith, long)))
        | inr e ↦ rw (e, stuck (length buffer) (omega (arith, long)))
      ])
