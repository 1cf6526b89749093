-- ===== src/Mongo/Request/Sections.antt =====
-- A well-formed OP_MSG message is read as the sections that the client wrote.
use mindsdb_database_ai.Prelude.{
  ℕ, zero, suc, ◌+◌, ◌-◌, ◌^◌, ◌<◌, ◌≡◌, refl, ap, sym, ◌∙◌, arith, Bool, some, List, [], ◌∷◌, ◌++◌,
  length, drop, All, Result, ok, if◌then◌else◌, length-append, drop-append, append_assoc, lt→ltb,
  ge→ltb, ==_refl, Bool-cases, inl, inr,
}
use mindsdb_database_ai.Prelude.Bytes.{Bytes, le_bytes, le_val, length-le_bytes, le_val-le_bytes}
use mindsdb_database_ai.Prelude.Bits.{bit}
use mindsdb_database_ai.Prelude.Int.{pos}
use mindsdb_database_ai.Prelude.Text.{Str, IsAscii, utf8, utf8-ascii}
use mindsdb_database_ai.Prelude.Key.{str_key}
use mindsdb_database_ai.Prelude.Assoc.{put, update}
use mindsdb_database_ai.Mongo.Request.{
  unpack_byte, Document, documents, RequestFields, fields_of, decode_documents, read_body,
  read_sequence, read_section, read_sections, parse_msg,
}
use mindsdb_database_ai.Mongo.Request.At.{
  drop-next, slice_at-At, unpack-At, unpack_int-At, IsNameChar, get_utf8_string-At, drop-name,
}

-- A section with its documents as bytes: a body, or a named sequence.
pub data Section {ℓ} (V : Type ℓ) : Type ℓ where
  body : Bytes → Document V → Section V
  sequence : Str → Bytes → List (Document V) → Section V

abbrev sequence_size : Str → Bytes → ℕ
sequence_size seq_id payload = 4 + (length (utf8 seq_id) + 1 + length payload)

module _ {ℓ} {V : Type ℓ} where
  abbrev pub section_bytes : Section V → Bytes
  section_bytes (body payload d) = 0 ∷ payload
  section_bytes (sequence seq_id payload ds) =
      1 ∷ le_bytes 4 (sequence_size seq_id payload) ++ (utf8 seq_id ++ 0 ∷ payload)

  abbrev pub sections_bytes : List (Section V) → Bytes
  sections_bytes [] = []
  sections_bytes (s ∷ ss) = section_bytes s ++ sections_bytes ss

  section-nonempty : (s : Section V) → 0 < length (section_bytes s)
  section-nonempty (body payload d) = omega arith
  section-nonempty (sequence seq_id payload ds) = omega arith

  -- What a section adds to the request.
  abbrev pub collect_one : Section V → RequestFields V → RequestFields V
  collect_one (body payload d) query = update query (fields_of d)
  collect_one (sequence seq_id payload ds) query = put seq_id (documents ds) query

  abbrev pub collect : List (Section V) → RequestFields V → RequestFields V
  collect [] query = query
  collect (s ∷ ss) query = collect ss (collect_one s query)

  module _ (decode_all : Bytes → Result (List (Document V))) where
    -- A body begins with its size, as documents do; the id of a sequence is ASCII.
    abbrev pub IsSection : Section V → Type ℓ
    IsSection (body payload d) =
        (decode_all payload ≡ ok (d ∷ []))
        × ((rest : Bytes) × (payload ≡ le_bytes 4 (length payload) ++ rest))
        × (length payload < 2 ^ 31)
    IsSection (sequence seq_id payload ds) =
        (decode_all payload ≡ ok ds)
        × All IsAscii seq_id
        × All IsNameChar seq_id
        × (sequence_size seq_id payload < 2 ^ 31)

    module _ (buffer : Bytes) (n : ℕ) where
      read_body-At :
          (payload rest : Bytes) (d : Document V) (query : RequestFields V)
          → IsSection (body payload d)
          → drop n buffer ≡ payload ++ rest
          → read_body decode_all buffer (pos n) query
            ≡ ok (update query (fields_of d), pos (n + length payload))
      unfolding read_body decode_documents
      read_body-At payload rest d query (e, (inner, begins), size) h =
          let front : drop n buffer ≡ le_bytes 4 (length payload) ++ (inner ++ rest) =
            h
            ∙ ap (λ p. p ++ rest) begins
            ∙ append_assoc (le_bytes 4 (length payload)) inner rest in
          rw (
            unpack_int-At buffer n (length payload) (inner ++ rest) front size,
            slice_at-At buffer n payload rest h (length payload) refl,
            e,
          )

      read_sequence-At :
          (seq_id : Str) (payload rest : Bytes) (ds : List (Document V)) (query : RequestFields V)
          → IsSection (sequence seq_id payload ds)
          → drop n buffer
            ≡ le_bytes 4 (sequence_size seq_id payload) ++ (utf8 seq_id ++ 0 ∷ (payload ++ rest))
          → read_sequence decode_all buffer (pos n) query
            ≡ ok (put seq_id (documents ds) query, pos (n + sequence_size seq_id payload))
      unfolding read_sequence decode_documents
      read_sequence-At seq_id payload rest ds query (e, ascii, name, size) h =
          let k : ℕ = length (utf8 seq_id) in
          let same : length seq_id ≡ k = ap length (sym (utf8-ascii seq_id ascii)) in
          let behind : drop (n + 4) buffer ≡ utf8 seq_id ++ 0 ∷ (payload ++ rest) =
            drop-next buffer n (le_bytes 4 (sequence_size seq_id payload)) _ h 4
              (length-le_bytes 4 _) in
          let there : drop (n + 4 + k + 1) buffer ≡ payload ++ rest =
            drop-name buffer (n + 4) seq_id (payload ++ rest) behind in
          let less : sequence_size seq_id payload - (4 + k) - 1 ≡ length payload = omega arith in
          let total : n + 4 + k + 1 + length payload ≡ n + sequence_size seq_id payload =
            omega arith in
          rw (
            unpack_int-At buffer n (sequence_size seq_id payload) _ h size,
            get_utf8_string-At buffer (n + 4) seq_id (payload ++ rest) behind name,
            same,
            lt→ltb (4 + k) (sequence_size seq_id payload) (omega arith),
            less,
            slice_at-At buffer (n + 4 + k + 1) payload rest there (length payload) refl,
            e,
            total,
          )

    read_section-At :
        (buffer : Bytes) (n : ℕ) (s : Section V) (rest : Bytes) (query : RequestFields V)
        → IsSection s
        → drop n buffer ≡ section_bytes s ++ rest
        → read_section decode_all buffer (pos n) query
          ≡ ok (collect_one s query, pos (n + length (section_bytes s)))
    unfolding read_section unpack_byte le_val update
    read_section-At buffer n (body payload d) rest query valid h =
        let there : drop (n + 1) buffer ≡ payload ++ rest =
          drop-next buffer n (0 ∷ []) (payload ++ rest) h 1 refl in
        let total : n + 1 + length payload ≡ n + suc (length payload) = omega arith in
        rw (
          unpack-At buffer n (0 ∷ []) (payload ++ rest) h 1 refl,
          read_body-At buffer (n + 1) payload rest d query valid there,
          total,
        )
    read_section-At buffer n (sequence seq_id payload ds) rest query valid h =
        let size : Bytes = le_bytes 4 (sequence_size seq_id payload) in
        let e : (size ++ (utf8 seq_id ++ 0 ∷ payload)) ++ rest
            ≡ size ++ (utf8 seq_id ++ 0 ∷ (payload ++ rest)) =
          append_assoc size _ rest
          ∙ ap (λ r. size ++ r) (append_assoc (utf8 seq_id) (0 ∷ payload) rest) in
        let behind : drop n buffer ≡ 1 ∷ (size ++ (utf8 seq_id ++ 0 ∷ (payload ++ rest))) =
          h ∙ ap (λ r. 1 ∷ r) e in
        let there : drop (n + 1) buffer ≡ size ++ (utf8 seq_id ++ 0 ∷ (payload ++ rest)) =
          drop-next buffer n (1 ∷ []) _ behind 1 refl in
        let total : n + 1 + sequence_size seq_id payload
            ≡ n + suc (length (size ++ (utf8 seq_id ++ 0 ∷ payload))) =
          omega (
            arith,
            length-append size (utf8 seq_id ++ 0 ∷ payload),
            length-append (utf8 seq_id) (0 ∷ payload),
            length-le_bytes 4 (sequence_size seq_id payload),
          ) in
        rw (
          unpack-At buffer n (1 ∷ []) _ behind 1 refl,
          read_sequence-At buffer (n + 1) seq_id payload rest ds query valid there,
          total,
        )

    read_sections-At :
        (buffer : Bytes) (n msg_len f : ℕ) (ss : List (Section V)) (rest : Bytes)
        (query : RequestFields V)
        → All IsSection ss
        → drop n buffer ≡ sections_bytes ss ++ rest
        → n + length (sections_bytes ss) ≡ msg_len
        → length ss < f
        → read_sections decode_all f buffer msg_len (pos n) query
          ≡ some (ok (collect ss query, pos msg_len))
    unfolding read_sections
    read_sections-At buffer n msg_len zero ss rest query valid h total fuel =
        absurd (omega (arith, fuel))
    read_sections-At buffer n msg_len (suc f) [] rest query valid h total fuel =
        let e : n ≡ msg_len = omega (arith, total) in
        rw (read_sections, ge→ltb n msg_len (omega arith), e)
    read_sections-At buffer n msg_len (suc f) (s ∷ ss) rest query valid h total fuel =
        let k : ℕ = length (section_bytes s) in
        let front : drop n buffer ≡ section_bytes s ++ (sections_bytes ss ++ rest) =
          h ∙ append_assoc (section_bytes s) (sections_bytes ss) rest in
        let there : n + k + length (sections_bytes ss) ≡ msg_len =
          omega (arith, total, length-append (section_bytes s) (sections_bytes ss)) in
        let some_bytes : 0 < k = section-nonempty s in
        rw
          (
            read_sections,
            lt→ltb n msg_len (omega (arith, there, some_bytes)),
            read_section-At buffer n s (sections_bytes ss ++ rest) query valid.0 front,
          )
          (read_sections-At buffer (n + k) msg_len f ss rest (collect_one s query) valid.1
            (drop-next buffer n (section_bytes s) (sections_bytes ss ++ rest) front k refl) there
            (omega (arith, fuel)))

    abbrev pub trailer_size : Bool → ℕ
    trailer_size checksum_present = if checksum_present then 4 else 0

    -- A message that a client puts together of flags and sections, and behind them four bytes of a
    -- checksum where the lowest flag says so, is read as the fields of its bodies and the documents
    -- of its sequences, put into one dict in their order, so that the later of two with a name counts;
    -- fuel for one round more than there are sections is enough. A sequence has an ASCII name.
    pub parse_msg-sections :
        (flags : ℕ) (ss : List (Section V)) (trailer : Bytes) (f : ℕ)
        → flags < 2 ^ 32
        → All IsSection ss
        → length trailer ≡ trailer_size (bit 0 flags)
        → length ss < f
        → parse_msg decode_all f (le_bytes 4 flags ++ (sections_bytes ss ++ trailer))
          ≡ some (ok (collect ss []))
    unfolding parse_msg
    parse_msg-sections flags ss trailer f small valid size fuel =
        let front : Bytes = le_bytes 4 flags in
        let buffer : Bytes = front ++ (sections_bytes ss ++ trailer) in
        let l : length front ≡ 4 = length-le_bytes 4 flags in
        let total : length buffer ≡ 4 + length (sections_bytes ss) + length trailer = omega (
          arith,
          l,
          length-append front (sections_bytes ss ++ trailer),
          length-append (sections_bytes ss) trailer,
        ) in
        let behind : drop 4 buffer ≡ sections_bytes ss ++ trailer = drop-append front _ l in
        rw
          (
            unpack-At buffer 0 front (sections_bytes ss ++ trailer) refl 4 l,
            le_val-le_bytes 4 flags small,
          )
          (elim (Bool-cases (bit 0 flags)) [
            | inl e ↦
                let four : length trailer ≡ 4 = rw e at size in
                rw (
                  e,
                  read_sections-At buffer 4 (length buffer - 4) f ss trailer [] valid behind
                      (omega (arith, total, four)) fuel,
                  let back : length buffer - 4 + 4 ≡ length buffer = omega (arith, total) in back,
                  ==_refl (length buffer),
                )
            | inr e ↦
                let none_left : length trailer ≡ 0 = rw e at size in
                rw (
                  e,
                  read_sections-At buffer 4 (length buffer) f ss trailer [] valid behind
                      (omega (arith, total, none_left)) fuel,
                  ==_refl (length buffer),
                )
          ])
