-- ===== src/Prelude/Text.antt =====
-- Python's `str` where its characters matter: a list of code points, with the codec 'utf-8'.
use mindsdb_database_ai.Prelude.{
  ℕ, zero, suc, ◌+◌, ◌-◌, ◌*◌, ◌/◌, ◌%◌, ◌≤◌, ◌<◌, ◌≡◌, refl, arith, Bool, true, ◌&&◌, not, Option,
  none, some, List, [], ◌∷◌, ◌++◌, length, All, Result, ok, raise, unicode_error, ltb, leb,
  if◌then◌else◌, ◌>>=◌, Bool-cases, inl, inr, ◌∙◌, >>=-ok, lt→ltb, All-append, length-append,
}
use mindsdb_database_ai.Prelude.Bytes.{Bytes, IsByte}

abbrev pub Str : Type 0
Str = List ℕ

-- A code point that is no surrogate: what the codec takes.
abbrev pub is_scalar : ℕ → Bool
is_scalar c = ltb c 0x110000 && not (leb 0xd800 c && leb c 0xdfff)

abbrev pub IsScalar : ℕ → Type 0
IsScalar c = is_scalar c ≡ true

abbrev pub IsAscii : ℕ → Type 0
IsAscii c = c < 128

unfoldable pub utf8_char : ℕ → Bytes
utf8_char c =
    if ltb c 0x80
    then c ∷ []
    else if ltb c 0x800
    then (0xc0 + c / 64) ∷ (0x80 + c % 64) ∷ []
    else if ltb c 0x10000
    then (0xe0 + c / 4096) ∷ (0x80 + c / 64 % 64) ∷ (0x80 + c % 64) ∷ []
    else (0xf0 + c / 262144) ∷ (0x80 + c / 4096 % 64) ∷ (0x80 + c / 64 % 64) ∷ (0x80 + c % 64) ∷ []

-- `bytes(s, 'utf-8')`
unfoldable pub utf8 : Str → Bytes
utf8 [] = []
utf8 (c ∷ s) = utf8_char c ++ utf8 s

-- Between two characters, or in one: the bytes still to come, what was read, the least code point
-- that this many bytes may write.
pub data Utf8State : Type 0 where
  idle : Utf8State
  more : ℕ → ℕ → ℕ → Utf8State

abbrev pub close_char : ℕ → ℕ → Option (Utf8State × Str)
close_char lo c = if leb lo c && is_scalar c then some (idle, c ∷ []) else none

unfoldable pub utf8_step : Utf8State → ℕ → Option (Utf8State × Str)
utf8_step idle b =
    if ltb b 0x80
    then some (idle, b ∷ [])
    else if leb 0xc2 b && leb b 0xdf
    then some (more 0 (b - 0xc0) 0x80, [])
    else if leb 0xe0 b && leb b 0xef
    then some (more 1 (b - 0xe0) 0x800, [])
    else if leb 0xf0 b && leb b 0xf4
    then some (more 2 (b - 0xf0) 0x10000, [])
    else none
utf8_step (more zero acc lo) b =
    if leb 0x80 b && leb b 0xbf then close_char lo (acc * 64 + (b - 0x80)) else none
utf8_step (more (suc k) acc lo) b =
    if leb 0x80 b && leb b 0xbf then some (more k (acc * 64 + (b - 0x80)) lo, []) else none

unfoldable pub decode_from : Utf8State → Bytes → Result Str
decode_from idle [] = ok []
decode_from (more k acc lo) [] = raise unicode_error
decode_from st (b ∷ bs) = elim (utf8_step st b) [
  | none ↦ raise unicode_error
  | some (st', out) ↦ decode_from st' bs >>= λ s. ok (out ++ s)
]

-- `b.decode('utf-8')`
unfoldable pub decode : Bytes → Result Str
unfolding decode_from
decode bs = decode_from idle bs

-- One byte of a longer character, and the byte that ends a character.
decode_from-inner :
    (st st' : Utf8State) (b : ℕ) (bs : Bytes)
    → utf8_step st b ≡ some (st', [])
    → decode_from st (b ∷ bs) ≡ decode_from st' bs
unfolding decode_from
decode_from-inner idle st' b bs e = rw (e, decode_from) (>>=-ok (decode_from st' bs))
decode_from-inner (more k acc lo) st' b bs e = rw (e, decode_from) (>>=-ok (decode_from st' bs))

decode_from-last :
    (st : Utf8State) (b c : ℕ) (bs : Bytes)
    → utf8_step st b ≡ some (idle, c ∷ [])
    → decode_from st (b ∷ bs) ≡ (decode_from idle bs >>= λ s. ok (c ∷ s))
unfolding decode_from
decode_from-last idle b c bs e = rw (e, decode_from)
decode_from-last (more k acc lo) b c bs e = rw (e, decode_from)

module _ (c : ℕ) (h : IsScalar c) where
  step-one : c < 0x80 → utf8_step idle c ≡ some (idle, c ∷ [])
  unfolding utf8_step
  step-one l = ground arith

  step-two :
      0x80 ≤ c
      → c < 0x800
      → (utf8_step idle (0xc0 + c / 64) ≡ some (more 0 (c / 64) 0x80, []))
        × (utf8_step (more 0 (c / 64) 0x80) (0x80 + c % 64) ≡ some (idle, c ∷ []))
  unfolding utf8_step
  step-two l u = (ground arith, ground arith)

  step-three :
      0x800 ≤ c
      → c < 0x10000
      → (utf8_step idle (0xe0 + c / 4096) ≡ some (more 1 (c / 4096) 0x800, []))
        × (utf8_step (more 1 (c / 4096) 0x800) (0x80 + c / 64 % 64)
            ≡ some (more 0 (c / 64) 0x800, []))
        × (utf8_step (more 0 (c / 64) 0x800) (0x80 + c % 64) ≡ some (idle, c ∷ []))
  unfolding utf8_step
  step-three l u = (ground arith, ground arith, ground arith)

  step-four :
      0x10000 ≤ c
      → (utf8_step idle (0xf0 + c / 262144) ≡ some (more 2 (c / 262144) 0x10000, []))
        × (utf8_step (more 2 (c / 262144) 0x10000) (0x80 + c / 4096 % 64)
            ≡ some (more 1 (c / 4096) 0x10000, []))
        × (utf8_step (more 1 (c / 4096) 0x10000) (0x80 + c / 64 % 64)
            ≡ some (more 0 (c / 64) 0x10000, []))
        × (utf8_step (more 0 (c / 64) 0x10000) (0x80 + c % 64) ≡ some (idle, c ∷ []))
  unfolding utf8_step
  step-four l = (ground arith, ground arith, ground arith, ground arith)

  decode_from-utf8_char :
      (rest : Bytes)
      → decode_from idle (utf8_char c ++ rest) ≡ (decode_from idle rest >>= λ s. ok (c ∷ s))
  unfolding utf8_char
  decode_from-utf8_char rest = elim (Bool-cases (ltb c 0x80)) [
    | inl e ↦ rw e (decode_from-last idle c c rest (step-one (ground arith)))
    | inr e ↦ rw e (elim (Bool-cases (ltb c 0x800)) [
      | inl f ↦ rw f (
          let (p, q) = step-two (ground arith) (ground arith) in
          decode_from-inner _ _ _ _ p ∙ decode_from-last _ _ _ _ q)
      | inr f ↦ rw f (elim (Bool-cases (ltb c 0x10000)) [
        | inl g ↦ rw g (
            let (p, q, r) = step-three (ground arith) (ground arith) in
            decode_from-inner _ _ _ _ p ∙ decode_from-inner _ _ _ _ q ∙ decode_from-last _ _ _ _ r)
        | inr g ↦ rw g (
            let (p, q, r, t) = step-four (ground arith) in
            decode_from-inner _ _ _ _ p
            ∙ decode_from-inner _ _ _ _ q
            ∙ decode_from-inner _ _ _ _ r
            ∙ decode_from-last _ _ _ _ t)
      ])
    ])
  ]

-- Decoding undoes encoding.
pub decode-utf8 : (s : Str) → All IsScalar s → decode (utf8 s) ≡ ok s
unfolding decode decode_from utf8
decode-utf8 [] h = refl
decode-utf8 (c ∷ s) h = decode_from-utf8_char c h.0 (utf8 s) ∙ rw (decode-utf8 s h.1)

-- A text of ASCII characters is its own encoding.
pub utf8-ascii : (s : Str) → All IsAscii s → utf8 s ≡ s
unfolding utf8 utf8_char
utf8-ascii [] h = refl
utf8-ascii (c ∷ s) h = rw (lt→ltb c 0x80 h.0, utf8-ascii s h.1)

pub utf8-IsByte : (s : Str) → All IsScalar s → All IsByte (utf8 s)
unfolding utf8
utf8-IsByte [] h = tt
utf8-IsByte (c ∷ s) h = All-append IsByte (utf8_char c) (utf8 s) (char c h.0) (utf8-IsByte s h.1)
  where
    char : (x : ℕ) → IsScalar x → All IsByte (utf8_char x)
    char x k = unfold utf8_char in ground arith

-- An encoding has at least as many bytes as the text has characters.
pub length-le-length-utf8 : (s : Str) → length s ≤ length (utf8 s)
unfolding utf8 utf8_char
length-le-length-utf8 [] = omega arith
length-le-length-utf8 (c ∷ s) =
    ground (arith, length-append (utf8_char c) (utf8 s), length-le-length-utf8 s)
