-- ===== src/Mongo/Request/At.antt =====
-- What `unpack` and `get_utf8_string` read at a position from which the rest of the buffer is known.
use mindsdb_database_ai.Prelude.{
  ℕ, zero, suc, ◌+◌, ◌-◌, ◌^◌, ◌<◌, ◌≡◌, refl, ap, sym, ◌∙◌, arith, List, [], ◌∷◌, ◌++◌, length,
  drop, All, ok, All-append, take-append, drop-append, lt→ltb, ge→ltb, ==_refl, length-drop,
  take_all,
}
use mindsdb_database_ai.Prelude.Bytes.{Bytes, le_bytes, le_val, length-le_bytes, le_val-le_bytes}
use mindsdb_database_ai.Prelude.Int.{ℤ, pos, negsuc}
use mindsdb_database_ai.Prelude.Text.{Str, IsScalar, utf8, utf8_char, decode-utf8}
use mindsdb_database_ai.Mongo.Reply.Headers.{IsInt32, word}
use mindsdb_database_ai.Mongo.Request.{slice_at, unpack, unpack_int, index_nul, get_utf8_string}

drop-nil {ℓ} : {A : Type ℓ} (n : ℕ) → drop {A = A} n [] ≡ []
drop-nil zero = refl
drop-nil (suc n) = refl

pub drop-drop {ℓ} : {A : Type ℓ} (n k : ℕ) (xs : List A) → drop (n + k) xs ≡ drop k (drop n xs)
drop-drop zero k xs = ap (λ i. drop i xs) (omega arith)
drop-drop (suc n) k [] = drop-nil (suc n + k) ∙ sym (drop-nil k)
drop-drop (suc n) k (x ∷ xs) =
    let e : suc n + k ≡ suc (n + k) = omega arith in rw e (drop-drop n k xs)

module _ (buffer : Bytes) (n : ℕ) (mid rest : Bytes) (h : drop n buffer ≡ mid ++ rest) where
  pub drop-next : (k : ℕ) → length mid ≡ k → drop (n + k) buffer ≡ rest
  drop-next k l = drop-drop n k buffer ∙ rw h (drop-append mid rest l)

  pub slice_at-At : (k : ℕ) → length mid ≡ k → slice_at buffer (pos n) (pos (n + k)) ≡ mid
  slice_at-At k l = let e : n + k - n ≡ k = omega arith in rw (e, h) (take-append mid rest l)

  pub unpack-At : (k : ℕ) → length mid ≡ k → unpack k buffer (pos n) ≡ ok (le_val mid, pos (n + k))
  unfolding unpack
  unpack-At k l = rw (slice_at-At k l, l, ==_refl k)

pub unpack_int-At :
    (buffer : Bytes) (n w : ℕ) (rest : Bytes)
    → drop n buffer ≡ le_bytes 4 w ++ rest
    → w < 2 ^ 31
    → unpack_int buffer (pos n) ≡ ok (pos w, pos (n + 4))
unfolding unpack_int
unpack_int-At buffer n w rest h l = rw (
  unpack-At buffer n (le_bytes 4 w) rest h 4 (length-le_bytes 4 w),
  le_val-le_bytes 4 w (omega (arith, l)),
  lt→ltb w (2 ^ 31) l,
)

-- A character of a name: no NUL.
abbrev pub IsNameChar : ℕ → Type 0
IsNameChar c = IsScalar c × (0 < c)

abbrev IsPositive : ℕ → Type 0
IsPositive b = 0 < b

index_nul-positive :
    (bs rest : Bytes) → All IsPositive bs → index_nul (bs ++ 0 ∷ rest) ≡ ok (length bs)
unfolding index_nul
index_nul-positive [] rest h = refl
index_nul-positive (zero ∷ bs) rest h = absurd (omega (arith, h.0))
index_nul-positive (suc b ∷ bs) rest h = rw (index_nul-positive bs rest h.1)

utf8_char-IsPositive : (c : ℕ) → 0 < c → All IsPositive (utf8_char c)
utf8_char-IsPositive c h = unfold utf8_char in ground arith

utf8-IsPositive : (s : Str) → All IsNameChar s → All IsPositive (utf8 s)
unfolding utf8
utf8-IsPositive [] h = tt
utf8-IsPositive (c ∷ s) h =
    All-append IsPositive (utf8_char c) (utf8 s) (utf8_char-IsPositive c h.0.1)
      (utf8-IsPositive s h.1)

name-IsScalar : (s : Str) → All IsNameChar s → All IsScalar s
name-IsScalar [] h = tt
name-IsScalar (c ∷ s) h = (h.0.0, name-IsScalar s h.1)

pub get_utf8_string-At :
    (buffer : Bytes) (n : ℕ) (s : Str) (rest : Bytes)
    → drop n buffer ≡ utf8 s ++ 0 ∷ rest
    → All IsNameChar s
    → get_utf8_string buffer (pos n) ≡ ok (s, pos (n + length (utf8 s) + 1))
unfolding get_utf8_string
get_utf8_string-At buffer n s rest h name = rw (
  ap index_nul h ∙ index_nul-positive (utf8 s) rest (utf8-IsPositive s name),
  slice_at-At buffer n (utf8 s) (0 ∷ rest) h (length (utf8 s)) refl,
  decode-utf8 s (name-IsScalar s name),
)

-- What stands behind the text and its NUL.
pub drop-name :
    (buffer : Bytes) (n : ℕ) (s : Str) (rest : Bytes)
    → drop n buffer ≡ utf8 s ++ 0 ∷ rest
    → drop (n + length (utf8 s) + 1) buffer ≡ rest
drop-name buffer n s rest h =
    drop-drop (n + length (utf8 s)) 1 buffer
    ∙ ap (drop 1) (drop-next buffer n (utf8 s) (0 ∷ rest) h (length (utf8 s)) refl)

pub unpack_word-At :
    (buffer : Bytes) (n : ℕ) (z : ℤ) (rest : Bytes)
    → drop n buffer ≡ word z ++ rest
    → IsInt32 z
    → unpack_int buffer (pos n) ≡ ok (z, pos (n + 4))
unfolding unpack_int
unpack_word-At buffer n (pos w) rest h l = unfold unpack_int in unpack_int-At buffer n w rest h l
unpack_word-At buffer n (negsuc k) rest h l =
    let w : ℕ = 2 ^ 32 - (k + 1) in
    let back : 2 ^ 32 - w - 1 ≡ k = omega (arith, l) in
    rw (
      unpack-At buffer n (le_bytes 4 w) rest h 4 (length-le_bytes 4 w),
      le_val-le_bytes 4 w (omega (arith, l)),
      ge→ltb w (2 ^ 31) (omega (arith, l)),
      back,
    )

-- `buffer[pos:]`
pub slice_at-rest :
    (buffer : Bytes) (n : ℕ) (rest : Bytes)
    → drop n buffer ≡ rest
    → slice_at buffer (pos n) (pos (length buffer)) ≡ rest
slice_at-rest buffer n rest h =
    let e : length rest ≡ length buffer - n = sym (ap length h) ∙ length-drop n buffer in
    rw h (take_all rest (length buffer - n) (omega (arith, e)))
