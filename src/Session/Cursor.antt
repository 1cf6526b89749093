-- ===== src/Session/Cursor.antt =====
-- Which rows the fetches of a prepared statement send.
use mindsdb_database_ai.Prelude.{
  ℕ, zero, suc, ◌+◌, ◌-◌, ◌≤◌, ◌<◌, ◌≡◌, refl, sym, ◌∙◌, ap, arith, List, [], ◌∷◌, ◌++◌, length,
  take, drop, slice, append_assoc, append-nil, length-append, length-take, take_all, le→leb, gt→leb,
}
use native.Mathlib.Nat.{zero-add, add-zero}
use mindsdb_database_ai.Session.{Stmt, last_row_sent, cursor_exists, stmt_fetch}

take-nil {ℓ} : {A : Type ℓ} (n : ℕ) → take {A = A} n [] ≡ []
take-nil zero = refl
take-nil (suc n) = refl

take-split {ℓ} :
    {A : Type ℓ} (a b : ℕ) (xs : List A) → take a xs ++ take b (drop a xs) ≡ take (a + b) xs
take-split zero b xs = ap (λ n. take n xs) (omega arith)
take-split (suc a) b [] = take-nil b ∙ sym (take-nil (suc a + b))
take-split (suc a) b (x ∷ xs) =
    let e : suc a + b ≡ suc (a + b) = omega arith in rw e (ap (λ r. x ∷ r) (take-split a b xs))

take-length-take {ℓ} : {A : Type ℓ} (n : ℕ) (xs : List A) → take (length (take n xs)) xs ≡ take n xs
take-length-take zero xs = refl
take-length-take (suc n) [] = refl
take-length-take (suc n) (x ∷ xs) = ap (λ r. x ∷ r) (take-length-take n xs)

module _ {ℓ κ} {S : Type ℓ} {Row : Type κ} (result : List Row) where
  -- One fetch continues where the rows that were sent before end.
  fetch_continues :
      (limit : ℕ) (stmt : Stmt S)
      → stmt.fetched ≤ length result
      → let (rows, _, stmt') = stmt_fetch result limit stmt in
        (stmt'.fetched ≤ length result)
        × (take stmt.fetched result ++ rows ≡ take stmt'.fetched result)
  unfolding stmt_fetch
  fetch_continues limit stmt h =
      let f : ℕ = stmt.fetched in
      let whole : take f result ++ slice result f limit ≡ take (f + (limit - f)) result =
        take-split f (limit - f) result in
      let count : f + length (slice result f limit) ≡ length (take (f + (limit - f)) result) =
        omega (
          arith,
          ap length whole,
          length-append (take f result) (slice result f limit),
          length-take f result,
        ) in
      (
        omega (arith, count, length-take (f + (limit - f)) result),
        rw (count, take-length-take (f + (limit - f)) result) whole,
      )

  -- Fetches with the limits of a list, one after the other: the rows of all, and the statement.
  pub fetches : List ℕ → Stmt S → List Row × Stmt S
  fetches [] stmt = ([], stmt)
  fetches (limit ∷ limits) stmt =
      let (rows, _, stmt') = stmt_fetch result limit stmt in
      let (more, stmt'') = fetches limits stmt' in (rows ++ more, stmt'')

  fetches_continue :
      (limits : List ℕ) (stmt : Stmt S)
      → stmt.fetched ≤ length result
      → let (rows, stmt') = fetches limits stmt in
        (stmt'.fetched ≤ length result)
        × (take stmt.fetched result ++ rows ≡ take stmt'.fetched result)
  unfolding fetches
  fetches_continue [] stmt h = (h, append-nil (take stmt.fetched result))
  fetches_continue (limit ∷ limits) stmt h =
      let (rows, _, stmt') = stmt_fetch result limit stmt in
      let (more, stmt'') = fetches limits stmt' in
      let (low, first) = fetch_continues limit stmt h in
      let (low', rest) = fetches_continue limits stmt' low in
      (low', sym (append_assoc (take stmt.fetched result) rows more) ∙ rw first rest)

module _ {ℓ κ} {S : Type ℓ} {Row : Type κ} (result : List Row) (stmt : Stmt S) where
  -- The statement before any row of it has been fetched.
  abbrev pub rewound : Stmt S
  rewound = record stmt { fetched = 0 }

  -- However often a statement is fetched, and with whatever limits, the rows that it sends are the
  -- first rows of the result, each once and in order, as many as it counts as fetched.
  pub fetches-prefix :
      (limits : List ℕ)
      → let (rows, stmt') = fetches result limits rewound in
        (rows ≡ take stmt'.fetched result) × (stmt'.fetched ≤ length result)
  fetches-prefix limits =
      let (low, all) = fetches_continue result limits rewound (omega arith) in (all, low)

  -- A result of at most `limit` rows is sent whole by the first fetch, which says that these were
  -- the last rows.
  pub fetch_whole :
      (limit : ℕ)
      → length result ≤ limit
      → stmt_fetch result limit rewound
        ≡ (result, last_row_sent, record stmt { fetched = length result })
  unfolding stmt_fetch
  fetch_whole limit h = rw (
    le→leb (length result) limit h,
    take_all result (limit - 0) (omega arith),
    zero-add (length result),
  )

  -- A result of more rows than the limit never gets past it: the first fetch sends `limit` rows, and
  -- from then on each fetch with this limit sends none, leaves the statement as it is, and says that
  -- there are more.
  pub fetch_stuck :
      (limit : ℕ)
      → limit < length result
      → (stmt_fetch result limit rewound
          ≡ (take limit result, cursor_exists, record stmt { fetched = limit }))
        × (stmt_fetch result limit (record stmt { fetched = limit })
            ≡ ([], cursor_exists, record stmt { fetched = limit }))
  unfolding stmt_fetch
  fetch_stuck limit h =
      let n : limit - 0 ≡ limit = omega arith in
      let z : limit - limit ≡ 0 = omega arith in
      let m : 0 + length (take limit result) ≡ limit = omega (arith, length-take limit result) in
      (
        rw (gt→leb (length result) limit h, n, m),
        rw (gt→leb (length result) limit h, z, add-zero limit),
      )
