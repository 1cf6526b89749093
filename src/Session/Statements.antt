-- ===== src/Session/Statements.antt =====
-- The numbers that `register_stmt` gives out.
use mindsdb_database_ai.Prelude.{
  ℕ, zero, suc, ◌+◌, ◌≤◌, ◌<◌, ◌≡◌, ◌≢◌, ◌↔◌, refl, sym, arith, true, false, Option, none, some, ok,
  raise, exception, ltb, ◌==◌, Bool-cases, ==_iff, ==_refl, inl, inr, ◌&&◌,
}
use mindsdb_database_ai.Prelude.Table.{
  Table, lookup, contains, is_some, insert, erase, lookup-insert, lookup-erase,
}
use mindsdb_database_ai.Session.{Stmt, next_id, register_stmt, unregister_stmt}

module _ {ℓ} {S : Type ℓ} (stmts : Table (Stmt S)) where
  -- `n` is the first free number from `i` on, or 100 where none below is free.
  pub record IsFirst (i n : ℕ) : Type 0 where
    pub from : i ≤ n
    pub most : n ≤ 100
    pub taken : (j : ℕ) → i ≤ j → j < n → contains j stmts ≡ true
    pub free : n < 100 → contains n stmts ≡ false

  next_id-more :
      (f i : ℕ)
      → (contains i stmts && ltb i 100) ≡ true
      → next_id (suc f) i stmts ≡ next_id f (i + 1) stmts
  unfolding next_id
  next_id-more f i e = rw (e, next_id)

  next_id-stop : (f i : ℕ) → (contains i stmts && ltb i 100) ≡ false → next_id (suc f) i stmts ≡ i
  unfolding next_id
  next_id-stop f i e = rw (e, next_id)

  IsFirst-more : (i n : ℕ) → contains i stmts ≡ true → IsFirst (i + 1) n → IsFirst i n
  IsFirst-more i n e r = record {
    from = omega arith;
    most = r.most;
    taken = λ j lo hi. elim (Bool-cases (i == j)) [
      | inl same ↦ rw (← (==_iff i j).0 same) e
      | inr other ↦ r.taken j (ground arith) hi
    ];
    free = r.free;
  }

  IsFirst-stop : (i : ℕ) → i ≤ 100 → (contains i stmts && ltb i 100) ≡ false → IsFirst i i
  IsFirst-stop i h e = record {
    from = omega arith;
    most = h;
    taken = λ j lo hi. absurd (omega arith);
    free = λ l. ground arith;
  }

  next_id-IsFirst : (f i : ℕ) → i ≤ 100 → 100 ≤ f + i → IsFirst i (next_id f i stmts)
  next_id-IsFirst zero i h hf = unfold next_id in IsFirst-stop i h (ground arith)
  next_id-IsFirst (suc f) i h hf = elim (Bool-cases (contains i stmts && ltb i 100)) [
    | inl e ↦
        rw (next_id-more f i e)
          (IsFirst-more i _ (ground arith) (next_id-IsFirst f (i + 1) (ground arith) (omega arith)))
    | inr e ↦ rw (next_id-stop f i e) (IsFirst-stop i h e)
  ]

  pub least_id : IsFirst 1 (next_id 100 1 stmts)
  least_id = next_id-IsFirst 100 1 (omega arith) (omega arith)

is_some-false {ℓ} : {A : Type ℓ} (o : Option A) → is_some o ≡ false → o ≡ none
is_some-false none e = refl
is_some-false (some a) e = cc

-- What `register_stmt` leaves.
module _ {ℓ} {S : Type ℓ} (s : S) (stmts : Table (Stmt S)) where
  abbrev pub new_stmt : Stmt S
  new_stmt = record { stmt_type = none; statement = s; fetched = 0 }

  registered :
      {stmts' : Table (Stmt S)} {i : ℕ}
      → register_stmt s stmts ≡ ok (stmts', i)
      → (i ≡ next_id 100 1 stmts) × (i ≢ 100) × (stmts' ≡ insert i new_stmt stmts)
  unfolding register_stmt
  registered {stmts'} {i} e = ground arith

  -- A registered statement gets the least number from 1 to 99 that was free; it is found under it
  -- with no type and no row fetched, and every other number is as before.
  pub register_stmt_fresh :
      {stmts' : Table (Stmt S)} {i : ℕ}
      → register_stmt s stmts ≡ ok (stmts', i)
      → (1 ≤ i)
        × (i < 100)
        × (lookup i stmts ≡ none)
        × ((j : ℕ) → 1 ≤ j → j < i → contains j stmts ≡ true)
        × (lookup i stmts' ≡ some new_stmt)
        × ((j : ℕ) → j ≢ i → lookup j stmts' ≡ lookup j stmts)
  register_stmt_fresh {stmts'} {i} e =
      let (n, small, table) = registered e in
      let first : IsFirst stmts 1 i = rw n (least_id stmts) in
      let below : i < 100 = omega (arith, first.most) in
      (
        first.from,
        below,
        is_some-false (lookup i stmts) (first.free below),
        first.taken,
        rw (table, lookup-insert i i new_stmt stmts, ==_refl i),
        λ j ne. rw (table, lookup-insert j i new_stmt stmts) (ground arith),
      )

  -- It fails exactly when all numbers from 1 to 99 are taken.
  pub register_stmt_full :
      (register_stmt s stmts ≡ raise (exception "Too many unclosed queries"))
      ↔ ((j : ℕ) → 1 ≤ j → j < 100 → contains j stmts ≡ true)
  unfolding register_stmt
  register_stmt_full =
      let n : ℕ = next_id 100 1 stmts in
      let first = least_id stmts in
      (
        (λ e j lo hi. first.taken j lo (ground (arith, first.most))),
        λ all. elim (Bool-cases (n == 100)) [
          | inl full ↦ rw full
          | inr room ↦ absurd (ground (arith, first.most, first.free, all n first.from))
        ],
      )

  -- Closing the statement that was just registered gives back what every number stood for.
  pub register-unregister :
      {stmts' : Table (Stmt S)} {i : ℕ}
      → register_stmt s stmts ≡ ok (stmts', i)
      → (stmts'' : Table (Stmt S)) × (unregister_stmt i stmts' ≡ ok stmts'')
        × ((j : ℕ) → lookup j stmts'' ≡ lookup j stmts)
  unfolding unregister_stmt
  register-unregister {stmts'} {i} e =
      let (n, small, table) = registered e in
      let (lo, hi, absent, _, found, others) = register_stmt_fresh e in
      (
        erase i stmts',
        rw found,
        λ j. rw (lookup-erase j i stmts') (elim (Bool-cases (i == j)) [
          | inl same ↦ rw (same, ← (==_iff i j).0 same) (sym absent)
          | inr other ↦ rw other (others j (ground arith))
        ]),
      )
