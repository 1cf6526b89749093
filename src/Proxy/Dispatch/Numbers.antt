-- ===== src/Proxy/Dispatch/Numbers.antt =====
-- The numbers of the statements that a connection keeps.
use mindsdb_database_ai.Prelude.{
  ℕ, ◌≤◌, ◌<◌, ◌≡◌, refl, arith, Bool, true, false, Option, none, some, List, [], ◌∷◌, ok, raise,
  ◌==◌, Bool-cases, Option-cases, Result, inl, inr, ==_iff,
}
use mindsdb_database_ai.Prelude.Text.{Str}
use mindsdb_database_ai.Prelude.StrEq.{eqb}
use mindsdb_database_ai.Prelude.Table.{
  Table, lookup, contains, insert, erase, lookup-insert, lookup-erase,
}
use mindsdb_database_ai.Wire.Datum.{Value}
use mindsdb_database_ai.Session.{Stmt, register_stmt, unregister_stmt}
use mindsdb_database_ai.Session.Statements.{register_stmt_fresh}
use mindsdb_database_ai.Proxy.Command.{
  Command, with_sql, execute, close, fetch, init_db, with_data, com_query,
}
use mindsdb_database_ai.Proxy.Dispatch.{
  Session, Outcome, Engine, with_stmts, prepare_registered, prepare_query, answer_stmt_prepare,
  fetched_rows, query_answer, answer_stmt_execute, answer_stmt_fetch, answer_stmt_close,
  change_default_db, answer_init_db, on_text, on_name, answer, caught, null_name, is_quit, handle,
  number,
}

-- Every number that stands for a statement is from 1 to 99.
abbrev pub IsNumbered {ℓ} : {S : Type ℓ} → Table (Stmt S) → Type 0
IsNumbered stmts = (j : ℕ) → contains j stmts ≡ true → (1 ≤ j) × (j < 100)

module _ {ℓ} {S : Type ℓ} where
  insert-IsNumbered :
      (i : ℕ) (v : Stmt S) (stmts : Table (Stmt S))
      → 1 ≤ i
      → i < 100
      → IsNumbered stmts
      → IsNumbered (insert i v stmts)
  insert-IsNumbered i v stmts lo hi h j c =
      let c' = rw (lookup-insert j i v stmts) at c in
      elim (Bool-cases (i == j)) [
        | inl same ↦ (let e : i ≡ j = (==_iff i j).0 same in (omega arith, omega arith))
        | inr other ↦ h j (rw other at c')
      ]

  erase-IsNumbered :
      (i : ℕ) (stmts : Table (Stmt S)) → IsNumbered stmts → IsNumbered (erase i stmts)
  erase-IsNumbered i stmts h j c =
      let c' = rw (lookup-erase j i stmts) at c in
      elim (Bool-cases (i == j)) [
        | inl same ↦ absurd (contrary (rw same at c'))
        | inr other ↦ h j (rw other at c')
      ]
    where
      contrary : false ≡ true → ⊥
      contrary e = cc

module _ {ℓ κ μ ν} {S : Type ℓ} {W : Type κ} {Row : Type μ} {R : Type ν} (engine : Engine S W Row R)
    (deprecate_eof : Bool) where
  abbrev pub Keeps : Outcome S W Row R → Type 0
  Keeps o = IsNumbered o.0.prepared_stmts

  prepare_registered-Keeps :
      (i : ℕ) (s : Session S W) (q : Option ℕ × S)
      → 1 ≤ i
      → i < 100
      → IsNumbered s.prepared_stmts
      → Keeps (prepare_registered engine deprecate_eof i s q)
  unfolding prepare_registered
  prepare_registered-Keeps i s (some code, query) lo hi h =
      insert-IsNumbered i _ s.prepared_stmts lo hi h
  prepare_registered-Keeps i s (none, query) lo hi h =
      insert-IsNumbered i _ s.prepared_stmts lo hi h

  prepare_query-Keeps :
      (s : Session S W) (q : Option ℕ × S)
      → IsNumbered s.prepared_stmts
      → Keeps (prepare_query engine deprecate_eof s q)
  prepare_query-Keeps s (some code, sqlquery) h = h
  prepare_query-Keeps s (none, sqlquery) h = after (register_stmt sqlquery s.prepared_stmts) refl
    where
      after :
          (r : Result (Table (Stmt S) × ℕ))
          → register_stmt sqlquery s.prepared_stmts ≡ r
          → Keeps (prepare_query engine deprecate_eof s (none, sqlquery))
      after (raise e) eq = rw (prepare_query, eq) h
      after (ok (stmts, i)) eq =
          let (lo, hi, fresh, least, found, others) =
            register_stmt_fresh sqlquery s.prepared_stmts eq in
          rw (prepare_query, eq)
            (prepare_registered-Keeps i (with_stmts engine deprecate_eof s stmts) _ lo hi (λ j c.
              elim (Bool-cases (i == j)) [
                | inl same ↦ (let e : i ≡ j = (==_iff i j).0 same in (omega arith, omega arith))
                | inr other ↦ h j (rw (others j (ground arith)) at c)
              ]))

  fetched_rows-Keeps :
      (i limit : ℕ) (stmt : Stmt S) (s : Session S W) (r : Option ℕ × List Row)
      → lookup i s.prepared_stmts ≡ some stmt
      → IsNumbered s.prepared_stmts
      → Keeps (fetched_rows engine deprecate_eof i limit stmt s r)
  fetched_rows-Keeps i limit stmt s (some code, rows) e h = h
  fetched_rows-Keeps i limit stmt s (none, rows) e h =
      let (lo, hi) = h i (rw e) in insert-IsNumbered i _ s.prepared_stmts lo hi h

  answer_stmt_fetch-Keeps :
      (i limit : ℕ) (s : Session S W)
      → IsNumbered s.prepared_stmts
      → Keeps (answer_stmt_fetch engine deprecate_eof i limit s)
  unfolding answer_stmt_fetch
  answer_stmt_fetch-Keeps i limit s h = elim (Option-cases (lookup i s.prepared_stmts)) [
    | inl e ↦ rw (answer_stmt_fetch, e) h
    | inr (stmt, e) ↦ rw (answer_stmt_fetch, e) (fetched_rows-Keeps i limit stmt s _ e h)
  ]

  answer_stmt_close-Keeps :
      (i : ℕ) (s : Session S W)
      → IsNumbered s.prepared_stmts
      → Keeps (answer_stmt_close engine deprecate_eof i s)
  unfolding answer_stmt_close unregister_stmt
  answer_stmt_close-Keeps i s h = elim (Bool-cases (contains i s.prepared_stmts)) [
    | inl e ↦ rw (answer_stmt_close, e) (erase-IsNumbered i s.prepared_stmts h)
    | inr e ↦ rw (answer_stmt_close, e) h
  ]

  change_default_db-Keeps :
      (name : Str) (s : Session S W)
      → IsNumbered s.prepared_stmts
      → IsNumbered (change_default_db engine deprecate_eof name s).0.prepared_stmts
  unfolding change_default_db
  change_default_db-Keeps name s h = elim (Bool-cases (eqb name null_name)) [
    | inl e ↦ rw (change_default_db, e) h
    | inr e ↦ elim (Bool-cases (engine.is_db_exists name s.world)) [
      | inl known ↦ rw (change_default_db, e, known) h
      | inr unknown ↦ rw (change_default_db, e, unknown) h
    ]
  ]

  answer_init_db-Keeps :
      (r : Session S W × Option ℕ)
      → IsNumbered r.0.prepared_stmts
      → Keeps (answer_init_db engine deprecate_eof r)
  answer_init_db-Keeps (s, none) h = h
  answer_init_db-Keeps (s, some code) h = h

  on_text-Keeps :
      (r : Result Str) (s : Session S W) (f : Str → Session S W → Outcome S W Row R)
      → IsNumbered s.prepared_stmts
      → ((sql : Str) → Keeps (f sql s))
      → Keeps (on_text engine deprecate_eof r s f)
  on_text-Keeps (ok sql) s f h hf = hf sql
  on_text-Keeps (raise e) s f h hf = h

  on_name-Keeps :
      (r : Result Str) (s : Session S W)
      → IsNumbered s.prepared_stmts
      → Keeps (on_name engine deprecate_eof r s)
  on_name-Keeps (ok name) s h = answer_init_db-Keeps _ (change_default_db-Keeps name s h)
  on_name-Keeps (raise e) s h = h

  caught-Keeps :
      (o : Outcome S W Row R)
      → Keeps o
      → IsNumbered (caught engine deprecate_eof o).0.prepared_stmts
  caught-Keeps (s, sent, none) h = h
  caught-Keeps (s, sent, some code) h = h

  answer_stmt_execute-Keeps :
      (i : ℕ) (parameters : List (Option Value)) (s : Session S W)
      → IsNumbered s.prepared_stmts
      → Keeps (answer_stmt_execute engine deprecate_eof i parameters s)
  unfolding answer_stmt_execute
  answer_stmt_execute-Keeps i parameters s h = elim (Option-cases (lookup i s.prepared_stmts)) [
    | inl e ↦ rw (answer_stmt_execute, e) h
    | inr (stmt, e) ↦
        let (lo, hi) = h i (rw e) in
        rw (answer_stmt_execute, e) (insert-IsNumbered i _ s.prepared_stmts lo hi h)
  ]

  answer-Keeps :
      (c : Command) (s : Session S W)
      → IsNumbered s.prepared_stmts
      → Keeps (answer engine deprecate_eof c s)
  unfolding answer
  answer-Keeps (with_sql type sql) s h =
      elim (Bool-cases (number engine deprecate_eof type == com_query)) [
        | inl e ↦
            rw (answer, e)
              (on_text-Keeps _ s (query_answer engine deprecate_eof) h
                (λ t. unfold query_answer in h))
        | inr e ↦
            rw (answer, e)
              (on_text-Keeps _ s (answer_stmt_prepare engine deprecate_eof) h
                (λ t. unfold answer_stmt_prepare in prepare_query-Keeps s _ h))
      ]
  answer-Keeps (execute i flags count ps) s h = answer_stmt_execute-Keeps _ ps s h
  answer-Keeps (close i) s h = answer_stmt_close-Keeps _ s h
  answer-Keeps (fetch i limit) s h = answer_stmt_fetch-Keeps _ _ s h
  answer-Keeps (init_db v) s h = on_name-Keeps _ s h
  answer-Keeps (with_data type rest) s h = h

  -- If every number that stands for a statement is from 1 to 99, that is still so behind any sequence
  -- of commands, whatever they are and whichever of them fail. (What the engine leaves of a session
  -- has no table of statements: the source changes it only where a statement is prepared, executed,
  -- fetched from or closed.)
  pub handle-IsNumbered :
      (commands : List (Option Command)) (s : Session S W)
      → IsNumbered s.prepared_stmts
      → IsNumbered (handle engine deprecate_eof commands s).1.prepared_stmts
  unfolding handle
  handle-IsNumbered [] s h = h
  handle-IsNumbered (none ∷ rest) s h = h
  handle-IsNumbered (some c ∷ rest) s h = elim (Bool-cases (is_quit engine deprecate_eof c)) [
    | inl e ↦ rw (handle, e) h
    | inr e ↦
        rw (handle, e)
          (handle-IsNumbered rest _
            (caught-Keeps (answer engine deprecate_eof c s) (answer-Keeps c s h)))
  ]
