-- ===== src/Proxy/Dispatch/Loop.antt =====
-- How the loop of `handle` goes on and ends, and what preparing a statement leaves.
use mindsdb_database_ai.Prelude.{
  ℕ, zero, suc, ◌+◌, ◌≡◌, refl, sym, ap, ◌∙◌, arith, Bool, true, false, Option, none, some, List,
  [], ◌∷◌, ◌++◌, Exn, ok, raise, map, All, ==_refl, ==_ne, append-nil, replicate, ◌==◌, Bool-cases,
  inl, inr, if◌then◌else◌,
}
use mindsdb_database_ai.Prelude.Bytes.{Bytes}
use mindsdb_database_ai.Prelude.Text.{Str, decode}
use mindsdb_database_ai.Prelude.Table.{Table, contains, insert, lookup-insert}
use mindsdb_database_ai.Wire.Datum.{Value, bytes}
use mindsdb_database_ai.Session.{Stmt, StmtType, register_stmt}
use mindsdb_database_ai.Proxy.Command.{
  Command, with_sql, execute, close, fetch, init_db, with_data, com_query, com_quit,
}
use mindsdb_database_ai.Proxy.Dispatch.{
  Session, Outcome, Engine, Sent, err_sent, header_sent, column_sent, eof_sent, ok_sent, row_sent,
  last_sent, engine_sent, er_syntax_error, plan_of, definitions, planned, prepare_registered,
  prepare_query, answer_stmt_prepare, answer, caught, is_quit, handle, number,
}

module _ {ℓ κ μ ν} {S : Type ℓ} {W : Type κ} {Row : Type μ} {R : Type ν} (engine : Engine S W Row R)
    (deprecate_eof : Bool) where
  -- What ends a connection: COM_QUIT, or no packet.
  pub data IsEnd : Option Command → Type 0 where
    no_packet : IsEnd none
    quits :
        (type rest : Value)
        → number engine deprecate_eof type ≡ com_quit
        → IsEnd (some (with_data type rest))

  abbrev pub GoesOn : Command → Type 0
  GoesOn c = ¬ IsEnd (some c)

  GoesOn-is_quit : (c : Command) → GoesOn c → is_quit engine deprecate_eof c ≡ false
  GoesOn-is_quit (with_data type rest) h =
      ==_ne (number engine deprecate_eof type) com_quit (λ e. h (quits type rest e))
  GoesOn-is_quit (with_sql type sql) h = refl
  GoesOn-is_quit (execute i flags count ps) h = refl
  GoesOn-is_quit (close i) h = refl
  GoesOn-is_quit (fetch i limit) h = refl
  GoesOn-is_quit (init_db name) h = refl

  abbrev pub error_packet : Option ℕ → List (Sent Row R)
  error_packet none = []
  error_packet (some code) = err_sent code ∷ []

  -- The commands are answered one after the other; if one raises, what it had sent is followed by an
  -- error packet.
  pub answer_all : List Command → Session S W → Session S W × List (Sent Row R)
  answer_all [] s = (s, [])
  answer_all (c ∷ commands) s =
      let (s', sent, error) = answer engine deprecate_eof c s in
      let (s'', more) = answer_all commands s' in (s'', (sent ++ error_packet error) ++ more)

  caught_lem :
      (o : Outcome S W Row R)
      → ((caught engine deprecate_eof o).0 ≡ o.0)
        × ((caught engine deprecate_eof o).1 ≡ o.1 ++ error_packet o.2)
  caught_lem (s, sent, none) = (refl, sym (append-nil sent))
  caught_lem (s, sent, some code) = (refl, refl)

  -- The commands before the first COM_QUIT, or before the point where no packet comes, are answered
  -- one after the other, each from the session that the one before left, and also behind one that
  -- raises, which adds an error packet; then the connection has ended, and what stands behind is not
  -- looked at.
  pub handle-IsEnd :
      (commands : List Command) (end : Option Command) (rest : List (Option Command))
      (s : Session S W)
      → All GoesOn commands
      → IsEnd end
      → handle engine deprecate_eof (map some commands ++ end ∷ rest) s
        ≡ (let (s', sent) = answer_all commands s in (false, s', sent))
  unfolding handle answer_all
  handle-IsEnd [] end rest s h ends = at_end ends
    where
      at_end :
          {c : Option Command} → IsEnd c → handle engine deprecate_eof (c ∷ rest) s ≡ (false, s, [])
      at_end no_packet = refl
      at_end (quits type more e) = rw (handle, e) refl
  handle-IsEnd (c ∷ commands) end rest s h ends =
      let (same, sent_same) = caught_lem (answer engine deprecate_eof c s) in
      rw (handle, GoesOn-is_quit c h.0, same, sent_same, handle-IsEnd commands end rest _ h.1 ends)
        refl

  -- A statement whose text is no UTF-8 is answered with two error packets.
  pub answer-undecodable :
      (type : Value) (bs : Bytes) {e : Exn} (s : Session S W)
      → decode bs ≡ raise e
      → caught engine deprecate_eof (answer engine deprecate_eof (with_sql type (bytes bs)) s)
        ≡ (s, err_sent er_syntax_error ∷ err_sent er_syntax_error ∷ [])
  unfolding answer
  answer-undecodable type bs s h =
      elim (Bool-cases (number engine deprecate_eof type == com_query)) [
        | inl q ↦ rw (answer, q, h)
        | inr q ↦ rw (answer, q, h)
      ]

  -- Column definitions in an answer.
  pub count_columns : List (Sent Row R) → ℕ
  count_columns [] = 0
  count_columns (column_sent ∷ sent) = suc (count_columns sent)
  count_columns (_ ∷ sent) = count_columns sent

  count_columns-append :
      (xs ys : List (Sent Row R)) → count_columns (xs ++ ys) ≡ count_columns xs + count_columns ys
  unfolding count_columns
  count_columns-append [] ys = omega arith
  count_columns-append (column_sent ∷ xs) ys = ap suc (count_columns-append xs ys) ∙ omega arith
  count_columns-append (ok_sent ∷ xs) ys = count_columns-append xs ys
  count_columns-append (err_sent code ∷ xs) ys = count_columns-append xs ys
  count_columns-append (header_sent i c p ∷ xs) ys = count_columns-append xs ys
  count_columns-append (eof_sent ∷ xs) ys = count_columns-append xs ys
  count_columns-append (row_sent r ∷ xs) ys = count_columns-append xs ys
  count_columns-append (last_sent st ∷ xs) ys = count_columns-append xs ys
  count_columns-append (engine_sent r ∷ xs) ys = count_columns-append xs ys

  count_columns-replicate : (n : ℕ) → count_columns (replicate n column_sent) ≡ n
  unfolding count_columns
  count_columns-replicate zero = refl
  count_columns-replicate (suc n) = ap suc (count_columns-replicate n)

  count_columns-eof : (b : Bool) → count_columns (if b then [] else eof_sent ∷ []) ≡ 0
  unfolding count_columns
  count_columns-eof true = refl
  count_columns-eof false = refl

  count_columns-definitions : (n : ℕ) → count_columns (definitions engine deprecate_eof n) ≡ n
  unfolding count_columns
  count_columns-definitions zero = refl
  count_columns-definitions (suc n) = omega (
    arith,
    count_columns-append (replicate (suc n) column_sent)
        (if deprecate_eof then [] else eof_sent ∷ []),
    count_columns-replicate (suc n),
    count_columns-eof deprecate_eof,
  )

  -- The statement `i` is there; either nothing was sent, or the answer announces what it defines.
  abbrev pub Prepared : ℕ → Outcome S W Row R → Type (μ ⊔ ν)
  Prepared i (s, sent, some code) = (contains i s.prepared_stmts ≡ true) × (sent ≡ [])
  Prepared i (s, sent, none) =
      (contains i s.prepared_stmts ≡ true)
      × ((c : ℕ) × (p : ℕ) × (more : List (Sent Row R)) × (sent ≡ header_sent i c p ∷ more)
          × (count_columns more ≡ p + c))

  contains-insert :
      (i : ℕ) (v : Stmt S) (stmts : Table (Stmt S)) → contains i (insert i v stmts) ≡ true
  contains-insert i v stmts = rw (lookup-insert i i v stmts, ==_refl i)

  planned-Prepared :
      (i : ℕ) (query : S) (s : Session S W) (t : Option StmtType) (error : Option ℕ) (c p : ℕ)
      → Prepared i (
          planned engine deprecate_eof i query s
            (record { stmt_type = t; error = error; num_columns = c; num_params = p }))
  planned-Prepared i query s t none c p = (
    contains-insert i _ s.prepared_stmts,
    (
      c,
      p,
      definitions engine deprecate_eof p ++ definitions engine deprecate_eof c,
      refl,
      omega (
        arith,
        count_columns-append (definitions engine deprecate_eof p)
            (definitions engine deprecate_eof c),
        count_columns-definitions p,
        count_columns-definitions c,
      ),
    ),
  )
  planned-Prepared i query s t (some code) c p = (contains-insert i _ s.prepared_stmts, refl)

  prepare_registered-Prepared :
      (i : ℕ) (s : Session S W) (q : Option ℕ × S)
      → Prepared i (prepare_registered engine deprecate_eof i s q)
  unfolding prepare_registered
  prepare_registered-Prepared i s (some code, query) = (contains-insert i _ s.prepared_stmts, refl)
  prepare_registered-Prepared i s (none, query) =
      let p =
        plan_of s.database (engine.parsed query) (engine.columns query) (engine.parameters query) in
      planned-Prepared i query s p.stmt_type p.error p.num_columns p.num_params

  -- A statement for which a query was made and a number `i` was free keeps that number, also where
  -- preparing it fails, which sends nothing of its own; where it succeeds, the answer is a header
  -- with `i` and two counts, behind it as many definitions as these announce.
  pub answer_stmt_prepare-Prepared :
      (sql : Str) (s : Session S W) {sqlquery : S} {stmts : Table (Stmt S)} {i : ℕ}
      → engine.new_query sql s ≡ (none, sqlquery)
      → register_stmt sqlquery s.prepared_stmts ≡ ok (stmts, i)
      → Prepared i (answer_stmt_prepare engine deprecate_eof sql s)
  unfolding answer_stmt_prepare
  answer_stmt_prepare-Prepared sql s {sqlquery} {stmts} {i} hq hr =
      rw (answer_stmt_prepare, hq, prepare_query, hr) (prepare_registered-Prepared i _ _)
