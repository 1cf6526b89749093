-- ===== src/Proxy/Dispatch.antt =====
-- What the server does with a client's commands: the loop of `MysqlProxy.handle` and the answers
-- `answer_stmt_prepare`, `answer_stmt_fetch`, `answer_stmt_close` and `change_default_db` of
-- mindsdb/api/mysql/mysql_proxy/mysql_proxy.py. Error packets have their codes, without the texts.
-- The work of the SQL engine is the record Engine: `S` is the type of the query objects, `W` the
-- rest of the world, `Row` a row and `R` a packet of the engine's own answers.
pub mod Loop
pub mod Numbers
use mindsdb_database_ai.Prelude.{
  ℕ, zero, suc, ◌+◌, Bool, true, false, not, Option, none, some, List, [], ◌∷◌, ◌++◌, map, length,
  replicate, Result, ok, raise, attribute_error, ◌&&◌, ◌||◌, ltb, ◌==◌, if◌then◌else◌,
}
use mindsdb_database_ai.Prelude.Bytes.{Bytes}
use mindsdb_database_ai.Prelude.Text.{Str, decode}
use mindsdb_database_ai.Prelude.StrEq.{eqb}
use mindsdb_database_ai.Prelude.Table.{Table, lookup, insert}
use mindsdb_database_ai.Wire.Datum.{Value, bytes, num}
use mindsdb_database_ai.Session.{
  StmtType, select_stmt, insert_stmt, delete_stmt, lock_stmt, show_variables, Stmt, register_stmt,
  unregister_stmt, FetchStatus, stmt_fetch,
}
use mindsdb_database_ai.Proxy.Command.{
  Command, with_sql, execute, close, fetch, init_db, with_data, com_query, com_quit,
}

-- The classes of statements that `answer_stmt_prepare` tells apart; an insert has the parts of its
-- table's name.
pub data Parsed : Type 0 where
  insert_into : List Str → Parsed
  select : (for_update : Bool) → Parsed
  delete : Parsed
  show : (variables : Bool) → Parsed
  other_statement : Parsed

pub data Sent {ℓ κ} (Row : Type ℓ) (R : Type κ) : Type (ℓ ⊔ κ) where
  ok_sent : Sent Row R
  err_sent : (err_code : ℕ) → Sent Row R
  header_sent : (stmt_id num_columns num_params : ℕ) → Sent Row R
  column_sent eof_sent : Sent Row R
  row_sent : Row → Sent Row R
  last_sent : FetchStatus → Sent Row R
  engine_sent : R → Sent Row R

-- ERR.ER_SYNTAX_ERROR, the code of an exception that has none.
abbrev pub er_syntax_error : ℕ
er_syntax_error = 1149

abbrev pub er_bad_db_error : ℕ
er_bad_db_error = 1049

abbrev pub er_non_insertable_table : ℕ
er_non_insertable_table = 1471

pub record Session {ℓ κ} (S : Type ℓ) (W : Type κ) : Type (ℓ ⊔ κ) where
  pub prepared_stmts : Table (Stmt S)
  pub database : Str
  pub world : W

-- What a handler leaves: the session, the packets it has sent, and the code of the exception that
-- ended it, if one did.
abbrev pub Outcome {ℓ κ μ ν} : Type ℓ → Type κ → Type μ → Type ν → Type (ℓ ⊔ κ ⊔ μ ⊔ ν)
Outcome S W Row R = Session S W × List (Sent Row R) × Option ℕ

-- What the engine leaves of a session when it answers a query or executes a statement, which touch
-- no prepared statement's number: the rest of the session, what it has sent, and an exception's code.
pub record Answered {ℓ κ μ} (W : Type ℓ) (Row : Type κ) (R : Type μ) : Type (ℓ ⊔ κ ⊔ μ) where
  pub database : Str
  pub world : W
  pub sent : List (Sent Row R)
  pub error : Option ℕ

pub record Engine {ℓ κ μ ν} (S : Type ℓ) (W : Type κ) (Row : Type μ) (R : Type ν)
    : Type (ℓ ⊔ κ ⊔ μ ⊔ ν) where
  -- `SQLQuery(sql, session=…, execute=False)`, and `prepare_query`: the query, or an error's code.
  pub new_query : Str → Session S W → Option ℕ × S
  pub prepare_query : S → Session S W → Option ℕ × S
  pub parsed : S → Parsed
  pub columns : S → ℕ
  pub parameters : S → ℕ
  -- `fetch`: an error's code, or the rows of the result.
  pub fetch_rows : S → Session S W → Option ℕ × List Row
  pub is_db_exists : Str → W → Bool
  pub query_answer : Str → Session S W → Answered W Row R
  -- The rest of `answer_stmt_execute`, and what executing makes of the statement's query.
  pub execute_stmt : Stmt S → List (Option Value) → Session S W → S × Answered W Row R

-- `s.lower()` as far as comparing it with 'mindsdb' needs: no other letter becomes one of these.
abbrev lower_char : ℕ → ℕ
lower_char c = if not (ltb c 65) && ltb c 91 then c + 32 else c

-- "mindsdb", "predictors", "commands", "null"
abbrev pub mindsdb : Str
mindsdb = b'm' ∷ b'i' ∷ b'n' ∷ b'd' ∷ b's' ∷ b'd' ∷ b'b' ∷ []

abbrev pub predictors : Str
predictors = b'p' ∷ b'r' ∷ b'e' ∷ b'd' ∷ b'i' ∷ b'c' ∷ b't' ∷ b'o' ∷ b'r' ∷ b's' ∷ []

abbrev pub commands : Str
commands = b'c' ∷ b'o' ∷ b'm' ∷ b'm' ∷ b'a' ∷ b'n' ∷ b'd' ∷ b's' ∷ []

abbrev pub null_name : Str
null_name = b'n' ∷ b'u' ∷ b'l' ∷ b'l' ∷ []

abbrev last_part : Str → List Str → Str
last_part p [] = p
last_part p (q ∷ ps) = last_part q ps

-- The two tests on an insert's table; the parser gives a name of one part at least.
unfoldable pub may_insert : Str → List Str → Bool
may_insert database [] = true
may_insert database (p ∷ ps) =
    not (
      (ltb 1 (length (p ∷ ps)) && not (eqb (map lower_char p) mindsdb))
      || ((length (p ∷ ps) == 1) && not (eqb database mindsdb)))
    && (eqb (last_part p ps) predictors || eqb (last_part p ps) commands)

-- The type that a statement gets, the error that follows, and how many columns and parameters the
-- answer announces.
pub record Plan : Type 0 where
  pub stmt_type : Option StmtType
  pub error : Option ℕ
  pub num_columns : ℕ
  pub num_params : ℕ

abbrev plan : Option StmtType → Option ℕ → ℕ → ℕ → Plan
plan t e c p = record { stmt_type = t; error = e; num_columns = c; num_params = p }

unfoldable pub plan_of : Str → Parsed → ℕ → ℕ → Plan
plan_of database (insert_into parts) c p =
    plan (some insert_stmt)
      (if may_insert database parts then none else some er_non_insertable_table) c p
plan_of database (select true) c p = plan (some lock_stmt) none c p
plan_of database (select false) c p = plan (some select_stmt) none c p
plan_of database delete c p = plan (some delete_stmt) none p p
plan_of database (show true) c p = plan (some show_variables) none 2 0
plan_of database (show false) c p = plan none (some er_syntax_error) c p
plan_of database other_statement c p = plan none (some er_syntax_error) c p

module _ {ℓ κ μ ν} {S : Type ℓ} {W : Type κ} {Row : Type μ} {R : Type ν} (engine : Engine S W Row R)
    (deprecate_eof : Bool) where
  abbrev pub with_stmts : Session S W → Table (Stmt S) → Session S W
  with_stmts s stmts = record s { prepared_stmts = stmts }

  -- Definitions and, for a client that wants it, the end-of-rows packet.
  abbrev pub definitions : ℕ → List (Sent Row R)
  definitions zero = []
  definitions (suc n) =
      replicate (suc n) column_sent ++ (if deprecate_eof then [] else eof_sent ∷ [])

  -- `prepared_stmt`, once its query has been prepared.
  abbrev pub with_stmt : ℕ → Option StmtType → S → Session S W → Session S W
  with_stmt stmt_id t query s =
      with_stmts s
        (insert stmt_id (record { stmt_type = t; statement = query; fetched = 0 }) s.prepared_stmts)

  abbrev pub planned : ℕ → S → Session S W → Plan → Outcome S W Row R
  planned stmt_id query s p = (
    with_stmt stmt_id p.stmt_type query s,
    elim p.error [
      | some code ↦ []
      | none ↦
          header_sent stmt_id p.num_columns p.num_params ∷ definitions p.num_params
          ++ definitions p.num_columns
    ],
    p.error,
  )

  -- `answer_stmt_prepare`, from where the statement has a number on.
  unfoldable pub prepare_registered : ℕ → Session S W → Option ℕ × S → Outcome S W Row R
  prepare_registered stmt_id s (some code, query) = (with_stmt stmt_id none query s, [], some code)
  prepare_registered stmt_id s (none, query) =
      planned stmt_id query s
        (plan_of s.database (engine.parsed query) (engine.columns query) (engine.parameters query))

  abbrev pub prepare_query : Session S W → Option ℕ × S → Outcome S W Row R
  prepare_query s (some code, sqlquery) = (s, [], some code)
  prepare_query s (none, sqlquery) = elim (register_stmt sqlquery s.prepared_stmts) [
    | raise e ↦ (s, [], some er_syntax_error)
    | ok r ↦
        let s' = with_stmts s r.0 in prepare_registered r.1 s' (engine.prepare_query sqlquery s')
  ]

  unfoldable pub answer_stmt_prepare : Str → Session S W → Outcome S W Row R
  answer_stmt_prepare sql s = prepare_query s (engine.new_query sql s)

  abbrev pub fetched_rows : ℕ → ℕ → Stmt S → Session S W → Option ℕ × List Row → Outcome S W Row R
  fetched_rows stmt_id limit stmt s (some code, result) = (s, err_sent code ∷ [], none)
  fetched_rows stmt_id limit stmt s (none, result) =
      let (rows, status, stmt') = stmt_fetch result limit stmt in
      (
        with_stmts s (insert stmt_id stmt' s.prepared_stmts),
        map row_sent rows ++ last_sent status ∷ [],
        none,
      )

  unfoldable pub answer_stmt_fetch : ℕ → ℕ → Session S W → Outcome S W Row R
  answer_stmt_fetch stmt_id limit s = elim (lookup stmt_id s.prepared_stmts) [
    | none ↦ (s, [], some er_syntax_error)
    | some stmt ↦ fetched_rows stmt_id limit stmt s (engine.fetch_rows stmt.statement s)
  ]

  unfoldable pub answer_stmt_close : ℕ → Session S W → Outcome S W Row R
  answer_stmt_close stmt_id s = elim (unregister_stmt stmt_id s.prepared_stmts) [
    | raise e ↦ (s, [], some er_syntax_error)
    | ok stmts ↦ (with_stmts s stmts, [], none)
  ]

  unfoldable pub change_default_db : Str → Session S W → Session S W × Option ℕ
  change_default_db db_name s =
      if eqb db_name null_name
      then (s, none)
      else if engine.is_db_exists db_name s.world
      then (record s { database = db_name }, none)
      else (s, some er_bad_db_error)

  abbrev pub answer_init_db : Session S W × Option ℕ → Outcome S W Row R
  answer_init_db (s, none) = (s, ok_sent ∷ [], none)
  answer_init_db (s, some code) = (s, [], some code)

  -- `decode_utf`, which answers with an error and raises.
  abbrev pub on_text :
      Result Str → Session S W → (Str → Session S W → Outcome S W Row R) → Outcome S W Row R
  on_text (ok sql) s answer = answer sql s
  on_text (raise e) s answer = (s, err_sent er_syntax_error ∷ [], some er_syntax_error)

  abbrev pub decoded_value : Value → Result Str
  decoded_value (bytes bs) = decode bs
  decoded_value v = raise attribute_error

  abbrev pub on_name : Result Str → Session S W → Outcome S W Row R
  on_name (ok name) s = answer_init_db (change_default_db name s)
  on_name (raise e) s = (s, [], some er_syntax_error)

  abbrev pub number : Value → ℕ
  number (num n) = n
  number v = 0

  abbrev pub answered : Session S W → Answered W Row R → Outcome S W Row R
  answered s a = (record s { database = a.database; world = a.world }, a.sent, a.error)

  unfoldable pub query_answer : Str → Session S W → Outcome S W Row R
  query_answer sql s = answered s (engine.query_answer sql s)

  abbrev pub executed : ℕ → Stmt S → Session S W → S × Answered W Row R → Outcome S W Row R
  executed stmt_id stmt s (query, a) =
      answered (with_stmts s (insert stmt_id (record stmt { statement = query }) s.prepared_stmts))
        a

  unfoldable pub answer_stmt_execute : ℕ → List (Option Value) → Session S W → Outcome S W Row R
  answer_stmt_execute stmt_id parameters s = elim (lookup stmt_id s.prepared_stmts) [
    | none ↦ (s, [], some er_syntax_error)
    | some stmt ↦ executed stmt_id stmt s (engine.execute_stmt stmt parameters s)
  ]

  -- The branches of the loop, without COM_QUIT; `clear_sql` is part of `query_answer`.
  unfoldable pub answer : Command → Session S W → Outcome S W Row R
  answer (with_sql type sql) s =
      if number type == com_query
      then on_text (decoded_value sql) s query_answer
      else on_text (decoded_value sql) s answer_stmt_prepare
  answer (execute stmt_id flags iteration_count parameters) s =
      answer_stmt_execute (number stmt_id) parameters s
  answer (fetch stmt_id limit) s = answer_stmt_fetch (number stmt_id) (number limit) s
  answer (close stmt_id) s = answer_stmt_close (number stmt_id) s
  answer (init_db database) s = on_name (decoded_value database) s
  answer (with_data type rest) s = (s, ok_sent ∷ [], none)

  -- The two `except` clauses.
  abbrev pub caught : Outcome S W Row R → Session S W × List (Sent Row R)
  caught (s, sent, none) = (s, sent)
  caught (s, sent, some code) = (s, sent ++ err_sent code ∷ [])

  abbrev pub is_quit : Command → Bool
  is_quit (with_data type rest) = number type == com_quit
  is_quit c = false

  -- The loop: `p.get()` gives a command, or ends the connection, as COM_QUIT does: it raises, returns
  -- False, or leaves an empty packet, which has no type. At the end of the list the server waits.
  unfoldable pub handle :
      List (Option Command) → Session S W → Bool × Session S W × List (Sent Row R)
  handle [] s = (true, s, [])
  handle (none ∷ rest) s = (false, s, [])
  handle (some c ∷ rest) s = elim (is_quit c) [
    | true ↦ (false, s, [])
    | false ↦
        let (s', sent) = caught (answer c s) in
        let (waiting, s'', sent') = handle rest s' in (waiting, s'', sent ++ sent')
  ]
