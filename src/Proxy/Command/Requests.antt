-- ===== src/Proxy/Command/Requests.antt =====
-- The commands of a client, laid out as the protocol prescribes, are taken apart.
use mindsdb_database_ai.Prelude.{
  ℕ, ◌%◌, ◌^◌, ◌<◌, ◌≡◌, ◌≢◌, arith, true, false, Option, some, List, [], ◌∷◌, ◌++◌, length, map,
  append-nil, All, Result, ok, raise, refl, ◌>>=◌, ==_ne,
}
use mindsdb_database_ai.Prelude.Bytes.{Bytes, le_bytes}
use mindsdb_database_ai.Prelude.Table.{Table, lookup}
use mindsdb_database_ai.Wire.Datum.{Value, bytes, num, set_from_buff}
use mindsdb_database_ai.Wire.Datum.RoundTrip.{Reads-num}
use mindsdb_database_ai.Session.{Stmt}
use mindsdb_database_ai.Proxy.Params.Untyped.{untyped_bytes, read_again, read_params-untyped}
use mindsdb_database_ai.Proxy.Params.{read_params}
use mindsdb_database_ai.Proxy.Params.RoundTrip.{
  Param, IsParam, params_bytes, read_as, read_params-params_bytes,
}
use mindsdb_database_ai.Proxy.Command.{
  com_init_db, com_query, com_stmt_prepare, com_stmt_execute, com_stmt_close, com_stmt_fetch,
  Command, with_sql, execute, close, fetch, init_db, with_data, has_params, setup_execute,
  setup_fetch, setup_as, setup,
}

-- What a client asks for.
pub data Request : Type 0 where
  ask_query ask_prepare ask_init_db : Bytes → Request
  ask_execute : (stmt_id flags iteration_count : ℕ) → List Param → Bytes → Request
  ask_again : (stmt_id flags iteration_count : ℕ) → Param → List Param → Bytes → Request
  ask_plain : (stmt_id flags iteration_count : ℕ) → Bytes → Request
  ask_close : (stmt_id : ℕ) → Request
  ask_fetch : (stmt_id limit : ℕ) → Request
  ask_other : ℕ → Bytes → Request

abbrev pub execute_bytes : (stmt_id flags iteration_count : ℕ) → Bytes → Bytes
execute_bytes i flags count rest =
    com_stmt_execute ∷ (le_bytes 4 i ++ (le_bytes 1 flags ++ (le_bytes 4 count ++ rest)))

abbrev pub request_bytes : Request → Bytes
request_bytes (ask_query sql) = com_query ∷ sql
request_bytes (ask_prepare sql) = com_stmt_prepare ∷ sql
request_bytes (ask_init_db name) = com_init_db ∷ name
request_bytes (ask_execute i flags count ps rest) =
    execute_bytes i flags count (params_bytes ps ++ rest)
request_bytes (ask_again i flags count p ps rest) =
    execute_bytes i flags count (untyped_bytes (p ∷ ps) rest)
request_bytes (ask_plain i flags count rest) = execute_bytes i flags count rest
request_bytes (ask_close i) = com_stmt_close ∷ le_bytes 4 i
request_bytes (ask_fetch i limit) = com_stmt_fetch ∷ (le_bytes 4 i ++ le_bytes 4 limit)
request_bytes (ask_other c rest) = c ∷ rest

abbrev pub set_to : Command → Result (Option Command)
set_to command = ok (some command)

-- What `setup` makes of it: the fields, or what reading parameters without types raises.
abbrev pub answer_of : Request → Result (Option Command)
answer_of (ask_query sql) = set_to (with_sql (num com_query) (bytes sql))
answer_of (ask_prepare sql) = set_to (with_sql (num com_stmt_prepare) (bytes sql))
answer_of (ask_init_db name) = set_to (init_db (bytes name))
answer_of (ask_execute i flags count ps rest) =
    set_to (execute (num i) (num flags) (num count) (map read_as ps))
answer_of (ask_again i flags count p ps rest) = read_again (p ∷ ps) >>= λ parameters.
    set_to (execute (num i) (num flags) (num count) parameters)
answer_of (ask_plain i flags count rest) = set_to (execute (num i) (num flags) (num count) [])
answer_of (ask_close i) = set_to (close (num i))
answer_of (ask_fetch i limit) = set_to (fetch (num i) (num limit))
answer_of (ask_other c rest) = set_to (with_data (num c) (bytes rest))

bind_assoc {ℓ κ μ} :
    {A : Type ℓ} {B : Type κ} {C : Type μ} (r : Result A) (f : A → Result B) (g : B → Result C)
    → ((r >>= f) >>= g) ≡ (r >>= λ x. f x >>= g)
bind_assoc (ok x) f g = refl
bind_assoc (raise e) f g = refl

module _ {ℓ} {S : Type ℓ} (num_params : S → ℕ) (prepared_stmts : Table (Stmt S)) where
  -- The numbers of an execution fit, and the statement is open and of this kind.
  abbrev pub Executes : (stmt_id flags iteration_count : ℕ) → (Stmt S → Type 0) → Type ℓ
  Executes i flags count Kind =
      (i < 2 ^ 32)
      × (flags < 256)
      × (count < 2 ^ 32)
      × ((stmt : Stmt S) × (lookup i prepared_stmts ≡ some stmt) × Kind stmt)

  abbrev pub Takes : ℕ → Stmt S → Type 0
  Takes n stmt = (has_params stmt.stmt_type ≡ true) × (num_params stmt.statement ≡ n)

  -- The numbers fit; an executed statement is open, and takes as many parameters or none.
  abbrev pub IsRequest : Request → Type ℓ
  IsRequest (ask_execute i flags count ps rest) =
      All IsParam ps × Executes i flags count (Takes (length ps))
  IsRequest (ask_again i flags count p ps rest) = Executes i flags count (Takes (length (p ∷ ps)))
  IsRequest (ask_plain i flags count rest) =
      Executes i flags count (λ stmt. has_params stmt.stmt_type ≡ false)
  IsRequest (ask_close i) = Unit {ℓ} × (i < 2 ^ 32)
  IsRequest (ask_fetch i limit) = Unit {ℓ} × (i < 2 ^ 32) × (limit < 2 ^ 32)
  IsRequest (ask_other c rest) =
      Unit {ℓ}
      × (c < 256)
      × (c ≢ com_query)
      × (c ≢ com_stmt_prepare)
      × (c ≢ com_stmt_execute)
      × (c ≢ com_stmt_close)
      × (c ≢ com_stmt_fetch)
      × (c ≢ com_init_db)
  IsRequest _ = Unit {ℓ}

  read_type :
      (c : ℕ) (rest : Bytes)
      → c < 256
      → setup num_params prepared_stmts (c ∷ rest)
        ≡ (setup_as num_params prepared_stmts c (num c) rest >>= λ command. ok (some command))
  unfolding setup le_bytes
  read_type c rest h =
      let low : c % 256 ≡ c = omega arith in
      let reads = rw low at (Reads-num 1 c (omega arith) (omega arith) rest) in rw reads

  abbrev parameters_of : Stmt S → Bytes → Result (List (Option Value))
  parameters_of stmt rest = elim (has_params stmt.stmt_type) [
    | true ↦ read_params rest (num_params stmt.statement)
    | false ↦ ok []
  ]

  read_execute :
      (i flags count : ℕ) (rest : Bytes)
      → i < 2 ^ 32
      → flags < 256
      → count < 2 ^ 32
      → {stmt : Stmt S} → lookup i prepared_stmts ≡ some stmt
      → setup num_params prepared_stmts (execute_bytes i flags count rest) ≡ (
          parameters_of stmt rest >>= λ parameters.
          set_to (execute (num i) (num flags) (num count) parameters))
  unfolding setup_as setup_execute set_from_buff
  read_execute i flags count rest hi hf hc {stmt} found =
      rw
        (
          read_type com_stmt_execute _ (omega arith),
          Reads-num 4 i (omega arith) hi,
          Reads-num 1 flags (omega arith) hf,
          Reads-num 4 count (omega arith) hc,
          found,
        )
        (bind_assoc (parameters_of stmt rest)
          (λ ps. ok (execute (num i) (num flags) (num count) ps)) (λ command. ok (some command)))

  -- A query, a prepare, a change of the database, the close and the fetch of a statement, and a
  -- command of another type set the fields that the client sent. So does the execution of an open
  -- statement that takes no parameters, and of one that takes them where the client sends as many
  -- with their types, a negative one with the number that it is read as. An execution without the
  -- types sets the parameters where all are null, and raises an IndexError where one is not. All
  -- numbers fit their fields.
  pub setup-request_bytes :
      (r : Request) → IsRequest r → setup num_params prepared_stmts (request_bytes r) ≡ answer_of r
  unfolding setup_as setup_fetch set_from_buff
  setup-request_bytes (ask_query sql) h = rw (read_type com_query sql (omega arith))
  setup-request_bytes (ask_prepare sql) h = rw (read_type com_stmt_prepare sql (omega arith))
  setup-request_bytes (ask_init_db name) h = rw (read_type com_init_db name (omega arith))
  setup-request_bytes (ask_execute i flags count ps rest)
        (hp, (hi, hf, hc, (stmt, found, (takes, same)))) =
      rw (
        read_execute i flags count (params_bytes ps ++ rest) hi hf hc found,
        parameters_of,
        takes,
        same,
        read_params-params_bytes ps rest hp,
      )
  setup-request_bytes (ask_again i flags count p ps rest)
        (hi, hf, hc, (stmt, found, (takes, same))) =
      rw (
        read_execute i flags count (untyped_bytes (p ∷ ps) rest) hi hf hc found,
        parameters_of,
        takes,
        same,
        read_params-untyped p ps rest,
      )
  setup-request_bytes (ask_plain i flags count rest) (hi, hf, hc, (stmt, found, none_taken)) =
      rw (read_execute i flags count rest hi hf hc found, parameters_of, none_taken)
  setup-request_bytes (ask_close i) h = rw (
    read_type com_stmt_close _ (omega arith),
    ← append-nil (le_bytes 4 i),
    Reads-num 4 i (omega arith) h.1 [],
  )
  setup-request_bytes (ask_fetch i limit) (_, hi, hl) = rw (
    read_type com_stmt_fetch _ (omega arith),
    Reads-num 4 i (omega arith) hi,
    ← append-nil (le_bytes 4 limit),
    Reads-num 4 limit (omega arith) hl [],
  )
  setup-request_bytes (ask_other c rest) (_, hc, nq, np, ne, nc, nf, ni) = rw (
    read_type c rest hc,
    ==_ne c com_query nq,
    ==_ne c com_stmt_prepare np,
    ==_ne c com_stmt_execute ne,
    ==_ne c com_stmt_close nc,
    ==_ne c com_stmt_fetch nf,
    ==_ne c com_init_db ni,
  )
