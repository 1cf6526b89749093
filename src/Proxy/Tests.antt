-- ===== src/Proxy/Tests.antt =====
-- The theorems on the connection at concrete inputs.
use mindsdb_database_ai.Prelude.{
  ℕ, ◌≡◌, ◌↔◌, ◌⊎◌, refl, arith, true, false, none, some, List, [], ◌∷◌, ◌++◌, map, length, ok,
  raise, unicode_error, ◌&&◌, ◌==◌, if◌then◌else◌,
}
use mindsdb_database_ai.Prelude.Bytes.{Bytes}
use mindsdb_database_ai.Prelude.Text.{Str, utf8, utf8_char, decode, decode_from, utf8_step}
use mindsdb_database_ai.Prelude.StrEq.{eqb}
use mindsdb_database_ai.Prelude.Table.{Table, lookup, insert}
use mindsdb_database_ai.Wire.Datum.{num, bytes}
use mindsdb_database_ai.Session.{Stmt, select_stmt, register_stmt, next_id}
use mindsdb_database_ai.Session.Statements.{new_stmt}
use mindsdb_database_ai.Proxy.Params.{read_params}
use mindsdb_database_ai.Proxy.Params.RoundTrip.{
  Param, null_param, int_param, negative_param, text_param, tiny, long, params_bytes, read_as,
  read_params-params_bytes,
}
use mindsdb_database_ai.Proxy.Command.{Command, setup, with_sql, with_data, com_query, com_quit}
use mindsdb_database_ai.Proxy.Command.Requests.{
  ask_execute, request_bytes, answer_of, setup-request_bytes,
}
use mindsdb_database_ai.Proxy.Auth.{
  str_password, bytes_password, success, password_bytes, user_of, find_integration, check_auth_with,
  asked, switch_out, native, caching, ask_password,
}
use mindsdb_database_ai.Proxy.Auth.Rules.{
  NamesOne, IsSuccess, check_auth_with-IsSuccess, ask_password-rule,
}
use mindsdb_database_ai.Proxy.Dispatch.{
  Session, Engine, select, header_sent, definitions, answer_stmt_prepare, handle,
}
use mindsdb_database_ai.Proxy.Dispatch.Loop.{
  GoesOn, answer_all, quits, handle-IsEnd, Prepared, answer_stmt_prepare-Prepared,
}
use mindsdb_database_ai.Proxy.Dispatch.Numbers.{IsNumbered, handle-IsNumbered}
use mindsdb_database_ai.Proxy.Packages.{send_package_group}
use mindsdb_database_ai.Proxy.ResultSet.{MysqlColumn, announce_statement}
use mindsdb_database_ai.Proxy.ResultSet.Sent.{advance, made_from}
use mindsdb_database_ai.Proxy.ResultSet.Prepared.{
  statement_bodies, RealisesAll, announce_statement-Realises,
}

-- "hi"
abbrev hi : Str
hi = b'h' ∷ b'i' ∷ []

abbrev params : List Param
params = null_param ∷ int_param long true 70000 ∷ negative_param tiny 4 ∷ text_param hi ∷ []

read_params-params_bytes_example :
    read_params (params_bytes params ++ 9 ∷ []) (length params) ≡ ok (map read_as params)
read_params-params_bytes_example = read_params-params_bytes params (9 ∷ []) (
  tt,
  (omega arith, (omega arith, (((refl, (refl, tt)), unfold utf8 utf8_char in omega arith), tt))),
)

-- A query object is the number of its parameters.
abbrev four_stmt : Stmt ℕ
four_stmt = record { stmt_type = some select_stmt; statement = 4; fetched = 0 }

abbrev four_params : Table (Stmt ℕ)
four_params = (1, four_stmt) ∷ []

setup-request_bytes_example :
    setup (λ n. n) four_params (request_bytes (ask_execute 1 0 1 params []))
    ≡ answer_of (ask_execute 1 0 1 params [])
setup-request_bytes_example =
    setup-request_bytes (λ n. n) four_params (ask_execute 1 0 1 params [])
      (
        (
          tt,
          (
            omega arith,
            (omega arith, (((refl, (refl, tt)), unfold utf8 utf8_char in omega arith), tt)),
          ),
        ),
        (omega arith, omega arith, omega arith, (four_stmt, unfold lookup in refl, (refl, refl))),
      )

-- A hash that is the password behind the salt.
abbrev salted : Str → Str → Bytes
salted word salt = utf8 (salt ++ word)

-- "me", an integration "hi" of type "db", and the name that stands for it.
abbrev me : Str
me = b'm' ∷ b'e' ∷ []

abbrev integrations : List (Str × Str)
integrations = (hi, b'd' ∷ b'b' ∷ []) ∷ []

check_auth_with-IsSuccess_example :
    IsSuccess (check_auth_with salted me hi integrations (user_of me hi) (str_password hi) []) ↔ (
      ((user_of me hi ≡ me) ⊎ NamesOne me (user_of me hi) integrations)
      × ((password_bytes (str_password hi) ≡ utf8 hi)
          ⊎ (password_bytes (str_password hi) ≡ salted hi [])))
check_auth_with-IsSuccess_example =
    check_auth_with-IsSuccess salted me hi integrations (user_of me hi) (str_password hi) []

let_in :
    check_auth_with salted me hi integrations (user_of me hi) (str_password hi) []
    ≡ success me (some (hi, b'd' ∷ b'b' ∷ []))
unfolding check_auth_with find_integration eqb utf8 utf8_char
let_in = refl

ask_password-rule_example : ask_password salted false native (1 ∷ []) me (2 ∷ []) none ≡ (
    if eqb native caching && eqb (1 ∷ []) (0 ∷ [])
    then asked [] (str_password [])
    else asked
        (switch_out native ∷ [])
        (bytes_password (if length {A = ℕ} (2 ∷ []) == 0 then salted [] me else 2 ∷ [])))
ask_password-rule_example = ask_password-rule salted false native (1 ∷ []) me (2 ∷ []) none

-- An engine whose statements are all selects of two columns, and whose queries answer with 7.
abbrev engine : Engine ℕ ℕ ℕ ℕ
engine = record {
  new_query = λ sql s. (none, length sql);
  prepare_query = λ q s. (none, q);
  parsed = λ q. select false;
  columns = λ q. 2;
  parameters = λ q. 1;
  fetch_rows = λ q s. (none, 5 ∷ 6 ∷ []);
  is_db_exists = λ name w. false;
  query_answer =
      λ sql s. record { database = s.database; world = s.world; sent = []; error = some 7 };
  execute_stmt = λ stmt ps s.
      (stmt.statement, record { database = s.database; world = s.world; sent = []; error = none });
}

abbrev start : Session ℕ ℕ
start = record { prepared_stmts = four_params; database = hi; world = 0 }

abbrev ask : Command
ask = with_sql (num com_query) (bytes hi)

abbrev quit : Command
quit = with_data (num com_quit) (bytes [])

ask-GoesOn : GoesOn engine true ask
ask-GoesOn ends = elim ends [ ]

handle-IsEnd_example :
    handle engine true (map some (ask ∷ []) ++ some quit ∷ some ask ∷ []) start
    ≡ (let (s', sent) = answer_all engine true (ask ∷ []) start in (false, s', sent))
handle-IsEnd_example =
    handle-IsEnd engine true (ask ∷ []) (some quit) (some ask ∷ []) start (ask-GoesOn, tt)
      (quits (num com_quit) (bytes []) refl)

not_utf8 : decode (0xff ∷ []) ≡ raise unicode_error
unfolding decode decode_from utf8_step
not_utf8 = refl

registers : register_stmt 2 four_params ≡ ok (insert 2 (new_stmt 2 four_params) four_params, 2)
unfolding register_stmt next_id lookup
registers = refl

answer_stmt_prepare-Prepared_example :
    Prepared engine true 2 (answer_stmt_prepare engine true hi start)
answer_stmt_prepare-Prepared_example =
    answer_stmt_prepare-Prepared engine true hi start refl registers

four_params-IsNumbered : IsNumbered four_params
unfolding lookup
four_params-IsNumbered j c = ground arith

handle-IsNumbered_example :
    IsNumbered (handle engine true (some ask ∷ some quit ∷ []) start).1.prepared_stmts
handle-IsNumbered_example =
    handle-IsNumbered engine true (some ask ∷ some quit ∷ []) start four_params-IsNumbered

abbrev one_column : MysqlColumn
one_column = record {
  database = none;
  table_name = none;
  table_alias = none;
  name = some (b'x' ∷ []);
  alias = none;
  charset = none;
  flags = none;
  type = 253;
}

announce_statement-Realises_example :
    let bodies = statement_bodies false false 1 (one_column ∷ []) [] in
    (announce_statement false false 1 (one_column ∷ []) [] 1
      ≡ (advance 1 bodies, send_package_group (made_from 1 bodies)))
    × RealisesAll
        (header_sent 1 1 0 ∷ (definitions engine false 0 ++ definitions engine false 1))
        bodies
announce_statement-Realises_example =
    announce_statement-Realises engine false false 1 (one_column ∷ []) [] 1
