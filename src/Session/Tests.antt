-- ===== src/Session/Tests.antt =====
-- The theorems on prepared statements at concrete inputs.
use mindsdb_database_ai.Prelude.{
  ℕ, ◌<◌, ◌≤◌, ◌≡◌, ◌≢◌, refl, arith, true, none, some, List, [], ◌∷◌, length, take, ok,
}
use mindsdb_database_ai.Prelude.Table.{Table, lookup, contains, insert}
use mindsdb_database_ai.Session.{Stmt, next_id, register_stmt, cursor_exists, stmt_fetch}
use mindsdb_database_ai.Session.Statements.{new_stmt, register_stmt_fresh}
use mindsdb_database_ai.Session.Cursor.{fetches, rewound, fetches-prefix, fetch_stuck}

-- Statement 1 is open.
abbrev one_open : Table (Stmt ℕ)
one_open = insert 1 (new_stmt 70 []) []

abbrev two_open : Table (Stmt ℕ)
two_open = insert 2 (new_stmt 80 one_open) one_open

register_second : register_stmt 80 one_open ≡ ok (two_open, 2)
unfolding register_stmt next_id lookup insert
register_second = refl

register_stmt_fresh_example :
    (1 ≤ 2)
    × (2 < 100)
    × (lookup 2 one_open ≡ none)
    × ((j : ℕ) → 1 ≤ j → j < 2 → contains j one_open ≡ true)
    × (lookup 2 two_open ≡ some (new_stmt 80 one_open))
    × ((j : ℕ) → j ≢ 2 → lookup j two_open ≡ lookup j one_open)
register_stmt_fresh_example = register_stmt_fresh 80 one_open register_second

abbrev rows : List ℕ
rows = 10 ∷ 20 ∷ 30 ∷ []

abbrev query : Stmt ℕ
query = new_stmt 80 one_open

fetches-prefix_example :
    let (sent, stmt') = fetches rows (2 ∷ 1 ∷ 3 ∷ []) (rewound rows query) in
    (sent ≡ take stmt'.fetched rows) × (stmt'.fetched ≤ length rows)
fetches-prefix_example = fetches-prefix rows query (2 ∷ 1 ∷ 3 ∷ [])

fetch_stuck_example :
    (stmt_fetch rows 2 (rewound rows query)
      ≡ (take 2 rows, cursor_exists, record query { fetched = 2 }))
    × (stmt_fetch rows 2 (record query { fetched = 2 })
        ≡ ([], cursor_exists, record query { fetched = 2 }))
fetch_stuck_example = fetch_stuck rows query 2 (omega arith)
