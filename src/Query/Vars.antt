-- ===== src/Query/Vars.antt =====
-- Variables in the condition of a query: markQueryVar, replaceQueryVar and unmarkQueryVar of
-- mindsdb/api/mysql/mysql_proxy/classes/sql_query.py. `str_of` is `str`, `text` makes a value of a
-- text, `same` compares values.
pub mod Restored
use mindsdb_database_ai.Prelude.{
  Bool, true, false, Option, none, some, List, [], ◌∷◌, ◌++◌, Result, ok, raise, attribute_error,
  ◌>>=◌, or_raise, if◌then◌else◌,
}
use mindsdb_database_ai.Prelude.Text.{Str}
use mindsdb_database_ai.Prelude.StrEq.{starts_with}

-- A `Constant`; an attribute that it may lack is an Option.
pub record Constant (V : Type 0) : Type 0 where
  pub value : V
  pub is_var : Option Bool
  pub var_name : Option V

-- The condition: its operators, its constants, and all that the three functions pass over.
pub data Where (V : Type 0) : Type 0 where
  binary : (op : Str) → Where V → Where V → Where V
  unary : (op : Str) → Where V → Where V
  constant : Constant V → Where V
  other : Str → Where V

-- "$var["
abbrev pub var_mark : Str
var_mark = b'$' ∷ b'v' ∷ b'a' ∷ b'r' ∷ b'[' ∷ []

module _ {V : Type 0} (str_of : V → Str) where
  unfoldable pub mark_constant : Constant V → Constant V
  mark_constant c =
      if starts_with var_mark (str_of c.value)
      then record c { is_var = some true; var_name = some c.value }
      else c

  unfoldable pub mark_query_var : Where V → Where V
  mark_query_var (binary op a b) = binary op (mark_query_var a) (mark_query_var b)
  mark_query_var (unary op a) = unary op (mark_query_var a)
  mark_query_var (constant c) = constant (mark_constant c)
  mark_query_var (other s) = other s

module _ {V : Type 0} where
  abbrev pub unmark_constant : Constant V → Option Bool → Result (Constant V)
  unmark_constant c none = raise attribute_error
  unmark_constant c (some false) = ok c
  unmark_constant c (some true) =
      or_raise c.var_name attribute_error >>= λ name. ok (record c { value = name })

  unfoldable pub unmark_query_var : Where V → Result (Where V)
  unmark_query_var (binary op a b) = do
    a' ← unmark_query_var a
    b' ← unmark_query_var b
    ok (binary op a' b')
  unmark_query_var (unary op a) = do a' ← unmark_query_var a; ok (unary op a')
  unmark_query_var (constant c) = do c' ← unmark_constant c c.is_var; ok (constant c')
  unmark_query_var (other s) = ok (other s)

module _ {V : Type 0} (text : Str → V) (same : V → V → Bool) where
  abbrev pub replace_constant : V → Str → Constant V → Option Bool → Constant V
  replace_constant var_value var_name c (some true) =
      if same c.value (text (var_mark ++ (var_name ++ b']' ∷ [])))
      then record c { value = var_value }
      else c
  replace_constant var_value var_name c _ = c

  unfoldable pub replace_query_var : Where V → V → Str → Where V
  replace_query_var (binary op a b) var_value var_name =
      binary op (replace_query_var a var_value var_name) (replace_query_var b var_value var_name)
  replace_query_var (unary op a) var_value var_name =
      unary op (replace_query_var a var_value var_name)
  replace_query_var (constant c) var_value var_name =
      constant (replace_constant var_value var_name c c.is_var)
  replace_query_var (other s) var_value var_name = other s

  -- `for name, value in var_group.items()`
  unfoldable pub replace_vars : List (Str × V) → Where V → Where V
  replace_vars [] w = w
  replace_vars ((name, value) ∷ vars) w = replace_vars vars (replace_query_var w value name)
