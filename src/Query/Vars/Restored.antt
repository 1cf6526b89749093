-- ===== src/Query/Vars/Restored.antt =====
-- What unmarkQueryVar brings back.
use mindsdb_database_ai.Prelude.{
  ◌≡◌, refl, ◌∙◌, Bool, true, false, Option, none, some, List, [], ◌∷◌, ◌++◌, ok, Bool-cases, inl,
  inr, ap,
}
use mindsdb_database_ai.Prelude.Text.{Str}
use mindsdb_database_ai.Prelude.StrEq.{starts_with}
use mindsdb_database_ai.Prelude.Assoc.{is_some}
use mindsdb_database_ai.Query.Vars.{
  Constant, Where, binary, unary, constant, other, var_mark, mark_constant, mark_query_var,
  unmark_constant, unmark_query_var, replace_constant, replace_query_var, replace_vars,
}

module _ {V : Type 0} where
  -- The constant that unmarkQueryVar makes of one with its attributes.
  abbrev restored_value : Constant V → Option V → Constant V
  restored_value c none = c
  restored_value c (some name) = record c { value = name }

  abbrev restored_constant : Constant V → Option Bool → Constant V
  restored_constant c (some true) = restored_value c c.var_name
  restored_constant c _ = c

  restored : Where V → Where V
  restored (binary op a b) = binary op (restored a) (restored b)
  restored (unary op a) = unary op (restored a)
  restored (constant c) = constant (restored_constant c c.is_var)
  restored (other s) = other s

  -- Every constant has the attribute is_var, and a variable has a name.
  abbrev HasAttributes : Constant V → Option Bool → Type 0
  HasAttributes c none = ⊥
  HasAttributes c (some false) = Unit
  HasAttributes c (some true) = is_some c.var_name ≡ true

  IsReady : Where V → Type 0
  IsReady (binary op a b) = IsReady a × IsReady b
  IsReady (unary op a) = IsReady a
  IsReady (constant c) = HasAttributes c c.is_var
  IsReady (other s) = Unit

  unmark_constant_lem :
      (c : Constant V) (b : Option Bool) (n : Option V)
      → c.is_var ≡ b
      → c.var_name ≡ n
      → HasAttributes c b
      → unmark_constant c b ≡ ok (restored_constant c b)
  unmark_constant_lem c none n e f h = absurd h
  unmark_constant_lem c (some false) n e f h = refl
  unmark_constant_lem c (some true) none e f h = let g : false ≡ true = rw f at h in cc g
  unmark_constant_lem c (some true) (some name) e f h = rw f refl

  unmark_query_var_lem : (w : Where V) → IsReady w → unmark_query_var w ≡ ok (restored w)
  unfolding unmark_query_var restored IsReady
  unmark_query_var_lem (binary op a b) h =
      rw (unmark_query_var_lem a h.0, unmark_query_var_lem b h.1) refl
  unmark_query_var_lem (unary op a) h = rw (unmark_query_var_lem a h) refl
  unmark_query_var_lem (constant c) h =
      rw (unmark_constant_lem c c.is_var c.var_name refl refl h) refl
  unmark_query_var_lem (other s) h = refl

module _ {V : Type 0} (text : Str → V) (same : V → V → Bool) (value : V) (name : Str) where
  replace_constant_lem :
      (c : Constant V) (b : Option Bool) (n : Option V)
      → c.is_var ≡ b
      → c.var_name ≡ n
      → HasAttributes c b
      → let d = replace_constant text same value name c b in
        HasAttributes d d.is_var × (restored_constant d d.is_var ≡ restored_constant c b)
  replace_constant_lem c none n e f h = absurd h
  replace_constant_lem c (some false) n e f h = rw e (h, refl)
  replace_constant_lem c (some true) none e f h = let g : false ≡ true = rw f at h in cc g
  replace_constant_lem c (some true) (some m) e f h =
      elim (Bool-cases (same c.value (text (var_mark ++ (name ++ b']' ∷ []))))) [
        | inl q ↦ rw (q, e, f) (refl, refl)
        | inr q ↦ rw (q, e, f) (refl, refl)
      ]

  replace_query_var_lem :
      (w : Where V)
      → IsReady w
      → let w' = replace_query_var text same w value name in IsReady w' × (restored w' ≡ restored w)
  unfolding replace_query_var restored IsReady
  replace_query_var_lem (binary op a b) h =
      let (ra, ea) = replace_query_var_lem a h.0 in
      let (rb, eb) = replace_query_var_lem b h.1 in ((ra, rb), rw (ea, eb) refl)
  replace_query_var_lem (unary op a) h =
      let (ra, ea) = replace_query_var_lem a h in (ra, rw ea refl)
  replace_query_var_lem (constant c) h =
      let (rc, ec) = replace_constant_lem c c.is_var c.var_name refl refl h in (rc, rw ec refl)
  replace_query_var_lem (other s) h = (tt, refl)

module _ {V : Type 0} (text : Str → V) (same : V → V → Bool) where
  replace_vars_lem :
      (vars : List (Str × V)) (w : Where V)
      → IsReady w
      → let w' = replace_vars text same vars w in IsReady w' × (restored w' ≡ restored w)
  unfolding replace_vars
  replace_vars_lem [] w h = (h, refl)
  replace_vars_lem ((name, value) ∷ vars) w h =
      let w' = replace_query_var text same w value name in
      let (r, e) = replace_query_var_lem text same value name w h in
      let (r', e') = replace_vars_lem vars w' r in (r', e' ∙ e)

module _ {V : Type 0} (str_of : V → Str) where
  -- A constant that is no variable has the attribute is_var; a variable, if it was marked before, is
  -- named by its value.
  abbrev pub IsUsableConstant : Constant V → Option Bool → Type 0
  IsUsableConstant c none = starts_with var_mark (str_of c.value) ≡ true
  IsUsableConstant c (some false) = Unit
  IsUsableConstant c (some true) = c.var_name ≡ some c.value

  unfoldable pub IsUsable : Where V → Type 0
  IsUsable (binary op a b) = IsUsable a × IsUsable b
  IsUsable (unary op a) = IsUsable a
  IsUsable (constant c) = IsUsableConstant c c.is_var
  IsUsable (other s) = Unit

  plain_constant_lem :
      (c : Constant V) (b : Option Bool)
      → c.is_var ≡ b
      → IsUsableConstant c b
      → starts_with var_mark (str_of c.value) ≡ false
      → HasAttributes c c.is_var
        × (restored_constant c c.is_var ≡ c)
        × IsUsableConstant c c.is_var
        × (c ≡ c)
  plain_constant_lem c none e h q = let g : true ≡ false = rw (← h) q in cc g
  plain_constant_lem c (some false) e h q = rw e (tt, refl, tt, refl)
  plain_constant_lem c (some true) e h q = rw (e, h) (refl, refl, refl, refl)

  mark_constant_lem :
      (c : Constant V) (b : Option Bool)
      → c.is_var ≡ b
      → IsUsableConstant c b
      → let d = mark_constant str_of c in
        HasAttributes d d.is_var
        × (restored_constant d d.is_var ≡ d)
        × IsUsableConstant d d.is_var
        × (mark_constant str_of d ≡ d)
  unfolding mark_constant
  mark_constant_lem c b e h = elim (Bool-cases (starts_with var_mark (str_of c.value))) [
    | inl q ↦ rw (q, q) (refl, refl, refl, refl)
    | inr q ↦ rw (q, q) (plain_constant_lem c b e h q)
  ]

  mark_query_var_lem :
      (w : Where V)
      → IsUsable w
      → let w' = mark_query_var str_of w in
        IsReady w' × (restored w' ≡ w') × IsUsable w' × (mark_query_var str_of w' ≡ w')
  unfolding mark_query_var IsReady restored IsUsable
  mark_query_var_lem (binary op a b) h =
      let (ra, ea, ua, ma) = mark_query_var_lem a h.0 in
      let (rb, eb, ub, mb) = mark_query_var_lem b h.1 in
      ((ra, rb), rw (ea, eb) refl, (ua, ub), rw (ma, mb) refl)
  mark_query_var_lem (unary op a) h =
      let (ra, ea, ua, ma) = mark_query_var_lem a h in (ra, rw ea refl, ua, rw ma refl)
  mark_query_var_lem (constant c) h =
      let (rc, ec, uc, mc) = mark_constant_lem c c.is_var refl h in (rc, rw ec refl, uc, rw mc refl)
  mark_query_var_lem (other s) h = (tt, refl, tt, refl)

  pub IsUsable-mark : (w : Where V) → IsUsable w → IsUsable (mark_query_var str_of w)
  IsUsable-mark w h = (mark_query_var_lem w h).2

module _ {V : Type 0} (str_of : V → Str) (text : Str → V) (same : V → V → Bool) where
  -- A condition of usable constants is marked; whatever values are put in for its variables, one
  -- after the other, unmarkQueryVar brings the marked condition back; and to mark that once more
  -- changes nothing.
  pub unmark-replace-mark :
      (vars : List (Str × V)) (w : Where V)
      → IsUsable str_of w
      → let marked = mark_query_var str_of w in
        (unmark_query_var (replace_vars text same vars marked) ≡ ok marked)
        × (mark_query_var str_of marked ≡ marked)
  unmark-replace-mark vars w h =
      let marked = mark_query_var str_of w in
      let (ready, fixed, usable, again) = mark_query_var_lem str_of w h in
      let (ready', back) = replace_vars_lem text same vars marked ready in
      (
        unmark_query_var_lem (replace_vars text same vars marked) ready' ∙ ap ok (back ∙ fixed),
        again,
      )
