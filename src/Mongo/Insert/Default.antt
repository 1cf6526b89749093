-- ===== src/Mongo/Insert/Default.antt =====
-- The connection of an insert that names none: the search of mindsdb/api/mongo/responders/insert.py.
use mindsdb_database_ai.Prelude.{
  ◌≡◌, sym, ap, true, false, Bool-cases, ◌⊎◌, inl, inr, some, List, [], ◌∷◌, ◌++◌, All,
}
use mindsdb_database_ai.Prelude.Text.{Str}
use mindsdb_database_ai.Mongo.Insert.{
  is_in, starts_with, mongodb_prefix, default_mongodb, first_mongodb, default_connection,
}

-- The first integration whose name starts with 'mongodb_'.
abbrev pub IsFirst : List Str → Str → Type 0
IsFirst integrations s =
    (before : List Str) × (after : List Str) × (integrations ≡ before ++ s ∷ after)
    × (starts_with mongodb_prefix s ≡ true)
    × All (λ i. starts_with mongodb_prefix i ≡ false) before

-- 'default_mongodb' where it is an integration, and else that first one.
abbrev pub IsDefault : List Str → Str → Type 0
IsDefault integrations s =
    ((is_in default_mongodb integrations ≡ true) × (s ≡ default_mongodb))
    ⊎ ((is_in default_mongodb integrations ≡ false) × IsFirst integrations s)

first_mongodb-IsFirst :
    (integrations : List Str) {s : Str}
    → first_mongodb integrations ≡ some s
    → IsFirst integrations s
unfolding first_mongodb
first_mongodb-IsFirst [] h = cc
first_mongodb-IsFirst (i ∷ l) {s} h = elim (Bool-cases (starts_with mongodb_prefix i)) [
  | inl e ↦
      let same : i ≡ s = injected (rw (first_mongodb, e) at h) in
      ([], l, ap (λ x. x ∷ l) same, (rw same at e), tt)
  | inr e ↦
      let (before, after, split, starts, none_before) =
        first_mongodb-IsFirst l (rw (first_mongodb, e) at h) in
      (i ∷ before, after, ap (λ x. i ∷ x) split, starts, (e, none_before))
]
  where
    injected : {x y : Str} → some x ≡ some y → x ≡ y
    injected k = cc

IsFirst-first_mongodb :
    (before after : List Str) (s : Str)
    → starts_with mongodb_prefix s ≡ true
    → All (λ i. starts_with mongodb_prefix i ≡ false) before
    → first_mongodb (before ++ s ∷ after) ≡ some s
unfolding first_mongodb
IsFirst-first_mongodb [] after s starts h = rw (first_mongodb, starts)
IsFirst-first_mongodb (i ∷ before) after s starts h =
    rw (first_mongodb, h.0) (IsFirst-first_mongodb before after s starts h.1)

pub default_connection-IsDefault :
    (integrations : List Str) {s : Str}
    → default_connection integrations ≡ some s
    → IsDefault integrations s
unfolding default_connection
default_connection-IsDefault l {s} h = elim (Bool-cases (is_in default_mongodb l)) [
  | inl e ↦ inl (e, sym (injected (rw (default_connection, e) at h)))
  | inr e ↦ inr (e, first_mongodb-IsFirst l (rw (default_connection, e) at h))
]
  where
    injected : {x y : Str} → some x ≡ some y → x ≡ y
    injected k = cc

pub IsDefault-default_connection :
    (integrations : List Str) (s : Str)
    → IsDefault integrations s
    → default_connection integrations ≡ some s
unfolding default_connection
IsDefault-default_connection l s (inl (e, q)) = rw (default_connection, e, q)
IsDefault-default_connection l s (inr (e, (before, after, split, starts, h))) =
    rw (default_connection, e, split) (IsFirst-first_mongodb before after s starts h)
