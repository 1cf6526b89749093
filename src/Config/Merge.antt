-- ===== src/Config/Merge.antt =====
-- What a merged configuration holds at each path.
use mindsdb_database_ai.Prelude.{
  ◌≡◌, refl, arith, Option, none, some, List, [], ◌∷◌, if◌then◌else◌, Bool-cases, inl, inr,
}
use mindsdb_database_ai.Prelude.Text.{Str}
use mindsdb_database_ai.Prelude.StrEq.{eqb, eqb_iff}
use mindsdb_database_ai.Config.{
  Json, other, dict, Fields, end, field, get, set, merged, merge_fields, merge_configs,
}

get-set :
    (j k : Str) (v : Json) (d : Fields) → get j (set k v d) ≡ (if eqb k j then some v else get j d)
unfolding get set
get-set j k v end = refl
get-set j k v (field i w d) = ground (arith, eqb_iff k j, eqb_iff i k, eqb_iff i j, get-set j k v d)

-- A key stands once in a dict, at every depth.
unfoldable mutual
  pub IsJson : Json → Type 0
  IsJson (other a) = Unit
  IsJson (dict d) = IsDict d

  pub IsDict : Fields → Type 0
  IsDict end = Unit
  IsDict (field k v d) = IsJson v × (get k d ≡ none) × IsDict d

-- What a key holds behind a merge.
abbrev pub overridden : Option Json → Option Json → Option Json
overridden old none = old
overridden old (some v) = some (merged old v)

get-merge_fields :
    (key : Str) (t s : Fields)
    → IsDict s
    → get key (merge_fields t s) ≡ overridden (get key t) (get key s)
unfolding get merge_fields IsDict
get-merge_fields key t end h = refl
get-merge_fields key t (field k v s) (hv, absent, hs) =
    let m = merged (get k t) v in
    let below = get-merge_fields key (set k m t) s hs in
    elim (Bool-cases (eqb k key)) [
      | inl e ↦
          let same : k ≡ key = (eqb_iff k key).0 e in
          rw (below, get-set key k m t, e, ← same, absent) refl
      | inr e ↦ rw (below, get-set key k m t, e) refl
    ]

-- The value at a path of keys.
unfoldable pub at : List Str → Option Json → Option Json
at path none = none
at [] (some v) = some v
at (k ∷ path) (some (other a)) = none
at (k ∷ path) (some (dict d)) = at path (get k d)

-- The path leaves the dicts at a key that is missing.
unfoldable pub IsAbsent : List Str → Option Json → Type 0
IsAbsent path none = Unit
IsAbsent [] (some v) = ⊥
IsAbsent (k ∷ path) (some (other a)) = ⊥
IsAbsent (k ∷ path) (some (dict d)) = IsAbsent path (get k d)

abbrev pub IsSomeJson : Option Json → Type 0
IsSomeJson none = Unit
IsSomeJson (some v) = IsJson v

IsSomeJson-get : (k : Str) (d : Fields) → IsDict d → IsSomeJson (get k d)
unfolding get IsDict
IsSomeJson-get k end h = tt
IsSomeJson-get k (field i v d) (hv, absent, hd) = elim (Bool-cases (eqb i k)) [
  | inl e ↦ rw e hv
  | inr e ↦ rw e (IsSomeJson-get k d hd)
]

at-IsAbsent : (path : List Str) (o : Option Json) → IsAbsent path o → at path o ≡ none
unfolding at IsAbsent
at-IsAbsent path none h = refl
at-IsAbsent [] (some v) h = absurd h
at-IsAbsent (k ∷ path) (some (other a)) h = absurd h
at-IsAbsent (k ∷ path) (some (dict d)) h = at-IsAbsent path (get k d) h

at-overridden :
    (path : List Str) (old new : Option Json) (a : Str)
    → IsSomeJson new
    → at path new ≡ some (other a)
    → at path (overridden old new) ≡ some (other a)
unfolding at merged IsDict get
at-overridden path old none a h e = absurd (cc e)
at-overridden [] none (some v) a h e = e
at-overridden [] (some w) (some (other b)) a h e = e
at-overridden [] (some w) (some (dict s)) a h e = absurd (cc e)
at-overridden (k ∷ path) old (some (other b)) a h e = absurd (cc e)
at-overridden (k ∷ path) none (some (dict s)) a h e = e
at-overridden (k ∷ path) (some (other b)) (some (dict s)) a h e = e
at-overridden (k ∷ path) (some (dict t)) (some (dict s)) a h e =
    rw (get-merge_fields k t s h)
      (at-overridden path (get k t) (get k s) a (IsSomeJson-get k s h) e)

at-kept :
    (path : List Str) (old new : Option Json)
    → IsSomeJson new
    → IsAbsent path new
    → at path (overridden old new) ≡ at path old
unfolding at merged IsAbsent IsDict get
at-kept path old none h e = refl
at-kept [] old (some v) h e = absurd e
at-kept (k ∷ path) none (some (other b)) h e = absurd e
at-kept (k ∷ path) (some v) (some (other b)) h e = absurd e
at-kept (k ∷ path) none (some (dict s)) h e = at-IsAbsent path (get k s) e
at-kept (k ∷ path) (some (other b)) (some (dict s)) h e = at-IsAbsent path (get k s) e
at-kept (k ∷ path) (some (dict t)) (some (dict s)) h e =
    rw (get-merge_fields k t s h) (at-kept path (get k t) (get k s) (IsSomeJson-get k s h) e)

-- A merged configuration, where no dict of the override has a key twice: at each path where the
-- override has a value that is no dict, it has that value; at each path on which the override misses
-- a key, it has what the original has there.
pub merge_configs-at :
    (original override : Fields)
    → IsDict override
    → ((path : List Str) (a : Str)
        → at path (some (dict override)) ≡ some (other a)
        → at path (some (dict (merge_configs original override))) ≡ some (other a))
      × ((path : List Str)
          → IsAbsent path (some (dict override))
          → at path (some (dict (merge_configs original override)))
            ≡ at path (some (dict original)))
unfolding merge_configs merged IsDict
merge_configs-at original override h = (
  λ path a e. at-overridden path (some (dict original)) (some (dict override)) a h e,
  λ path e. at-kept path (some (dict original)) (some (dict override)) h e,
)
