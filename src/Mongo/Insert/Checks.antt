-- ===== src/Mongo/Insert/Checks.antt =====
-- What the checks of an insert let pass.
use mindsdb_database_ai.Prelude.{
  ◌≡◌, ◌≢◌, refl, sym, ap, subst, Bool, true, false, not, Bool-cases, ◌⊎◌, inl, inr, Option, none,
  some, List, [], ◌∷◌, All, Exn, Result, ok, raise, exception, >>=-eq-ok, or_raise, if◌then◌else◌,
}
use mindsdb_database_ai.Prelude.Text.{Str}
use mindsdb_database_ai.Prelude.Key.{str_key}
use mindsdb_database_ai.Prelude.Assoc.{get}
use mindsdb_database_ai.Mongo.Predictors.{name_key, is_model}
use mindsdb_database_ai.Mongo.Insert.Default.{
  IsDefault, default_connection-IsDefault, IsDefault-default_connection,
}
use mindsdb_database_ai.Mongo.Insert.{
  InsertValue, null, text, values, other_value, InsertDoc, Checked, predictors_columns, predict_key,
  query_key, connection_key, is_in, all_in, keys_of, given, is_taken, default_connection,
  connection_of, check_doc,
}

all_in-All : (xs ys : List Str) → all_in xs ys ≡ true → All (λ x. is_in x ys ≡ true) xs
all_in-All [] ys h = tt
all_in-All (x ∷ xs) ys h = elim (Bool-cases (is_in x ys)) [
  | inl e ↦ (e, all_in-All xs ys (rw e at h))
  | inr e ↦ (let h' = rw e at h in absurd (contrary h'))
]
  where
    contrary : false ≡ true → ⊥
    contrary e = cc

All-all_in : (xs ys : List Str) → All (λ x. is_in x ys ≡ true) xs → all_in xs ys ≡ true
All-all_in [] ys h = refl
All-all_in (x ∷ xs) ys h = rw h.0 (All-all_in xs ys h.1)

not-false : (b : Bool) → not b ≡ false → b ≡ true
not-false true h = refl
not-false false h = cc

or_raise-eq-ok {ℓ} :
    {A : Type ℓ} (o : Option A) (e : Exn) {a : A} → or_raise o e ≡ ok a → o ≡ some a
or_raise-eq-ok none e h = cc
or_raise-eq-ok (some x) e h = cc

if_raise-eq-ok {ℓ} :
    {A : Type ℓ} (b : Bool) (e : Exn) {r : Result A} {a : A}
    → (if b then raise e else r) ≡ ok a
    → (b ≡ false) × (r ≡ ok a)
if_raise-eq-ok true e h = cc
if_raise-eq-ok false e h = (refl, h)

module _ {V : Type 0} where
  abbrev pub IsNew : List Str → InsertValue V → Type 0
  IsNew models (text s) = is_model s models ≡ false
  IsNew models v = Unit {0}

  -- The document's connection, or the default one where it gives none.
  abbrev pub Connects : List Str → Option (InsertValue V) → InsertValue V → Type 0
  Connects integrations none c = (s : Str) × IsDefault integrations s × (c ≡ text s)
  Connects integrations (some null) c = (s : Str) × IsDefault integrations s × (c ≡ text s)
  Connects integrations (some v) c = c ≡ v

  -- The document has no key but the allowed ones, a name that no model has, something to predict, a
  -- query that is not None, and a connection; and these are in `c`.
  pub record Valid (models integrations : List Str) (doc : InsertDoc V) (c : Checked V)
      : Type 0 where
    pub keys : All (λ k. is_in k predictors_columns ≡ true) (keys_of doc)
    pub name : get name_key doc ≡ some c.name
    pub predict : get predict_key doc ≡ some c.predict
    pub fresh : IsNew models c.name
    pub query : get query_key doc ≡ some c.select_data_query
    pub query_given : c.select_data_query ≢ null
    pub connection : Connects integrations (get connection_key doc) c.connection
    pub same : c.doc ≡ doc

  is_taken-IsNew :
      (v : InsertValue V) (models : List Str) → is_taken v models ≡ false → IsNew models v
  is_taken-IsNew null models h = tt
  is_taken-IsNew (text s) models h = h
  is_taken-IsNew (values l) models h = tt
  is_taken-IsNew (other_value v) models h = tt

  IsNew-is_taken :
      (v : InsertValue V) (models : List Str) → IsNew models v → is_taken v models ≡ false
  IsNew-is_taken null models h = refl
  IsNew-is_taken (text s) models h = h
  IsNew-is_taken (values l) models h = refl
  IsNew-is_taken (other_value v) models h = refl

  Given : Option (InsertValue V) → Option (InsertValue V) → Type 0
  Given v none = (v ≡ none) ⊎ (v ≡ some null)
  Given v (some x) = (v ≡ some x) × (x ≢ null)

  given-Given : (v : Option (InsertValue V)) → Given v (given v)
  unfolding Given
  given-Given none = inl refl
  given-Given (some null) = inr refl
  given-Given (some (text s)) = (refl, λ e. cc e)
  given-Given (some (values l)) = (refl, λ e. cc e)
  given-Given (some (other_value x)) = (refl, λ e. cc e)

  connection_of-Connects :
      (v : Option (InsertValue V)) (integrations : List Str) {c : InsertValue V}
      → connection_of (given v) integrations ≡ ok c
      → Connects integrations v c
  connection_of-Connects v integrations {c} h = at v h
    where
      from_default :
          (d : Option Str)
          → default_connection integrations ≡ d
          → connection_of none integrations ≡ ok c
          → (s : Str) × IsDefault integrations s × (c ≡ text s)
      from_default none e k = (let k' = rw e at k in absurd (raised k'))
        where
          raised : raise (exception "Can't find connection for data source") ≡ ok c → ⊥
          raised q = cc
      from_default (some s) e k =
          (let k' = rw e at k in (s, default_connection-IsDefault integrations e, cc k'))

      at :
          (v : Option (InsertValue V))
          → connection_of (given v) integrations ≡ ok c
          → Connects integrations v c
      at none k = from_default _ refl k
      at (some null) k = from_default _ refl k
      at (some (text s)) k = cc k
      at (some (values l)) k = cc k
      at (some (other_value x)) k = cc k

  Connects-connection_of :
      (v : Option (InsertValue V)) (integrations : List Str) {c : InsertValue V}
      → Connects integrations v c
      → connection_of (given v) integrations ≡ ok c
  Connects-connection_of none integrations (s, d, q) =
      (let e = IsDefault-default_connection integrations s d in rw (e, q))
  Connects-connection_of (some null) integrations (s, d, q) =
      (let e = IsDefault-default_connection integrations s d in rw (e, q))
  Connects-connection_of (some (text s)) integrations q = rw q
  Connects-connection_of (some (values l)) integrations q = rw q
  Connects-connection_of (some (other_value x)) integrations q = rw q

  module _ (models integrations : List Str) (doc : InsertDoc V) (c : Checked V) where
    pub Valid-check_doc : Valid models integrations doc c → check_doc models integrations doc ≡ ok c
    unfolding check_doc
    Valid-check_doc v =
        let q : given (some c.select_data_query) ≡ some c.select_data_query =
          given_some c.select_data_query v.query_given in
        rw
          (
            check_doc,
            All-all_in (keys_of doc) predictors_columns v.keys,
            v.name,
            v.predict,
            IsNew-is_taken c.name models v.fresh,
            v.query,
            q,
            Connects-connection_of (get connection_key doc) integrations v.connection,
          )
          (ap (λ d. ok (record c { doc = d })) (sym v.same))
      where
        given_some : (x : InsertValue V) → x ≢ null → given (some x) ≡ some x
        given_some null h = absurd (h refl)
        given_some (text s) h = refl
        given_some (values l) h = refl
        given_some (other_value y) h = refl

  pub check_doc-Valid :
      (models integrations : List Str) (doc : InsertDoc V) {c : Checked V}
      → check_doc models integrations doc ≡ ok c
      → Valid models integrations doc c
  unfolding check_doc Given
  check_doc-Valid models integrations doc {c} h =
      let (keys_ok, h1) = if_raise-eq-ok (not (all_in (keys_of doc) predictors_columns)) _ h in
      let (name, has_name, h2) = >>=-eq-ok (or_raise (get name_key doc) _) h1 in
      let (predict, has_predict, h3) = >>=-eq-ok (or_raise (get predict_key doc) _) h2 in
      let (not_taken, h4) = if_raise-eq-ok (is_taken name models) _ h3 in
      let (query, has_query, h5) = >>=-eq-ok (or_raise (given (get query_key doc)) _) h4 in
      let (connection, connected, h6) =
        >>=-eq-ok (connection_of (given (get connection_key doc)) integrations) h5 in
      let (found, real) = Given-some (or_raise-eq-ok (given (get query_key doc)) _ has_query) in
      let valid : Valid models integrations doc (record {
        name = name;
        predict = predict;
        select_data_query = query;
        connection = connection;
        doc = doc;
      }) =
        record {
          keys =
              all_in-All (keys_of doc) predictors_columns
                (not-false (all_in (keys_of doc) predictors_columns) keys_ok);
          name = or_raise-eq-ok (get name_key doc) _ has_name;
          predict = or_raise-eq-ok (get predict_key doc) _ has_predict;
          fresh = is_taken-IsNew name models not_taken;
          query = found;
          query_given = real;
          connection = connection_of-Connects (get connection_key doc) integrations connected;
          same = refl;
        } in
      subst (Valid models integrations doc) (cc h6) valid
    where
      Given-some :
          {x : InsertValue V}
          → given (get query_key doc) ≡ some x
          → (get query_key doc ≡ some x) × (x ≢ null)
      Given-some e = subst (Given (get query_key doc)) e (given-Given (get query_key doc))
