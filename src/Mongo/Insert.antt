-- ===== src/Mongo/Insert.antt =====
-- An insert into the collection 'predictors': mindsdb/api/mongo/responders/insert.py. The data store,
-- the integrations and the models are the record Backend, and `W` is the world that they change.
-- Error texts stand without the names in them.
pub mod Default
pub mod Checks
pub mod Outcomes
use mindsdb_database_ai.Prelude.{
  ℕ, Bool, true, false, not, Option, none, some, List, [], ◌∷◌, ◌++◌, map, length, Exn, Result, ok,
  raise, exception, key_error, type_error, attribute_error, ◌>>=◌, or_raise, ◌==◌, ◌&&◌, ◌||◌,
  if◌then◌else◌,
}
use mindsdb_database_ai.Prelude.Text.{Str}
use mindsdb_database_ai.Prelude.StrEq.{eqb}
use mindsdb_database_ai.Prelude.Key.{str_key}
use mindsdb_database_ai.Prelude.Assoc.{Assoc, get, is_some}
use mindsdb_database_ai.Mongo.Predictors.{predictors, name_key, is_model}

-- A value of a document, as far as the insert tells them apart; what is no text in a list is `none`.
pub data InsertValue (V : Type 0) : Type 0 where
  null : InsertValue V
  text : Str → InsertValue V
  values : List (Option Str) → InsertValue V
  other_value : V → InsertValue V

abbrev pub InsertDoc : Type 0 → Type 0
InsertDoc V = Assoc Str (InsertValue V)

-- The keys 'status', 'accuracy', 'predict', 'select_data_query', 'training_options', 'connection', '_id'.
abbrev pub status_key : Str
status_key = b's' ∷ b't' ∷ b'a' ∷ b't' ∷ b'u' ∷ b's' ∷ []

abbrev pub accuracy_key : Str
accuracy_key = b'a' ∷ b'c' ∷ b'c' ∷ b'u' ∷ b'r' ∷ b'a' ∷ b'c' ∷ b'y' ∷ []

abbrev pub predict_key : Str
predict_key = b'p' ∷ b'r' ∷ b'e' ∷ b'd' ∷ b'i' ∷ b'c' ∷ b't' ∷ []

abbrev pub query_key : Str
query_key =
    b's' ∷ b'e' ∷ b'l' ∷ b'e' ∷ b'c' ∷ b't' ∷ b'_' ∷ b'd' ∷ b'a' ∷ b't' ∷ b'a' ∷ b'_' ∷ b'q' ∷ b'u'
    ∷ b'e' ∷ b'r' ∷ b'y' ∷ []

abbrev pub options_key : Str
options_key =
    b't' ∷ b'r' ∷ b'a' ∷ b'i' ∷ b'n' ∷ b'i' ∷ b'n' ∷ b'g' ∷ b'_' ∷ b'o' ∷ b'p' ∷ b't' ∷ b'i' ∷ b'o'
    ∷ b'n' ∷ b's' ∷ []

abbrev pub connection_key : Str
connection_key = b'c' ∷ b'o' ∷ b'n' ∷ b'n' ∷ b'e' ∷ b'c' ∷ b't' ∷ b'i' ∷ b'o' ∷ b'n' ∷ []

abbrev pub id_key : Str
id_key = b'_' ∷ b'i' ∷ b'd' ∷ []

-- 'mongodb_' and 'default_mongodb'
abbrev pub mongodb_prefix : Str
mongodb_prefix = b'm' ∷ b'o' ∷ b'n' ∷ b'g' ∷ b'o' ∷ b'd' ∷ b'b' ∷ b'_' ∷ []

abbrev pub default_mongodb : Str
default_mongodb =
    b'd' ∷ b'e' ∷ b'f' ∷ b'a' ∷ b'u' ∷ b'l' ∷ b't' ∷ b'_' ∷ b'm' ∷ b'o' ∷ b'n' ∷ b'g' ∷ b'o' ∷ b'd'
    ∷ b'b' ∷ []

abbrev pub predictors_columns : List Str
predictors_columns =
    name_key ∷ status_key ∷ accuracy_key ∷ predict_key ∷ query_key ∷ options_key ∷ connection_key
    ∷ []

-- `x in xs`
unfoldable pub is_in : Str → List Str → Bool
is_in x [] = false
is_in x (y ∷ ys) = if eqb y x then true else is_in x ys

abbrev pub all_in : List Str → List Str → Bool
all_in [] ys = true
all_in (x ∷ xs) ys = is_in x ys && all_in xs ys

-- `col in ds_columns` for each of `predict`: a value that is no text is no column.
abbrev pub all_columns : List (Option Str) → List Str → Bool
all_columns [] columns = true
all_columns (none ∷ predict) columns = false
all_columns (some col ∷ predict) columns = is_in col columns && all_columns predict columns

-- `del doc['_id']`, where it is there.
abbrev pub without_id : {V : Type 0} → InsertDoc V → InsertDoc V
without_id [] = []
without_id ((k, v) ∷ doc) = if eqb k id_key then doc else (k, v) ∷ without_id doc

abbrev pub keys_of : {V : Type 0} → InsertDoc V → List Str
keys_of = map (λ kv. kv.0)

-- `integration.startswith(prefix)`
unfoldable pub starts_with : Str → Str → Bool
starts_with [] s = true
starts_with (c ∷ prefix) [] = false
starts_with (c ∷ prefix) (d ∷ s) = (c == d) && starts_with prefix s

unfoldable pub first_mongodb : List Str → Option Str
first_mongodb [] = none
first_mongodb (i ∷ integrations) =
    if starts_with mongodb_prefix i then some i else first_mongodb integrations

-- The connection where the document names none.
unfoldable pub default_connection : List Str → Option Str
default_connection integrations =
    if is_in default_mongodb integrations then some default_mongodb else first_mongodb integrations

-- The parts of a text between commas.
abbrev pub with_char : ℕ → List Str → List Str
with_char c [] = (c ∷ []) ∷ []
with_char c (part ∷ parts) = (c ∷ part) ∷ parts

unfoldable pub split_commas : Str → List Str
split_commas [] = [] ∷ []
split_commas (c ∷ s) = if c == b',' then [] ∷ split_commas s else with_char c (split_commas s)

pub record Backend (V W : Type 0) : Type 0 where
  pub models : W → List Str
  pub integrations : W → List Str
  pub get_vacant_name : InsertValue V → W → Result Str
  -- The world behind, and what was raised; of a source that is no dict, the query is made one.
  pub save_datasource : (name : Str) → (connection source : InsertValue V) → W → W × Option Exn
  pub datasource_columns : Str → W → Result (List Str)
  pub delete_datasource : Str → W → W × Option Exn
  pub learn :
      InsertValue V
      → (datasource : Str) → (predict : List (Option Str)) → InsertDoc V
      → W
      → W × Option Exn
  -- Whether `strip` takes a character away.
  pub is_space : ℕ → Bool

-- What is checked before anything changes, and comes out of it.
pub record Checked (V : Type 0) : Type 0 where
  pub name : InsertValue V
  pub predict : InsertValue V
  pub select_data_query : InsertValue V
  pub connection : InsertValue V
  pub doc : InsertDoc V

module _ {V : Type 0} where
  -- A value where None and a missing key are alike.
  abbrev pub given : Option (InsertValue V) → Option (InsertValue V)
  given none = none
  given (some null) = none
  given (some v) = some v

  -- `doc['name'] in [x['name'] for x in models]`
  abbrev pub is_taken : InsertValue V → List Str → Bool
  is_taken (text name) models = is_model name models
  is_taken v models = false

  abbrev pub connection_of : Option (InsertValue V) → List Str → Result (InsertValue V)
  connection_of (some connection) integrations = ok connection
  connection_of none integrations =
      or_raise (default_connection integrations) (exception "Can't find connection for data source")
      >>= λ connection. ok (text connection)

  unfoldable pub check_doc : (models integrations : List Str) → InsertDoc V → Result (Checked V)
  check_doc models integrations doc =
      if not (all_in (keys_of doc) predictors_columns)
      then raise (exception "Is no possible insert this columns to 'predictors' collection")
      else (or_raise (get name_key doc) (exception "Please, specify 'name' field") >>= λ name.
          or_raise (get predict_key doc) (exception "Please, specify 'predict' field")
          >>= λ predict.
              if is_taken name models
              then raise (exception "Predictor already exists")
              else (or_raise (given (get query_key doc))
                    (exception "'select_data_query' must be in query")
                  >>= λ query.
                      connection_of (given (get connection_key doc)) integrations >>= λ connection.
                      ok (record {
                        name = name;
                        predict = predict;
                        select_data_query = query;
                        connection = connection;
                        doc = doc;
                      })))

module _ {V W : Type 0} (backend : Backend V W) where
  -- `strip`
  abbrev pub drop_spaces : Str → Str
  drop_spaces [] = []
  drop_spaces (c ∷ s) = if backend.is_space c then drop_spaces s else c ∷ s

  -- A text without the spaces at its end, and whether anything is left of it.
  abbrev pub put_char : ℕ → Str → Str
  put_char c [] = if backend.is_space c then [] else c ∷ []
  put_char c (d ∷ s) = c ∷ d ∷ s

  abbrev pub drop_last_spaces : Str → Str
  drop_last_spaces [] = []
  drop_last_spaces (c ∷ s) = put_char c (drop_last_spaces s)

  abbrev pub strip : Str → Str
  strip s = drop_last_spaces (drop_spaces s)

  -- `predict`: a list as it is, or the parts of a text.
  unfoldable pub predict_names : InsertValue V → Result (List (Option Str))
  predict_names (values names) = ok names
  predict_names (text s) = ok (map (λ x. some (strip x)) (split_commas s))
  predict_names null = raise attribute_error
  predict_names (other_value v) = raise attribute_error

  abbrev pub Inserted : Type 0
  Inserted = W × Option Exn

  -- The exception for a missing column, where deleting the data source has not raised one.
  abbrev pub column_missing : Inserted → Inserted
  column_missing (w, some e) = (w, some e)
  column_missing (w, none) = (w, some (exception "Column not exists"))

  -- The columns are there, or the data source goes again.
  abbrev pub learn_from : Checked V → Str → List (Option Str) → List Str → W → Inserted
  learn_from c ds_name predict columns w =
      if all_columns predict columns
      then backend.learn c.name ds_name predict c.doc w
      else column_missing (backend.delete_datasource ds_name w)

  abbrev pub with_columns : Checked V → Str → List (Option Str) → W → Result (List Str) → Inserted
  with_columns c ds_name predict w (raise e) = (w, some e)
  with_columns c ds_name predict w (ok columns) = learn_from c ds_name predict columns w

  abbrev pub with_predict : Checked V → Str → W → Result (List (Option Str)) → Inserted
  with_predict c ds_name w (raise e) = (w, some e)
  with_predict c ds_name w (ok predict) =
      with_columns c ds_name predict w (backend.datasource_columns ds_name w)

  abbrev pub with_datasource : Checked V → Str → Inserted → Inserted
  with_datasource c ds_name (w, some e) = (w, some e)
  with_datasource c ds_name (w, none) = with_predict c ds_name w (predict_names c.predict)

  abbrev pub with_name : Checked V → W → Result Str → Inserted
  with_name c w (raise e) = (w, some e)
  with_name c w (ok ds_name) =
      with_datasource c ds_name (backend.save_datasource ds_name c.connection c.select_data_query w)

  abbrev pub insert_checked : W → Result (Checked V) → Inserted
  insert_checked w (raise e) = (w, some e)
  insert_checked w (ok c) = with_name c w (backend.get_vacant_name c.name w)

  -- `_result`
  unfoldable pub insert_result : Str → List (InsertDoc V) → W → Inserted
  insert_result table (doc ∷ []) w =
      if eqb table predictors
      then insert_checked w (check_doc (backend.models w) (backend.integrations w) (without_id doc))
      else (w, some (exception "Only insert to 'predictors' table allowed"))
  insert_result table documents w =
      if eqb table predictors
      then (w, some (exception "Must be inserted just one predictor at time"))
      else (w, some (exception "Only insert to 'predictors' table allowed"))

  abbrev pub answered_insert : List (InsertDoc V) → Inserted → W × ℕ × Bool
  answered_insert documents (w, none) = (w, length documents, false)
  answered_insert documents (w, some e) = (w, 0, true)

  -- `result`: how many were inserted, and whether there is a write error.
  unfoldable pub insert : Str → List (InsertDoc V) → W → W × ℕ × Bool
  insert table documents w = answered_insert documents (insert_result table documents w)
