-- ===== src/Mongo/InsertTests.antt =====
-- The theorem on inserts at a concrete input. The world is the list of the data sources.
use mindsdb_database_ai.Prelude.{ℕ, false, none, some, List, [], ◌∷◌, ok, drop}
use mindsdb_database_ai.Prelude.Text.{Str}
use mindsdb_database_ai.Mongo.Predictors.{predictors, name_key}
use mindsdb_database_ai.Mongo.Insert.{
  text, values, InsertDoc, Backend, predict_key, query_key, connection_key, insert,
}
use mindsdb_database_ai.Mongo.Insert.Outcomes.{Outcome, insert-Outcome}

abbrev a_text : Str
a_text = b'a' ∷ []

abbrev b_text : Str
b_text = b'b' ∷ []

abbrev backend : Backend ℕ (List Str)
backend = record {
  models = λ w. [];
  integrations = λ w. [];
  get_vacant_name = λ name w. ok a_text;
  save_datasource = λ name connection source w. (name ∷ w, none);
  datasource_columns = λ name w. ok (b_text ∷ []);
  delete_datasource = λ name w. (drop 1 w, none);
  learn = λ name ds predict doc w. (w, none);
  is_space = λ c. false;
}

-- {'name': 'a', 'predict': ['b'], 'select_data_query': 'a', 'connection': 'b'}
abbrev doc : InsertDoc ℕ
doc =
    (name_key, text a_text)
    ∷ (predict_key, values (some b_text ∷ []))
    ∷ (query_key, text a_text)
    ∷ (connection_key, text b_text)
    ∷ []

insert-Outcome_example :
    Outcome backend predictors (doc ∷ []) [] (insert backend predictors (doc ∷ []) [])
insert-Outcome_example = insert-Outcome backend predictors (doc ∷ []) []
