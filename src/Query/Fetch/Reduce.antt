-- ===== src/Query/Fetch/Reduce.antt =====
-- A map-reduce step against a plain description: each group's query stands by itself.
use mindsdb_database_ai.Prelude.{ℕ, ◌≡◌, refl, ◌∙◌, List, [], ◌∷◌, Result, ok, raise, ◌>>=◌, Option}
use mindsdb_database_ai.Prelude.Text.{Str}
use mindsdb_database_ai.Prelude.Assoc.{Assoc}
use mindsdb_database_ai.Query.{StepData}
use mindsdb_database_ai.Query.Vars.{Where, mark_query_var, replace_vars, unmark_query_var}
use mindsdb_database_ai.Query.Vars.Restored.{IsUsable, unmark-replace-mark, IsUsable-mark}
use mindsdb_database_ai.Query.Fetch.{
  FetchStep, Source, fetch_dataframe_step, reduced, reduce_groups, Reducing,
}

module _ {V : Type 0} (src : Source V) (database : Option Str) (step : FetchStep V) where
  abbrev pub with_first : StepData V → List (StepData V) × ℕ → Result (List (StepData V) × ℕ)
  with_first sub (subs, row_id) = ok (sub ∷ subs, row_id)

  -- The fetches of all groups, each with its values put into the marked query `w`.
  unfoldable pub fetch_each : Where V → List (Assoc Str V) → ℕ → Result (List (StepData V) × ℕ)
  fetch_each w [] row_id = ok ([], row_id)
  fetch_each w (group ∷ groups) row_id =
      fetch_dataframe_step src database
        (record step { where_ = replace_vars src.text src.same group w }) row_id
      >>= λ r. fetch_each w groups r.1 >>= with_first r.0

  -- The rows of all, with the columns and tables of the first that has any.
  unfoldable pub combined : StepData V → List (StepData V) → StepData V
  combined data' [] = data'
  combined data' (sub ∷ subs) = combined (reduced data' sub) subs

  abbrev pub finished : Where V → StepData V → List (StepData V) × ℕ → Result (Reducing V)
  finished w data' (subs, row_id) = ok (w, row_id, combined data' subs)

  combined-rest :
      (w : Where V) (sub data' : StepData V) (m : Result (List (StepData V) × ℕ))
      → (m >>= finished w (reduced data' sub)) ≡ ((m >>= with_first sub) >>= finished w data')
  unfolding combined
  combined-rest w sub data' (ok r) = refl
  combined-rest w sub data' (raise e) = refl

  -- A round behind its fetch.
  reduce_round :
      (groups : List (Assoc Str V)) (w w' : Where V) (data' : StepData V)
      (fetch : Result (StepData V × ℕ))
      → unmark_query_var w' ≡ ok w
      → ((row_id : ℕ) (before : StepData V)
          → reduce_groups src database step groups w row_id before
            ≡ (fetch_each w groups row_id >>= finished w before))
      → (fetch >>= λ r. unmark_query_var w' >>= λ v.
          reduce_groups src database step groups v r.1 (reduced data' r.0))
        ≡ ((fetch >>= λ r. fetch_each w groups r.1 >>= with_first r.0) >>= finished w data')
  reduce_round groups w w' data' (raise e) back rest = refl
  reduce_round groups w w' data' (ok r) back rest =
      rw back (rest r.1 (reduced data' r.0) ∙ combined-rest w r.0 data' (fetch_each w groups r.1))

  reduce_groups-marked :
      (groups : List (Assoc Str V)) (w : Where V) (row_id : ℕ) (data' : StepData V)
      → IsUsable src.str_of w
      → mark_query_var src.str_of w ≡ w
      → reduce_groups src database step groups w row_id data'
        ≡ (fetch_each w groups row_id >>= finished w data')
  unfolding reduce_groups fetch_each combined
  reduce_groups-marked [] w row_id data' usable marked = refl
  reduce_groups-marked (group ∷ groups) w row_id data' usable marked =
      let w' = replace_vars src.text src.same group w in
      let back : unmark_query_var w' ≡ ok w =
        rw marked at ((unmark-replace-mark src.str_of src.text src.same group w usable).0) in
      rw marked (
        reduce_round groups w w' data'
          (fetch_dataframe_step src database (record step { where_ = w' }) row_id) back
          (λ n before. reduce_groups-marked groups w n before usable marked))

  -- A map-reduce over a query of usable constants: for one group of values or more it gives what the
  -- queries of the groups give when each is asked by itself, with the values of its group put into
  -- the marked query, and it fails where one of them fails. The query is left marked and otherwise
  -- as it was.
  pub reduce_groups-fetch_each :
      (group : Assoc Str V) (groups : List (Assoc Str V)) (w : Where V) (row_id : ℕ)
      (data' : StepData V)
      → IsUsable src.str_of w
      → let marked = mark_query_var src.str_of w in
        reduce_groups src database step (group ∷ groups) w row_id data'
        ≡ (fetch_each marked (group ∷ groups) row_id >>= finished marked data')
  unfolding reduce_groups fetch_each
  reduce_groups-fetch_each group groups w row_id data' usable =
      let marked = mark_query_var src.str_of w in
      let (back, again) = unmark-replace-mark src.str_of src.text src.same group w usable in
      let w' = replace_vars src.text src.same group marked in
      reduce_round groups marked w' data'
        (fetch_dataframe_step src database (record step { where_ = w' }) row_id) back
        (λ n before.
          reduce_groups-marked groups marked n before (IsUsable-mark src.str_of w usable) again)
