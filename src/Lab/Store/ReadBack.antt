-- ===== src/Lab/Store/ReadBack.antt =====
-- One call of `persist_experiment_run`: what it stores, what it refuses, and what is read back.
use mathlib.Core.Path.{ap₂}
use llm_evaluation_lab.Base.{
  String, ◌≡◌, refl, sym, ap, ◌∙◌, true, false, ◌||◌, Option, some, List, [], ◌∷◌, ◌++◌, arith,
  str_eq, ◌⊎◌, inl, inr,
}
use llm_evaluation_lab.Base.Int.{pos}
use llm_evaluation_lab.Base.Result.{
  Result, ok, err, ok-injective, Returns, value, raised, after, after_require, after_raise_if,
  Returns-ok,
}
use llm_evaluation_lab.Text.{strip, is_blank, is_blank_text}
use llm_evaluation_lab.Json.{Fields, obj, str, get, get_or, float_is_negative}
use llm_evaluation_lab.Json.Keys.{sort_keys, IsReordered, sort_keys-IsReordered}
use llm_evaluation_lab.Lab.Error.{Error}
use llm_evaluation_lab.Lab.Store.{
  Run, Row, Database, Python, Request, has_run, not_null, find_run, py_str, mapping_of,
  policy_accuracy, case_suite_version_of, row_of, store_row, store_checked, persist_experiment_run,
  get_experiment_run,
}
use llm_evaluation_lab.Lab.Store.Immutable.{
  rows_of, find_run-new, Stored, refused, added, IsStamped, store_row-Outcome,
}
use llm_evaluation_lab.Lab.Store.History.{get-found, detail}

-- An initialized database with these rows.
abbrev pub holding : List Row → Option Database
holding rows = some (record { user_version = pos 1; experiment_runs = some rows })

read_stored :
    (py : Python) (row : Row) (file : Option Database) (before : List Row) (run_id : String)
    → rows_of file ≡ before ++ row ∷ []
    → has_run row.run.run_id before ≡ false
    → is_blank_text row.run.run_id ≡ false
    → strip run_id ≡ row.run.run_id
    → get_experiment_run py file run_id ≡ ok (some (detail py row))
read_stored py row file before run_id rows new named same =
    get-found py file run_id row (ap is_blank_text same ∙ named)
      (ap₂ find_run same rows ∙ find_run-new before row new)

module _ (py : Python) (now : String) (result : Fields) (q : Request) where
  open py use {dumps, loads}

  -- What the checks promise of the values that they let through.
  pub record IsChecked (row : Row) : Type 0 where
    pub stored : row.result_json ≡ dumps result
    pub named : is_blank_text row.run.run_id ≡ false
    pub latency : float_is_negative row.run.latency_ms ≡ false
    pub cost : float_is_negative row.run.token_cost ≡ false

  row_of-Returns : Returns IsChecked (row_of py now result q)
  unfolding row_of
  row_of-Returns =
      let id = strip (py_str py (get_or "run_id" result (str ""))) in
      after_raise_if (is_blank_text id) _ _ λ named.
        after_require (str_eq q.suite "closure" || str_eq q.suite "historical") _ _ λ _.
          after_raise_if (is_blank q.model) _ _ λ _.
            after_raise_if (is_blank q.prompt_version) _ _ λ _.
              after_raise_if (is_blank q.git_commit) _ _ λ _.
                after_raise_if (float_is_negative q.latency_ms || float_is_negative q.token_cost) _
                  _
                  λ costs. after_raise_if (is_blank_text (case_suite_version_of py result)) _ _ λ _.
                    after (mapping_of py "regression" (get "regression" result)) λ regression _.
                      after_raise_if
                        (is_blank_text (strip (py_str py (get_or "status" regression (str ""))))) _
                        _
                        λ _. after (policy_accuracy py result "baseline") λ baseline _.
                          after (policy_accuracy py result "treatment") λ treatment _.
                            value (record {
                              stored = refl;
                              named = named;
                              latency = ground arith;
                              cost = ground arith;
                            })

  -- An answer that is no error means that the row was added, under an identifier that was free.
  Stored-ok :
      {row : Row} {before : List Row} {answer : Result Error Run × List Row} (run : Run)
      → Stored row before answer
      → answer.0 ≡ ok run
      → (run ≡ row.run)
        × (has_run row.run.run_id before ≡ false)
        × (not_null row.run ≡ true)
        × (answer.1 ≡ before ++ row ∷ [])
  Stored-ok run refused h = cc
  Stored-ok run (added new filled) h = (sym (ok-injective h), new, filled, refl)

  store_checked-ok :
      (r : Result Error Row) (file : Option Database) (run : Run)
      → (store_checked r file).0 ≡ ok run
      → (row : Row) × (r ≡ ok row)
        × ((store_row row file).0 ≡ ok run)
        × (store_checked r file ≡ store_row row file)
  unfolding store_checked
  store_checked-ok (err e) file run h = cc
  store_checked-ok (ok row) file run h = (row, refl, h, refl)

  -- A successful call is read back, if `json` reads the text of this result back as the result with
  -- its keys sorted: from the store that the call leaves, under any text that strips to the run's
  -- identifier, come the metadata that it returned and that sorted result, which equals the result
  -- but for the order of the fields of its objects, at any depth.
  pub get-persist :
      (file : Option Database) (run_id : String) {run : Run}
      → IsStamped file
      → loads (dumps result) ≡ sort_keys (obj result)
      → (persist_experiment_run py now result q file).0 ≡ ok run
      → strip run_id ≡ run.run_id
      → (get_experiment_run py (persist_experiment_run py now result q file).1 run_id
          ≡ ok (some (record { run = run; result = sort_keys (obj result) })))
        × IsReordered (obj result) (sort_keys (obj result))
  unfolding persist_experiment_run
  get-persist file run_id {run} s loaded h same =
      let (row, checked, stored, e) = store_checked-ok (row_of py now result q) file run h in
      let well = Returns-ok row_of-Returns checked in
      let (er, new, _, rows) = Stored-ok run (store_row-Outcome row file s) stored in
      let file' = (store_row row file).1 in
      let read =
        read_stored py row file' (rows_of file) run_id rows new well.named
          (same ∙ ap (λ (r : Run). r.run_id) er) in
      (
        ap (λ (x : Result Error Run × Option Database). get_experiment_run py x.1 run_id) e
            ∙ read
            ∙ ap (λ d. ok (some d))
                (λ i. record { run = sym er i; result = (ap loads well.stored ∙ loaded) i }),
        sort_keys-IsReordered (obj result),
      )

  -- A call has raised and changed no row, or has added a row that was not there.
  abbrev pub Answered : List Row → Result Error Run × List Row → Type 0
  Answered before answer =
      ((e : Error) × (answer.0 ≡ err e) × (answer.1 ≡ before))
      ⊎ ((row : Row) × (answer.0 ≡ ok row.run)
          × (row.result_json ≡ dumps result)
          × (has_run row.run.run_id before ≡ false)
          × (not_null row.run ≡ true)
          × (answer.1 ≡ before ++ row ∷ []))

  Stored-Answered :
      {row : Row} {before : List Row} {answer : Result Error Run × List Row}
      → IsChecked row
      → Stored row before answer
      → Answered before answer
  Stored-Answered well (refused {e = e}) = inl (e, refl, refl)
  Stored-Answered {row} well (added new filled) = inr (row, refl, well.stored, new, filled, refl)

  store_checked-Answered :
      {r : Result Error Row} (file : Option Database)
      → IsStamped file
      → Returns IsChecked r
      → Answered (rows_of file) ((store_checked r file).0, rows_of (store_checked r file).1)
  unfolding store_checked
  store_checked-Answered file s (raised {e = e}) = inl (e, refl, refl)
  store_checked-Answered file s (value {a = row} well) =
      Stored-Answered well (store_row-Outcome row file s)

  -- Every call raises and leaves the rows that can be read as they were, or returns the metadata of
  -- a row that it has added behind them, which holds the result as JSON text, whose identifier no
  -- other row has, and whose four numbers are no NaN.
  pub persist-Answered :
      (file : Option Database)
      → IsStamped file
      → let (r, file') = persist_experiment_run py now result q file in
        Answered (rows_of file) (r, rows_of file')
  unfolding persist_experiment_run
  persist-Answered file s = store_checked-Answered file s row_of-Returns
