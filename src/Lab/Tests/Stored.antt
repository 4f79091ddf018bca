-- ===== src/Lab/Tests/Stored.antt =====
-- Runs of the store on one result, and theorems about it at that input.
use mathlib.Core.List.{Perm}
use llm_evaluation_lab.Base.{
  ℕ, ◌≤◌, String, ◌≡◌, refl, Option, none, some, List, [], ◌∷◌, arith, ap, map, take,
}
use llm_evaluation_lab.Base.Int.{ℤ, pos, negsuc}
use llm_evaluation_lab.Base.Result.{Result, ok, err}
use llm_evaluation_lab.Text.{strip, is_blank}
use llm_evaluation_lab.Json.{
  Float, finite, nan, Json, int, float, str, obj, Fields, end, field, get, get_or,
}
use llm_evaluation_lab.Json.Keys.{sort_keys, IsReordered}
use llm_evaluation_lab.Lab.Error.{Error, already_exists}
use llm_evaluation_lab.Lab.Store.{
  find_run, detail_of, Run, Row, Database, Python, Request, row_of, policy_accuracy, mapping_of,
  numeric_of, case_suite_version_of, py_str, persist_experiment_run, get_experiment_run,
  list_experiment_runs, store_checked, store_row, initialize_store, insert, finish, newest_first,
  place, newer_or_same, limit_of, open_read_only_store,
}
use llm_evaluation_lab.Lab.Store.ReadBack.{holding, get-persist, Answered, persist-Answered}
use llm_evaluation_lab.Lab.Store.NotANumber.{persist_nan-already_exists}
use llm_evaluation_lab.Lab.Store.Immutable.{rows_of}
use llm_evaluation_lab.Lab.Store.History.{persist_all, get_experiment_run-persist_all}
use llm_evaluation_lab.Lab.Store.Listing.{IsNewestFirst, list_experiment_runs-newest}

show_nothing : Json → String
show_nothing j = ""

whole : ℤ → Option Float
whole n = some (finite n (pos 0))

abbrev result_json : Fields
result_json = field "run_id" (str " RUN-1 ") (
    field "case_id" (str "CASE-1") (
      field "regression" (obj (field "status" (str "PASS") end)) (
        field "baseline" (obj (field "accuracy" (float (finite (pos 1) (negsuc 0))) end))
          (field "treatment" (obj (field "accuracy" (int (pos 1)) end)) end))))

-- The fields in the order of their keys.
abbrev sorted_json : Fields
sorted_json = field "baseline" (obj (field "accuracy" (float (finite (pos 1) (negsuc 0))) end)) (
    field "case_id" (str "CASE-1") (
      field "regression" (obj (field "status" (str "PASS") end)) (
        field "run_id" (str " RUN-1 ")
          (field "treatment" (obj (field "accuracy" (int (pos 1)) end)) end))))

dumps_one : Fields → String
dumps_one fs = "{}"

loads_one : String → Json
loads_one s = obj sorted_json

abbrev python : Python
python = record { show = show_nothing; float_of = whole; dumps = dumps_one; loads = loads_one }

keys_sorted : sort_keys (obj result_json) ≡ obj sorted_json
unfolding sort_keys
keys_sorted = refl

abbrev request : Float → Request
request latency = record {
  suite = "closure";
  model = "model-a";
  prompt_version = "p1";
  git_commit = "abc";
  latency_ms = latency;
  token_cost = finite (pos 0) (pos 0);
  created_at_utc = some "2026-07-01T00:00:00Z";
}

abbrev stored_run : Float → Run
stored_run latency = record {
  run_id = "RUN-1";
  suite = "closure";
  case_suite_version = "CASE-1";
  model = "model-a";
  prompt_version = "p1";
  git_commit = "abc";
  created_at_utc = "2026-07-01T00:00:00Z";
  latency_ms = latency;
  token_cost = finite (pos 0) (pos 0);
  baseline_accuracy = finite (pos 1) (negsuc 0);
  treatment_accuracy = finite (pos 1) (pos 0);
  regression_status = "PASS";
}

abbrev row_with : Float → Row
row_with latency = record { run = stored_run latency; result_json = "{}" }

request_passes :
    row_of python "2026-07-02T00:00:00Z" result_json (request (finite (pos 5) (pos 0)))
    ≡ ok (row_with (finite (pos 5) (pos 0)))
unfolding row_of policy_accuracy mapping_of numeric_of case_suite_version_of py_str whole dumps_one
    get get_or is_blank
request_passes = refl

abbrev one_run : Option Database
one_run = holding (row_with (finite (pos 5) (pos 0)) ∷ [])

one_run_stored :
    persist_experiment_run python "2026-07-02T00:00:00Z" result_json
      (request (finite (pos 5) (pos 0)))
      none
    ≡ (ok (stored_run (finite (pos 5) (pos 0))), one_run)
unfolding persist_experiment_run store_checked store_row initialize_store insert finish row_of
    policy_accuracy mapping_of numeric_of case_suite_version_of py_str whole dumps_one get get_or
    is_blank
one_run_stored = refl

get-persist_example :
    (get_experiment_run python
        (persist_experiment_run python "2026-07-02T00:00:00Z" result_json
          (request (finite (pos 5) (pos 0)))
          none).1
        "RUN-1 "
      ≡ ok (
          some (record {
            run = stored_run (finite (pos 5) (pos 0));
            result = sort_keys (obj result_json);
          })))
    × IsReordered (obj result_json) (sort_keys (obj result_json))
unfolding strip loads_one sort_keys
get-persist_example =
    get-persist python "2026-07-02T00:00:00Z" result_json (request (finite (pos 5) (pos 0))) none
      "RUN-1 " tt refl (ap (λ (x : Result Error Run × Option Database). x.0) one_run_stored) refl

abbrev second_call : String × Fields × Request
second_call = ("2026-07-03T00:00:00Z", result_json, request (finite (pos 9) (pos 0)))

persist-Answered_example :
    Answered python "2026-07-03T00:00:00Z" result_json (request nan) (rows_of one_run) (
      (persist_experiment_run python "2026-07-03T00:00:00Z" result_json (request nan) one_run).0,
      rows_of
          (persist_experiment_run python "2026-07-03T00:00:00Z" result_json
            (request nan)
            one_run).1,
    )
persist-Answered_example =
    persist-Answered python "2026-07-03T00:00:00Z" result_json (request nan) one_run
      (λ e. ground arith)

persist_nan-already_exists_example :
    (row_of python "2026-07-02T00:00:00Z" result_json (request nan) ≡ ok (row_with nan))
    × (persist_experiment_run python "2026-07-02T00:00:00Z" result_json (request nan) (holding [])
        ≡ (err (already_exists "RUN-1"), holding []))
persist_nan-already_exists_example =
    persist_nan-already_exists python "2026-07-02T00:00:00Z" result_json
      (request (finite (pos 5) (pos 0))) nan [] request_passes refl

one_run_detail :
    get_experiment_run python one_run "RUN-1"
    ≡ ok (some (record { run = stored_run (finite (pos 5) (pos 0)); result = obj sorted_json }))
unfolding get_experiment_run open_read_only_store find_run detail_of loads_one strip
one_run_detail = refl

get_experiment_run-persist_all_example :
    get_experiment_run python (persist_all python (second_call ∷ second_call ∷ []) one_run) "RUN-1"
    ≡ ok (some (record { run = stored_run (finite (pos 5) (pos 0)); result = obj sorted_json }))
get_experiment_run-persist_all_example =
    get_experiment_run-persist_all python (second_call ∷ second_call ∷ []) one_run "RUN-1"
      (record { run = stored_run (finite (pos 5) (pos 0)); result = obj sorted_json })
      (λ e. ground arith) one_run_detail

-- Three rows, two of one time.
abbrev dated : String → String → Row
dated id created = record (row_with (finite (pos 5) (pos 0))) {
  run = record (stored_run (finite (pos 5) (pos 0))) { run_id = id; created_at_utc = created };
}

abbrev three_rows : List Row
three_rows =
    dated "RUN-1" "2026-07-02" ∷ dated "RUN-2" "2026-07-03" ∷ dated "RUN-3" "2026-07-02" ∷ []

abbrev two_listed : List Run
two_listed = (dated "RUN-2" "2026-07-03").run ∷ (dated "RUN-3" "2026-07-02").run ∷ []

three_listed : list_experiment_runs (holding three_rows) (pos 2) ≡ ok two_listed
unfolding list_experiment_runs limit_of open_read_only_store newest_first place newer_or_same
three_listed = refl

list_experiment_runs-newest_example :
    (n : ℕ) × (rows : List Row) × (sorted : List Row) × (pos 2 ≡ pos n)
    × (1 ≤ n)
    × (n ≤ 1000)
    × (open_read_only_store (holding three_rows) ≡ ok rows)
    × Perm sorted rows
    × IsNewestFirst sorted
    × (two_listed ≡ map (λ row. row.run) (take n sorted))
list_experiment_runs-newest_example =
    list_experiment_runs-newest (holding three_rows) (pos 2) three_listed
