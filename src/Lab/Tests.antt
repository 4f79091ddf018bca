-- ===== src/Lab/Tests.antt =====
-- Runs of the lab on small documents, and theorems about it at a concrete input.
mod Stored
mod Closed
use mathlib.Core.List.{Perm}
use llm_evaluation_lab.Base.{
  ℕ, suc, ◌*◌, ◌/◌, ◌^◌, ◌≤◌, ◌<◌, String, ◌≡◌, ◌↔◌, refl, Bool, true, false, Option, none, some,
  List, [], ◌∷◌, ◌++◌, All, arith, ◌==◌, if◌then◌else◌, inl, ap, ◌≢◌, map, take,
}
use llm_evaluation_lab.Base.Int.{ℤ, pos, negsuc}
use llm_evaluation_lab.Base.Result.{Result, ok, err, ◌>>=◌}
use llm_evaluation_lab.Text.{strip, is_blank}
use llm_evaluation_lab.Json.{
  Float, finite, nan, Json, int, float, bool, str, arr, obj, Fields, end, field, array, items, get,
  get_or, truthy,
}
use llm_evaluation_lab.Lab.Error.{Error, already_exists}
use llm_evaluation_lab.Lab.Read.{required_text, text_of, bool_of, array_of, positive_integer}
use llm_evaluation_lab.Lab.Cases.{
  Child, Case, validate_cases, cases_document, validate_case, cases_from, validate_child,
  validate_children, case_document, child_document,
}
use llm_evaluation_lab.Lab.Cases.Sound.{IsSuite, validate_cases-IsSuite}
use llm_evaluation_lab.Lab.Cases.RoundTrip.{validate_cases-document_iff}
use llm_evaluation_lab.Lab.Historical.{
  Mechanism, Constraint, HistoricalCase, HistoricalBenchmarkSuite, load_historical_benchmark,
  object_of, validate_mechanisms, mechanisms_from, validate_mechanism, validate_historical_cases,
  historical_from, validate_historical_case, case_body, validate_constraints, validate_constraint,
  add_variant, incomplete_ids,
}
use llm_evaluation_lab.Lab.Historical.Load.{IsBenchmark, load_historical_benchmark-IsBenchmark}
use llm_evaluation_lab.Lab.Float.{Arithmetic}
use llm_evaluation_lab.Lab.Policy.{PolicyResult, naive_any_done, evaluate_policy}
use llm_evaluation_lab.Lab.Policy.Report.{
  policy_report, evaluate_policy-eq-report, accuracy-one_iff,
}
use llm_evaluation_lab.Lab.Benchmark.{
  BenchmarkResult, run_historical_benchmark, evaluate_historical_policy, constraint_gate_policy,
  case_mapping,
}
use llm_evaluation_lab.Lab.Benchmark.Report.{benchmark_report, evaluate_historical_policy-eq-report}
use llm_evaluation_lab.Lab.Benchmark.Gate.{gate_accepts, gate-eq_accepts}
use llm_evaluation_lab.Lab.Store.{
  has_run, find_run, detail_of, Run, Row, Database, Python, Request, Detail, row_of,
  policy_accuracy, mapping_of, numeric_of, case_suite_version_of, py_str, persist_experiment_run,
  get_experiment_run, list_experiment_runs, store_checked, store_row, initialize_store, insert,
  finish, newest_first, place, newer_or_same, limit_of, open_read_only_store,
}
use llm_evaluation_lab.Lab.Store.ReadBack.{holding, get-persist, Answered, persist-Answered}
use llm_evaluation_lab.Lab.Store.NotANumber.{persist_nan-already_exists}
use llm_evaluation_lab.Lab.Store.Immutable.{IsStamped, rows_of}
use llm_evaluation_lab.Lab.Store.History.{Call, persist_all, get_experiment_run-persist_all}
use llm_evaluation_lab.Lab.Store.Listing.{IsNewestFirst, list_experiment_runs-newest}
use llm_evaluation_lab.Lab.Benchmark.Verdict.{IsJudged, run_historical_benchmark-pass_iff}

-- Division that tells 1 from the other quotients.
div_exactly : ℕ → ℕ → Float
div_exactly m n =
    if m == n then finite (pos 1) (pos 0) else finite (pos (m * 2 ^ 53 / n)) (negsuc 52)

div_exactly_self : (n : ℕ) → 0 < n → div_exactly n n ≡ finite (pos 1) (pos 0)
unfolding div_exactly
div_exactly_self n h = ground arith

div_exactly_one :
    (m n : ℕ) → 0 < n → m ≤ n → n ≤ 2 ^ 53 → div_exactly m n ≡ finite (pos 1) (pos 0) → m ≡ n
unfolding div_exactly
div_exactly_one m n p q r h = ground arith

abbrev exactly : Arithmetic
exactly = record {
  div = div_exactly;
  sub = λ x y. x;
  float_zero = finite (pos 0) (pos 0);
  float_one = finite (pos 1) (pos 0);
  div_self = div_exactly_self;
  div_eq_one = div_exactly_one;
}

abbrev two_cases : List Case
two_cases =
    record {
      variant_id = "base-order";
      children =
          record { child_id = "quick-check"; status = "DONE" }
          ∷ record { child_id = "qualification"; status = "OPEN" }
          ∷ [];
      expected_close = false;
    }
    ∷ record {
      variant_id = "all-terminal";
      children = record { child_id = "quick-check"; status = "DONE" } ∷ [];
      expected_close = true;
    }
    ∷ []

two_cases_read : validate_cases (cases_document two_cases) ≡ ok two_cases
unfolding validate_cases cases_document array_of text_of bool_of validate_case cases_from
    validate_child validate_children case_document child_document array items get is_blank
two_cases_read = refl

validate_cases-document_iff_example :
    (validate_cases (cases_document two_cases) ≡ ok two_cases) ↔ IsSuite two_cases
validate_cases-document_iff_example = validate_cases-document_iff two_cases

validate_cases-IsSuite_example : IsSuite two_cases
validate_cases-IsSuite_example = validate_cases-IsSuite (cases_document two_cases) two_cases_read

same_text : String → String
same_text s = s

-- The known-bad baseline closes the first case, which must stay open.
evaluate_policy-eq-report_example :
    evaluate_policy exactly "naive_any_done" (naive_any_done same_text) two_cases
    ≡ ok (policy_report exactly "naive_any_done" (naive_any_done same_text) two_cases)
evaluate_policy-eq-report_example =
    evaluate_policy-eq-report exactly "naive_any_done" (naive_any_done same_text) two_cases

abbrev closes_short : List Child → Bool
closes_short (c ∷ []) = true
closes_short _ = false

accuracy-one_iff_example :
    ((policy_report exactly "short" closes_short two_cases).accuracy ≡ finite (pos 1) (pos 0))
    ↔ All (λ (c : Case). closes_short c.children ≡ c.expected_close) two_cases
accuracy-one_iff_example =
    accuracy-one_iff exactly "short" closes_short two_cases (omega arith)
      (evaluate_policy-eq-report exactly "short" closes_short two_cases)

constraint_json : String → Json
constraint_json status =
    obj (field "constraint_id" (str "evidence-loaded") (field "status" (str status) end))

abbrev case_json : String → String → String → String → Bool → Json
case_json id variant evidence status accept = obj (
    field "variant_id" (str id) (
      field "mechanism_id" (str "m1") (
        field "variant" (str variant) (
          field "scenario" (str "a reply cites a file") (
            field "candidate" (str "accept the reply") (
              field "surface_confidence" (str "HIGH") (
                field "evidence_state" (str evidence) (
                  field "constraints" (arr (array (constraint_json status ∷ [])))
                    (field "expected_accept" (bool accept) end)))))))))

abbrev benchmark_json : Json
benchmark_json = obj (
    field "historical_benchmark"
      (obj (
        field "privacy" (str "PUBLIC_SAFE") (
          field "benchmark_id" (str "HFB-1") (
            field "title" (str "one mechanism") (
              field "run_id" (str "RUN-1") (
                field "source_scope"
                  (obj (
                    field "observations" (int (pos 3)) (
                      field "raw_categories" (int (pos 2)) (
                        field "mechanism_clusters" (int (pos 1))
                          (field "public_cases" (int (pos 2)) end)))))
                  (field "mechanisms"
                    (arr (
                      array (
                        obj (
                          field "mechanism_id" (str "m1") (
                            field "name" (str "unread evidence") (
                              field "gate" (str "load first")
                                (field "source_categories" (str "C1") end))))
                        ∷ [])))
                    (field "inputs"
                      (arr (
                        array (
                          case_json "m1-trap" "TRAP" "NOT_LOADED" "UNKNOWN" false
                          ∷ case_json "m1-control" "CONTROL" "SUPPORTED" "PASS" true
                          ∷ [])))
                      end))))))))
      end)

abbrev case_of : String → String → String → String → Bool → HistoricalCase
case_of id variant evidence status accept = record {
  variant_id = id;
  mechanism_id = "m1";
  variant = variant;
  scenario = "a reply cites a file";
  candidate = "accept the reply";
  surface_confidence = "HIGH";
  evidence_state = evidence;
  constraints = record { constraint_id = "evidence-loaded"; status = status } ∷ [];
  expected_accept = accept;
}

abbrev benchmark : HistoricalBenchmarkSuite
benchmark = record {
  benchmark_id = "HFB-1";
  title = "one mechanism";
  run_id = "RUN-1";
  privacy = "PUBLIC_SAFE";
  source_observations = 3;
  source_categories = 2;
  mechanisms =
      record {
        mechanism_id = "m1";
        name = "unread evidence";
        gate = "load first";
        source_categories = "C1";
      }
      ∷ [];
  cases =
      case_of "m1-trap" "TRAP" "NOT_LOADED" "UNKNOWN" false
      ∷ case_of "m1-control" "CONTROL" "SUPPORTED" "PASS" true
      ∷ [];
}

benchmark_loads : load_historical_benchmark benchmark_json ≡ ok benchmark
unfolding load_historical_benchmark object_of required_text array_of bool_of positive_integer
    validate_mechanisms mechanisms_from validate_mechanism validate_historical_cases historical_from
    validate_historical_case case_body validate_constraints validate_constraint add_variant
    incomplete_ids array items get constraint_json is_blank
benchmark_loads = refl

load_historical_benchmark-IsBenchmark_example : IsBenchmark benchmark
load_historical_benchmark-IsBenchmark_example =
    load_historical_benchmark-IsBenchmark benchmark_json benchmark_loads

run_historical_benchmark-pass_iff_example :
    (r : BenchmarkResult) × (run_historical_benchmark exactly benchmark ≡ ok r)
    × ((r.regression.status ≡ "PASS") ↔ IsJudged benchmark)
run_historical_benchmark-pass_iff_example =
    run_historical_benchmark-pass_iff exactly benchmark
      (load_historical_benchmark-IsBenchmark benchmark_json benchmark_loads)

-- A policy that refuses everything.
refuse : Fields → Bool
refuse fs = false

abbrev trap : HistoricalCase
trap = case_of "m1-trap" "TRAP" "NOT_LOADED" "UNKNOWN" false

gate-eq_accepts_example : constraint_gate_policy (case_mapping trap) ≡ gate_accepts trap
gate-eq_accepts_example = gate-eq_accepts trap (λ e. ground arith)

evaluate_historical_policy-eq-report_example :
    evaluate_historical_policy exactly "refuse" refuse benchmark.cases
    ≡ ok (benchmark_report exactly "refuse" refuse benchmark.cases)
evaluate_historical_policy-eq-report_example =
    evaluate_historical_policy-eq-report exactly "refuse" refuse benchmark.cases
