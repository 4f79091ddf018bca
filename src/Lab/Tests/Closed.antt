-- ===== src/Lab/Tests/Closed.antt =====
-- A closure experiment on two cases, and theorems about it at that input.
use llm_evaluation_lab.Base.{
  ℕ, ◌*◌, ◌/◌, ◌^◌, ◌≤◌, ◌<◌, String, ◌≡◌, ◌↔◌, refl, false, List, [], ◌∷◌, all, str_eq, arith,
  ◌==◌, if◌then◌else◌,
}
use llm_evaluation_lab.Base.Int.{pos, negsuc}
use llm_evaluation_lab.Base.Result.{Result, ok, err}
use llm_evaluation_lab.Text.{strip, is_blank}
use llm_evaluation_lab.Json.{Float, finite, Json, str, arr, obj, end, field, array, items, get}
use llm_evaluation_lab.Lab.Error.{Error}
use llm_evaluation_lab.Lab.Cases.{Child}
use llm_evaluation_lab.Lab.Float.{Arithmetic}
use llm_evaluation_lab.Lab.Policy.{PolicyResult, naive_any_done, evaluate_policy}
use llm_evaluation_lab.Lab.Mitigation.{CaseSuite, MitigationSpec, validate_mitigation_spec}
use llm_evaluation_lab.Lab.Mitigation.Disjoint.{IsSpec, validate_mitigation_spec-IsSpec}
use llm_evaluation_lab.Lab.Closure.{
  CompanionMind, ExperimentResult, treatment_policy, run_experiment,
}
use llm_evaluation_lab.Lab.Closure.Verdict.{Decides, run_experiment-pass_iff}

-- Division that tells 1 from the other quotients.
quotient : ℕ → ℕ → Float
quotient m n = if m == n then finite (pos 1) (pos 0) else finite (pos (m * 2 ^ 53 / n)) (negsuc 52)

quotient_self : (n : ℕ) → 0 < n → quotient n n ≡ finite (pos 1) (pos 0)
unfolding quotient
quotient_self n h = ground arith

quotient_one :
    (m n : ℕ) → 0 < n → m ≤ n → n ≤ 2 ^ 53 → quotient m n ≡ finite (pos 1) (pos 0) → m ≡ n
unfolding quotient
quotient_one m n p q r h = ground arith

abbrev arithmetic : Arithmetic
arithmetic = record {
  div = quotient;
  sub = λ x y. x;
  float_zero = finite (pos 0) (pos 0);
  float_one = finite (pos 1) (pos 0);
  div_self = quotient_self;
  div_eq_one = quotient_one;
}

-- The upper case of the statuses below.
upper_case : String → String
upper_case s = if str_eq s "done" then "DONE" else s

-- A guard that accepts when every child is DONE.
all_done : MitigationSpec → List Child → String
all_done spec children =
    if all (λ (c : Child). str_eq c.status "DONE") children then "ACCEPT" else "REJECT"

abbrev companion_mind : CompanionMind
companion_mind = record {
  accepts = λ spec. ok tt;
  schema_version = λ spec. spec.schema_version;
  fingerprint = λ spec. "f";
  mitigation_id = λ spec. spec.mitigation_id;
  safeguard_id = λ spec. spec.runtime.safeguard_id;
  decision = all_done;
}

spec_json : Json
spec_json = obj (
    field "schema_version" (str "mitigation-spec/v1") (
      field "mitigation_id" (str "MIT-1") (
        field "target_failure" (str "premature_parent_closure") (
          field "intervention" (str "wait for every child") (
            field "control" (str "naive_any_done") (
              field "treatment" (str "guard") (
                field "decision_rule" (str "adopt") (
                  field "metrics" (arr (array (str "accuracy" ∷ []))) (
                    field "regression_cases" (arr (array (str "EVAL-1" ∷ []))) (
                      field "runtime"
                        (obj (
                          field "guard_type" (str "closure_guard") (
                            field "safeguard_id" (str "CM-1") (
                              field "empty_evidence_decision" (str "HOLD") (
                                field "non_terminal_decision" (str "REJECT") (
                                  field "all_terminal_decision" (str "ACCEPT") (
                                    field "terminal_statuses"
                                      (arr (array (str "done" ∷ str "CANCELLED" ∷ [])))
                                      (field "blocking_statuses" (arr (array (str "OPEN" ∷ [])))
                                        end))))))))
                        end))))))))))

abbrev spec : MitigationSpec
spec = record {
  schema_version = "mitigation-spec/v1";
  mitigation_id = "MIT-1";
  target_failure = "premature_parent_closure";
  intervention = "wait for every child";
  control = "naive_any_done";
  treatment = "guard";
  decision_rule = "adopt";
  metrics = "accuracy" ∷ [];
  regression_cases = "EVAL-1" ∷ [];
  runtime = record {
    guard_type = "closure_guard";
    safeguard_id = "CM-1";
    empty_evidence_decision = "HOLD";
    non_terminal_decision = "REJECT";
    all_terminal_decision = "ACCEPT";
    terminal_statuses = "CANCELLED" ∷ "DONE" ∷ [];
    blocking_statuses = "OPEN" ∷ [];
  };
}

spec_validates : validate_mitigation_spec upper_case (λ x. ok tt) spec_json ≡ ok spec
unfolding validate_mitigation_spec spec_json array items get is_blank strip upper_case
spec_validates = refl

validate_mitigation_spec-IsSpec_example : IsSpec upper_case spec_json spec
validate_mitigation_spec-IsSpec_example =
    validate_mitigation_spec-IsSpec upper_case (λ x. ok tt) spec_json spec_validates

abbrev suite : CaseSuite
suite = record {
  case_id = "EVAL-1";
  title = "closing a parent";
  run_id = "RUN-1";
  mitigation_id = "MIT-1";
  safeguard_id = "CM-1";
  privacy = "PUBLIC";
  cases =
      record {
        variant_id = "base-order";
        children =
            record { child_id = "a"; status = "DONE" }
            ∷ record { child_id = "b"; status = "OPEN" }
            ∷ [];
        expected_close = false;
      }
      ∷ [];
}

abbrev no_policy : PolicyResult
no_policy = record {
  policy = "";
  accuracy = finite (pos 0) (pos 0);
  premature_closure_rate = finite (pos 0) (pos 0);
  failures = [];
  predictions = [];
}

unfoldable read_result : Result Error ExperimentResult → ExperimentResult
read_result (ok r) = r
read_result (err e) = record {
  run_id = "";
  case_id = "";
  mitigation_id = "";
  safeguard_id = "";
  fixture_count = 0;
  baseline = no_policy;
  treatment = no_policy;
  accuracy_delta = finite (pos 0) (pos 0);
  integration = record {
    status = "";
    schema_version = "";
    spec_fingerprint = "";
    loaded_mitigation_id = "";
    loaded_safeguard_id = "";
  };
  regression = record { known_bad_failures_detected = 0; guard_failures = 0; status = "" };
}

abbrev result : ExperimentResult
result = read_result (run_experiment arithmetic upper_case companion_mind suite spec_json)

experiment_returns : run_experiment arithmetic upper_case companion_mind suite spec_json ≡ ok result
unfolding run_experiment read_result spec_json array items get is_blank strip upper_case
    evaluate_policy
experiment_returns = refl

run_experiment-pass_iff_example :
    (s : MitigationSpec) × (validate_mitigation_spec upper_case (λ x. ok tt) spec_json ≡ ok s)
    × (s.mitigation_id ≡ "MIT-1")
    × (s.runtime.safeguard_id ≡ "CM-1")
    × ((result.regression.status ≡ "PASS") ↔ (
        (¬ (Decides (naive_any_done upper_case) suite.cases))
        × Decides (treatment_policy arithmetic upper_case companion_mind s) suite.cases))
run_experiment-pass_iff_example =
    run_experiment-pass_iff arithmetic upper_case companion_mind suite spec_json experiment_returns
