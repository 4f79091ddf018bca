-- ===== src/Lab/Benchmark.antt =====
-- evaluation_lab.py: the historical benchmark's policies over a case's mapping, the harness that
-- runs one, and `run_historical_benchmark`.
pub mod Gate
pub mod Report
pub mod Verdict
use llm_evaluation_lab.Base.{
  ℕ, suc, ◌+◌, ◌-◌, String, Bool, true, false, not, ◌&&◌, List, [], ◌∷◌, ◌++◌, map, all, count,
  is_empty, length, str_eq, same, ◌==◌, if◌then◌else◌,
}
use llm_evaluation_lab.Base.Result.{Result, ok, err, ◌>>=◌}
use llm_evaluation_lab.Json.{
  Json, bool, str, arr, obj, Fields, end, field, items, array, get, has, Float,
}
use llm_evaluation_lab.Lab.Error.{Error, no_cases}
use llm_evaluation_lab.Lab.Historical.{
  Constraint, HistoricalCase, Mechanism, HistoricalBenchmarkSuite,
}
use llm_evaluation_lab.Lab.Float.{Arithmetic}
use llm_evaluation_lab.Lab.Policy.{ratio_or_zero}

-- `value == word`, for a JSON value; also `str(value) == "PASS"`, since Python prints no other
-- JSON value as that word.
unfoldable pub is_word : String → Json → Bool
is_word word (str s) = str_eq s word
is_word word _ = false

-- `confidence_only_baseline(case)`
unfoldable pub confidence_only_baseline : Fields → Bool
unfolding is_word
confidence_only_baseline case = is_word "HIGH" (get "surface_confidence" case)

-- A constraint that is a mapping and passes; its missing status would be "UNKNOWN".
unfoldable pub passes : Json → Bool
unfolding is_word
passes (obj constraint) = is_word "PASS" (get "status" constraint)
passes _ = false

-- The tests on `case.get("constraints")`. A text or a mapping is iterable too, and yields texts,
-- which are no mappings, or nothing: both are refused.
unfoldable pub constraints_pass : Json → Bool
unfolding passes items
constraints_pass (arr constraints) =
    not (is_empty (items constraints)) && all passes (items constraints)
constraints_pass _ = false

-- `constraint_gate_policy(case)`
unfoldable pub constraint_gate_policy : Fields → Bool
unfolding is_word constraints_pass
constraint_gate_policy case =
    is_word "SUPPORTED" (get "evidence_state" case) && constraints_pass (get "constraints" case)

-- The dict that a validated case is.
unfoldable pub constraint_mapping : Constraint → Json
constraint_mapping k =
    obj (field "constraint_id" (str k.constraint_id) (field "status" (str k.status) end))

unfoldable pub case_mapping : HistoricalCase → Fields
unfolding constraint_mapping array
case_mapping c = field "variant_id" (str c.variant_id) (
    field "mechanism_id" (str c.mechanism_id) (
      field "variant" (str c.variant) (
        field "scenario" (str c.scenario) (
          field "candidate" (str c.candidate) (
            field "surface_confidence" (str c.surface_confidence) (
              field "evidence_state" (str c.evidence_state) (
                field "constraints" (arr (array (map constraint_mapping c.constraints)))
                  (field "expected_accept" (bool c.expected_accept) end))))))))

pub record BenchmarkPrediction : Type 0 where
  pub variant_id : String
  pub mechanism_id : String
  pub variant : String
  pub expected_accept : Bool
  pub predicted_accept : Bool
  pub correct : Bool

pub record BenchmarkPolicyResult : Type 0 where
  pub policy : String
  pub accuracy : Float
  pub false_accept_rate : Float
  pub failures : List String
  pub predictions : List BenchmarkPrediction

-- The variables of the loop in `evaluate_historical_policy`.
pub record BenchmarkTally : Type 0 where
  pub predictions : List BenchmarkPrediction
  pub failures : List String
  pub negatives : ℕ
  pub false_accepts : ℕ

unfoldable pub tally_case : (Fields → Bool) → HistoricalCase → BenchmarkTally → BenchmarkTally
tally_case policy c t =
    let predicted = policy (case_mapping c) in
    let correct = same predicted c.expected_accept in
    record {
      predictions =
          t.predictions
          ++ record {
            variant_id = c.variant_id;
            mechanism_id = c.mechanism_id;
            variant = c.variant;
            expected_accept = c.expected_accept;
            predicted_accept = predicted;
            correct = correct;
          }
            ∷ [];
      failures = if correct then t.failures else t.failures ++ c.variant_id ∷ [];
      negatives = if c.expected_accept then t.negatives else t.negatives + 1;
      false_accepts =
          if not c.expected_accept && predicted then t.false_accepts + 1 else t.false_accepts;
    }

unfoldable pub tally_from : (Fields → Bool) → BenchmarkTally → List HistoricalCase → BenchmarkTally
tally_from policy t [] = t
tally_from policy t (c ∷ cs) = tally_from policy (tally_case policy c t) cs

abbrev pub empty_tally : BenchmarkTally
empty_tally = record { predictions = []; failures = []; negatives = 0; false_accepts = 0 }

pub record SourceScope : Type 0 where
  pub observations : ℕ
  pub raw_categories : ℕ
  pub mechanism_clusters : ℕ
  pub public_cases : ℕ

pub record Regression : Type 0 where
  pub known_bad_failures_detected : ℕ
  pub reference_gate_failures : ℕ
  pub status : String

-- The dict of `run_historical_benchmark`, without its constant texts.
pub record BenchmarkResult : Type 0 where
  pub benchmark_id : String
  pub run_id : String
  pub privacy : String
  pub source_scope : SourceScope
  pub fixture_count : ℕ
  pub mechanisms : List Mechanism
  pub baseline : BenchmarkPolicyResult
  pub treatment : BenchmarkPolicyResult
  pub accuracy_delta : Float
  pub regression : Regression

-- `regression_pass`: `trap_count == controls == len(suite.mechanisms)` and the failures' tests.
unfoldable pub regression_pass : HistoricalBenchmarkSuite → List String → List String → Bool
regression_pass suite baseline_failures treatment_failures =
    let trap_count = count (λ c. not c.expected_accept) suite.cases in
    let controls = count (λ c. c.expected_accept) suite.cases in
    length baseline_failures == trap_count
    && is_empty treatment_failures
    && trap_count == controls
    && controls == length suite.mechanisms

module _ (a : Arithmetic) where
  open a use {div, sub}

  unfoldable pub benchmark_policy_result : String → ℕ → BenchmarkTally → BenchmarkPolicyResult
  benchmark_policy_result name cases t = record {
    policy = name;
    accuracy = div (cases - length t.failures) cases;
    false_accept_rate = ratio_or_zero a t.false_accepts t.negatives;
    failures = t.failures;
    predictions = t.predictions;
  }

  unfoldable pub evaluate_historical_policy :
      String → (Fields → Bool) → List HistoricalCase → Result Error BenchmarkPolicyResult
  unfolding benchmark_policy_result
  evaluate_historical_policy name policy cases =
      if is_empty cases
      then err no_cases
      else ok (benchmark_policy_result name (length cases) (tally_from policy empty_tally cases))

  unfoldable pub benchmark_result :
      HistoricalBenchmarkSuite → BenchmarkPolicyResult → BenchmarkPolicyResult → BenchmarkResult
  benchmark_result suite baseline treatment = record {
    benchmark_id = suite.benchmark_id;
    run_id = suite.run_id;
    privacy = suite.privacy;
    source_scope = record {
      observations = suite.source_observations;
      raw_categories = suite.source_categories;
      mechanism_clusters = length suite.mechanisms;
      public_cases = length suite.cases;
    };
    fixture_count = length suite.cases;
    mechanisms = suite.mechanisms;
    baseline = baseline;
    treatment = treatment;
    accuracy_delta = sub treatment.accuracy baseline.accuracy;
    regression = record {
      known_bad_failures_detected = length baseline.failures;
      reference_gate_failures = length treatment.failures;
      status =
          if regression_pass suite baseline.failures treatment.failures then "PASS" else "FAIL";
    };
  }

  unfoldable pub run_historical_benchmark : HistoricalBenchmarkSuite → Result Error BenchmarkResult
  run_historical_benchmark suite = do
    baseline ← evaluate_historical_policy "confidence_only" confidence_only_baseline suite.cases
    treatment ←
        evaluate_historical_policy "uniform_constraint_gate" constraint_gate_policy suite.cases
    ok (benchmark_result suite baseline treatment)
