-- ===== src/Lab/Closure.antt =====
-- evaluation_lab.py: `run_experiment`, which compares the known-bad closure policy with the guard of
-- the Companion-Mind package on one suite. The package is a parameter.
pub mod Verdict
use llm_evaluation_lab.Base.{
  ℕ, String, Bool, true, false, not, ◌&&◌, List, [], ◌∷◌, length, is_empty, str_eq, if◌then◌else◌,
}
use llm_evaluation_lab.Base.Result.{Result, ok, err, ◌>>=◌, ◌>>◌, require}
use llm_evaluation_lab.Json.{Float, Json}
use llm_evaluation_lab.Lab.Error.{Error, spec_mismatch}
use llm_evaluation_lab.Lab.Read.{contains}
use llm_evaluation_lab.Lab.Cases.{Child, Case}
use llm_evaluation_lab.Lab.Float.{Arithmetic}
use llm_evaluation_lab.Lab.Policy.{PolicyResult, naive_any_done, evaluate_policy}
use llm_evaluation_lab.Lab.Mitigation.{CaseSuite, MitigationSpec, validate_mitigation_spec}

-- `companion_mind.runtime`: whether `MitigationSpec.from_mapping` accepts a spec, or what it raises;
-- what the loaded spec and its guard report; and the decision of `ClosureGuard(spec).evaluate(children)`.
pub record CompanionMind : Type 0 where
  pub accepts : MitigationSpec → Result Error (Unit {0})
  pub schema_version : MitigationSpec → String
  pub fingerprint : MitigationSpec → String
  pub mitigation_id : MitigationSpec → String
  pub safeguard_id : MitigationSpec → String
  pub decision : MitigationSpec → List Child → String

pub record Integration : Type 0 where
  pub status : String
  pub schema_version : String
  pub spec_fingerprint : String
  pub loaded_mitigation_id : String
  pub loaded_safeguard_id : String

pub record ClosureRegression : Type 0 where
  pub known_bad_failures_detected : ℕ
  pub guard_failures : ℕ
  pub status : String

pub record ExperimentResult : Type 0 where
  pub run_id : String
  pub case_id : String
  pub mitigation_id : String
  pub safeguard_id : String
  pub fixture_count : ℕ
  pub baseline : PolicyResult
  pub treatment : PolicyResult
  pub accuracy_delta : Float
  pub integration : Integration
  pub regression : ClosureRegression

-- `"PASS" if test else "FAIL"`
abbrev pub status_of : Bool → String
status_of test = if test then "PASS" else "FAIL"

module _ (a : Arithmetic) (upper : String → String) (cm : CompanionMind) where
  open a use {sub}

  -- `guard.evaluate(children).decision == "ACCEPT"`
  abbrev pub treatment_policy : MitigationSpec → List Child → Bool
  treatment_policy spec children = str_eq (cm.decision spec children) "ACCEPT"

  -- The runs and the result, once the spec is validated and fits the suite.
  unfoldable pub run_on : CaseSuite → MitigationSpec → Result Error ExperimentResult
  run_on suite spec = do
    baseline ← evaluate_policy a "naive_any_done" (naive_any_done upper) suite.cases
    treatment ← evaluate_policy a suite.safeguard_id (treatment_policy spec) suite.cases
    probe ← evaluate_policy a "known_bad_regression_probe" (naive_any_done upper) suite.cases
    ok (record {
      run_id = suite.run_id;
      case_id = suite.case_id;
      mitigation_id = suite.mitigation_id;
      safeguard_id = suite.safeguard_id;
      fixture_count = length suite.cases;
      baseline = baseline;
      treatment = treatment;
      accuracy_delta = sub treatment.accuracy baseline.accuracy;
      integration = record {
        status = status_of (is_empty treatment.failures);
        schema_version = cm.schema_version spec;
        spec_fingerprint = cm.fingerprint spec;
        loaded_mitigation_id = cm.mitigation_id spec;
        loaded_safeguard_id = cm.safeguard_id spec;
      };
      regression = record {
        known_bad_failures_detected = length probe.failures;
        guard_failures = length treatment.failures;
        status = status_of (not (is_empty probe.failures) && is_empty treatment.failures);
      };
    })

  -- `run_experiment(suite, mitigation_spec)`
  unfoldable pub run_experiment : CaseSuite → Json → Result Error ExperimentResult
  unfolding validate_mitigation_spec run_on
  run_experiment suite raw = do
    spec ← validate_mitigation_spec upper cm.accepts raw
    require (str_eq spec.mitigation_id suite.mitigation_id) (spec_mismatch "mitigation_id")
    require (str_eq spec.runtime.safeguard_id suite.safeguard_id) (spec_mismatch "safeguard_id")
    require (contains suite.case_id spec.regression_cases) (spec_mismatch "case_id")
    run_on suite spec
