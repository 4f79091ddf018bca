-- ===== src/Lab/Policy.antt =====
-- evaluation_lab.py: the policies, and the harness that runs one over a suite's cases.
pub mod Report
use llm_evaluation_lab.Base.{
  ℕ, zero, suc, ◌+◌, ◌-◌, String, Bool, true, false, not, ◌&&◌, List, [], ◌∷◌, ◌++◌, map, any, all,
  is_empty, length, str_eq, same, ◌==◌, if◌then◌else◌,
}
use llm_evaluation_lab.Base.Result.{Result, ok, err}
use llm_evaluation_lab.Json.{
  Json, null, bool, int, float, str, arr, obj, Fields, end, field, Items, items, array, get, Float,
}
use llm_evaluation_lab.Lab.Error.{Error, no_cases}
use llm_evaluation_lab.Lab.Cases.{Child, Case}
use llm_evaluation_lab.Lab.Historical.{HistoricalCase, Constraint}
use llm_evaluation_lab.Lab.Float.{Arithmetic}

-- `naive_any_done`, over `str.upper` of Python.
unfoldable pub naive_any_done : (String → String) → List Child → Bool
naive_any_done upper children = any (λ child. str_eq (upper child.status) "DONE") children

pub record Prediction : Type 0 where
  pub variant_id : String
  pub expected_close : Bool
  pub predicted_close : Bool
  pub correct : Bool

pub record PolicyResult : Type 0 where
  pub policy : String
  pub accuracy : Float
  pub premature_closure_rate : Float
  pub failures : List String
  pub predictions : List Prediction

-- The variables of the loop in `evaluate_policy`.
pub record Tally : Type 0 where
  pub predictions : List Prediction
  pub failures : List String
  pub negatives : ℕ
  pub premature : ℕ

unfoldable pub tally_case : (List Child → Bool) → Case → Tally → Tally
tally_case policy c t =
    let predicted = policy c.children in
    let correct = same predicted c.expected_close in
    record {
      predictions =
          t.predictions
          ++ record {
            variant_id = c.variant_id;
            expected_close = c.expected_close;
            predicted_close = predicted;
            correct = correct;
          }
            ∷ [];
      failures = if correct then t.failures else t.failures ++ c.variant_id ∷ [];
      negatives = if c.expected_close then t.negatives else t.negatives + 1;
      premature = if not c.expected_close && predicted then t.premature + 1 else t.premature;
    }

unfoldable pub tally_from : (List Child → Bool) → Tally → List Case → Tally
tally_from policy t [] = t
tally_from policy t (c ∷ cs) = tally_from policy (tally_case policy c t) cs

abbrev pub empty_tally : Tally
empty_tally = record { predictions = []; failures = []; negatives = 0; premature = 0 }

module _ (a : Arithmetic) where
  open a use {div, float_zero}

  -- `x / y if y else 0.0`
  unfoldable pub ratio_or_zero : ℕ → ℕ → Float
  ratio_or_zero x y = if y == 0 then float_zero else div x y

  unfoldable pub policy_result : String → ℕ → Tally → PolicyResult
  policy_result name cases t = record {
    policy = name;
    accuracy = div (cases - length t.failures) cases;
    premature_closure_rate = ratio_or_zero t.premature t.negatives;
    failures = t.failures;
    predictions = t.predictions;
  }

  unfoldable pub evaluate_policy :
      String → (List Child → Bool) → List Case → Result Error PolicyResult
  unfolding policy_result ratio_or_zero tally_from tally_case
  evaluate_policy name policy cases =
      if is_empty cases
      then err no_cases
      else ok (policy_result name (length cases) (tally_from policy empty_tally cases))
