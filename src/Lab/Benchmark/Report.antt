-- ===== src/Lab/Benchmark/Report.antt =====
-- The loop of `evaluate_historical_policy` against a description without a loop.
use llm_evaluation_lab.Base.{
  ℕ, ◌+◌, ◌-◌, String, ◌≡◌, refl, ◌∙◌, Bool, not, ◌&&◌, List, [], ◌∷◌, ◌++◌, All, map, filter,
  count, is_empty, length, length-map, length-filter, count-le-length, append-nil, append_assoc,
  same, arith, if◌then◌else◌,
}
use llm_evaluation_lab.Base.Result.{ok, err}
use llm_evaluation_lab.Json.{Fields}
use llm_evaluation_lab.Lab.Error.{no_cases}
use llm_evaluation_lab.Lab.Historical.{HistoricalCase}
use llm_evaluation_lab.Lab.Float.{Arithmetic}
use llm_evaluation_lab.Lab.Policy.{ratio_or_zero}
use llm_evaluation_lab.Lab.Policy.Report.{append_if, add_if, add_if_not}
use llm_evaluation_lab.Lab.Benchmark.{
  BenchmarkPrediction, BenchmarkPolicyResult, BenchmarkTally, case_mapping, tally_case, tally_from,
  empty_tally, benchmark_policy_result, evaluate_historical_policy,
}

module _ (policy : Fields → Bool) where
  abbrev pub is_right : HistoricalCase → Bool
  is_right c = same (policy (case_mapping c)) c.expected_accept

  abbrev pub is_wrong : HistoricalCase → Bool
  is_wrong c = not (same (policy (case_mapping c)) c.expected_accept)

  abbrev pub is_false_accept : HistoricalCase → Bool
  is_false_accept c = not c.expected_accept && policy (case_mapping c)

  abbrev pub prediction : HistoricalCase → BenchmarkPrediction
  prediction c = record {
    variant_id = c.variant_id;
    mechanism_id = c.mechanism_id;
    variant = c.variant;
    expected_accept = c.expected_accept;
    predicted_accept = policy (case_mapping c);
    correct = same (policy (case_mapping c)) c.expected_accept;
  }

  abbrev tally_spec : BenchmarkTally → List HistoricalCase → BenchmarkTally
  tally_spec t cs = record {
    predictions = t.predictions ++ map prediction cs;
    failures = t.failures ++ map (λ c. c.variant_id) (filter is_wrong cs);
    negatives = t.negatives + count (λ c. not c.expected_accept) cs;
    false_accepts = t.false_accepts + count is_false_accept cs;
  }

  tally_step :
      (t : BenchmarkTally) (c : HistoricalCase) (cs : List HistoricalCase)
      → tally_spec (tally_case policy c t) cs ≡ tally_spec t (c ∷ cs)
  unfolding tally_case
  tally_step t c cs = λ i. record {
    predictions = append_assoc t.predictions (prediction c ∷ []) (map prediction cs) i;
    failures =
        append_if (same (policy (case_mapping c)) c.expected_accept)
          (λ (d : HistoricalCase). d.variant_id) t.failures c (filter is_wrong cs) i;
    negatives = add_if_not c.expected_accept t.negatives (count (λ d. not d.expected_accept) cs) i;
    false_accepts = add_if (is_false_accept c) t.false_accepts (count is_false_accept cs) i;
  }

  tally_from-eq-spec :
      (t : BenchmarkTally) (cs : List HistoricalCase) → tally_from policy t cs ≡ tally_spec t cs
  unfolding tally_from
  tally_from-eq-spec t [] = simp append-nil (ground arith)
  tally_from-eq-spec t (c ∷ cs) = tally_from-eq-spec (tally_case policy c t) cs ∙ tally_step t c cs

  pub right-wrong : (cs : List HistoricalCase) → count is_right cs + count is_wrong cs ≡ length cs
  right-wrong [] = omega arith
  right-wrong (c ∷ cs) = ground (arith, right-wrong cs)

module _ (a : Arithmetic) where
  open a use {div, float_one, div_self, div_eq_one}

  -- The result of `evaluate_historical_policy` without its loop: each field counts or selects cases.
  abbrev pub benchmark_report :
      String → (Fields → Bool) → List HistoricalCase → BenchmarkPolicyResult
  benchmark_report name policy cs = record {
    policy = name;
    accuracy = div (count (is_right policy) cs) (length cs);
    false_accept_rate =
        ratio_or_zero a (count (is_false_accept policy) cs) (count (λ c. not c.expected_accept) cs);
    failures = map (λ c. c.variant_id) (filter (is_wrong policy) cs);
    predictions = map (prediction policy) cs;
  }

  pub length-failures :
      (policy : Fields → Bool) (cs : List HistoricalCase)
      → length (map (λ (c : HistoricalCase). c.variant_id) (filter (is_wrong policy) cs))
        ≡ count (is_wrong policy) cs
  length-failures policy cs =
      length-map (λ (c : HistoricalCase). c.variant_id) (filter (is_wrong policy) cs)
      ∙ length-filter (is_wrong policy) cs

  benchmark_policy_result-eq-report :
      (name : String) (policy : Fields → Bool) (cs : List HistoricalCase)
      → benchmark_policy_result a name (length cs) (tally_from policy empty_tally cs)
        ≡ benchmark_report name policy cs
  unfolding benchmark_policy_result
  benchmark_policy_result-eq-report name policy cs =
      rw (tally_from-eq-spec policy empty_tally cs) (λ i. record {
        policy = name;
        accuracy = div (right i) (length cs);
        false_accept_rate =
            ratio_or_zero a (none_before (count (is_false_accept policy) cs) i)
              (none_before (count (λ (c : HistoricalCase). not c.expected_accept) cs) i);
        failures = map (λ c. c.variant_id) (filter (is_wrong policy) cs);
        predictions = map (prediction policy) cs;
      })
    where
      none_before : (n : ℕ) → 0 + n ≡ n
      none_before n = omega arith

      right :
          length cs
            - length (map (λ (c : HistoricalCase). c.variant_id) (filter (is_wrong policy) cs))
          ≡ count (is_right policy) cs
      right = omega (arith, right-wrong policy cs, length-failures policy cs)

  -- On every suite: no case is an error; otherwise the accuracy is the share of the cases that the
  -- policy decides as expected, the failures are the other cases' identifiers in their order, there
  -- is a prediction for each case, and the rate is the share of wrong acceptances among the cases that
  -- must be refused, 0.0 if there are none.
  pub evaluate_historical_policy-eq-report :
      (name : String) (policy : Fields → Bool) (cs : List HistoricalCase)
      → evaluate_historical_policy a name policy cs
        ≡ (if is_empty cs then err no_cases else ok (benchmark_report name policy cs))
  unfolding evaluate_historical_policy
  evaluate_historical_policy-eq-report name policy cs =
      rw (benchmark_policy_result-eq-report name policy cs)

  pub wrong-none :
      (policy : Fields → Bool) (cs : List HistoricalCase)
      → count (is_right policy) cs ≡ length cs
      → All (λ c. policy (case_mapping c) ≡ c.expected_accept) cs
  wrong-none policy [] h = tt
  wrong-none policy (c ∷ cs) h =
      ground (arith, count-le-length (is_right policy) cs, wrong-none policy cs)

  pub right-All :
      (policy : Fields → Bool) (cs : List HistoricalCase)
      → All (λ c. policy (case_mapping c) ≡ c.expected_accept) cs
      → count (is_right policy) cs ≡ length cs
  right-All policy [] h = refl
  right-All policy (c ∷ cs) h = ground (arith, right-All policy cs h.1)
