-- ===== src/Lab/Benchmark/Verdict.antt =====
-- What a PASS of `run_historical_benchmark` says of a benchmark that has loaded.
use llm_evaluation_lab.Base.{
  ◌<◌, String, ◌≡◌, ◌≢◌, ◌↔◌, refl, sym, ◌∙◌, Bool, true, false, not, List, [], ◌∷◌, All, count,
  is_empty, length, str_eq_iff, arith, if◌then◌else◌,
}
use llm_evaluation_lab.Base.Result.{ok}
use llm_evaluation_lab.Lab.Historical.{HistoricalCase, HistoricalBenchmarkSuite}
use llm_evaluation_lab.Lab.Historical.Pairing.{KnownCase}
use llm_evaluation_lab.Lab.Historical.Load.{IsBenchmark, mechanism_ids}
use llm_evaluation_lab.Lab.Float.{Arithmetic}
use llm_evaluation_lab.Lab.Benchmark.{
  BenchmarkResult, case_mapping, confidence_only_baseline, constraint_gate_policy, regression_pass,
  benchmark_result, run_historical_benchmark,
}
use llm_evaluation_lab.Lab.Benchmark.Gate.{gate_accepts, gate-eq_accepts}
use llm_evaluation_lab.Lab.Benchmark.Report.{
  is_wrong, right-wrong, right-All, wrong-none, length-failures, benchmark_report,
  evaluate_historical_policy-eq-report,
}

-- The suite is judged as its author expects: the gate accepts exactly the cases that are to be
-- accepted, and there are as many of these, as many of the others, and as many cases that the
-- baseline decides wrongly, as mechanisms.
pub record IsJudged (s : HistoricalBenchmarkSuite) : Type 0 where
  pub gate : All (λ c. gate_accepts c ≡ c.expected_accept) s.cases
  pub traps : count (λ c. not c.expected_accept) s.cases ≡ length s.mechanisms
  pub controls : count (λ c. c.expected_accept) s.cases ≡ length s.mechanisms
  pub caught : count (is_wrong confidence_only_baseline) s.cases ≡ length s.mechanisms

gate_right→accepts :
    (ids : List String) (cs : List HistoricalCase)
    → All (KnownCase ids) cs
    → All (λ c. constraint_gate_policy (case_mapping c) ≡ c.expected_accept) cs
      ↔ All (λ c. gate_accepts c ≡ c.expected_accept) cs
gate_right→accepts ids [] k = ((λ _. tt), λ _. tt)
gate_right→accepts ids (c ∷ cs) k =
    let e = gate-eq_accepts c k.0.0.constrained in
    let (there, back) = gate_right→accepts ids cs k.1 in
    ((λ h. (sym e ∙ h.0, there h.1)), λ h. (e ∙ h.0, back h.1))

is_empty-length : {A : Type 0} (xs : List A) → (is_empty xs ≡ true) ↔ (length xs ≡ 0)
is_empty-length [] = ((λ _. refl), λ _. refl)
is_empty-length (x ∷ xs) = ((λ h. cc), λ h. cc)

-- The Boolean of the source, as the four conditions that it joins.
regression_pass_iff :
    (s : HistoricalBenchmarkSuite) (bs ts : List String)
    → (regression_pass s bs ts ≡ true) ↔ (
        (length bs ≡ length s.mechanisms)
        × (length ts ≡ 0)
        × (count (λ c. not c.expected_accept) s.cases ≡ length s.mechanisms)
        × (count (λ c. c.expected_accept) s.cases ≡ length s.mechanisms))
unfolding regression_pass
regression_pass_iff s bs ts =
    ((λ h. ground (arith, is_empty-length ts)), λ h. ground (arith, is_empty-length ts))

fail≢pass : ◌≢◌ {A = String} "FAIL" "PASS"
fail≢pass = ground (arith, str_eq_iff "FAIL" "PASS")

status_iff : (b : Bool) → (◌≡◌ {A = String} (if b then "PASS" else "FAIL") "PASS") ↔ (b ≡ true)
status_iff true = ((λ _. refl), λ _. refl)
status_iff false = ((λ h. absurd (fail≢pass h)), λ h. cc)

not-empty : {A : Type 0} (xs : List A) → 0 < length xs → is_empty xs ≡ false
not-empty [] h = absurd (omega arith)
not-empty (x ∷ xs) h = refl

module _ (a : Arithmetic) where
  -- The result on a suite with a case.
  abbrev judged : HistoricalBenchmarkSuite → BenchmarkResult
  judged s =
      benchmark_result a s (benchmark_report a "confidence_only" confidence_only_baseline s.cases)
        (benchmark_report a "uniform_constraint_gate" constraint_gate_policy s.cases)

  run-eq-judged :
      (s : HistoricalBenchmarkSuite)
      → 0 < length s.cases
      → run_historical_benchmark a s ≡ ok (judged s)
  unfolding run_historical_benchmark
  run-eq-judged s h =
      rw (evaluate_historical_policy-eq-report a "confidence_only" confidence_only_baseline s.cases)
        (rw
          (evaluate_historical_policy-eq-report a "uniform_constraint_gate" constraint_gate_policy
            s.cases)
          (rw (not-empty s.cases h)))

  judged_iff :
      (s : HistoricalBenchmarkSuite)
      → IsBenchmark s
      → (regression_pass s (judged s).baseline.failures (judged s).treatment.failures ≡ true)
        ↔ IsJudged s
  unfolding benchmark_result
  judged_iff s b =
      let bs = (benchmark_report a "confidence_only" confidence_only_baseline s.cases).failures in
      let ts =
        (benchmark_report a "uniform_constraint_gate" constraint_gate_policy s.cases).failures in
      let (there, back) = regression_pass_iff s bs ts in
      let eb = length-failures a confidence_only_baseline s.cases in
      let et = length-failures a constraint_gate_policy s.cases in
      let rw' = right-wrong constraint_gate_policy s.cases in
      let (to, from) = gate_right→accepts (mechanism_ids s.mechanisms) s.cases b.paired.known in
      (
        λ h.
            let (caught, none, traps, controls) = there h in
            record {
              gate = to (wrong-none a constraint_gate_policy s.cases (omega arith));
              traps = traps;
              controls = controls;
              caught = sym eb ∙ caught;
            },
        λ j. back (
          eb ∙ j.caught,
          omega (arith, right-All a constraint_gate_policy s.cases (from j.gate)),
          j.traps,
          j.controls,
        ),
      )

  -- A benchmark that has loaded always runs to a result, and the result's status is PASS exactly
  -- when the suite is judged: the gate accepts just the cases whose evidence is SUPPORTED and whose
  -- constraints all PASS and these are the cases to accept, and the cases to accept, the cases to
  -- refuse and the baseline's wrong decisions are each as many as the mechanisms.
  pub run_historical_benchmark-pass_iff :
      (s : HistoricalBenchmarkSuite)
      → IsBenchmark s
      → (r : BenchmarkResult) × (run_historical_benchmark a s ≡ ok r)
        × ((r.regression.status ≡ "PASS") ↔ IsJudged s)
  run_historical_benchmark-pass_iff s b =
      let (there, back) = judged_iff s b in
      let status =
        status_iff (regression_pass s (judged s).baseline.failures (judged s).treatment.failures) in
      (
        judged s,
        run-eq-judged s b.inhabited,
        unfold benchmark_result in ((λ h. there (status.0 h)), λ j. status.1 (back j)),
      )
