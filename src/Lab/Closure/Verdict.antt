-- ===== src/Lab/Closure/Verdict.antt =====
-- What the status of a closure experiment says of the guard and of the known-bad baseline.
use llm_evaluation_lab.Base.{
  String, Bool, true, false, not, ◌&&◌, ◌≡◌, ◌↔◌, refl, sym, ap, ◌∙◌, List, [], ◌∷◌, map, filter,
  is_empty, All, arith, str_eq, str_eq_iff, Bool-cases, inl, inr, and-true,
}
use llm_evaluation_lab.Base.Result.{ok, bind-ok, require-ok, ok-injective}
use llm_evaluation_lab.Json.{Json}
use llm_evaluation_lab.Lab.Read.{contains}
use llm_evaluation_lab.Lab.Cases.{Child, Case}
use llm_evaluation_lab.Lab.Float.{Arithmetic}
use llm_evaluation_lab.Lab.Policy.{PolicyResult, naive_any_done, evaluate_policy}
use llm_evaluation_lab.Lab.Policy.Report.{is_wrong, policy_report, evaluate_policy-eq-report}
use llm_evaluation_lab.Lab.Mitigation.{CaseSuite, MitigationSpec, validate_mitigation_spec}
use llm_evaluation_lab.Lab.Closure.{
  CompanionMind, ExperimentResult, treatment_policy, status_of, run_on, run_experiment,
}

status_of-pass_iff : (b : Bool) → ◌↔◌ (◌≡◌ {A = String} (status_of b) "PASS") (b ≡ true)
status_of-pass_iff true = (λ _. refl, λ _. refl)
status_of-pass_iff false = (λ e. ground (arith, str_eq_iff "FAIL" "PASS"), λ e. cc)

none_wrong_iff :
    (policy : List Child → Bool) (cs : List Case)
    → (is_empty (map (λ (c : Case). c.variant_id) (filter (is_wrong policy) cs)) ≡ true)
      ↔ All (λ c. policy c.children ≡ c.expected_close) cs
none_wrong_iff policy [] = (λ _. tt, λ _. refl)
none_wrong_iff policy (c ∷ cs) =
    let (forth, back) = none_wrong_iff policy cs in
    (λ h. ground (arith, forth), λ (e, all). let rest = back all in ground (arith, e, rest))

-- The policy decides every case as expected.
abbrev pub Decides : (List Child → Bool) → List Case → Type 0
Decides policy cs = All (λ (c : Case). policy c.children ≡ c.expected_close) cs

verdict_iff :
    (known_bad guard : List Child → Bool) (cs : List Case)
    → ((not (is_empty (map (λ (c : Case). c.variant_id) (filter (is_wrong known_bad) cs)))
          && is_empty (map (λ (c : Case). c.variant_id) (filter (is_wrong guard) cs)))
        ≡ true)
      ↔ ((¬ (Decides known_bad cs)) × Decides guard cs)
verdict_iff known_bad guard cs =
    let failures = map (λ (c : Case). c.variant_id) (filter (is_wrong known_bad) cs) in
    let misses = map (λ (c : Case). c.variant_id) (filter (is_wrong guard) cs) in
    let (bad_forth, bad_back) = none_wrong_iff known_bad cs in
    let (forth, back) = none_wrong_iff guard cs in
    (
      λ h.
          let (some_wrong, none_missed) = and-true (not (is_empty failures)) (is_empty misses) h in
          ((λ all. let e = bad_back all in ground (arith, e, some_wrong)), forth none_missed),
      λ (caught, decides).
          let clean = back decides in
          elim (Bool-cases (is_empty failures)) [
            | inl e ↦ absurd (caught (bad_forth e))
            | inr e ↦ rw e clean
          ],
    )

module _ (a : Arithmetic) (upper : String → String) (cm : CompanionMind) where
  evaluated :
      (name : String) (policy : List Child → Bool) (cs : List Case) {r : PolicyResult}
      → evaluate_policy a name policy cs ≡ ok r
      → r ≡ policy_report a name policy cs
  evaluated name policy [] h = cc (evaluate_policy-eq-report a name policy [])
  evaluated name policy (c ∷ cs) h =
      ok-injective (sym h ∙ evaluate_policy-eq-report a name policy (c ∷ cs))

  run_on-pass_iff :
      (suite : CaseSuite) (spec : MitigationSpec) {r : ExperimentResult}
      → run_on a upper cm suite spec ≡ ok r
      → (r.regression.status ≡ "PASS") ↔ (
          (¬ (Decides (naive_any_done upper) suite.cases))
          × Decides (treatment_policy a upper cm spec) suite.cases)
  unfolding run_on
  run_on-pass_iff suite spec {r} h =
      let naive = naive_any_done upper in
      let guard = treatment_policy a upper cm spec in
      let (baseline, eb, h1) = bind-ok (evaluate_policy a "naive_any_done" naive suite.cases) _ h in
      let (treatment, et, h2) =
        bind-ok (evaluate_policy a suite.safeguard_id guard suite.cases) _ h1 in
      let (probe, ep, h3) =
        bind-ok (evaluate_policy a "known_bad_regression_probe" naive suite.cases) _ h2 in
      let status : r.regression.status
          ≡ status_of (not (is_empty probe.failures) && is_empty treatment.failures) =
        ap (λ (x : ExperimentResult). x.regression.status) (sym (ok-injective h3)) in
      let reported : status_of (not (is_empty probe.failures) && is_empty treatment.failures)
          ≡ status_of (
              not
                (is_empty (policy_report a "known_bad_regression_probe" naive suite.cases).failures)
              && is_empty (policy_report a suite.safeguard_id guard suite.cases).failures) =
        λ i. status_of (
          not (is_empty (evaluated "known_bad_regression_probe" naive suite.cases ep i).failures)
          && is_empty (evaluated suite.safeguard_id guard suite.cases et i).failures) in
      let (pass_forth, pass_back) = status_of-pass_iff (
        not (is_empty (policy_report a "known_bad_regression_probe" naive suite.cases).failures)
        && is_empty (policy_report a suite.safeguard_id guard suite.cases).failures) in
      let (forth, back) = verdict_iff naive guard suite.cases in
      (
        λ e. forth (pass_forth (sym reported ∙ sym status ∙ e)),
        λ x. status ∙ reported ∙ pass_back (back x),
      )

  -- A closure experiment that returns has validated its spec, which names the suite's mitigation and
  -- safeguard. Its status is PASS exactly when the known-bad baseline decides some case wrongly and
  -- the guard decides every case as expected.
  pub run_experiment-pass_iff :
      (suite : CaseSuite) (raw : Json) {r : ExperimentResult}
      → run_experiment a upper cm suite raw ≡ ok r
      → (spec : MitigationSpec) × (validate_mitigation_spec upper cm.accepts raw ≡ ok spec)
        × (spec.mitigation_id ≡ suite.mitigation_id)
        × (spec.runtime.safeguard_id ≡ suite.safeguard_id)
        × ((r.regression.status ≡ "PASS") ↔ (
            (¬ (Decides (naive_any_done upper) suite.cases))
            × Decides (treatment_policy a upper cm spec) suite.cases))
  unfolding run_experiment
  run_experiment-pass_iff suite raw h =
      let (spec, valid, h1) = bind-ok (validate_mitigation_spec upper cm.accepts raw) _ h in
      let (e1, h2) = require-ok (str_eq spec.mitigation_id suite.mitigation_id) _ _ h1 in
      let (e2, h3) = require-ok (str_eq spec.runtime.safeguard_id suite.safeguard_id) _ _ h2 in
      let (_, h4) = require-ok (contains suite.case_id spec.regression_cases) _ _ h3 in
      (
        spec,
        valid,
        (str_eq_iff spec.mitigation_id suite.mitigation_id).0 e1,
        (str_eq_iff spec.runtime.safeguard_id suite.safeguard_id).0 e2,
        run_on-pass_iff suite spec h4,
      )
