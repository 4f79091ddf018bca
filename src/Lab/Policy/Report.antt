-- ===== src/Lab/Policy/Report.antt =====
-- The loop of `evaluate_policy` against a description without a loop.
use llm_evaluation_lab.Base.{
  ℕ, suc, ◌+◌, ◌-◌, ◌≤◌, ◌^◌, String, ◌≡◌, refl, sym, subst, ap, ◌∙◌, Bool, true, false, not, ◌&&◌,
  ◌↔◌, List, [], ◌∷◌, ◌++◌, All, map, filter, count, is_empty, length, length-map, length-filter,
  count-le-length, append-nil, append_assoc, same, arith, if◌then◌else◌,
}
use llm_evaluation_lab.Base.Result.{ok, err, ok-injective}
use llm_evaluation_lab.Lab.Error.{no_cases}
use llm_evaluation_lab.Lab.Cases.{Child, Case}
use llm_evaluation_lab.Lab.Float.{Arithmetic}
use llm_evaluation_lab.Lab.Policy.{
  Prediction, PolicyResult, Tally, tally_case, tally_from, empty_tally, ratio_or_zero,
  policy_result, evaluate_policy,
}

-- One more element, noted or not, and then the rest of the list.
pub append_if :
    {A : Type 0} (b : Bool) (f : A → String) (xs : List String) (c : A) (cs : List A)
    → (if b then xs else xs ++ f c ∷ []) ++ map f cs ≡ xs ++ map f (if not b then c ∷ cs else cs)
append_if true f xs c cs = refl
append_if false f xs c cs = append_assoc xs (f c ∷ []) (map f cs)

pub add_if : (b : Bool) (n k : ℕ) → (if b then n + 1 else n) + k ≡ n + (if b then suc k else k)
add_if b n k = ground arith

pub add_if_not :
    (b : Bool) (n k : ℕ) → (if b then n else n + 1) + k ≡ n + (if not b then suc k else k)
add_if_not b n k = ground arith

module _ (policy : List Child → Bool) where
  abbrev pub is_right : Case → Bool
  is_right c = same (policy c.children) c.expected_close

  abbrev pub is_wrong : Case → Bool
  is_wrong c = not (same (policy c.children) c.expected_close)

  abbrev pub is_premature : Case → Bool
  is_premature c = not c.expected_close && policy c.children

  abbrev pub prediction : Case → Prediction
  prediction c = record {
    variant_id = c.variant_id;
    expected_close = c.expected_close;
    predicted_close = policy c.children;
    correct = same (policy c.children) c.expected_close;
  }

  abbrev tally_spec : Tally → List Case → Tally
  tally_spec t cs = record {
    predictions = t.predictions ++ map prediction cs;
    failures = t.failures ++ map (λ c. c.variant_id) (filter is_wrong cs);
    negatives = t.negatives + count (λ c. not c.expected_close) cs;
    premature = t.premature + count is_premature cs;
  }

  tally_step :
      (t : Tally) (c : Case) (cs : List Case)
      → tally_spec (tally_case policy c t) cs ≡ tally_spec t (c ∷ cs)
  unfolding tally_case
  tally_step t c cs = λ i. record {
    predictions = append_assoc t.predictions (prediction c ∷ []) (map prediction cs) i;
    failures =
        append_if (same (policy c.children) c.expected_close) (λ (d : Case). d.variant_id)
          t.failures c (filter is_wrong cs) i;
    negatives = add_if_not c.expected_close t.negatives (count (λ d. not d.expected_close) cs) i;
    premature = add_if (is_premature c) t.premature (count is_premature cs) i;
  }

  tally_from-eq-spec : (t : Tally) (cs : List Case) → tally_from policy t cs ≡ tally_spec t cs
  unfolding tally_from
  tally_from-eq-spec t [] = simp append-nil (ground arith)
  tally_from-eq-spec t (c ∷ cs) = tally_from-eq-spec (tally_case policy c t) cs ∙ tally_step t c cs

  right-wrong : (cs : List Case) → count is_right cs + count is_wrong cs ≡ length cs
  right-wrong [] = omega arith
  right-wrong (c ∷ cs) = ground (arith, right-wrong cs)

module _ (a : Arithmetic) where
  open a use {div, float_one, div_self, div_eq_one}

  -- The result of `evaluate_policy` without its loop: each field counts or selects cases.
  abbrev pub policy_report : String → (List Child → Bool) → List Case → PolicyResult
  policy_report name policy cs = record {
    policy = name;
    accuracy = div (count (is_right policy) cs) (length cs);
    premature_closure_rate =
        ratio_or_zero a (count (is_premature policy) cs) (count (λ c. not c.expected_close) cs);
    failures = map (λ c. c.variant_id) (filter (is_wrong policy) cs);
    predictions = map (prediction policy) cs;
  }

  length-failures :
      (policy : List Child → Bool) (cs : List Case)
      → length (map (λ (c : Case). c.variant_id) (filter (is_wrong policy) cs))
        ≡ count (is_wrong policy) cs
  length-failures policy cs =
      length-map (λ (c : Case). c.variant_id) (filter (is_wrong policy) cs)
      ∙ length-filter (is_wrong policy) cs

  policy_result-eq-report :
      (name : String) (policy : List Child → Bool) (cs : List Case)
      → policy_result a name (length cs) (tally_from policy empty_tally cs)
        ≡ policy_report name policy cs
  unfolding policy_result
  policy_result-eq-report name policy cs = rw (tally_from-eq-spec policy empty_tally cs) (λ i.
      record {
        policy = name;
        accuracy = div (right i) (length cs);
        premature_closure_rate =
            ratio_or_zero a (none_before (count (is_premature policy) cs) i)
              (none_before (count (λ (c : Case). not c.expected_close) cs) i);
        failures = map (λ c. c.variant_id) (filter (is_wrong policy) cs);
        predictions = map (prediction policy) cs;
      })
    where
      none_before : (n : ℕ) → 0 + n ≡ n
      none_before n = omega arith

      right :
          length cs - length (map (λ (c : Case). c.variant_id) (filter (is_wrong policy) cs))
          ≡ count (is_right policy) cs
      right = omega (arith, right-wrong policy cs, length-failures policy cs)

  -- On every suite: no case is an error; otherwise the accuracy is the share of the cases that the
  -- policy decides as expected, the failures are the other cases' identifiers in their order, there
  -- is a prediction for each case, and the rate is the share of wrong closures among the cases that
  -- must stay open, 0.0 if there are none.
  pub evaluate_policy-eq-report :
      (name : String) (policy : List Child → Bool) (cs : List Case)
      → evaluate_policy a name policy cs
        ≡ (if is_empty cs then err no_cases else ok (policy_report name policy cs))
  unfolding evaluate_policy
  evaluate_policy-eq-report name policy cs = rw (policy_result-eq-report name policy cs)

  wrong-none :
      (policy : List Child → Bool) (cs : List Case)
      → count (is_right policy) cs ≡ length cs
      → All (λ c. policy c.children ≡ c.expected_close) cs
  wrong-none policy [] h = tt
  wrong-none policy (c ∷ cs) h =
      ground (arith, count-le-length (is_right policy) cs, wrong-none policy cs)

  right-All :
      (policy : List Child → Bool) (cs : List Case)
      → All (λ c. policy c.children ≡ c.expected_close) cs
      → count (is_right policy) cs ≡ length cs
  right-All policy [] h = refl
  right-All policy (c ∷ cs) h = ground (arith, right-All policy cs h.1)

  -- Of a suite of at least one and at most 2 ^ 53 cases the accuracy is the float 1.0 exactly when
  -- the policy decides every case as expected.
  pub accuracy-one_iff :
      (name : String) (policy : List Child → Bool) (cs : List Case) {r : PolicyResult}
      → length cs ≤ 2 ^ 53
      → evaluate_policy a name policy cs ≡ ok r
      → (r.accuracy ≡ float_one) ↔ All (λ c. policy c.children ≡ c.expected_close) cs
  accuracy-one_iff name policy [] small h = cc (evaluate_policy-eq-report name policy [])
  accuracy-one_iff name policy (c ∷ cs) {r} small h =
      let e : policy_report name policy (c ∷ cs) ≡ r =
        ok-injective (sym (evaluate_policy-eq-report name policy (c ∷ cs)) ∙ h) in
      subst
        (λ (s : PolicyResult).
          (s.accuracy ≡ float_one) ↔ All (λ c. policy c.children ≡ c.expected_close) (c ∷ cs))
        e
        (
          λ one. wrong-none policy (c ∷ cs) (
              div_eq_one (count (is_right policy) (c ∷ cs)) (length (c ∷ cs)) (omega arith)
                (count-le-length (is_right policy) (c ∷ cs)) small one),
          λ all.
              ap (λ n. div n (length (c ∷ cs))) (right-All policy (c ∷ cs) all)
              ∙ div_self (length (c ∷ cs)) (omega arith),
        )
