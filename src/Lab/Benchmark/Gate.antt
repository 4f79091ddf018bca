-- ===== src/Lab/Benchmark/Gate.antt =====
-- The two policies of the benchmark on a validated case, without the mapping.
use llm_evaluation_lab.Base.{◌≡◌, ◌≢◌, refl, ap, Bool, ◌&&◌, List, [], ◌∷◌, map, all, str_eq}
use llm_evaluation_lab.Json.{arr, array, items-array, get}
use llm_evaluation_lab.Lab.Historical.{Constraint, HistoricalCase}
use llm_evaluation_lab.Lab.Benchmark.{
  confidence_only_baseline, passes, constraints_pass, constraint_gate_policy, constraint_mapping,
  case_mapping,
}

-- Evidence is SUPPORTED, and each constraint has passed.
abbrev pub gate_accepts : HistoricalCase → Bool
gate_accepts c =
    str_eq c.evidence_state "SUPPORTED" && all (λ k. str_eq k.status "PASS") c.constraints

all-mapping :
    (ks : List Constraint)
    → all passes (map constraint_mapping ks) ≡ all (λ k. str_eq k.status "PASS") ks
unfolding passes constraint_mapping get
all-mapping [] = refl
all-mapping (k ∷ ks) = ap (λ b. str_eq k.status "PASS" && b) (all-mapping ks)

constraints_pass-mapping :
    (ks : List Constraint)
    → ks ≢ []
    → constraints_pass (arr (array (map constraint_mapping ks)))
      ≡ all (λ k. str_eq k.status "PASS") ks
unfolding constraints_pass
constraints_pass-mapping [] ne = absurd (ne refl)
constraints_pass-mapping (k ∷ ks) ne =
    rw (items-array (map constraint_mapping (k ∷ ks))) (all-mapping (k ∷ ks))

-- On the mapping of a case with at least one constraint, the gate accepts exactly when the evidence
-- is SUPPORTED and every constraint's status is PASS.
pub gate-eq_accepts :
    (c : HistoricalCase)
    → c.constraints ≢ []
    → constraint_gate_policy (case_mapping c) ≡ gate_accepts c
unfolding constraint_gate_policy case_mapping get
gate-eq_accepts c ne =
    ap (λ b. str_eq c.evidence_state "SUPPORTED" && b) (constraints_pass-mapping c.constraints ne)

pub baseline-eq_high :
    (c : HistoricalCase)
    → confidence_only_baseline (case_mapping c) ≡ str_eq c.surface_confidence "HIGH"
unfolding confidence_only_baseline case_mapping get
baseline-eq_high c = refl
