-- ===== src/Cup/Judge/Points.antt =====
-- The judgment of one lead: what it can earn and what its faults cost.
use llm_evaluation_lab.Base.{
  ℕ, ◌+◌, ◌*◌, ◌≤◌, String, true, false, ◌≡◌, refl, List, [], ◌∷◌, arith, Bool-cases, inl, inr,
}
use llm_evaluation_lab.Lab.Read.{contains}
use llm_evaluation_lab.Cup.Contracts.{Lead}
use llm_evaluation_lab.Cup.Registry.{RegistryLeadAssessment}
use llm_evaluation_lab.Cup.Judge.{
  LeadJudgment, Fault, faults, penalty_of, reasons_of, lead_judgment,
}

penalty_of-double : (fs : List Fault) → penalty_of 2 fs ≡ 2 * penalty_of 1 fs
unfolding penalty_of
penalty_of-double [] = refl
penalty_of-double (f ∷ fs) = ground (arith, penalty_of-double fs)

-- The sum of what the faults found cost.
cost : List Fault → ℕ
cost [] = 0
cost (f ∷ fs) = f.points + cost fs

penalty_of-le-cost : (fs : List Fault) → penalty_of 1 fs ≤ cost fs
unfolding penalty_of cost
penalty_of-le-cost [] = omega arith
penalty_of-le-cost (f ∷ fs) = ground (arith, penalty_of-le-cost fs)

no_reason-no_penalty : (fs : List Fault) → reasons_of fs ≡ [] → penalty_of 1 fs ≡ 0
unfolding penalty_of reasons_of
no_reason-no_penalty [] h = refl
no_reason-no_penalty (f ∷ fs) h = ground (arith, no_reason-no_penalty fs)

-- The points that a judgment earns, before the penalty.
abbrev pub earned : LeadJudgment → ℕ
earned j =
    j.real_open_points + j.practical_fit_points + j.novelty_points + j.geography_points
    + j.actionability_points

pub record IsJust (lower : String → String) (lead : Lead) (a : RegistryLeadAssessment)
    (known apply_now : List String) (j : LeadJudgment) : Type 0 where
  -- A fabricated lead earns and loses nothing.
  pub fabricated : a.fabricated ≡ true → (earned j ≡ 0) × (j.penalty ≡ 0)
  pub at_most : earned j ≤ 95
  -- Recommending a lead for immediate application doubles its penalty.
  pub doubled :
      contains lead.source_url apply_now ≡ true
      → (j.penalty ≡ 2 * (lead_judgment lower lead a known []).penalty) × (j.penalty ≤ 48)
  pub undoubled :
      contains lead.source_url apply_now ≡ false
      → (j.penalty ≡ (lead_judgment lower lead a known []).penalty) × (j.penalty ≤ 24)
  pub explained : j.reasons ≡ [] → j.penalty ≡ 0

cost-faults :
    (lower : String → String) (lead : Lead) (a : RegistryLeadAssessment) (known : List String)
    → cost (faults lower lead a known) ≡ 24
unfolding faults cost
cost-faults lower lead a known = omega arith

-- On every lead and assessment: a judgment earns at most 95 points; it loses at most 24, or 48 if the
-- lead is recommended for immediate application, which doubles what it loses otherwise; it loses
-- nothing without a reason; and a fabricated lead earns and loses nothing.
pub lead_judgment-IsJust :
    (lower : String → String) (lead : Lead) (a : RegistryLeadAssessment)
    (known apply_now : List String)
    → IsJust lower lead a known apply_now (lead_judgment lower lead a known apply_now)
unfolding lead_judgment
lead_judgment-IsJust lower lead a known apply_now =
    let fs = faults lower lead a known in
    let scaled = penalty_of-double fs in
    let least = penalty_of-le-cost fs in
    let total = cost-faults lower lead a known in
    elim (Bool-cases a.fabricated) [
      | inl e ↦ rw e (record {
        fabricated = λ _. (refl, refl);
        at_most = omega arith;
        doubled = λ _. (refl, omega arith);
        undoubled = λ _. (refl, omega arith);
        explained = λ _. refl;
      })
      | inr e ↦ rw e (record {
        fabricated = λ x. ground arith;
        at_most = ground arith;
        doubled = λ yes. rw yes (scaled, omega arith);
        undoubled = λ no. rw no (refl, omega arith);
        explained = λ none. let unpaid = no_reason-no_penalty fs none in ground arith;
      })
    ]
