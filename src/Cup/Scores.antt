-- ===== src/Cup/Scores.antt =====
-- search_cup/judge.py: `judge_match`, the scores of the frozen submissions and their order.
pub mod Ranking
pub mod Report
pub mod Match
use llm_evaluation_lab.Base.{
  ℕ, zero, suc, ◌+◌, ◌-◌, max, String, Bool, true, false, not, ◌&&◌, ◌||◌, Option, none, some, List,
  [], ◌∷◌, map, count, length, ◌==◌, str_eq, ltb, if◌then◌else◌,
}
use llm_evaluation_lab.Base.Int.{ℤ, pos, negsuc}
use llm_evaluation_lab.Base.Result.{Result, ok, err, ◌>>=◌, ◌>>◌, require}
use llm_evaluation_lab.Json.{Float}
use llm_evaluation_lab.Cup.Error.{Error, value_error}
use llm_evaluation_lab.Cup.Contracts.{Runtime, Lead, Submission, FrozenSubmission, url_key}
use llm_evaluation_lab.Cup.Documents.{thaw_verified}
use llm_evaluation_lab.Cup.Runner.{EntrantOutcome, MatchRun, frozen_outcomes}
use llm_evaluation_lab.Cup.Registry.{
  fingerprint_of, RegistryLeadAssessment, JudgeRegistrySnapshot, assessment_key, text_leb,
}
use llm_evaluation_lab.Cup.Scorecard.{SearchBehaviorProfile, CompetitionScore, report_payload}
use llm_evaluation_lab.Cup.Judge.{Scoring, LeadJudgment, lead_judgment, open_registry}

pub record CompetitionReport : Type 0 where
  pub competition_id : String
  pub candidate_fingerprint : String
  pub competition_fingerprint : String
  pub registry_fingerprint : String
  pub scores : List CompetitionScore
  pub report_fingerprint : String

-- `sum(points(item) for item in judgments)`
unfoldable pub sum_of : (LeadJudgment → ℕ) → List LeadJudgment → ℕ
sum_of points [] = 0
sum_of points (j ∷ js) = points j + sum_of points js

-- `max(1, submission.search_calls)`
abbrev pub at_least_one : ℤ → ℕ
at_least_one (pos n) = max 1 n
at_least_one (negsuc n) = 1

-- The assessment of a lead that the registry does not know
abbrev pub unknown_assessment : String → RegistryLeadAssessment
unknown_assessment source_url = record {
  source_url = source_url;
  real_open = false;
  practical_fit = false;
  geography_eligible = false;
  actionable = false;
  primary_source = false;
  fabricated = false;
  us_only = false;
  senior_or_phd_mismatch = false;
}

module _ (rt : Runtime) (sc : Scoring) where
  open rt use {lower}
  open sc use {div, add, sub, mul, less, whole}

  -- `_assessment_map(snapshot).get(key)`: of two items with one key, the later is in the map.
  unfoldable pub assessment_of :
      List RegistryLeadAssessment → String → Option RegistryLeadAssessment
  assessment_of [] key = none
  assessment_of (a ∷ rest) key = elim (assessment_of rest key) [
    | some b ↦ some b
    | none ↦ if str_eq key (assessment_key rt a) then some a else none
  ]

  abbrev pub assessed : String → Option RegistryLeadAssessment → RegistryLeadAssessment
  assessed source_url none = unknown_assessment source_url
  assessed source_url (some a) = a

  unfoldable pub judge_lead : JudgeRegistrySnapshot → List String → Lead → LeadJudgment
  unfolding lead_judgment assessment_of url_key
  judge_lead snapshot apply_now lead =
      lead_judgment lower lead
        (assessed lead.source_url
          (assessment_of snapshot.assessments (url_key lower lead.source_url)))
        snapshot.known_well_keys apply_now

  -- `min(1.0, x)`, and `max(0.0, min(100.0, x))`
  abbrev pub at_most_one_of : Float → Float
  at_most_one_of x = if less x (whole 1) then x else whole 1

  abbrev pub at_most_hundred : Float → Float
  at_most_hundred x = if less x (whole 100) then x else whole 100

  abbrev pub at_least_zero : Float → Float
  at_least_zero x = if less (whole 0) x then x else whole 0

  unfoldable pub clamp : Float → Float
  clamp x = at_least_zero (at_most_hundred x)

  -- One round of the loop over the frozen outcomes, from the judgments of the leads on
  unfoldable pub score_from :
      EntrantOutcome → FrozenSubmission → Submission → List LeadJudgment → CompetitionScore
  unfolding sum_of clamp
  score_from outcome frozen s js =
      let n = length js in
      let divisor = max 1 n in
      let real = div (sum_of (λ j. j.real_open_points) js) divisor in
      let fit = div (sum_of (λ j. j.practical_fit_points) js) divisor in
      let novelty = div (sum_of (λ j. j.novelty_points) js) divisor in
      let geography = div (sum_of (λ j. j.geography_points) js) divisor in
      let action = div (sum_of (λ j. j.actionability_points) js) divisor in
      let penalties = div (sum_of (λ j. j.penalty) js) divisor in
      let calls = at_least_one s.search_calls in
      let valid_actionable =
        count (λ j. ltb 0 j.real_open_points && ltb 0 j.actionability_points) js in
      let efficiency = mul (whole 5) (at_most_one_of (div valid_actionable calls)) in
      let false_wells = count (λ j. j.real_open_points == 0) js in
      let geo_errors = count (λ j. j.geography_points == 0) js in
      let novel = count (λ j. ltb 0 j.novelty_points) js in
      record {
        entrant_id = outcome.entrant_id;
        provider = s.entrant.provider;
        exact_model_id = s.entrant.exact_model_id;
        real_open = real;
        practical_fit = fit;
        novelty = novelty;
        geography = geography;
        actionability = action;
        search_efficiency = efficiency;
        penalties = penalties;
        total = clamp (
            sub (add (add (add (add (add real fit) novelty) geography) action) efficiency)
              penalties);
        submission_sha256 = frozen.sha256;
        judgments = js;
        behavior = record {
          entrant_id = outcome.entrant_id;
          lead_count = n;
          search_calls = s.search_calls;
          precision = div (n - false_wells) divisor;
          novelty_yield = div novel calls;
          false_well_rate = div false_wells divisor;
          geography_error_rate = div geo_errors divisor;
        };
      }

  abbrev pub evidence_of : Option FrozenSubmission → Result Error FrozenSubmission
  evidence_of none = err (value_error "frozen outcome is missing evidence")
  evidence_of (some frozen) = ok frozen

  unfoldable pub score_outcome :
      JudgeRegistrySnapshot → EntrantOutcome → Result Error CompetitionScore
  unfolding judge_lead score_from thaw_verified
  score_outcome snapshot outcome = do
    frozen ← evidence_of outcome.frozen_submission
    submission ← thaw_verified rt frozen
    ok (
        score_from outcome frozen submission
          (map (judge_lead snapshot submission.apply_now_urls) submission.leads))

  unfoldable pub score_all :
      JudgeRegistrySnapshot → List EntrantOutcome → Result Error (List CompetitionScore)
  unfolding score_outcome
  score_all snapshot [] = ok []
  score_all snapshot (o ∷ os) = do
    one ← score_outcome snapshot o
    rest ← score_all snapshot os
    ok (one ∷ rest)

  -- `(-a.total, a.entrant_id) <= (-b.total, b.entrant_id)`
  unfoldable pub ranks_before : CompetitionScore → CompetitionScore → Bool
  ranks_before a b =
      less b.total a.total || not (less a.total b.total) && text_leb a.entrant_id b.entrant_id

  unfoldable pub rank_one : CompetitionScore → List CompetitionScore → List CompetitionScore
  unfolding ranks_before
  rank_one a [] = a ∷ []
  rank_one a (b ∷ bs) =
      let rest = rank_one a bs in if ranks_before a b then a ∷ b ∷ bs else b ∷ rest

  unfoldable pub ranked : List CompetitionScore → List CompetitionScore
  unfolding rank_one
  ranked [] = []
  ranked (a ∷ rest) = rank_one a (ranked rest)

  -- `judge_match(match, snapshot)`
  unfoldable pub judge_match : MatchRun → JudgeRegistrySnapshot → Result Error CompetitionReport
  unfolding open_registry score_all ranked frozen_outcomes
  judge_match run snapshot = do
    opened ← open_registry rt run snapshot
    scores ← score_all opened (frozen_outcomes run)
    let order = ranked scores
    let content =
        report_payload sc run.competition_id run.candidate_fingerprint run.competition_fingerprint
          opened.fingerprint order
    ok (record {
      competition_id = run.competition_id;
      candidate_fingerprint = run.candidate_fingerprint;
      competition_fingerprint = run.competition_fingerprint;
      registry_fingerprint = opened.fingerprint;
      scores = order;
      report_fingerprint = fingerprint_of rt content;
    })
