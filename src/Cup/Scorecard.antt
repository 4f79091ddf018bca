-- ===== src/Cup/Scorecard.antt =====
-- search_cup/judge.py: a score, and the document of a report that its fingerprint is taken of.
use llm_evaluation_lab.Base.{ℕ, String, List, map}
use llm_evaluation_lab.Base.Int.{ℤ, pos}
use llm_evaluation_lab.Json.{Float, Json, int, float, str, bool, arr, obj, end, field, array}
use llm_evaluation_lab.Cup.Documents.{strings}
use llm_evaluation_lab.Cup.Judge.{Scoring, LeadJudgment}

pub record SearchBehaviorProfile : Type 0 where
  pub entrant_id : String
  pub lead_count : ℕ
  pub search_calls : ℤ
  pub precision : Float
  pub novelty_yield : Float
  pub false_well_rate : Float
  pub geography_error_rate : Float

pub record CompetitionScore : Type 0 where
  pub entrant_id : String
  pub provider : String
  pub exact_model_id : String
  pub real_open : Float
  pub practical_fit : Float
  pub novelty : Float
  pub geography : Float
  pub actionability : Float
  pub search_efficiency : Float
  pub penalties : Float
  pub total : Float
  pub submission_sha256 : String
  pub judgments : List LeadJudgment
  pub behavior : SearchBehaviorProfile

-- `asdict(score.behavior)`
unfoldable pub behavior_dict : SearchBehaviorProfile → Json
behavior_dict b = obj (
    field "entrant_id" (str b.entrant_id) (
      field "lead_count" (int (pos b.lead_count)) (
        field "search_calls" (int b.search_calls) (
          field "precision" (float b.precision) (
            field "novelty_yield" (float b.novelty_yield) (
              field "false_well_rate" (float b.false_well_rate)
                (field "geography_error_rate" (float b.geography_error_rate) end)))))))

module _ (sc : Scoring) where
  open sc use {whole}

  -- `asdict(judgment)`, the points as the floats that they are
  unfoldable pub judgment_dict : LeadJudgment → Json
  judgment_dict j = obj (
      field "source_url" (str j.source_url) (
        field "real_open_points" (float (whole j.real_open_points)) (
          field "practical_fit_points" (float (whole j.practical_fit_points)) (
            field "novelty_points" (float (whole j.novelty_points)) (
              field "geography_points" (float (whole j.geography_points)) (
                field "actionability_points" (float (whole j.actionability_points)) (
                  field "penalty" (float (whole j.penalty)) (
                    field "apply_now" (bool j.apply_now)
                      (field "reasons" (strings j.reasons) end)))))))))

  -- `asdict(score)`
  unfoldable pub score_dict : CompetitionScore → Json
  unfolding judgment_dict behavior_dict
  score_dict s = obj (
      field "entrant_id" (str s.entrant_id) (
        field "provider" (str s.provider) (
          field "exact_model_id" (str s.exact_model_id) (
            field "real_open" (float s.real_open) (
              field "practical_fit" (float s.practical_fit) (
                field "novelty" (float s.novelty) (
                  field "geography" (float s.geography) (
                    field "actionability" (float s.actionability) (
                      field "search_efficiency" (float s.search_efficiency) (
                        field "penalties" (float s.penalties) (
                          field "total" (float s.total) (
                            field "submission_sha256" (str s.submission_sha256) (
                              field "judgments" (arr (array (map judgment_dict s.judgments)))
                                (field "behavior" (behavior_dict s.behavior) end))))))))))))))

  -- The `payload` of `judge_match`
  unfoldable pub report_payload : String → String → String → String → List CompetitionScore → Json
  unfolding score_dict
  report_payload competition_id candidate competition registry scores = obj (
      field "competition_id" (str competition_id) (
        field "candidate_fingerprint" (str candidate) (
          field "competition_fingerprint" (str competition) (
            field "registry_fingerprint" (str registry)
              (field "scores" (arr (array (map score_dict scores))) end)))))
