-- ===== src/Cup/Tests/Judged.antt =====
-- The judge on one frozen submission with one lead, and theorems about it at that input.
mod Matched
use llm_evaluation_lab.Base.{
  Option, some, ℕ, String, Bool, true, false, ◌≡◌, refl, none, some, [], ◌∷◌, ltb, ◌*◌, ◌+◌, ◌-◌,
  arith,
}
use llm_evaluation_lab.Base.Int.{ℤ, pos}
use llm_evaluation_lab.Base.Result.{Result, ok, err}
use llm_evaluation_lab.Text.{is_blank}
use llm_evaluation_lab.Json.{
  Float, finite, Json, int, bool, str, arr, obj, end, field, items, get, get_or, nil, cons,
}
use llm_evaluation_lab.Cup.Error.{Error}
use llm_evaluation_lab.Cup.Contracts.{Runtime, Lead, Submission, FrozenSubmission, in_unit}
use llm_evaluation_lab.Cup.Documents.{thaw_verified}
use llm_evaluation_lab.Cup.Documents.Thawed.{IsThawed, thaw_verified-IsThawed}
use llm_evaluation_lab.Cup.Runner.{MatchRun}
use llm_evaluation_lab.Cup.Registry.{RegistryLeadAssessment, JudgeRegistrySnapshot}
use llm_evaluation_lab.Cup.Judge.{Scoring, lead_judgment}
use llm_evaluation_lab.Cup.Judge.Points.{IsJust, lead_judgment-IsJust}
use llm_evaluation_lab.Cup.Scores.{CompetitionReport, judge_match}
use llm_evaluation_lab.Cup.Scores.Report.{IsReport, judge_match-IsReport}

same_text : String → String
same_text s = s

show_some : ℕ → String
show_some n = "n"

whole_of : ℤ → Option Float
whole_of n = some (finite n (pos 0))

dumps_nothing : Json → String
dumps_nothing j = "{}"

lead_json : Json
lead_json = obj (
    field "confidence" (int (pos 1)) (
      field "company" (str "A") (
        field "role" (str "engineer") (
          field "source_url" (str "https://a.example/") (
            field "official_source" (bool true) (
              field "open_status" (str "OPEN") (
                field "remote_scope" (str "worldwide") (
                  field "location_constraint" (str "none") (
                    field "employment_type" (str "full") (
                      field "candidate_fit" (str "good") (
                        field "portfolio_relevance" (str "high") (
                          field "next_action" (str "apply") (
                            field "evidence_urls" (arr (cons (str "https://a.example/") nil))
                              end)))))))))))))

submission_json : Json
submission_json = obj (
    field "entrant"
      (obj (
        field "entrant_id" (str "e1") (
          field "provider" (str "openai")
            (field "exact_model_id" (str "m") (field "endpoint_mode" (str "chat") end)))))
      (field "candidate_fingerprint" (str "c") (
        field "competition_fingerprint" (str "s") (
          field "leads" (arr (cons lead_json nil)) (
            field "apply_now_urls" (arr (cons (str "https://a.example/") nil)) (
              field "search_strategy_summary" (str "one search")
                (field "search_calls" (int (pos 2)) end)))))))

loads_submission : String → Result Error Json
loads_submission s = ok submission_json

abbrev runtime : Runtime
runtime = record {
  lower = same_text;
  show = show_some;
  float_of = whole_of;
  sha256 = same_text;
  dumps = dumps_nothing;
  loads = loads_submission;
}

-- Arithmetic on natural numbers stands for that on floats.
size : Float → ℕ
size (finite (pos m) e) = m
size _ = 0

whole_float : ℕ → Float
whole_float n = finite (pos n) (pos 0)

less_size : Float → Float → Bool
less_size x y = ltb (size x) (size y)

less_size-irreflexive : (x : Float) → less_size x x ≡ false
unfolding less_size
less_size-irreflexive x = ground arith

less_size-asymmetric : (x y : Float) → less_size x y ≡ true → less_size y x ≡ false
unfolding less_size
less_size-asymmetric x y h = ground arith

less_size-hundred : less_size (whole_float 0) (whole_float 100) ≡ true
unfolding less_size whole_float size
less_size-hundred = refl

abbrev scoring : Scoring
scoring = record {
  div = λ m n. whole_float m;
  add = λ x y. whole_float (size x + size y);
  sub = λ x y. whole_float (size x - size y);
  mul = λ x y. whole_float (size x * size y);
  less = less_size;
  whole = whole_float;
  less-irreflexive = less_size-irreflexive;
  less-asymmetric = less_size-asymmetric;
  zero-less-hundred = less_size-hundred;
}

abbrev lead : Lead
lead = record {
  company = "A";
  role = "engineer";
  source_url = "https://a.example/";
  official_source = true;
  open_status = "OPEN";
  remote_scope = "worldwide";
  location_constraint = "none";
  employment_type = "full";
  required_skills = [];
  candidate_fit = "good";
  mismatch_risks = [];
  portfolio_relevance = "high";
  confidence = finite (pos 1) (pos 0);
  next_action = "apply";
  evidence_urls = "https://a.example/" ∷ [];
  claimed_novel = false;
}

-- A role for the US only that is no longer open
abbrev assessment : RegistryLeadAssessment
assessment = record {
  source_url = "https://a.example";
  real_open = false;
  practical_fit = true;
  geography_eligible = false;
  actionable = false;
  primary_source = true;
  fabricated = false;
  us_only = true;
  senior_or_phd_mismatch = false;
}

two_faults : lead_judgment same_text lead assessment [] ("https://a.example/" ∷ []) ≡ record {
  source_url = "https://a.example/";
  real_open_points = 0;
  practical_fit_points = 25;
  novelty_points = 20;
  geography_points = 0;
  actionability_points = 0;
  penalty = 26;
  apply_now = true;
  reasons =
      "closed/stale role reported as open" ∷ "US-only role overstated as geographically applicable"
      ∷ [];
}
unfolding lead_judgment same_text
two_faults = refl

lead_judgment-IsJust_example :
    IsJust same_text lead assessment []
      ("https://a.example/" ∷ [])
      (lead_judgment same_text lead assessment [] ("https://a.example/" ∷ []))
lead_judgment-IsJust_example =
    lead_judgment-IsJust same_text lead assessment [] ("https://a.example/" ∷ [])

abbrev run : MatchRun
run = record {
  competition_id = "CUP";
  candidate_fingerprint = "c";
  competition_fingerprint = "s";
  expected_entrant_ids = "e1" ∷ [];
  outcomes =
      record {
        entrant_id = "e1";
        status = "FROZEN";
        frozen_submission =
            some (record { entrant_id = "e1"; canonical_content = "doc"; sha256 = "doc" });
        traces = [];
        error_type = none;
        error_message = none;
      }
      ∷ [];
  entrant_execution_closed = true;
}

abbrev snapshot : JudgeRegistrySnapshot
snapshot = record {
  snapshot_id = "R1";
  known_well_keys = [];
  assessments = assessment ∷ [];
  fingerprint = "{}";
}

unfoldable read_report : Result Error CompetitionReport → CompetitionReport
read_report (ok r) = r
read_report (err e) = record {
  competition_id = "";
  candidate_fingerprint = "";
  competition_fingerprint = "";
  registry_fingerprint = "";
  scores = [];
  report_fingerprint = "";
}

abbrev report : CompetitionReport
report = read_report (judge_match runtime scoring run snapshot)

report_made : judge_match runtime scoring run snapshot ≡ ok report
unfolding judge_match read_report same_text dumps_nothing loads_submission submission_json lead_json
    whole_of get items get_or is_blank in_unit
report_made = refl

judge_match-IsReport_example : IsReport runtime scoring run snapshot report
judge_match-IsReport_example = judge_match-IsReport runtime scoring run snapshot report_made

abbrev frozen : FrozenSubmission
frozen = record { entrant_id = "e1"; canonical_content = "doc"; sha256 = "doc" }

abbrev submission : Submission
submission = record {
  entrant = record {
    entrant_id = "e1";
    provider = "openai";
    exact_model_id = "m";
    endpoint_mode = "chat";
    sampling_json = "{}";
  };
  candidate_fingerprint = "c";
  competition_fingerprint = "s";
  leads = lead ∷ [];
  apply_now_urls = "https://a.example/" ∷ [];
  search_strategy_summary = "one search";
  rejected_or_downgraded = [];
  uncertainties = [];
  search_calls = pos 2;
}

submission_thaws : thaw_verified runtime frozen ≡ ok submission
unfolding thaw_verified same_text dumps_nothing loads_submission submission_json lead_json whole_of
    get items get_or is_blank in_unit
submission_thaws = refl

thaw_verified-IsThawed_example : IsThawed runtime frozen submission
thaw_verified-IsThawed_example = thaw_verified-IsThawed runtime frozen submission_thaws
