-- ===== src/Cup/Tests/Judged/Matched.antt =====
-- A match of one entrant, who submits one lead, judged.
use mathlib.Core.List.{Perm}
use llm_evaluation_lab.Base.{String, true, false, ◌≡◌, refl, [], ◌∷◌, All, map, arith}
use llm_evaluation_lab.Base.Int.{pos}
use llm_evaluation_lab.Base.Result.{ok}
use llm_evaluation_lab.Text.{is_blank}
use llm_evaluation_lab.Json.{finite, items, get, get_or}
use llm_evaluation_lab.Cup.Contracts.{EntrantConfig, in_unit}
use llm_evaluation_lab.Cup.Competition.{CandidateCard, CompetitionSpec}
use llm_evaluation_lab.Cup.Tools.{fake_backend, SearchFixtures, UrlFixtures}
use llm_evaluation_lab.Cup.Runner.{
  EntrantOutcome, MatchRun, Providers, is_frozen, provider_of, run_entrant,
}
use llm_evaluation_lab.Cup.Runner.Isolation.{match_of, run_match-alone}
use llm_evaluation_lab.Cup.Runner.Adapter.{FakeProvider, fake_run, play}
use llm_evaluation_lab.Cup.Scorecard.{CompetitionScore}
use llm_evaluation_lab.Cup.Scores.{CompetitionReport, judge_match}
use llm_evaluation_lab.Cup.Scores.Match.{judge_match-run_match}
use llm_evaluation_lab.Cup.Tests.Judged.{
  runtime, scoring, snapshot, lead, read_report, same_text, dumps_nothing, loads_submission,
  submission_json, lead_json, whole_of,
}

abbrev entrant : EntrantConfig
entrant = record {
  entrant_id = "e1";
  provider = "openai";
  exact_model_id = "m";
  endpoint_mode = "chat";
  sampling_json = "{}";
}

abbrev competition : CompetitionSpec
competition = record {
  competition_id = "CUP";
  task = "find leads";
  max_search_calls = 2;
  search_backend_id = "b";
  official_match_authorized = false;
  entrants = entrant ∷ [];
  canonical_content = "s";
  fingerprint = "s";
}

abbrev card : CandidateCard
card = record { canonical_content = "c"; fingerprint = "c" }

abbrev fake : FakeProvider
fake = record {
  moment = λ n. record {
    request_id = "sc-1";
    started_at_utc = "t";
    duration_ms = finite (pos 1) (pos 0);
  };
  queries = "jobs" ∷ [];
  leads = lead ∷ [];
  apply_now_urls = "https://a.example/" ∷ [];
  search_strategy_summary = "one search";
  rejected_or_downgraded = [];
  uncertainties = [];
}

abbrev providers : Providers
providers = ("e1", fake_run fake) ∷ []

abbrev pages : String → UrlFixtures
pages id = []

abbrev results : String → SearchFixtures
results id = ("jobs", []) ∷ []

abbrev played : MatchRun
played = match_of runtime card competition providers results pages

abbrev report : CompetitionReport
report = read_report (judge_match runtime scoring played snapshot)

report_made : judge_match runtime scoring played snapshot ≡ ok report
unfolding judge_match read_report same_text dumps_nothing loads_submission submission_json lead_json
    whole_of get items get_or is_blank in_unit run_entrant provider_of fake_run play fake_backend
report_made = refl

judge_match-run_match_example :
    Perm
      (map (λ (s : CompetitionScore). s.entrant_id) report.scores)
      (map (λ (e : EntrantConfig). e.entrant_id) competition.entrants)
    × (map (λ (o : EntrantOutcome). o.entrant_id) played.outcomes
        ≡ map (λ (e : EntrantConfig). e.entrant_id) competition.entrants)
    × All (λ (o : EntrantOutcome). is_frozen o ≡ true) played.outcomes
judge_match-run_match_example =
    judge_match-run_match runtime scoring card competition providers results pages snapshot
      (omega arith) (run_match-alone runtime card competition providers results pages (omega arith))
      report_made
