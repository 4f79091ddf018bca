-- ===== src/Cup/Tests.antt =====
-- Runs of the competition on a small registry and two entrants, and theorems about it at those inputs.
mod Judged
use llm_evaluation_lab.Base.{
  ℕ, suc, ◌+◌, ◌≤◌, min, String, Bool, true, false, ◌≡◌, ◌≢◌, ◌↔◌, refl, Option, none, some, List,
  [], ◌∷◌, All, map, length, arith, str_eq_iff,
}
use llm_evaluation_lab.Base.Int.{ℤ, pos, negsuc}
use llm_evaluation_lab.Base.Result.{Result, ok, err, ◌>>=◌, ◌>>◌}
use llm_evaluation_lab.Text.{strip, is_blank}
use llm_evaluation_lab.Json.{
  Float, finite, Json, int, bool, str, arr, obj, Fields, end, field, array, items, get, get_or, nil,
  cons,
}
use llm_evaluation_lab.Lab.Read.{contains}
use llm_evaluation_lab.Cup.Error.{Error, value_error, backend_error, other}
use llm_evaluation_lab.Cup.Contracts.{
  Runtime, required_text, EntrantConfig, SearchResult, SearchTrace, Lead, url_key,
}
use llm_evaluation_lab.Cup.Documents.{text_of, bool_of, entrant_from}
use llm_evaluation_lab.Cup.Competition.{
  CandidateCard, CompetitionSpec, is_forbidden, scan_forbidden_keys, competition_from,
  entrants_from, is_distinct,
}
use llm_evaluation_lab.Cup.Competition.Public.{keys, IsOpen, scan_forbidden_keys-IsOpen_iff}
use llm_evaluation_lab.Cup.Competition.Fair.{IsFair, competition_from-IsFair}
use llm_evaluation_lab.Cup.Tools.{
  Moment, Backend, Reply, sequence, raises, SearchProxy, search, calls_used, SearchFixtures,
  UrlFixtures,
}
use llm_evaluation_lab.Cup.Tools.Metered.{
  Metered, search-Metered, Call, search_all, IsMetered, search_all-IsMetered,
}
use llm_evaluation_lab.Cup.Runner.{MatchRun, Providers, run_match}
use llm_evaluation_lab.Cup.Runner.Adapter.{Provider, FakeProvider, fake_run, failing_run}
use llm_evaluation_lab.Cup.Runner.Isolation.{
  match_of, AreOutcomes, run_match-alone, run_match-AreOutcomes,
}
use llm_evaluation_lab.Cup.Registry.{
  RegistryLeadAssessment, JudgeRegistrySnapshot, payload, create_snapshot, verify, sorted_set,
  sort_assessments, add_text, add_assessment, fingerprint_of, verify-create, verify-create_padded,
}

same_text : String → String
same_text s = s

show_some : ℕ → String
show_some n = "n"

whole_of : ℤ → Option Float
whole_of n = some (finite n (pos 0))

-- The first text of a document stands for the document.
dumps_first : Json → String
dumps_first (obj (field k (str s) rest)) = s
dumps_first _ = "{}"

loads_empty : String → Result Error Json
loads_empty s = ok (obj end)

abbrev runtime : Runtime
runtime = record {
  lower = same_text;
  show = show_some;
  float_of = whole_of;
  sha256 = same_text;
  dumps = dumps_first;
  loads = loads_empty;
}

abbrev one_result : List SearchResult
one_result = record { title = "jobs"; url = "https://a.example"; snippet = "" } ∷ []

-- A backend that fails, and one that answers.
abbrev failing : Backend
failing = record { backend_id = "b"; call = λ r. raises (other "OSError" "down") }

abbrev answering : Backend
answering = record { backend_id = "b"; call = λ r. sequence (map some one_result) }

abbrev moment : Moment
moment = record { request_id = "sc-1"; started_at_utc = "t"; duration_ms = finite (pos 1) (pos 0) }

abbrev two_calls : SearchProxy
two_calls = record { entrant_id = "e1"; max_calls = 2; traces = [] }

search-Metered_example :
    Metered show_some "jobs" two_calls (search show_some moment failing "jobs" two_calls)
search-Metered_example = search-Metered show_some moment failing "jobs" two_calls

abbrev three : List Call
three = (moment, failing, "jobs") ∷ (moment, answering, "jobs") ∷ (moment, answering, "more") ∷ []

-- The third call finds the budget spent.
search_all-IsMetered_example :
    IsMetered (search_all show_some three two_calls)
    × (calls_used (search_all show_some three two_calls) ≡ min 2 (0 + 3))
search_all-IsMetered_example =
    search_all-IsMetered show_some three two_calls (record { within = omega arith; numbered = tt })

abbrev card_json : Json
card_json = obj (
    field "candidate_id" (str "c1")
      (field "skills" (arr (array (obj (field "name" (str "python") end) ∷ []))) end))

scan_forbidden_keys-IsOpen_iff_example :
    (scan_forbidden_keys runtime "candidate" card_json ≡ ok tt)
    ↔ All (IsOpen runtime) (keys card_json)
scan_forbidden_keys-IsOpen_iff_example =
    scan_forbidden_keys-IsOpen_iff runtime "candidate" card_json

abbrev entrant_json : String → String → Json
entrant_json id provider = obj (
    field "entrant_id" (str id) (
      field "provider" (str provider)
        (field "exact_model_id" (str "m") (field "endpoint_mode" (str "chat") end))))

abbrev competition_json : Fields
competition_json = field "competition_id" (str "CUP") (
    field "task" (str "find leads") (
      field "search_backend_id" (str "b") (
        field "max_search_calls" (int (pos 20)) (
          field "official_match_authorized" (bool false) (
            field "entrants"
              (arr (
                cons (entrant_json "e1" "openai") (
                  cons (entrant_json "e2" "gemini")
                    (cons (entrant_json "e3" "deepseek") (cons (entrant_json "e4" "glm") nil)))))
              end)))))

abbrev entrant : String → String → EntrantConfig
entrant id provider = record {
  entrant_id = id;
  provider = provider;
  exact_model_id = "m";
  endpoint_mode = "chat";
  sampling_json = "{}";
}

abbrev competition : CompetitionSpec
competition = record {
  competition_id = "CUP";
  task = "find leads";
  max_search_calls = 20;
  search_backend_id = "b";
  official_match_authorized = false;
  entrants =
      entrant "e1" "openai"
      ∷ entrant "e2" "gemini"
      ∷ entrant "e3" "deepseek"
      ∷ entrant "e4" "glm"
      ∷ [];
  canonical_content = "CUP";
  fingerprint = "CUP";
}

competition_reads : competition_from runtime competition_json ≡ ok competition
unfolding competition_from get get_or strip is_blank items dumps_first same_text
competition_reads = refl

competition_from-IsFair_example : IsFair runtime competition
competition_from-IsFair_example = competition_from-IsFair runtime competition_json competition_reads

abbrev card : CandidateCard
card = record { canonical_content = "c1"; fingerprint = "c1" }

-- One entrant searches and submits nothing, one fails, and the other two have no provider.
abbrev fake : FakeProvider
fake = record {
  moment = λ n. moment;
  queries = "jobs" ∷ [];
  leads = [];
  apply_now_urls = [];
  search_strategy_summary = "one search";
  rejected_or_downgraded = [];
  uncertainties = [];
}

abbrev providers : Providers
providers = ("e1", fake_run fake) ∷ ("e2", failing_run "injected provider failure") ∷ []

abbrev no_pages : String → UrlFixtures
no_pages id = []

abbrev some_results : String → SearchFixtures
some_results id = ("jobs", one_result) ∷ []

run_match-alone_example :
    run_match runtime card competition providers some_results no_pages
    ≡ ok (match_of runtime card competition providers some_results no_pages)
run_match-alone_example =
    run_match-alone runtime card competition providers some_results no_pages (omega arith)

run_match-AreOutcomes_example :
    (r : MatchRun) × (run_match runtime card competition providers some_results no_pages ≡ ok r)
    × AreOutcomes runtime card competition providers some_results no_pages competition.entrants
        r.outcomes
run_match-AreOutcomes_example =
    run_match-AreOutcomes runtime card competition providers some_results no_pages (omega arith)

abbrev snapshot : String → JudgeRegistrySnapshot
snapshot id = record {
  snapshot_id = id;
  known_well_keys = "https://a.example" ∷ [];
  assessments = [];
  fingerprint = "R1";
}

snapshot_created : create_snapshot runtime "R1" ("https://a.example/" ∷ []) [] ≡ ok (snapshot "R1")
unfolding create_snapshot url_key strip is_blank same_text dumps_first
snapshot_created = refl

verify-create_example : verify runtime (snapshot "R1") ≡ ok tt
unfolding strip
verify-create_example =
    verify-create runtime "R1" ("https://a.example/" ∷ []) [] refl snapshot_created

padded_created : create_snapshot runtime " R1" ("https://a.example/" ∷ []) [] ≡ ok (snapshot " R1")
unfolding create_snapshot url_key strip is_blank same_text dumps_first
padded_created = refl

padded_differs : ◌≢◌ {A = String} " R1" "R1"
padded_differs e = ground (arith, str_eq_iff " R1" "R1")

verify-create_padded_example :
    verify runtime (snapshot " R1") ≡ err (value_error "judge registry snapshot hash mismatch")
unfolding payload strip same_text dumps_first
verify-create_padded_example =
    verify-create_padded runtime " R1" ("https://a.example/" ∷ []) [] padded_created padded_differs
