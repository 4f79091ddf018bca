-- ===== src/Cup/Runner.antt =====
-- search_cup/runner.py and providers.py: a match, which runs every entrant behind its own tools and
-- keeps the evidence of those that succeed.
pub mod Adapter
pub mod Evidence
pub mod Isolation
use llm_evaluation_lab.Base.{
  ℕ, suc, String, Bool, true, false, ◌&&◌, Option, none, some, List, [], ◌∷◌, ◌++◌, map, all,
  filter, length, ◌==◌, str_eq, if◌then◌else◌,
}
use llm_evaluation_lab.Base.Int.{ℤ, pos, negsuc}
use llm_evaluation_lab.Base.Result.{Result, ok, err, ◌>>=◌, ◌>>◌, require}
use llm_evaluation_lab.Cup.Error.{Error, value_error, error_type, error_message}
use llm_evaluation_lab.Cup.Contracts.{
  Runtime, EntrantConfig, SearchTrace, Submission, FrozenSubmission,
}
use llm_evaluation_lab.Cup.Documents.{freeze}
use llm_evaluation_lab.Cup.Competition.{CandidateCard, CompetitionSpec}
use llm_evaluation_lab.Cup.Tools.{
  SearchProxy, new_proxy, calls_used, SearchFixtures, fake_backend, UrlFixtures,
}
use llm_evaluation_lab.Cup.Runner.Adapter.{Provider, Invitation, play}

pub record EntrantOutcome : Type 0 where
  pub entrant_id : String
  pub status : String
  pub frozen_submission : Option FrozenSubmission
  pub traces : List SearchTrace
  pub error_type : Option String
  pub error_message : Option String

pub record MatchRun : Type 0 where
  pub competition_id : String
  pub candidate_fingerprint : String
  pub competition_fingerprint : String
  pub expected_entrant_ids : List String
  pub outcomes : List EntrantOutcome
  pub entrant_execution_closed : Bool

abbrev pub is_frozen : EntrantOutcome → Bool
is_frozen o = str_eq o.status "FROZEN"

unfoldable pub frozen_outcomes : MatchRun → List EntrantOutcome
frozen_outcomes r = filter is_frozen r.outcomes

unfoldable pub all_frozen : MatchRun → Bool
all_frozen r =
    r.entrant_execution_closed
    && length r.outcomes == length r.expected_entrant_ids
    && all is_frozen r.outcomes

-- `submission.entrant == entrant`
unfoldable pub same_entrant : EntrantConfig → EntrantConfig → Bool
same_entrant a b =
    str_eq a.entrant_id b.entrant_id
    && str_eq a.provider b.provider
    && str_eq a.exact_model_id b.exact_model_id
    && str_eq a.endpoint_mode b.endpoint_mode
    && str_eq a.sampling_json b.sampling_json

-- `submission.search_calls == tools.search_calls`
unfoldable pub same_calls : ℤ → ℕ → Bool
same_calls (pos n) m = n == m
same_calls (negsuc n) m = false

-- `providers`, a dictionary by entrant
abbrev pub Providers : Type 0
Providers = List (String × Provider)

unfoldable pub provider_of : Providers → String → Option Provider
provider_of [] id = none
provider_of ((k, p) ∷ rest) id = if str_eq id k then some p else provider_of rest id

abbrev pub missing_provider : String → EntrantOutcome
missing_provider id = record {
  entrant_id = id;
  status = "FAILED";
  frozen_submission = none;
  traces = [];
  error_type = some "MissingProvider";
  error_message = some "no provider adapter configured";
}

-- The outcome of the `try` block, with the traces that the tools have then.
abbrev pub outcome_of : String → List SearchTrace → Result Error FrozenSubmission → EntrantOutcome
outcome_of id traces (ok frozen) = record {
  entrant_id = id;
  status = "FROZEN";
  frozen_submission = some frozen;
  traces = traces;
  error_type = none;
  error_message = none;
}
outcome_of id traces (err e) = record {
  entrant_id = id;
  status = "FAILED";
  frozen_submission = none;
  traces = traces;
  error_type = some (error_type e);
  error_message = some (error_message e);
}

module _ (rt : Runtime) (candidate : CandidateCard) (competition : CompetitionSpec) where
  open rt use {show}

  -- The checks of a submission that a provider has returned, and its freezing.
  unfoldable pub admit : EntrantConfig → ℕ → Submission → Result Error FrozenSubmission
  unfolding same_entrant same_calls freeze
  admit entrant calls s = do
    require (same_entrant s.entrant entrant)
        (value_error "provider changed entrant identity or configuration")
    require (str_eq s.candidate_fingerprint candidate.fingerprint)
        (value_error "provider returned a different Candidate Card fingerprint")
    require (str_eq s.competition_fingerprint competition.fingerprint)
        (value_error "provider returned a different CompetitionSpec fingerprint")
    require (same_calls s.search_calls calls)
        (value_error "provider search-call count does not match tool trace")
    freeze rt s

  abbrev pub invitation : EntrantConfig → Invitation
  invitation entrant = record {
    candidate_content = candidate.canonical_content;
    competition_content = competition.canonical_content;
    candidate_fingerprint = candidate.fingerprint;
    competition_fingerprint = competition.fingerprint;
    entrant = entrant;
  }

  abbrev pub concluded : EntrantConfig → Result Error Submission × SearchProxy → EntrantOutcome
  concluded entrant (r, p) =
      outcome_of entrant.entrant_id p.traces (r >>= admit entrant (calls_used p))

  module _ (providers : Providers) (search_fixtures : String → SearchFixtures)
      (url_fixtures : String → UrlFixtures) where
    abbrev pub run_provider : EntrantConfig → SearchProxy → Option Provider → EntrantOutcome
    run_provider entrant p none = missing_provider entrant.entrant_id
    run_provider entrant p (some provider) = concluded entrant (
        play show (fake_backend (search_fixtures entrant.entrant_id))
          (url_fixtures entrant.entrant_id) (provider (invitation entrant)) p)

    -- One round of the loop, on a new proxy.
    unfoldable pub run_entrant : EntrantConfig → SearchProxy → EntrantOutcome
    unfolding admit provider_of
    run_entrant entrant p = run_provider entrant p (provider_of providers entrant.entrant_id)

    unfoldable pub run_from :
        List EntrantConfig → List EntrantOutcome → Result Error (List EntrantOutcome)
    unfolding run_entrant
    run_from [] outcomes = ok outcomes
    run_from (entrant ∷ rest) outcomes = do
      proxy ← new_proxy entrant.entrant_id competition.max_search_calls
      run_from rest (outcomes ++ run_entrant entrant proxy ∷ [])

    -- `run_match(candidate, competition, providers, …)`
    unfoldable pub run_match : Result Error MatchRun
    unfolding run_from
    run_match = do
      outcomes ← run_from competition.entrants []
      ok (record {
        competition_id = competition.competition_id;
        candidate_fingerprint = candidate.fingerprint;
        competition_fingerprint = competition.fingerprint;
        expected_entrant_ids = map (λ (e : EntrantConfig). e.entrant_id) competition.entrants;
        outcomes = outcomes;
        entrant_execution_closed = true;
      })
