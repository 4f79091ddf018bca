-- ===== src/Cup/Runner/Isolation.antt =====
-- A match as the independent runs of its entrants.
use llm_evaluation_lab.Base.{
  ◌≤◌, String, true, ◌≡◌, refl, sym, ap, ◌∙◌, subst, Option, none, some, List, [], ◌∷◌, ◌++◌,
  append-nil, append_assoc, map, length, arith,
}
use llm_evaluation_lab.Base.Result.{Result, ok, ◌>>=◌}
use llm_evaluation_lab.Cup.Error.{Error}
use llm_evaluation_lab.Cup.Contracts.{Runtime, EntrantConfig, Submission}
use llm_evaluation_lab.Cup.Competition.{CandidateCard, CompetitionSpec}
use llm_evaluation_lab.Cup.Tools.{
  SearchProxy, calls_used, SearchFixtures, fake_backend, UrlFixtures,
}
use llm_evaluation_lab.Cup.Tools.Metered.{AreNumbered}
use llm_evaluation_lab.Cup.Runner.Adapter.{Provider}
use llm_evaluation_lab.Cup.Runner.{
  EntrantOutcome, MatchRun, Providers, provider_of, admit, concluded, invitation, run_provider,
  run_entrant, run_from, run_match,
}
use llm_evaluation_lab.Cup.Runner.Evidence.{
  Played, play-Played, new_proxy-positive, IsOutcome, failed, concluded-Ended, outcome_of-traces,
}

module _ (rt : Runtime) (candidate : CandidateCard) (competition : CompetitionSpec)
    (providers : Providers) (search_fixtures : String → SearchFixtures)
    (url_fixtures : String → UrlFixtures) where
  open rt use {show}

  -- The proxy that an entrant starts with.
  abbrev pub fresh : EntrantConfig → SearchProxy
  fresh entrant = record {
    entrant_id = entrant.entrant_id;
    max_calls = competition.max_search_calls;
    traces = [];
  }

  concluded-IsOutcome :
      (entrant : EntrantConfig) (x : Result Error Submission × SearchProxy)
      → Played (fresh entrant) x
      → IsOutcome rt candidate competition entrant (concluded rt candidate competition entrant x)
  unfolding Played
  concluded-IsOutcome entrant (r, p) (i, budget, id, handed) =
      let (named, traces) =
        outcome_of-traces rt candidate competition entrant.entrant_id p.traces
          (r >>= admit rt candidate competition entrant (calls_used p)) in
      record {
        named = named;
        within =
            subst (λ ts. length ts ≤ competition.max_search_calls) (sym traces)
              (subst (λ n. length p.traces ≤ n) budget i.within);
        numbered =
            subst (AreNumbered entrant.entrant_id 1) (sym traces)
              (subst (λ name. AreNumbered name 1 p.traces) id i.numbered);
        ended = concluded-Ended rt candidate competition entrant r p handed;
      }

  run_provider-IsOutcome :
      (entrant : EntrantConfig) (provider : Option Provider)
      → IsOutcome rt candidate competition entrant (
          run_provider rt candidate competition providers search_fixtures url_fixtures entrant
            (fresh entrant)
            provider)
  run_provider-IsOutcome entrant none = record {
    named = refl;
    within = omega arith;
    numbered = tt;
    ended = failed refl refl;
  }
  run_provider-IsOutcome entrant (some provider) = concluded-IsOutcome entrant _ (
      play-Played show (fake_backend (search_fixtures entrant.entrant_id))
        (url_fixtures entrant.entrant_id) (provider (invitation rt candidate competition entrant))
        (fresh entrant) (record { within = omega arith; numbered = tt }))

  -- An entrant's own run, which no other entrant enters.
  abbrev pub alone : EntrantConfig → EntrantOutcome
  alone entrant =
      run_entrant rt candidate competition providers search_fixtures url_fixtures entrant
        (fresh entrant)

  pub alone-IsOutcome :
      (entrant : EntrantConfig) → IsOutcome rt candidate competition entrant (alone entrant)
  unfolding run_entrant
  alone-IsOutcome entrant =
      run_provider-IsOutcome entrant (provider_of providers entrant.entrant_id)

  run_from-map :
      (entrants : List EntrantConfig) (outcomes : List EntrantOutcome)
      → 1 ≤ competition.max_search_calls
      → run_from rt candidate competition providers search_fixtures url_fixtures entrants outcomes
        ≡ ok (outcomes ++ map alone entrants)
  unfolding run_from
  run_from-map [] outcomes h = ap ok (sym (append-nil outcomes))
  run_from-map (entrant ∷ rest) outcomes h =
      rw (new_proxy-positive entrant.entrant_id competition.max_search_calls h) (
        run_from-map rest (outcomes ++ alone entrant ∷ []) h
        ∙ ap ok (append_assoc outcomes (alone entrant ∷ []) (map alone rest)))

  abbrev pub match_of : MatchRun
  match_of = record {
    competition_id = competition.competition_id;
    candidate_fingerprint = candidate.fingerprint;
    competition_fingerprint = competition.fingerprint;
    expected_entrant_ids = map (λ (e : EntrantConfig). e.entrant_id) competition.entrants;
    outcomes = map alone competition.entrants;
    entrant_execution_closed = true;
  }

  -- If each entrant has at least one call, a match returns, and every entrant has the outcome that it
  -- has on a new proxy of its own, in the order of the competition: whatever an entrant does, and
  -- however it fails, changes the outcome of no other.
  pub run_match-alone :
      1 ≤ competition.max_search_calls
      → run_match rt candidate competition providers search_fixtures url_fixtures ≡ ok match_of
  unfolding run_match
  run_match-alone h = rw (run_from-map competition.entrants [] h) refl

  -- An outcome for each entrant
  abbrev pub AreOutcomes : List EntrantConfig → List EntrantOutcome → Type 0
  AreOutcomes [] [] = Unit
  AreOutcomes (e ∷ es) (o ∷ os) = IsOutcome rt candidate competition e o × AreOutcomes es os
  AreOutcomes _ _ = ⊥

  alone-AreOutcomes : (entrants : List EntrantConfig) → AreOutcomes entrants (map alone entrants)
  alone-AreOutcomes [] = tt
  alone-AreOutcomes (e ∷ es) = (alone-IsOutcome e, alone-AreOutcomes es)

  -- If each entrant has at least one call, a match returns with an outcome for each entrant in order,
  -- whose traces are numbered from 1 under the entrant and within the budget. It has FAILED and holds
  -- no submission, or it is FROZEN and holds the frozen form of a submission that passes the checks of
  -- its constructor, names this entrant, card and spec, and counts as many calls as there are traces.
  pub run_match-AreOutcomes :
      1 ≤ competition.max_search_calls
      → (r : MatchRun) × (run_match rt candidate competition providers search_fixtures url_fixtures
          ≡ ok r)
        × AreOutcomes competition.entrants r.outcomes
  run_match-AreOutcomes h = (match_of, run_match-alone h, alone-AreOutcomes competition.entrants)
