-- ===== src/Cup/Scores/Report.antt =====
-- What a report of the judge vouches for: the gate that it passed, its ranking and its totals.
use mathlib.Core.List.{Perm}
use llm_evaluation_lab.Base.{
  Bool, true, ◌&&◌, ◌≡◌, refl, ap, ◌∙◌, List, [], ◌∷◌, map, filter, all, All, length, ◌==◌, ==_iff,
  and-true,
}
use llm_evaluation_lab.Base.Result.{ok, Returns, value, after, after_require, Returns-ok}
use llm_evaluation_lab.Cup.Contracts.{Runtime}
use llm_evaluation_lab.Cup.Documents.{thaw_verified}
use llm_evaluation_lab.Cup.Runner.{EntrantOutcome, MatchRun, is_frozen, all_frozen, frozen_outcomes}
use llm_evaluation_lab.Cup.Registry.{JudgeRegistrySnapshot, verify}
use llm_evaluation_lab.Cup.Judge.{Scoring, open_registry}
use llm_evaluation_lab.Cup.Scorecard.{CompetitionScore}
use llm_evaluation_lab.Cup.Scores.{
  evidence_of, score_from, CompetitionReport, score_all, score_outcome, judge_match,
}
use llm_evaluation_lab.Cup.Scores.Ranking.{
  IsWithin, clamp-IsWithin, IsRanked, ranked-IsRanked, ranked-perm, ranked-All,
}

all-filter : {A : Type 0} (test : A → Bool) (xs : List A) → all test xs ≡ true → filter test xs ≡ xs
all-filter test [] h = refl
all-filter test (x ∷ xs) h =
    let (e, rest) = and-true (test x) (all test xs) h in rw e (ap (◌∷◌ x) (all-filter test xs rest))

module _ (rt : Runtime) (sc : Scoring) where
  -- A score for each outcome, in the order of the outcomes
  abbrev AreScores : List EntrantOutcome → List CompetitionScore → Type 0
  AreScores os scores =
      (map (λ (s : CompetitionScore). s.entrant_id) scores
        ≡ map (λ (o : EntrantOutcome). o.entrant_id) os)
      × All (λ (s : CompetitionScore). IsWithin rt sc s.total) scores

  score_outcome-Returns :
      (snapshot : JudgeRegistrySnapshot) (o : EntrantOutcome)
      → Returns
          (λ (s : CompetitionScore). (s.entrant_id ≡ o.entrant_id) × IsWithin rt sc s.total)
          (score_outcome rt sc snapshot o)
  unfolding score_outcome score_from
  score_outcome-Returns snapshot o =
      after (evidence_of rt sc o.frozen_submission)
        λ frozen _. after (thaw_verified rt frozen) λ s _. value (refl, clamp-IsWithin rt sc _)

  score_all-Returns :
      (snapshot : JudgeRegistrySnapshot) (os : List EntrantOutcome)
      → Returns (AreScores os) (score_all rt sc snapshot os)
  unfolding score_all
  score_all-Returns snapshot [] = value (refl, tt)
  score_all-Returns snapshot (o ∷ os) = after (score_outcome rt sc snapshot o) λ one e1.
      after (score_all rt sc snapshot os) λ rest e2.
        let (id, total) = Returns-ok (score_outcome-Returns snapshot o) e1 in
        let (ids, totals) = Returns-ok (score_all-Returns snapshot os) e2 in
        value ((λ i. id i ∷ ids i), (total, totals))

  pub record IsReport (run : MatchRun) (snapshot : JudgeRegistrySnapshot) (r : CompetitionReport)
      : Type 0 where
    pub closed : run.entrant_execution_closed ≡ true
    pub complete : length run.outcomes ≡ length run.expected_entrant_ids
    pub frozen : All (λ (o : EntrantOutcome). is_frozen o ≡ true) run.outcomes
    pub verified : verify rt snapshot ≡ ok tt
    pub scored :
        (scores : List CompetitionScore) × Perm r.scores scores
        × (map (λ (s : CompetitionScore). s.entrant_id) scores
            ≡ map (λ (o : EntrantOutcome). o.entrant_id) run.outcomes)
    pub ranks : IsRanked rt sc r.scores
    pub totals : All (λ (s : CompetitionScore). IsWithin rt sc s.total) r.scores

  all-frozen_outcomes :
      (os : List EntrantOutcome)
      → all is_frozen os ≡ true
      → All (λ (o : EntrantOutcome). is_frozen o ≡ true) os
  all-frozen_outcomes [] h = tt
  all-frozen_outcomes (o ∷ os) h =
      let (e, rest) = and-true (is_frozen o) (all is_frozen os) h in
      (e, all-frozen_outcomes os rest)

  -- The gate, as what must hold for it to open.
  abbrev Opens : MatchRun → JudgeRegistrySnapshot → JudgeRegistrySnapshot → Type 0
  Opens run snapshot opened =
      (run.entrant_execution_closed ≡ true)
      × (all_frozen run ≡ true)
      × (verify rt snapshot ≡ ok tt)
      × (opened ≡ snapshot)

  open_registry-Returns :
      (run : MatchRun) (snapshot : JudgeRegistrySnapshot)
      → Returns (Opens run snapshot) (open_registry rt run snapshot)
  unfolding open_registry
  open_registry-Returns run snapshot = after_require run.entrant_execution_closed _ _ λ closed.
      after_require (all_frozen run) _ _
        λ frozen. after (verify rt snapshot) λ _ verified. value (closed, frozen, verified, refl)

  judge_match-Returns :
      (run : MatchRun) (snapshot : JudgeRegistrySnapshot)
      → Returns (IsReport run snapshot) (judge_match rt sc run snapshot)
  unfolding judge_match all_frozen frozen_outcomes
  judge_match-Returns run snapshot = after (open_registry rt run snapshot) λ opened e1.
      after (score_all rt sc opened (frozen_outcomes run)) λ scores e2.
        let (closed, frozen, verified, _) = Returns-ok (open_registry-Returns run snapshot) e1 in
        let (ids, totals) = Returns-ok (score_all-Returns opened (frozen_outcomes run)) e2 in
        let sized = length run.outcomes == length run.expected_entrant_ids in
        let (counted, each) =
          and-true (run.entrant_execution_closed && sized) (all is_frozen run.outcomes) frozen in
        let (_, complete) = and-true run.entrant_execution_closed sized counted in
        value (record {
          closed = closed;
          complete = (==_iff (length run.outcomes) (length run.expected_entrant_ids)).0 complete;
          frozen = all-frozen_outcomes run.outcomes each;
          verified = verified;
          scored = (
            scores,
            ranked-perm rt sc scores,
            ids
                ∙ ap (map (λ (o : EntrantOutcome). o.entrant_id))
                    (all-filter is_frozen run.outcomes each),
          );
          ranks = ranked-IsRanked rt sc scores;
          totals =
              ranked-All rt sc (λ (s : CompetitionScore). IsWithin rt sc s.total) scores totals;
        })

  -- A report exists only of a closed match with as many outcomes as expected entrants, all of them
  -- frozen, on a registry whose hash verifies. It has one score for each outcome, ranked by descending
  -- total and then by ascending entrant, and every total lies between 0 and 100.
  pub judge_match-IsReport :
      (run : MatchRun) (snapshot : JudgeRegistrySnapshot) {r : CompetitionReport}
      → judge_match rt sc run snapshot ≡ ok r
      → IsReport run snapshot r
  judge_match-IsReport run snapshot h = Returns-ok (judge_match-Returns run snapshot) h
