-- ===== src/Cup/Scores/Match.antt =====
-- A match from its entrants to the judge's report: runner.py and judge.py together.
use mathlib.Core.List.{Perm}
use mathlib.Core.List.{Permᴰ}
use mathlib.Core.Logic.{∥∥₁_map}
use llm_evaluation_lab.Base.{
  true, All, String, ◌≤◌, ◌≡◌, refl, sym, ap, ◌∙◌, subst, List, [], ◌∷◌, map,
}
use llm_evaluation_lab.Base.Result.{ok, ok-injective}
use llm_evaluation_lab.Cup.Contracts.{Runtime, EntrantConfig}
use llm_evaluation_lab.Cup.Competition.{CandidateCard, CompetitionSpec}
use llm_evaluation_lab.Cup.Tools.{SearchFixtures, UrlFixtures}
use llm_evaluation_lab.Cup.Runner.{EntrantOutcome, MatchRun, Providers, is_frozen, run_match}
use llm_evaluation_lab.Cup.Runner.Isolation.{alone, alone-IsOutcome, run_match-alone}
use llm_evaluation_lab.Cup.Registry.{JudgeRegistrySnapshot}
use llm_evaluation_lab.Cup.Judge.{Scoring}
use llm_evaluation_lab.Cup.Scorecard.{CompetitionScore}
use llm_evaluation_lab.Cup.Scores.{CompetitionReport, judge_match}
use llm_evaluation_lab.Cup.Scores.Report.{judge_match-IsReport}

Permᴰ-map : {A B : Type 0} (f : A → B) {xs ys : List A} → Permᴰ xs ys → Permᴰ (map f xs) (map f ys)
Permᴰ-map f Permᴰ.nil = Permᴰ.nil
Permᴰ-map f (Permᴰ.cons e d) = Permᴰ.cons (ap f e) (Permᴰ-map f d)
Permᴰ-map f (Permᴰ.swap e d) = Permᴰ.swap (ap f e) (ap f d)
Permᴰ-map f (Permᴰ.trans d e) = Permᴰ.trans (Permᴰ-map f d) (Permᴰ-map f e)

perm-map : {A B : Type 0} (f : A → B) {xs ys : List A} → Perm xs ys → Perm (map f xs) (map f ys)
perm-map f {xs} {ys} p = ∥∥₁_map {B = Permᴰ (map f xs) (map f ys)} p (Permᴰ-map f)

module _ (rt : Runtime) (sc : Scoring) (candidate : CandidateCard) (competition : CompetitionSpec)
    (providers : Providers) (search_fixtures : String → SearchFixtures)
    (url_fixtures : String → UrlFixtures) where
  outcomes-named :
      (entrants : List EntrantConfig)
      → map
          (λ (o : EntrantOutcome). o.entrant_id)
          (map (alone rt candidate competition providers search_fixtures url_fixtures) entrants)
        ≡ map (λ (e : EntrantConfig). e.entrant_id) entrants
  outcomes-named [] = refl
  outcomes-named (e ∷ es) =
      let one = alone-IsOutcome rt candidate competition providers search_fixtures url_fixtures e in
      λ i. one.named i ∷ outcomes-named es i

  -- The report on a match that `run_match` has made, each entrant having at least one call, holds one
  -- score for each entrant of the competition and no other; the match has one outcome for each
  -- entrant, in their order, and every outcome is frozen.
  pub judge_match-run_match :
      (snapshot : JudgeRegistrySnapshot) {run : MatchRun} {r : CompetitionReport}
      → 1 ≤ competition.max_search_calls
      → run_match rt candidate competition providers search_fixtures url_fixtures ≡ ok run
      → judge_match rt sc run snapshot ≡ ok r
      → Perm
          (map (λ (s : CompetitionScore). s.entrant_id) r.scores)
          (map (λ (e : EntrantConfig). e.entrant_id) competition.entrants)
        × (map (λ (o : EntrantOutcome). o.entrant_id) run.outcomes
            ≡ map (λ (e : EntrantConfig). e.entrant_id) competition.entrants)
        × All (λ (o : EntrantOutcome). is_frozen o ≡ true) run.outcomes
  judge_match-run_match snapshot {run} {r} calls made judged =
      let report = judge_match-IsReport rt sc run snapshot judged in
      let alike = ok-injective (
        sym made
        ∙ run_match-alone rt candidate competition providers search_fixtures url_fixtures calls) in
      let (scores, order, ids) = report.scored in
      let named =
        ap (λ (m : MatchRun). map (λ (o : EntrantOutcome). o.entrant_id) m.outcomes) alike
        ∙ outcomes-named competition.entrants in
      (
        subst (Perm (map (λ (s : CompetitionScore). s.entrant_id) r.scores)) (ids ∙ named)
            (perm-map (λ (s : CompetitionScore). s.entrant_id) order),
        named,
        report.frozen,
      )
