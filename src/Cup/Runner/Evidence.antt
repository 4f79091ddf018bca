-- ===== src/Cup/Runner/Evidence.antt =====
-- The evidence of a match: which outcomes a run leaves, and what a frozen one vouches for.
use llm_evaluation_lab.Base.{
  ℕ, ◌≤◌, String, true, ◌&&◌, ◌≡◌, refl, ap, ◌∙◌, none, some, List, [], length, arith, and-true,
  str_eq, str_eq_iff, ==_iff,
}
use llm_evaluation_lab.Base.Int.{ℤ, pos, negsuc}
use llm_evaluation_lab.Base.Result.{Result, ok, err, ◌>>◌, require-ok, Returns, value, raised}
use llm_evaluation_lab.Cup.Error.{Error}
use llm_evaluation_lab.Cup.Contracts.{
  Runtime, EntrantConfig, SearchTrace, Submission, check_submission, FrozenSubmission,
}
use llm_evaluation_lab.Cup.Documents.{freeze}
use llm_evaluation_lab.Cup.Competition.{CandidateCard, CompetitionSpec}
use llm_evaluation_lab.Cup.Tools.{Backend, SearchProxy, new_proxy, search, UrlFixtures, read_page}
use llm_evaluation_lab.Cup.Tools.Metered.{
  IsMetered, AreNumbered, Steps, Metered-Steps, search-Metered,
}
use llm_evaluation_lab.Cup.Runner.Adapter.{Play, submits, raises, search_web, read_url, sees, play}
use llm_evaluation_lab.Cup.Runner.{
  EntrantOutcome, outcome_of, same_entrant, same_calls, admit, concluded,
}

-- What a provider can do to its proxy, and what it can hand in.
unfoldable pub Played : SearchProxy → Result Error Submission × SearchProxy → Type 0
Played p (r, p') =
    IsMetered p'
    × (p'.max_calls ≡ p.max_calls)
    × (p'.entrant_id ≡ p.entrant_id)
    × Returns (λ s. check_submission s ≡ ok tt) r

checked_submission :
    (s : Submission) (r : Result Error (Unit {0}))
    → check_submission s ≡ r
    → Returns (λ t. check_submission t ≡ ok tt) (r >> ok s)
checked_submission s (ok tt) e = value e
checked_submission s (err x) e = raised

pub play-Played :
    (show : ℕ → String) (backend : Backend) (pages : UrlFixtures) (x : Play) (p : SearchProxy)
    → IsMetered p
    → Played p (play show backend pages x p)
unfolding play Played Steps
play-Played show backend pages (submits s) p i =
    (i, refl, refl, checked_submission s (check_submission s) refl)
play-Played show backend pages (raises e) p i = (i, refl, refl, raised)
play-Played show backend pages (search_web m query k) p i =
    let called = search show m backend query p in
    let (i', budget, id, _) = Metered-Steps p i (search-Metered show m backend query p) in
    let (i'', budget', id', handed) = play-Played show backend pages (k called.0) called.1 i' in
    (i'', budget' ∙ budget, id' ∙ id, handed)
play-Played show backend pages (read_url url k) p i =
    play-Played show backend pages (k (read_page pages url)) p i
play-Played show backend pages (sees k) p i = play-Played show backend pages (k p.traces) p i

same_entrant-eq : (a b : EntrantConfig) → same_entrant a b ≡ true → a ≡ b
unfolding same_entrant
same_entrant-eq a b h =
    let id = str_eq a.entrant_id b.entrant_id in
    let provider = str_eq a.provider b.provider in
    let model = str_eq a.exact_model_id b.exact_model_id in
    let mode = str_eq a.endpoint_mode b.endpoint_mode in
    let sampling = str_eq a.sampling_json b.sampling_json in
    let (h1, e5) = and-true (id && provider && model && mode) sampling h in
    let (h2, e4) = and-true (id && provider && model) mode h1 in
    let (h3, e3) = and-true (id && provider) model h2 in
    let (e1, e2) = and-true id provider h3 in
    λ i. record {
      entrant_id = (str_eq_iff a.entrant_id b.entrant_id).0 e1 i;
      provider = (str_eq_iff a.provider b.provider).0 e2 i;
      exact_model_id = (str_eq_iff a.exact_model_id b.exact_model_id).0 e3 i;
      endpoint_mode = (str_eq_iff a.endpoint_mode b.endpoint_mode).0 e4 i;
      sampling_json = (str_eq_iff a.sampling_json b.sampling_json).0 e5 i;
    }

same_calls-eq : (n : ℤ) (m : ℕ) → same_calls n m ≡ true → n ≡ pos m
unfolding same_calls
same_calls-eq (pos n) m h = ap pos ((==_iff n m).0 h)
same_calls-eq (negsuc n) m h = cc

pub new_proxy-positive :
    (id : String) (n : ℕ)
    → 1 ≤ n
    → new_proxy id n ≡ ok (record { entrant_id = id; max_calls = n; traces = [] })
unfolding new_proxy
new_proxy-positive id n h = ground arith

module _ (rt : Runtime) (candidate : CandidateCard) (competition : CompetitionSpec) where
  open rt use {show}

  -- What a frozen submission stands for.
  pub record Vouched (entrant : EntrantConfig) (calls : ℕ) (frozen : FrozenSubmission)
      (s : Submission) : Type 0 where
    pub by : s.entrant ≡ entrant
    pub to_card : s.candidate_fingerprint ≡ candidate.fingerprint
    pub to_spec : s.competition_fingerprint ≡ competition.fingerprint
    pub counted : s.search_calls ≡ pos calls
    pub kept : freeze rt s ≡ ok frozen

  admit-Vouched :
      (entrant : EntrantConfig) (calls : ℕ) (s : Submission) {f : FrozenSubmission}
      → admit rt candidate competition entrant calls s ≡ ok f
      → Vouched entrant calls f s
  unfolding admit
  admit-Vouched entrant calls s h =
      let (e1, h1) = require-ok (same_entrant s.entrant entrant) _ _ h in
      let (e2, h2) = require-ok (str_eq s.candidate_fingerprint candidate.fingerprint) _ _ h1 in
      let (e3, h3) = require-ok (str_eq s.competition_fingerprint competition.fingerprint) _ _ h2 in
      let (e4, h4) = require-ok (same_calls s.search_calls calls) _ _ h3 in
      record {
        by = same_entrant-eq s.entrant entrant e1;
        to_card = (str_eq_iff s.candidate_fingerprint candidate.fingerprint).0 e2;
        to_spec = (str_eq_iff s.competition_fingerprint competition.fingerprint).0 e3;
        counted = same_calls-eq s.search_calls calls e4;
        kept = h4;
      }

  -- How an entrant's run ends.
  pub data Ended (entrant : EntrantConfig) (o : EntrantOutcome) : Type 0 where
    froze :
        (s : Submission) (f : FrozenSubmission)
        → o.status ≡ "FROZEN"
        → o.frozen_submission ≡ some f
        → check_submission s ≡ ok tt
        → Vouched entrant (length o.traces) f s
        → Ended entrant o
    failed : o.status ≡ "FAILED" → o.frozen_submission ≡ none → Ended entrant o

  pub record IsOutcome (entrant : EntrantConfig) (o : EntrantOutcome) : Type 0 where
    pub named : o.entrant_id ≡ entrant.entrant_id
    pub within : length o.traces ≤ competition.max_search_calls
    pub numbered : AreNumbered entrant.entrant_id 1 o.traces
    pub ended : Ended entrant o

  admitted-Ended :
      (entrant : EntrantConfig) (ts : List SearchTrace) (s : Submission)
      (r : Result Error FrozenSubmission)
      → check_submission s ≡ ok tt
      → admit rt candidate competition entrant (length ts) s ≡ r
      → Ended entrant (outcome_of entrant.entrant_id ts r)
  admitted-Ended entrant ts s (ok f) c e =
      froze s f refl refl c (admit-Vouched entrant (length ts) s e)
  admitted-Ended entrant ts s (err x) c e = failed refl refl

  pub concluded-Ended :
      (entrant : EntrantConfig) (r : Result Error Submission) (p : SearchProxy)
      → Returns (λ s. check_submission s ≡ ok tt) r
      → Ended entrant (concluded rt candidate competition entrant (r, p))
  concluded-Ended entrant (ok s) p (value c) =
      admitted-Ended entrant p.traces s (admit rt candidate competition entrant (length p.traces) s)
        c refl
  concluded-Ended entrant (err x) p h = failed refl refl

  pub outcome_of-traces :
      (id : String) (ts : List SearchTrace) (r : Result Error FrozenSubmission)
      → ((outcome_of id ts r).entrant_id ≡ id) × ((outcome_of id ts r).traces ≡ ts)
  outcome_of-traces id ts (ok f) = (refl, refl)
  outcome_of-traces id ts (err e) = (refl, refl)
