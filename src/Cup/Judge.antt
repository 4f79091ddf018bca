-- ===== src/Cup/Judge.antt =====
-- search_cup/judge.py: the gate before the hidden registry, and the scores. The points of one lead
-- are whole floats, kept here as natural numbers; the arithmetic on their means is a parameter.
pub mod Points
use Prim.Native.Char.{code}
use llm_evaluation_lab.Base.{
  ℕ, zero, suc, ◌+◌, ◌-◌, ◌*◌, max, String, Bool, true, false, not, ◌&&◌, ◌||◌, ◌≡◌, Option, none,
  some, List, [], ◌∷◌, ◌++◌, map, any, all, count, length, ◌==◌, str_eq, ltb, if◌then◌else◌,
}
use llm_evaluation_lab.Base.Int.{ℤ, pos, negsuc}
use llm_evaluation_lab.Base.Result.{Result, ok, err, ◌>>=◌, ◌>>◌, require}
use llm_evaluation_lab.Json.{Float}
use llm_evaluation_lab.Lab.Read.{contains}
use llm_evaluation_lab.Cup.Error.{Error, value_error, access_denied}
use llm_evaluation_lab.Cup.Contracts.{Runtime, Lead, Submission, FrozenSubmission, url_key}
use llm_evaluation_lab.Cup.Documents.{thaw_verified}
use llm_evaluation_lab.Cup.Runner.{EntrantOutcome, MatchRun, all_frozen, frozen_outcomes}
use llm_evaluation_lab.Cup.Registry.{
  RegistryLeadAssessment, JudgeRegistrySnapshot, assessment_key, text_leb, verify,
}

-- Python's float operations on the means, with what the clamp and the order rely on.
pub record Scoring : Type 0 where
  pub div : ℕ → ℕ → Float
  pub add : Float → Float → Float
  pub sub : Float → Float → Float
  pub mul : Float → Float → Float
  pub less : Float → Float → Bool
  -- The float of a small natural number
  pub whole : ℕ → Float
  pub less-irreflexive : (x : Float) → less x x ≡ false
  pub less-asymmetric : (x y : Float) → less x y ≡ true → less y x ≡ false
  pub zero-less-hundred : less (whole 0) (whole 100) ≡ true

-- `HiddenRegistryGate.open(match, snapshot)`
unfoldable pub open_registry :
    Runtime → MatchRun → JudgeRegistrySnapshot → Result Error JudgeRegistrySnapshot
unfolding all_frozen verify
open_registry rt run snapshot = do
  require run.entrant_execution_closed (access_denied "entrant execution is still open")
  require (all_frozen run)
      (access_denied "all configured entrant submissions must be frozen before judging")
  verify rt snapshot
  ok snapshot

pub record LeadJudgment : Type 0 where
  pub source_url : String
  pub real_open_points : ℕ
  pub practical_fit_points : ℕ
  pub novelty_points : ℕ
  pub geography_points : ℕ
  pub actionability_points : ℕ
  pub penalty : ℕ
  pub apply_now : Bool
  pub reasons : List String

-- `term in text`
unfoldable pub starts_with : String → String → Bool
starts_with String.[] text = true
starts_with (String.◌∷◌ c s) String.[] = false
starts_with (String.◌∷◌ c s) (String.◌∷◌ d t) = code c == code d && starts_with s t

unfoldable pub has_text : String → String → Bool
unfolding starts_with
has_text term String.[] = starts_with term String.[]
has_text term (String.◌∷◌ c s) = starts_with term (String.◌∷◌ c s) || has_text term s

-- The five faults that cost points, with the reason of each, in the order of the code.
pub record Fault : Type 0 where
  pub found : Bool
  pub points : ℕ
  pub reason : String

unfoldable pub faults : (String → String) → Lead → RegistryLeadAssessment → List String → List Fault
unfolding url_key has_text
faults lower lead a known =
    record {
      found = not a.real_open && str_eq lead.open_status "OPEN";
      points = 5;
      reason = "closed/stale role reported as open";
    }
    ∷ record {
      found =
          a.us_only
          && any (λ term. has_text term (lower lead.remote_scope))
              ("world" ∷ "europe" ∷ "emea" ∷ []);
      points = 8;
      reason = "US-only role overstated as geographically applicable";
    }
    ∷ record {
      found = a.senior_or_phd_mismatch;
      points = 5;
      reason = "senior/PhD mismatch sold as fit";
    }
    ∷ record {
      found = contains (url_key lower lead.source_url) known && lead.claimed_novel;
      points = 3;
      reason = "known well presented as novel";
    }
    ∷ record {
      found = not a.primary_source || not lead.official_source;
      points = 3;
      reason = "credible primary source missing";
    }
    ∷ []

unfoldable pub penalty_of : ℕ → List Fault → ℕ
penalty_of multiplier [] = 0
penalty_of multiplier (f ∷ fs) =
    let rest = penalty_of multiplier fs in if f.found then f.points * multiplier + rest else rest

unfoldable pub reasons_of : List Fault → List String
reasons_of [] = []
reasons_of (f ∷ fs) = let rest = reasons_of fs in if f.found then f.reason ∷ rest else rest

-- `points if test else 0.0`
abbrev pub points_if : Bool → ℕ → ℕ
points_if b n = if b then n else 0

-- `multiplier = 2.0 if is_apply_now else 1.0`
abbrev pub multiplier_of : Bool → ℕ
multiplier_of is_apply_now = if is_apply_now then 2 else 1

abbrev pub fabricated_judgment : String → Bool → LeadJudgment
fabricated_judgment source_url is_apply_now = record {
  source_url = source_url;
  real_open_points = 0;
  practical_fit_points = 0;
  novelty_points = 0;
  geography_points = 0;
  actionability_points = 0;
  penalty = 0;
  apply_now = is_apply_now;
  reasons = "fabricated lead: score forced to zero" ∷ [];
}

-- `_lead_judgment(lead, assessment, known, apply_now)`
unfoldable pub lead_judgment :
    (String → String) → Lead → RegistryLeadAssessment → List String → List String → LeadJudgment
unfolding faults penalty_of reasons_of url_key
lead_judgment lower lead a known apply_now =
    let is_apply_now = contains lead.source_url apply_now in
    let found = faults lower lead a known in
    if a.fabricated then fabricated_judgment lead.source_url is_apply_now else record {
      source_url = lead.source_url;
      real_open_points = points_if a.real_open 25;
      practical_fit_points = points_if a.practical_fit 25;
      novelty_points = points_if (not (contains (url_key lower lead.source_url) known)) 20;
      geography_points = points_if a.geography_eligible 15;
      actionability_points = points_if a.actionable 10;
      penalty = penalty_of (multiplier_of is_apply_now) found;
      apply_now = is_apply_now;
      reasons = reasons_of found;
    }
