-- ===== src/Lab/Mitigation.antt =====
-- evaluation_lab.py: `validate_mitigation_spec`, and `load_case_suite` on a parsed document. What the
-- Companion-Mind package says of a validated spec is an argument.
pub mod Statuses
pub mod Disjoint
use Prim.Native.Nat.{Ordering}
use Prim.Native.String as Native
use llm_evaluation_lab.Base.{
  String, Bool, true, false, not, List, [], ◌∷◌, map, filter, is_empty, str_eq, if◌then◌else◌,
}
use llm_evaluation_lab.Base.Result.{Result, ok, err, ◌>>=◌, ◌>>◌, raise_if, require}
use llm_evaluation_lab.Json.{Json, Fields, get}
use llm_evaluation_lab.Lab.Error.{Error, unsupported, overlap}
use llm_evaluation_lab.Lab.Read.{contains, required_text, string_array}
use llm_evaluation_lab.Lab.Cases.{Case, validate_cases}
use llm_evaluation_lab.Lab.Historical.{object_of}

pub record RuntimeContract : Type 0 where
  pub guard_type : String
  pub safeguard_id : String
  pub empty_evidence_decision : String
  pub non_terminal_decision : String
  pub all_terminal_decision : String
  pub terminal_statuses : List String
  pub blocking_statuses : List String

pub record MitigationSpec : Type 0 where
  pub schema_version : String
  pub mitigation_id : String
  pub target_failure : String
  pub intervention : String
  pub control : String
  pub treatment : String
  pub decision_rule : String
  pub metrics : List String
  pub regression_cases : List String
  pub runtime : RuntimeContract

pub record CaseSuite : Type 0 where
  pub case_id : String
  pub title : String
  pub run_id : String
  pub mitigation_id : String
  pub safeguard_id : String
  pub privacy : String
  pub cases : List Case

-- `sorted(…)` of texts
unfoldable pub add_sorted : String → List String → List String
add_sorted x [] = x ∷ []
add_sorted x (y ∷ ys) =
    let rest = add_sorted x ys in
    elim (Native.compare x y) [ Ordering.gt ↦ y ∷ rest | _ ↦ x ∷ y ∷ ys ]

unfoldable pub sort_texts : List String → List String
unfolding add_sorted
sort_texts [] = []
sort_texts (x ∷ xs) = add_sorted x (sort_texts xs)

-- `set(…)`, one of each text
unfoldable pub unique : List String → List String
unique [] = []
unique (x ∷ xs) = let rest = unique xs in if contains x xs then rest else x ∷ rest

-- `sorted(set(terminal) & set(blocking))` of sorted statuses
unfoldable pub overlapping : List String → List String → List String
unfolding unique
overlapping terminal blocking = unique (filter (λ s. contains s blocking) terminal)

-- `validate_mitigation_spec(document)`
unfoldable pub validate_mitigation_spec :
    (String → String)
    → (MitigationSpec → Result Error (Unit {0}))
    → Json
    → Result Error MitigationSpec
unfolding object_of required_text string_array sort_texts overlapping
validate_mitigation_spec upper companion_mind raw = do
  document ← object_of "mitigation spec" raw
  schema_version ← required_text document "schema_version"
  mitigation_id ← required_text document "mitigation_id"
  target_failure ← required_text document "target_failure"
  intervention ← required_text document "intervention"
  control ← required_text document "control"
  treatment ← required_text document "treatment"
  decision_rule ← required_text document "decision_rule"
  require (str_eq schema_version "mitigation-spec/v1") (unsupported "schema_version" schema_version)
  require (str_eq target_failure "premature_parent_closure")
      (unsupported "target_failure" target_failure)
  runtime ← object_of "runtime" (get "runtime" document)
  guard_type ← required_text runtime "guard_type"
  safeguard_id ← required_text runtime "safeguard_id"
  empty_evidence ← required_text runtime "empty_evidence_decision"
  non_terminal ← required_text runtime "non_terminal_decision"
  all_terminal ← required_text runtime "all_terminal_decision"
  raw_terminal ← string_array runtime "terminal_statuses"
  raw_blocking ← string_array runtime "blocking_statuses"
  let terminal = sort_texts (map upper raw_terminal)
  let blocking = sort_texts (map upper raw_blocking)
  require (is_empty (overlapping terminal blocking)) (overlap (overlapping terminal blocking))
  metrics ← string_array document "metrics"
  regression_cases ← string_array document "regression_cases"
  let spec : MitigationSpec = record {
    schema_version = schema_version;
    mitigation_id = mitigation_id;
    target_failure = target_failure;
    intervention = intervention;
    control = control;
    treatment = treatment;
    decision_rule = decision_rule;
    metrics = metrics;
    regression_cases = regression_cases;
    runtime = record {
      guard_type = guard_type;
      safeguard_id = safeguard_id;
      empty_evidence_decision = empty_evidence;
      non_terminal_decision = non_terminal;
      all_terminal_decision = all_terminal;
      terminal_statuses = terminal;
      blocking_statuses = blocking;
    };
  }
  companion_mind spec
  ok spec

-- `load_case_suite(path)`, the document read
unfoldable pub load_case_suite : Json → Result Error CaseSuite
unfolding object_of required_text validate_cases
load_case_suite raw = do
  document ← object_of "case document" raw
  privacy ← required_text document "privacy"
  require (contains privacy ("PUBLIC" ∷ "PUBLIC_SAFE" ∷ "REDACTED" ∷ []))
      (unsupported "privacy" privacy)
  case_id ← required_text document "case_id"
  title ← required_text document "title"
  run_id ← required_text document "run_id"
  mitigation_id ← required_text document "mitigation_id"
  safeguard_id ← required_text document "safeguard_id"
  cases ← validate_cases (get "inputs" document)
  ok (record {
    case_id = case_id;
    title = title;
    run_id = run_id;
    mitigation_id = mitigation_id;
    safeguard_id = safeguard_id;
    privacy = privacy;
    cases = cases;
  })
