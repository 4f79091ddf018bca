-- ===== src/Lab/Historical.antt =====
-- evaluation_lab.py: the historical benchmark's document, read by `_validate_mechanisms`,
-- `_validate_historical_cases` and `load_historical_benchmark`.
pub mod Rounds
pub mod Pairing
pub mod Count
pub mod Load
use llm_evaluation_lab.Base.{
  ℕ, zero, suc, String, Bool, true, false, ◌&&◌, ◌||◌, not, List, [], ◌∷◌, map, filter, all,
  is_empty, length, str_eq, ◌==◌, if◌then◌else◌,
}
use llm_evaluation_lab.Base.Result.{Result, ok, err, ◌>>=◌, ◌>>◌, raise_if, require}
use llm_evaluation_lab.Json.{Json, obj, Fields, get}
use llm_evaluation_lab.Lab.Error.{
  Error, entry_required, object_required, duplicate, unsupported, unknown, incomplete,
  count_mismatch,
}
use llm_evaluation_lab.Lab.Read.{
  contains, required_text, text_of, bool_of, array_of, positive_integer,
}

pub record Mechanism : Type 0 where
  pub mechanism_id : String
  pub name : String
  pub gate : String
  pub source_categories : String

pub record Constraint : Type 0 where
  pub constraint_id : String
  pub status : String

pub record HistoricalCase : Type 0 where
  pub variant_id : String
  pub mechanism_id : String
  pub variant : String
  pub scenario : String
  pub candidate : String
  pub surface_confidence : String
  pub evidence_state : String
  pub constraints : List Constraint
  pub expected_accept : Bool

pub record HistoricalBenchmarkSuite : Type 0 where
  pub benchmark_id : String
  pub title : String
  pub run_id : String
  pub privacy : String
  pub source_observations : ℕ
  pub source_categories : ℕ
  pub mechanisms : List Mechanism
  pub cases : List HistoricalCase

unfoldable pub validate_mechanism : List String → ℕ → Json → Result Error Mechanism
validate_mechanism seen i (obj raw) = do
  mechanism_id ← required_text raw "mechanism_id"
  raise_if (contains mechanism_id seen) (duplicate "mechanism_id" mechanism_id)
  name ← required_text raw "name"
  gate ← required_text raw "gate"
  source_categories ← required_text raw "source_categories"
  ok (record {
    mechanism_id = mechanism_id;
    name = name;
    gate = gate;
    source_categories = source_categories;
  })
validate_mechanism seen i _ = err (entry_required i)

unfoldable pub mechanisms_from : List String → ℕ → List Json → Result Error (List Mechanism)
mechanisms_from seen i [] = ok []
mechanisms_from seen i (raw ∷ raws) = do
  one ← validate_mechanism seen i raw
  rest ← mechanisms_from (one.mechanism_id ∷ seen) (suc i) raws
  ok (one ∷ rest)

-- `_validate_mechanisms(raw_mechanisms, path)`
unfoldable pub validate_mechanisms : Json → Result Error (List Mechanism)
validate_mechanisms raw = do raws ← array_of "mechanisms" raw; mechanisms_from [] 0 raws

-- `pair_variants`: its keys are the mechanism identifiers, and each read of it comes after the test
-- that the key is one of them.
abbrev pub PairVariants : Type 0
PairVariants = String → List String

-- `pair_variants[mechanism_id].add(variant)`
unfoldable pub add_variant : String → String → PairVariants → PairVariants
add_variant mechanism_id variant pairs m =
    if str_eq mechanism_id m then variant ∷ pairs m else pairs m

-- `variants == {"TRAP", "CONTROL"}`
unfoldable pub is_pair : List String → Bool
is_pair variants =
    contains "TRAP" variants
    && contains "CONTROL" variants
    && all (λ v. contains v ("TRAP" ∷ "CONTROL" ∷ [])) variants

unfoldable pub validate_constraint : ℕ → Json → Result Error Constraint
validate_constraint i (obj raw) = do
  status ← required_text raw "status"
  require (contains status ("PASS" ∷ "FAIL" ∷ "UNKNOWN" ∷ [])) (unsupported "status" status)
  constraint_id ← required_text raw "constraint_id"
  ok (record { constraint_id = constraint_id; status = status })
validate_constraint i _ = err (entry_required i)

unfoldable pub validate_constraints : ℕ → List Json → Result Error (List Constraint)
validate_constraints i [] = ok []
validate_constraints i (raw ∷ raws) = do
  one ← validate_constraint i raw
  rest ← validate_constraints (suc i) raws
  ok (one ∷ rest)

-- The part of a round that looks at the case alone, after its variant is noted.
unfoldable pub case_body : String → String → String → Fields → Result Error HistoricalCase
case_body variant_id mechanism_id variant raw_case = do
  evidence_state ← required_text raw_case "evidence_state"
  require (contains evidence_state ("SUPPORTED" ∷ "CONTRADICTED" ∷ "UNKNOWN" ∷ "NOT_LOADED" ∷ []))
      (unsupported "evidence_state" evidence_state)
  surface_confidence ← required_text raw_case "surface_confidence"
  require (contains surface_confidence ("HIGH" ∷ "LOW" ∷ []))
      (unsupported "surface_confidence" surface_confidence)
  expected_accept ← bool_of "expected_accept" (get "expected_accept" raw_case)
  raw_constraints ← array_of "constraints" (get "constraints" raw_case)
  constraints ← validate_constraints 0 raw_constraints
  scenario ← required_text raw_case "scenario"
  candidate ← required_text raw_case "candidate"
  ok (record {
    variant_id = variant_id;
    mechanism_id = mechanism_id;
    variant = variant;
    scenario = scenario;
    candidate = candidate;
    surface_confidence = surface_confidence;
    evidence_state = evidence_state;
    constraints = constraints;
    expected_accept = expected_accept;
  })

-- One round of the loop over the raw cases.
unfoldable pub validate_historical_case :
    List String → List String → PairVariants → ℕ → Json → Result Error HistoricalCase
validate_historical_case mechanism_ids seen pairs i (obj raw_case) = do
  variant_id ← required_text raw_case "variant_id"
  raise_if (contains variant_id seen) (duplicate "variant_id" variant_id)
  mechanism_id ← required_text raw_case "mechanism_id"
  require (contains mechanism_id mechanism_ids) (unknown "mechanism_id" mechanism_id)
  variant ← required_text raw_case "variant"
  require (contains variant ("TRAP" ∷ "CONTROL" ∷ [])) (unsupported "variant" variant)
  raise_if (contains variant (pairs mechanism_id)) (duplicate variant mechanism_id)
  case_body variant_id mechanism_id variant raw_case
validate_historical_case mechanism_ids seen pairs i _ = err (entry_required i)

-- The loop: the cases, and `pair_variants` as it stands at the end.
unfoldable pub historical_from :
    List String
    → List String
    → PairVariants
    → ℕ
    → List Json
    → Result Error (List HistoricalCase × PairVariants)
historical_from mechanism_ids seen pairs i [] = ok ([], pairs)
historical_from mechanism_ids seen pairs i (raw ∷ raws) = do
  one ← validate_historical_case mechanism_ids seen pairs i raw
  rest ←
      historical_from mechanism_ids (one.variant_id ∷ seen)
        (add_variant one.mechanism_id one.variant pairs) (suc i) raws
  ok (one ∷ rest.0, rest.1)

-- The mechanisms that lack a variant; the source sorts them for its message.
unfoldable pub incomplete_ids : List String → PairVariants → List String
unfolding is_pair
incomplete_ids mechanism_ids pairs = filter (λ m. not (is_pair (pairs m))) mechanism_ids

-- `_validate_historical_cases(raw_cases, mechanism_ids, path)`
unfoldable pub validate_historical_cases : List String → Json → Result Error (List HistoricalCase)
validate_historical_cases mechanism_ids raw_cases = do
  raws ← array_of "inputs" raw_cases
  result ← historical_from mechanism_ids [] (λ m. []) 0 raws
  require (is_empty (incomplete_ids mechanism_ids result.1))
      (incomplete (incomplete_ids mechanism_ids result.1))
  ok result.0

unfoldable pub object_of : String → Json → Result Error Fields
object_of key (obj fs) = ok fs
object_of key _ = err (object_required key)

-- `load_historical_benchmark`, from the parsed document on.
unfoldable pub load_historical_benchmark : Json → Result Error HistoricalBenchmarkSuite
load_historical_benchmark parsed = do
  root ← object_of "case document" parsed
  document ← object_of "historical_benchmark" (get "historical_benchmark" root)
  privacy ← required_text document "privacy"
  require (str_eq privacy "PUBLIC_SAFE") (unsupported "privacy" privacy)
  source_scope ← object_of "source_scope" (get "source_scope" document)
  mechanisms ← validate_mechanisms (get "mechanisms" document)
  cases ← validate_historical_cases (map (λ m. m.mechanism_id) mechanisms) (get "inputs" document)
  declared_mechanisms ← positive_integer source_scope "mechanism_clusters"
  declared_cases ← positive_integer source_scope "public_cases"
  require (declared_mechanisms == length mechanisms) (count_mismatch "mechanism_clusters")
  require (declared_cases == length cases) (count_mismatch "public_cases")
  benchmark_id ← required_text document "benchmark_id"
  title ← required_text document "title"
  run_id ← required_text document "run_id"
  observations ← positive_integer source_scope "observations"
  raw_categories ← positive_integer source_scope "raw_categories"
  ok (record {
    benchmark_id = benchmark_id;
    title = title;
    run_id = run_id;
    privacy = privacy;
    source_observations = observations;
    source_categories = raw_categories;
    mechanisms = mechanisms;
    cases = cases;
  })
