-- ===== src/Cup/Competition.antt =====
-- search_cup/contracts.py: the candidate card and the competition spec, read from JSON documents.
pub mod Public
pub mod Fair
use Prim.Native.String.{◌++◌ as append}
use llm_evaluation_lab.Base.{
  ℕ, suc, String, Bool, true, false, not, ◌&&◌, List, [], ◌∷◌, map, all, length, ◌==◌,
  if◌then◌else◌,
}
use llm_evaluation_lab.Base.Int.{pos}
use llm_evaluation_lab.Base.Result.{Result, ok, err, ◌>>=◌, ◌>>◌, raise_if, require}
use llm_evaluation_lab.Text.{strip}
use llm_evaluation_lab.Json.{
  Json, null, bool, int, float, str, arr, obj, Items, nil, cons, Fields, end, field, items, get,
}
use llm_evaluation_lab.Lab.Read.{contains}
use llm_evaluation_lab.Cup.Error.{Error, value_error}
use llm_evaluation_lab.Cup.Contracts.{Runtime, EntrantConfig}
use llm_evaluation_lab.Cup.Documents.{text_of, bool_of, entrant_from}

pub record CandidateCard : Type 0 where
  pub canonical_content : String
  pub fingerprint : String

pub record CompetitionSpec : Type 0 where
  pub competition_id : String
  pub task : String
  pub max_search_calls : ℕ
  pub search_backend_id : String
  pub official_match_authorized : Bool
  pub entrants : List EntrantConfig
  pub canonical_content : String
  pub fingerprint : String

-- `FORBIDDEN_CANDIDATE_KEYS`
abbrev pub forbidden_candidate_keys : List String
forbidden_candidate_keys =
    "account_data" ∷ "credentials" ∷ "family" ∷ "financial" ∷ "google_drive" ∷ "health" ∷ "l0"
    ∷ "private_archive" ∷ "raw" ∷ "relationship" ∷ []

-- `str(key).strip().lower() in FORBIDDEN_CANDIDATE_KEYS`
unfoldable pub is_forbidden : (String → String) → String → Bool
unfolding strip
is_forbidden lower key = contains (lower (strip key)) forbidden_candidate_keys

abbrev pub private_field : String → String → Error
private_field path key =
    value_error (append path (append "." (append key ": private field is not allowed")))

-- `isinstance(item, Mapping)`
abbrev pub is_object : Json → Bool
is_object (obj fs) = true
is_object _ = false

-- `len(set(values)) == len(values)`
unfoldable pub is_distinct : List String → Bool
is_distinct [] = true
is_distinct (x ∷ xs) = not (contains x xs) && is_distinct xs

-- `set(xs) == set(ys)`
abbrev pub same_set : List String → List String → Bool
same_set xs ys = all (λ x. contains x ys) xs && all (λ y. contains y xs) ys

-- `budget != 20`, for an `int` that is no `bool`
abbrev pub budget_of : Json → Result Error ℕ
budget_of (int (pos n)) =
    if n == 20 then ok n else err (value_error "SEARCH-CUP-02 requires max_search_calls == 20")
budget_of _ = err (value_error "SEARCH-CUP-02 requires max_search_calls == 20")

-- A list of four
abbrev pub four_of : Json → Result Error (List Json)
four_of (arr js) =
    if length (items js) == 4
    then ok (items js)
    else err (value_error "SEARCH-CUP-02 requires exactly four entrants")
four_of _ = err (value_error "SEARCH-CUP-02 requires exactly four entrants")

abbrev pub four_providers : List String
four_providers = "openai" ∷ "gemini" ∷ "deepseek" ∷ "glm" ∷ []

module _ (rt : Runtime) where
  open rt use {lower, show, sha256, dumps}

  -- `_scan_forbidden_keys(value, path)`
  unfoldable mutual
    pub scan_forbidden_keys : String → Json → Result Error (Unit {0})
    scan_forbidden_keys path (obj fs) = scan_fields path fs
    scan_forbidden_keys path (arr js) = scan_items path 0 js
    scan_forbidden_keys path _ = ok tt

    pub scan_fields : String → Fields → Result Error (Unit {0})
    scan_fields path end = ok tt
    scan_fields path (field key item rest) = do
      raise_if (is_forbidden lower key) (private_field path key)
      scan_forbidden_keys (append path (append "." key)) item
      scan_fields path rest

    pub scan_items : String → ℕ → Items → Result Error (Unit {0})
    scan_items path i nil = ok tt
    scan_items path i (cons item rest) = do
      scan_forbidden_keys (append path (append "[" (append (show i) "]"))) item
      scan_items path (suc i) rest

  -- `CandidateCard.from_mapping(document)`
  unfoldable pub candidate_from : Fields → Result Error CandidateCard
  unfolding scan_forbidden_keys text_of
  candidate_from document = do
    scan_forbidden_keys "candidate" (obj document)
    _ ← text_of (get "candidate_id" document) "candidate_id"
    _ ← text_of (get "legal_name" document) "legal_name"
    _ ← text_of (get "technical_name" document) "technical_name"
    require
        (is_object (get "base" document)
          && is_object (get "languages" document)
          && is_object (get "current_positioning" document)
          && is_object (get "current_target_roles" document))
        (value_error "candidate card is missing a required profile section")
    let content = dumps (obj document)
    ok (record { canonical_content = content; fingerprint = sha256 content })

  -- The comprehension parses every mapping, and an item that is none is missed only afterwards.
  unfoldable pub entrants_from : List Json → Result Error (List EntrantConfig)
  unfolding entrant_from
  entrants_from [] = ok []
  entrants_from (obj document ∷ rest) = do
    one ← entrant_from rt document
    more ← entrants_from rest
    ok (one ∷ more)
  entrants_from (_ ∷ rest) = entrants_from rest

  -- `CompetitionSpec.from_mapping(document)`
  unfoldable pub competition_from : Fields → Result Error CompetitionSpec
  unfolding text_of bool_of entrants_from is_distinct
  competition_from document = do
    competition_id ← text_of (get "competition_id" document) "competition_id"
    task ← text_of (get "task" document) "task"
    backend ← text_of (get "search_backend_id" document) "search_backend_id"
    budget ← budget_of (get "max_search_calls" document)
    authorized ← bool_of (get "official_match_authorized" document) "official_match_authorized"
    raw_entrants ← four_of (get "entrants" document)
    entrants ← entrants_from raw_entrants
    require (length entrants == 4) (value_error "every entrant must be an object")
    let entrant_ids = map (λ (e : EntrantConfig). e.entrant_id) entrants
    let providers = map (λ (e : EntrantConfig). lower e.provider) entrants
    require (is_distinct entrant_ids && is_distinct providers)
        (value_error "entrant IDs and providers must be unique")
    require (same_set providers four_providers)
        (value_error "entrants must be OpenAI, Gemini, DeepSeek, and GLM")
    let content = dumps (obj document)
    ok (record {
      competition_id = competition_id;
      task = task;
      max_search_calls = budget;
      search_backend_id = backend;
      official_match_authorized = authorized;
      entrants = entrants;
      canonical_content = content;
      fingerprint = sha256 content;
    })
