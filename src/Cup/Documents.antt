-- ===== src/Cup/Documents.antt =====
-- search_cup/contracts.py: contracts as JSON documents and back, and the frozen submission, which is
-- a canonical text with its hash.
pub mod Thawed
use Prim.Native.String.{◌++◌ as append}
use llm_evaluation_lab.Base.{
  none, some, ℕ, String, Bool, true, false, not, ◌&&◌, Option, List, [], ◌∷◌, map, is_empty, str_eq,
  if◌then◌else◌,
}
use llm_evaluation_lab.Base.Int.{ℤ}
use llm_evaluation_lab.Base.Result.{Result, ok, err, ◌>>=◌, ◌>>◌, raise_if, require}
use llm_evaluation_lab.Json.{
  Float, Json, null, bool, int, float, str, arr, obj, Fields, end, field, items, array, get, get_or,
  nil,
}
use llm_evaluation_lab.Cup.Error.{Error, other, value_error}
use llm_evaluation_lab.Cup.Contracts.{
  Runtime, required_text, EntrantConfig, Lead, check_lead, Submission, check_submission,
  FrozenSubmission,
}

-- `_required_text(value, label)` on a JSON value
unfoldable pub text_of : Json → String → Result Error String
unfolding required_text
text_of (str s) label = required_text s label
text_of _ label = err (value_error (append label " must be a non-empty string"))

-- `_required_bool(value, label)`
unfoldable pub bool_of : Json → String → Result Error Bool
bool_of (bool b) label = ok b
bool_of _ label = err (value_error (append label " must be boolean"))

unfoldable pub texts_of : List Json → String → Result Error (List String)
unfolding text_of
texts_of [] label = ok []
texts_of (j ∷ js) label = do
  one ← text_of j (append label "[]")
  rest ← texts_of js label
  ok (one ∷ rest)

-- `_string_tuple(value, label, allow_empty=…)`
unfoldable pub string_tuple : Bool → Json → String → Result Error (List String)
unfolding texts_of
string_tuple allow_empty (arr js) label = do
  normalized ← texts_of (items js) label
  raise_if (is_empty normalized && not allow_empty)
      (value_error (append label " must not be empty"))
  ok normalized
string_tuple allow_empty _ label = err (value_error (append label " must be an array"))

abbrev pub strings : List String → Json
strings xs = arr (array (map str xs))

abbrev pub fields_of : String → Json → Result Error Fields
fields_of message (obj fs) = ok fs
fields_of message _ = err (value_error message)

-- `isinstance(value, list)`, each item a mapping
unfoldable pub objects_of : List Json → Result Error (List Fields)
objects_of [] = ok []
objects_of (j ∷ js) = do
  one ← fields_of "every submitted lead must be an object" j
  rest ← objects_of js
  ok (one ∷ rest)

abbrev pub list_of : String → Json → Result Error (List Json)
list_of message (arr js) = ok (items js)
list_of message _ = err (value_error message)

abbrev pub int_of : String → Json → Result Error ℤ
int_of message (int n) = ok n
int_of message _ = err (value_error message)

-- `asdict(lead)`
unfoldable pub lead_dict : Lead → Json
lead_dict l = obj (
    field "company" (str l.company) (
      field "role" (str l.role) (
        field "source_url" (str l.source_url) (
          field "official_source" (bool l.official_source) (
            field "open_status" (str l.open_status) (
              field "remote_scope" (str l.remote_scope) (
                field "location_constraint" (str l.location_constraint) (
                  field "employment_type" (str l.employment_type) (
                    field "required_skills" (strings l.required_skills) (
                      field "candidate_fit" (str l.candidate_fit) (
                        field "mismatch_risks" (strings l.mismatch_risks) (
                          field "portfolio_relevance" (str l.portfolio_relevance) (
                            field "confidence" (float l.confidence) (
                              field "next_action" (str l.next_action) (
                                field "evidence_urls" (strings l.evidence_urls)
                                  (field "claimed_novel" (bool l.claimed_novel) end))))))))))))))))

module _ (rt : Runtime) where
  open rt use {float_of, sha256, dumps, loads}

  -- `EntrantConfig.from_mapping(document)`
  unfoldable pub entrant_from : Fields → Result Error EntrantConfig
  unfolding text_of
  entrant_from document = do
    sampling ← fields_of "entrant sampling must be an object" (get_or "sampling" document (obj end))
    entrant_id ← text_of (get "entrant_id" document) "entrant_id"
    provider ← text_of (get "provider" document) "provider"
    exact_model_id ← text_of (get "exact_model_id" document) "exact_model_id"
    endpoint_mode ← text_of (get "endpoint_mode" document) "endpoint_mode"
    ok (record {
      entrant_id = entrant_id;
      provider = provider;
      exact_model_id = exact_model_id;
      endpoint_mode = endpoint_mode;
      sampling_json = dumps (obj sampling);
    })

  -- `EntrantConfig.as_dict`
  unfoldable pub entrant_dict : EntrantConfig → Result Error Json
  entrant_dict e = do
    sampling ← loads e.sampling_json
    ok (
        obj (
          field "entrant_id" (str e.entrant_id) (
            field "provider" (str e.provider) (
              field "exact_model_id" (str e.exact_model_id)
                (field "endpoint_mode" (str e.endpoint_mode) (field "sampling" sampling end))))))

  abbrev pub number_of : Json → Result Error Float
  number_of (int n) = elim (float_of n) [
    | none ↦ err (other "OverflowError" "int too large to convert to float")
    | some x ↦ ok x
  ]
  number_of (float x) = ok x
  number_of _ = err (value_error "confidence must be numeric")

  -- `Lead.from_mapping(document)`, with the checks of the constructor
  unfoldable pub lead_from : Fields → Result Error Lead
  unfolding text_of bool_of string_tuple check_lead
  lead_from document = do
    confidence ← number_of (get "confidence" document)
    company ← text_of (get "company" document) "company"
    role ← text_of (get "role" document) "role"
    source_url ← text_of (get "source_url" document) "source_url"
    official_source ← bool_of (get "official_source" document) "official_source"
    open_status ← text_of (get "open_status" document) "open_status"
    remote_scope ← text_of (get "remote_scope" document) "remote_scope"
    location_constraint ← text_of (get "location_constraint" document) "location_constraint"
    employment_type ← text_of (get "employment_type" document) "employment_type"
    required_skills ←
        string_tuple true (get_or "required_skills" document (arr nil)) "required_skills"
    candidate_fit ← text_of (get "candidate_fit" document) "candidate_fit"
    mismatch_risks ← string_tuple true (get_or "mismatch_risks" document (arr nil)) "mismatch_risks"
    portfolio_relevance ← text_of (get "portfolio_relevance" document) "portfolio_relevance"
    next_action ← text_of (get "next_action" document) "next_action"
    evidence_urls ← string_tuple false (get_or "evidence_urls" document (arr nil)) "evidence_urls"
    claimed_novel ← bool_of (get_or "claimed_novel" document (bool false)) "claimed_novel"
    let lead : Lead = record {
      company = company;
      role = role;
      source_url = source_url;
      official_source = official_source;
      open_status = open_status;
      remote_scope = remote_scope;
      location_constraint = location_constraint;
      employment_type = employment_type;
      required_skills = required_skills;
      candidate_fit = candidate_fit;
      mismatch_risks = mismatch_risks;
      portfolio_relevance = portfolio_relevance;
      confidence = confidence;
      next_action = next_action;
      evidence_urls = evidence_urls;
      claimed_novel = claimed_novel;
    }
    check_lead lead
    ok lead

  unfoldable pub leads_from : List Fields → Result Error (List Lead)
  unfolding lead_from
  leads_from [] = ok []
  leads_from (d ∷ ds) = do one ← lead_from d; rest ← leads_from ds; ok (one ∷ rest)

  -- `Submission.as_dict`
  unfoldable pub submission_dict : Submission → Result Error Json
  unfolding entrant_dict lead_dict
  submission_dict s = do
    entrant ← entrant_dict s.entrant
    ok (
        obj (
          field "entrant" entrant (
            field "candidate_fingerprint" (str s.candidate_fingerprint) (
              field "competition_fingerprint" (str s.competition_fingerprint) (
                field "leads" (arr (array (map lead_dict s.leads))) (
                  field "apply_now_urls" (strings s.apply_now_urls) (
                    field "search_strategy_summary" (str s.search_strategy_summary) (
                      field "rejected_or_downgraded" (strings s.rejected_or_downgraded) (
                        field "uncertainties" (strings s.uncertainties)
                          (field "search_calls" (int s.search_calls) end))))))))))

  -- `Submission.from_mapping(document)`, with the checks of the constructor
  unfoldable pub submission_from : Fields → Result Error Submission
  unfolding entrant_from leads_from objects_of text_of string_tuple check_submission
  submission_from document = do
    raw_entrant ← fields_of "submission is missing entrant or leads" (get "entrant" document)
    raw_leads ← list_of "submission is missing entrant or leads" (get "leads" document)
    lead_documents ← objects_of raw_leads
    search_calls ← int_of "submission search_calls must be an integer" (get "search_calls" document)
    entrant ← entrant_from raw_entrant
    candidate_fingerprint ← text_of (get "candidate_fingerprint" document) "candidate_fingerprint"
    competition_fingerprint ←
        text_of (get "competition_fingerprint" document) "competition_fingerprint"
    leads ← leads_from lead_documents
    apply_now_urls ← string_tuple true (get_or "apply_now_urls" document (arr nil)) "apply_now_urls"
    summary ← text_of (get "search_strategy_summary" document) "search_strategy_summary"
    rejected ←
        string_tuple true (get_or "rejected_or_downgraded" document (arr nil))
          "rejected_or_downgraded"
    uncertainties ← string_tuple true (get_or "uncertainties" document (arr nil)) "uncertainties"
    let submission : Submission = record {
      entrant = entrant;
      candidate_fingerprint = candidate_fingerprint;
      competition_fingerprint = competition_fingerprint;
      leads = leads;
      apply_now_urls = apply_now_urls;
      search_strategy_summary = summary;
      rejected_or_downgraded = rejected;
      uncertainties = uncertainties;
      search_calls = search_calls;
    }
    check_submission submission
    ok submission

  -- `FrozenSubmission.freeze(submission)`
  unfoldable pub freeze : Submission → Result Error FrozenSubmission
  unfolding submission_dict
  freeze s = do
    document ← submission_dict s
    ok (record {
      entrant_id = s.entrant.entrant_id;
      canonical_content = dumps document;
      sha256 = sha256 (dumps document);
    })

  -- `frozen.thaw_verified()`
  unfoldable pub thaw_verified : FrozenSubmission → Result Error Submission
  unfolding submission_from
  thaw_verified frozen = do
    require (str_eq (sha256 frozen.canonical_content) frozen.sha256)
        (value_error "frozen submission hash mismatch")
    loaded ← loads frozen.canonical_content
    document ← fields_of "frozen submission must contain an object" loaded
    submission ← submission_from document
    require (str_eq submission.entrant.entrant_id frozen.entrant_id)
        (value_error "frozen submission entrant mismatch")
    ok submission
