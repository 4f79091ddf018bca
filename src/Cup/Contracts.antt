-- ===== src/Cup/Contracts.antt =====
-- search_cup/contracts.py: the immutable contracts, and the checks that constructing one runs
-- (`__post_init__`).
use Prim.Native.String.{◌++◌ as append}
use llm_evaluation_lab.Base.{
  ℕ, String, Bool, false, not, ◌&&◌, Option, List, [], ◌∷◌, map, any, length, is_empty, leb, ltb,
  ◌*◌, ◌^◌, suc, if◌then◌else◌,
}
use llm_evaluation_lab.Base.Int.{ℤ, pos, negsuc}
use llm_evaluation_lab.Base.Result.{Result, ok, err, ◌>>◌, raise_if, require}
use llm_evaluation_lab.Text.{strip, rstrip_slash, is_blank, is_blank_text}
use llm_evaluation_lab.Json.{Json, Float, finite}
use llm_evaluation_lab.Lab.Read.{contains}
use llm_evaluation_lab.Cup.Error.{Error, value_error}

-- What search_cup/ uses of Python: the canonical JSON text and its reader, SHA-256 in hexadecimal,
-- `str.lower`, `str` of a number, and `float` of an integer, `none` where that raises an OverflowError.
pub record Runtime : Type 0 where
  pub lower : String → String
  pub show : ℕ → String
  pub float_of : ℤ → Option Float
  pub sha256 : String → String
  pub dumps : Json → String
  pub loads : String → Result Error Json

-- `_required_text(value, label)` on a text: it returns the text stripped.
unfoldable pub required_text : String → String → Result Error String
required_text value label =
    if is_blank value
    then err (value_error (append label " must be a non-empty string"))
    else ok (strip value)

-- `_required_text(value, label)` called for its check alone
abbrev pub check_text : String → String → Result Error (Unit {0})
check_text value label =
    raise_if (is_blank value) (value_error (append label " must be a non-empty string"))

pub record EntrantConfig : Type 0 where
  pub entrant_id : String
  pub provider : String
  pub exact_model_id : String
  pub endpoint_mode : String
  pub sampling_json : String

pub record SearchRequest : Type 0 where
  pub entrant_id : String
  pub query : String
  pub call_number : ℕ
  pub request_id : String

-- `SearchRequest.__post_init__`; a call number is not negative here.
unfoldable pub check_request : SearchRequest → Result Error (Unit {0})
check_request r = do
  check_text r.entrant_id "entrant_id"
  check_text r.query "query"
  raise_if (not (is_blank_text r.request_id) && is_blank r.request_id)
      (value_error "request_id must be a non-empty string")

pub record SearchResult : Type 0 where
  pub title : String
  pub url : String
  pub snippet : String

-- `SearchResult.__post_init__`
unfoldable pub check_search_result : SearchResult → Result Error (Unit {0})
check_search_result r = do
  check_text r.title "search result title"
  check_text r.url "search result URL"

pub record SearchTrace : Type 0 where
  pub entrant_id : String
  pub call_number : ℕ
  pub query : String
  pub status : String
  pub result_count : ℕ
  pub error_type : Option String
  pub error_code : Option String
  pub error_message : Option String
  pub backend_id : Option String
  pub backend_request_id : Option String
  pub backend_response_id : Option String
  pub http_status : Option ℕ
  pub retryable : Option Bool
  pub backend_attempts : ℕ
  pub automatic_retries : ℕ
  pub started_at_utc : Option String
  pub duration_ms : Option Float

pub record UrlReadResult : Type 0 where
  pub url : String
  pub status : String
  pub title : String
  pub text : String

-- `UrlReadResult.__post_init__`
unfoldable pub check_url_read : UrlReadResult → Result Error (Unit {0})
check_url_read r = do
  check_text r.url "URL read URL"
  require (contains r.status ("OK" ∷ "BLOCKED" ∷ "JS_REQUIRED" ∷ "NOT_FOUND" ∷ []))
      (value_error "unsupported URL read status")

pub record Lead : Type 0 where
  pub company : String
  pub role : String
  pub source_url : String
  pub official_source : Bool
  pub open_status : String
  pub remote_scope : String
  pub location_constraint : String
  pub employment_type : String
  pub required_skills : List String
  pub candidate_fit : String
  pub mismatch_risks : List String
  pub portfolio_relevance : String
  pub confidence : Float
  pub next_action : String
  pub evidence_urls : List String
  pub claimed_novel : Bool

-- `m · 2 ^ e <= 1` for a natural m
abbrev pub at_most_one : ℕ → ℤ → Bool
at_most_one m (pos e) = leb (m * 2 ^ e) 1
at_most_one m (negsuc e) = leb m (2 ^ suc e)

-- `0.0 <= x <= 1.0`
unfoldable pub in_unit : Float → Bool
in_unit (finite (pos m) e) = at_most_one m e
in_unit _ = false

-- `Lead.__post_init__`
unfoldable pub check_lead : Lead → Result Error (Unit {0})
check_lead l = do
  check_text l.company "company"
  check_text l.role "role"
  check_text l.source_url "source_url"
  check_text l.open_status "open_status"
  check_text l.remote_scope "remote_scope"
  check_text l.location_constraint "location_constraint"
  check_text l.employment_type "employment_type"
  check_text l.candidate_fit "candidate_fit"
  check_text l.portfolio_relevance "portfolio_relevance"
  check_text l.next_action "next_action"
  require (contains l.open_status ("OPEN" ∷ "CLOSED" ∷ "UNVERIFIED" ∷ []))
      (value_error "open_status must be OPEN, CLOSED, or UNVERIFIED")
  require (in_unit l.confidence) (value_error "confidence must be between 0 and 1")
  raise_if (is_empty l.evidence_urls) (value_error "lead must include at least one evidence URL")

pub record Submission : Type 0 where
  pub entrant : EntrantConfig
  pub candidate_fingerprint : String
  pub competition_fingerprint : String
  pub leads : List Lead
  pub apply_now_urls : List String
  pub search_strategy_summary : String
  pub rejected_or_downgraded : List String
  pub uncertainties : List String
  pub search_calls : ℤ

-- `0 <= search_calls <= 20`
abbrev pub calls_in_range : ℤ → Bool
calls_in_range (pos n) = leb n 20
calls_in_range (negsuc n) = false

-- `Submission.__post_init__`
unfoldable pub check_submission : Submission → Result Error (Unit {0})
check_submission s = do
  raise_if (ltb 20 (length s.leads)) (value_error "submission may contain at most 20 leads")
  raise_if (ltb 5 (length s.apply_now_urls))
      (value_error "submission may contain at most five Apply-Now leads")
  raise_if
      (any (λ url. not (contains url (map (λ (l : Lead). l.source_url) s.leads))) s.apply_now_urls)
      (value_error "Apply-Now URLs must refer to submitted leads")
  require (calls_in_range s.search_calls) (value_error "search_calls must be between 0 and 20")
  check_text s.search_strategy_summary "search_strategy_summary"

pub record FrozenSubmission : Type 0 where
  pub entrant_id : String
  pub canonical_content : String
  pub sha256 : String

-- `url.strip().rstrip("/").lower()`, the key of a lead and of an assessment
unfoldable pub url_key : (String → String) → String → String
unfolding strip rstrip_slash
url_key lower url = lower (rstrip_slash (strip url))
