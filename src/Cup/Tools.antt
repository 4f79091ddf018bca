-- ===== src/Cup/Tools.antt =====
-- search_cup/tools.py: the search proxy that meters an entrant's calls, the offline backend and URL
-- reader, and the tools that an entrant is given. The backend, the identifiers and the clock that a
-- call reads are arguments of the call, so a backend with a state is one that differs from call to
-- call.
pub mod Metered
use Prim.Native.String.{◌++◌ as append}
use llm_evaluation_lab.Base.{
  ℕ, suc, String, Bool, true, false, Option, none, some, List, [], ◌∷◌, ◌++◌, map, length, leb,
  str_eq, ltb, if◌then◌else◌,
}
use llm_evaluation_lab.Base.Result.{Result, ok, err, ◌>>=◌, ◌>>◌, raise_if}
use llm_evaluation_lab.Text.{is_blank_text}
use llm_evaluation_lab.Json.{Float}
use llm_evaluation_lab.Cup.Error.{
  Error, BackendError, value_error, type_error, budget_exceeded, backend_error, error_type,
  error_message,
}
use llm_evaluation_lab.Cup.Contracts.{
  Runtime, SearchRequest, check_request, SearchResult, SearchTrace, UrlReadResult, check_url_read,
}

-- What a call reads of `uuid4`, `datetime.now` and `perf_counter`.
pub record Moment : Type 0 where
  pub request_id : String
  pub started_at_utc : String
  pub duration_ms : Float

-- What a backend does on a request: a `SearchBackendResponse`, a bare sequence of results, or an
-- exception. An item that is no `SearchResult` is `none`.
pub data Reply : Type 0 where
  response : List (Option SearchResult) → String → String → Option String → Reply
  sequence : List (Option SearchResult) → Reply
  raises : Error → Reply

pub record Backend : Type 0 where
  pub backend_id : String
  pub call : SearchRequest → Reply

-- `BudgetedSearchProxy`
pub record SearchProxy : Type 0 where
  pub entrant_id : String
  pub max_calls : ℕ
  pub traces : List SearchTrace

-- `BudgetedSearchProxy(entrant_id, max_calls, backend)`
unfoldable pub new_proxy : String → ℕ → Result Error SearchProxy
new_proxy entrant_id max_calls = do
  raise_if (ltb max_calls 1) (value_error "max_calls must be positive")
  ok (record { entrant_id = entrant_id; max_calls = max_calls; traces = [] })

abbrev pub calls_used : SearchProxy → ℕ
calls_used p = length p.traces

-- The `try` block: what it has read when it ends, with the `backend_id` that it knows then.
pub data Attempt : Type 0 where
  succeeded : List SearchResult → String → String → Option String → Attempt
  failed : Error → String → Attempt

-- `all(isinstance(item, SearchResult) for item in results)`
unfoldable pub collect : List (Option SearchResult) → Option (List SearchResult)
collect [] = some []
collect (none ∷ rest) = none
collect (some r ∷ rest) = elim (collect rest) [ none ↦ none | some rs ↦ some (r ∷ rs) ]

abbrev pub checked : String → String → Option String → Option (List SearchResult) → Attempt
checked backend_id request_id response_id none =
    failed (type_error "search backend returned a non-SearchResult item") backend_id
checked backend_id request_id response_id (some rs) = succeeded rs backend_id request_id response_id

unfoldable pub answered : String → String → Reply → Attempt
unfolding collect
answered backend_id request_id (response rs id req resp) = checked id req resp (collect rs)
answered backend_id request_id (sequence rs) = checked backend_id request_id none (collect rs)
answered backend_id request_id (raises e) = failed e backend_id

unfoldable pub attempt : Backend → SearchRequest → Attempt
unfolding check_request answered
attempt backend r = elim (check_request r) [
  | err e ↦ failed e backend.backend_id
  | ok _ ↦ answered backend.backend_id r.request_id (backend.call r)
]

-- `exc.request_id or request_id`
abbrev pub or_text : Option String → String → String
or_text none default = default
or_text (some s) default = if is_blank_text s then default else s

abbrev pub success_trace :
    Moment → SearchRequest → List SearchResult → String → String → Option String → SearchTrace
success_trace m r rs backend_id request_id response_id = record {
  entrant_id = r.entrant_id;
  call_number = r.call_number;
  query = r.query;
  status = "SUCCEEDED";
  result_count = length rs;
  error_type = none;
  error_code = none;
  error_message = none;
  backend_id = some backend_id;
  backend_request_id = some request_id;
  backend_response_id = response_id;
  http_status = some 200;
  retryable = some false;
  backend_attempts = 1;
  automatic_retries = 0;
  started_at_utc = some m.started_at_utc;
  duration_ms = some m.duration_ms;
}

-- `except Exception`
abbrev pub unexpected_trace : Moment → SearchRequest → String → Error → SearchTrace
unexpected_trace m r backend_id e = record {
  entrant_id = r.entrant_id;
  call_number = r.call_number;
  query = r.query;
  status = "FAILED";
  result_count = 0;
  error_type = some (error_type e);
  error_code = some "UNEXPECTED_BACKEND_ERROR";
  error_message = some (error_message e);
  backend_id = some backend_id;
  backend_request_id = some r.request_id;
  backend_response_id = none;
  http_status = none;
  retryable = some false;
  backend_attempts = 1;
  automatic_retries = 0;
  started_at_utc = some m.started_at_utc;
  duration_ms = some m.duration_ms;
}

-- `except SearchBackendError`
abbrev pub backend_trace : Moment → SearchRequest → BackendError → SearchTrace
backend_trace m r e = record {
  entrant_id = r.entrant_id;
  call_number = r.call_number;
  query = r.query;
  status = "FAILED";
  result_count = 0;
  error_type = some "SearchBackendError";
  error_code = some e.error_code;
  error_message = some e.message;
  backend_id = some e.backend_id;
  backend_request_id = some (or_text e.request_id r.request_id);
  backend_response_id = e.response_id;
  http_status = e.http_status;
  retryable = some e.retryable;
  backend_attempts = 1;
  automatic_retries = 0;
  started_at_utc = some m.started_at_utc;
  duration_ms = some m.duration_ms;
}

abbrev pub failure_trace : Moment → SearchRequest → String → Error → SearchTrace
failure_trace m r backend_id (backend_error e) = backend_trace m r e
failure_trace m r backend_id e = unexpected_trace m r backend_id e

abbrev pub add_trace : SearchTrace → SearchProxy → SearchProxy
add_trace t p = record p { traces = p.traces ++ t ∷ [] }

unfoldable pub settle :
    Moment → SearchRequest → SearchProxy → Attempt → Result Error (List SearchResult) × SearchProxy
settle m r p (succeeded rs backend_id request_id response_id) =
    (ok rs, add_trace (success_trace m r rs backend_id request_id response_id) p)
settle m r p (failed e backend_id) = (err e, add_trace (failure_trace m r backend_id e) p)

abbrev pub request_of : Moment → String → SearchProxy → SearchRequest
request_of m query p = record {
  entrant_id = p.entrant_id;
  query = query;
  call_number = suc (calls_used p);
  request_id = m.request_id;
}

abbrev pub over_budget : (ℕ → String) → SearchProxy → Error
over_budget show p = budget_exceeded (
    append p.entrant_id (
      append ": search call "
        (append (show (suc (calls_used p))) (append " rejected; budget is " (show p.max_calls)))))

-- `BudgetedSearchProxy.search(query)`
unfoldable pub search :
    (ℕ → String)
    → Moment
    → Backend
    → String
    → SearchProxy
    → Result Error (List SearchResult) × SearchProxy
unfolding attempt settle
search show m backend query p =
    if leb p.max_calls (calls_used p)
    then (err (over_budget show p), p)
    else settle m (request_of m query p) p (attempt backend (request_of m query p))

-- `FakeSearchBackend`: the fixture's results of a query, an association list.
abbrev pub SearchFixtures : Type 0
SearchFixtures = List (String × List SearchResult)

unfoldable pub results_of : SearchFixtures → String → List SearchResult
results_of [] query = []
results_of ((q, rs) ∷ rest) query = if str_eq query q then rs else results_of rest query

unfoldable pub fake_backend : SearchFixtures → Backend
unfolding results_of
fake_backend fixtures = record {
  backend_id = "fake-search-pro-offline";
  call = λ r. sequence (map some (results_of fixtures r.query));
}

-- `FakeURLReader`
abbrev pub UrlFixtures : Type 0
UrlFixtures = List (String × UrlReadResult)

unfoldable pub page_of : UrlFixtures → String → UrlReadResult → UrlReadResult
page_of [] url default = default
page_of ((u, r) ∷ rest) url default = if str_eq url u then r else page_of rest url default

abbrev pub not_found : String → UrlReadResult
not_found url = record { url = url; status = "NOT_FOUND"; title = ""; text = "" }

-- `FakeURLReader.read(url)`: the default is built, and so checked, whether it is needed or not.
unfoldable pub read_page : UrlFixtures → String → Result Error UrlReadResult
unfolding page_of check_url_read
read_page fixtures url = do
  check_url_read (not_found url)
  ok (page_of fixtures url (not_found url))
