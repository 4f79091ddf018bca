-- ===== src/Cup/Error.antt =====
-- The exceptions of search_cup/: each carries the text that `str(exc)` gives.
use llm_evaluation_lab.Base.{ℕ, String, Bool, Option}

-- `SearchBackendError`, of tools.py
pub record BackendError : Type 0 where
  pub message : String
  pub backend_id : String
  pub error_code : String
  pub request_id : Option String
  pub response_id : Option String
  pub http_status : Option ℕ
  pub retryable : Bool

pub data Error : Type 0 where
  value_error : String → Error
  type_error : String → Error
  budget_exceeded : String → Error
  backend_error : BackendError → Error
  access_denied : String → Error
  -- An exception of another type, with the type's name.
  other : String → String → Error

-- `type(exc).__name__`
abbrev pub error_type : Error → String
error_type (value_error s) = "ValueError"
error_type (type_error s) = "TypeError"
error_type (budget_exceeded s) = "SearchBudgetExceeded"
error_type (backend_error e) = "SearchBackendError"
error_type (access_denied s) = "RegistryAccessDenied"
error_type (other name s) = name

-- `str(exc)`
abbrev pub error_message : Error → String
error_message (value_error s) = s
error_message (type_error s) = s
error_message (budget_exceeded s) = s
error_message (backend_error e) = e.message
error_message (access_denied s) = s
error_message (other name s) = s
