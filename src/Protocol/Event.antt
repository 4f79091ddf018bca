-- ===== src/Protocol/Event.antt =====
-- search_cup/v23_accounting.py: the events of a ledger and the resources of its spec, as the typed
-- content of the JSON documents, with the documents themselves.
use llm_evaluation_lab.Base.{ℕ, String, Bool, true, false, Option, none, some, List, [], ◌∷◌, map}
use llm_evaluation_lab.Base.Int.{pos}
use llm_evaluation_lab.Json.{Json, null, bool, int, str, arr, obj, Fields, end, field, array}
use llm_evaluation_lab.Protocol.Numbers.{Number, number_json}
use llm_evaluation_lab.Protocol.Schema.{
  Schema, boolean, null_only, one_type_of, string_kind, null_kind, any_of, enum,
  array as array_schema, obj_of,
}
use llm_evaluation_lab.Protocol.Shapes.{
  alternatives, text_schema, count_schema, number_schema, ref_schema, measure_schema,
}
use llm_evaluation_lab.Protocol.Measure.{Measure, measure_json}

pub data EventKind : Type 0 where
  search_event : EventKind
  verify_event : EventKind
  model_event : EventKind

pub data ResourceUnit : Type 0 where
  raw_backend_attempt : ResourceUnit
  integrated_stack_invocation : ResourceUnit
  verification_unit : ResourceUnit
  model_request : ResourceUnit

pub data Status : Type 0 where
  succeeded : Status
  failed : Status
  rejected : Status

pub data RetryKind : Type 0 where
  no_retry : RetryKind
  manual : RetryKind
  automatic : RetryKind

pub data FailureClass : Type 0 where
  no_failure : FailureClass
  infrastructure : FailureClass
  budget : FailureClass
  policy : FailureClass

abbrev pub kind_name : EventKind → String
kind_name search_event = "SEARCH"
kind_name verify_event = "VERIFY"
kind_name model_event = "MODEL"

abbrev pub unit_name : ResourceUnit → String
unit_name raw_backend_attempt = "RAW_BACKEND_ATTEMPT"
unit_name integrated_stack_invocation = "INTEGRATED_STACK_INVOCATION"
unit_name verification_unit = "VERIFICATION"
unit_name model_request = "MODEL_REQUEST"

abbrev pub status_name : Status → String
status_name succeeded = "SUCCEEDED"
status_name failed = "FAILED"
status_name rejected = "REJECTED"

abbrev pub retry_name : RetryKind → String
retry_name no_retry = "NONE"
retry_name manual = "MANUAL"
retry_name automatic = "AUTOMATIC"

abbrev pub failure_name : FailureClass → String
failure_name no_failure = "NONE"
failure_name infrastructure = "INFRASTRUCTURE"
failure_name budget = "BUDGET"
failure_name policy = "POLICY"

abbrev pub is_search : EventKind → Bool
is_search search_event = true
is_search _ = false

abbrev pub is_verify : EventKind → Bool
is_verify verify_event = true
is_verify _ = false

abbrev pub is_model : EventKind → Bool
is_model model_event = true
is_model _ = false

abbrev pub same_kind : EventKind → EventKind → Bool
same_kind search_event k = is_search k
same_kind verify_event k = is_verify k
same_kind model_event k = is_model k

abbrev pub is_succeeded : Status → Bool
is_succeeded succeeded = true
is_succeeded _ = false

abbrev pub is_failed : Status → Bool
is_failed failed = true
is_failed _ = false

abbrev pub is_rejected : Status → Bool
is_rejected rejected = true
is_rejected _ = false

abbrev pub is_automatic : RetryKind → Bool
is_automatic automatic = true
is_automatic _ = false

abbrev pub is_no_retry : RetryKind → Bool
is_no_retry no_retry = true
is_no_retry _ = false

abbrev pub is_manual : RetryKind → Bool
is_manual manual = true
is_manual _ = false

abbrev pub is_no_failure : FailureClass → Bool
is_no_failure no_failure = true
is_no_failure _ = false

abbrev pub is_infrastructure : FailureClass → Bool
is_infrastructure infrastructure = true
is_infrastructure _ = false

abbrev pub is_refusal : FailureClass → Bool
is_refusal budget = true
is_refusal policy = true
is_refusal _ = false

-- A document of the shape REF
pub record Ref : Type 0 where
  pub id : String
  pub version : String
  pub fingerprint : String

abbrev pub object_of : List (String × Json) → Fields
object_of [] = end
object_of ((k, j) ∷ rest) = field k j (object_of rest)

abbrev pub ref_json : Ref → Json
ref_json r = obj (
    object_of
      (("id", str r.id) ∷ ("version", str r.version) ∷ ("fingerprint", str r.fingerprint) ∷ []))

-- A document of the shape EVENT_SCHEMA
pub record Event : Type 0 where
  pub event_id : String
  pub kind : EventKind
  pub unit : ResourceUnit
  pub status : Status
  pub crossed_boundary : Bool
  pub turn : ℕ
  pub result_count : ℕ
  pub elapsed_ms : Number
  pub tokens : Measure
  pub money : Measure
  pub retry_kind : RetryKind
  pub retry_of : Option String
  pub failure_class : FailureClass
  pub request_fingerprint : Option Ref
  pub result_fingerprints : List Ref

abbrev pub optional_text : Option String → Json
optional_text none = null
optional_text (some s) = str s

abbrev optional_ref : Option Ref → Json
optional_ref none = null
optional_ref (some r) = ref_json r

unfoldable pub event_json : Event → Json
unfolding array
event_json e = obj (
    object_of (
      ("event_id", str e.event_id)
      ∷ ("kind", str (kind_name e.kind))
      ∷ ("unit", str (unit_name e.unit))
      ∷ ("status", str (status_name e.status))
      ∷ ("crossed_boundary", bool e.crossed_boundary)
      ∷ ("turn", int (pos e.turn))
      ∷ ("result_count", int (pos e.result_count))
      ∷ ("elapsed_ms", number_json e.elapsed_ms)
      ∷ ("tokens", measure_json e.tokens)
      ∷ ("money", measure_json e.money)
      ∷ ("retry_kind", str (retry_name e.retry_kind))
      ∷ ("retry_of", optional_text e.retry_of)
      ∷ ("failure_class", str (failure_name e.failure_class))
      ∷ ("request_fingerprint", optional_ref e.request_fingerprint)
      ∷ ("result_fingerprints", arr (array (map ref_json e.result_fingerprints)))
      ∷ []))

-- `EVENT_SCHEMA`
abbrev pub event_schema : Schema
event_schema = obj_of (
    ("event_id", text_schema)
    ∷ ("kind", enum ("SEARCH" ∷ "VERIFY" ∷ "MODEL" ∷ []))
    ∷ (
      "unit",
      enum (
          "RAW_BACKEND_ATTEMPT" ∷ "INTEGRATED_STACK_INVOCATION" ∷ "VERIFICATION" ∷ "MODEL_REQUEST"
          ∷ []),
    )
    ∷ ("status", enum ("SUCCEEDED" ∷ "FAILED" ∷ "REJECTED" ∷ []))
    ∷ ("crossed_boundary", boolean)
    ∷ ("turn", count_schema)
    ∷ ("result_count", count_schema)
    ∷ ("elapsed_ms", number_schema)
    ∷ ("tokens", measure_schema)
    ∷ ("money", measure_schema)
    ∷ ("retry_kind", enum ("NONE" ∷ "MANUAL" ∷ "AUTOMATIC" ∷ []))
    ∷ ("retry_of", one_type_of (string_kind ∷ null_kind ∷ []))
    ∷ ("failure_class", enum ("NONE" ∷ "INFRASTRUCTURE" ∷ "BUDGET" ∷ "POLICY" ∷ []))
    ∷ ("request_fingerprint", any_of (alternatives (ref_schema ∷ null_only ∷ [])))
    ∷ ("result_fingerprints", array_schema ref_schema 0)
    ∷ [])

-- The SearchSpec's `search_unit`; `none` is "NONE".
abbrev pub SearchUnit : Type 0
SearchUnit = Option ResourceUnit

-- `doc["resources"]`, a document of the shape RESOURCE
pub record Resources : Type 0 where
  pub max_search_calls : ℕ
  pub max_search_turns : ℕ
  pub max_results_per_call : ℕ
  pub max_follow_links : ℕ
  pub automatic_retries : ℕ
  pub retry_policy : Ref
  -- "manual_retry_policy" is "NEW_BUDGETED_EVENT".
  pub manual_retries_allowed : Bool
  pub timeout_per_call_ms : Number
  pub max_total_runtime_ms : Measure
  pub token_ceiling : Measure
  pub money_ceiling : Measure
  pub search_unit : SearchUnit
  -- The document itself, for its fingerprint.
  pub resource_document : Json

-- What accounting reads of a `SearchSpecV2`.
pub record SearchSpec : Type 0 where
  pub spec_status : String
  pub track_id : String
  pub fairness_mode : String
  pub resources : Resources
  pub retriever : Option Json
  pub canonical_fingerprint : String
