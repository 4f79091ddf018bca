-- ===== src/Protocol/Spec/Reader.antt =====
-- search_cup/protocol_v23.py: `SearchSpecV2.as_dict`, as the fields that accounting reads of a document
-- whose shape was checked. A field of another type, which the schema refuses, is read as a default.
use llm_evaluation_lab.Base.{Option, none, some, if◌then◌else◌}
use llm_evaluation_lab.Base.Int.{pos}
use llm_evaluation_lab.Json.{Json, int, float, Fields, get}
use llm_evaluation_lab.Protocol.Numbers.{Number, whole, real}
use llm_evaluation_lab.Protocol.Measure.{MeasureState, known, unknown, not_applicable, Measure}
use llm_evaluation_lab.Protocol.Event.{
  raw_backend_attempt, integrated_stack_invocation, Ref, Resources, SearchUnit, SearchSpec,
}
use llm_evaluation_lab.Protocol.Controls.{at, text_of, is_text, is_null}
use llm_evaluation_lab.Protocol.Spec.{count_of}

abbrev optional_number : Json → Option Number
optional_number (int n) = some (whole n)
optional_number (float x) = some (real x)
optional_number _ = none

abbrev number_of : Json → Number
number_of (int n) = whole n
number_of (float x) = real x
number_of _ = whole (pos 0)

abbrev state_of : Json → MeasureState
state_of j =
    if is_text "KNOWN" j then known else (if is_text "UNKNOWN" j then unknown else not_applicable)

abbrev measure_of : Json → Measure
measure_of j = record {
  state = state_of (at "state" j);
  value = optional_number (at "value" j);
  unit = text_of (at "unit" j);
  reason = text_of (at "reason" j);
}

abbrev ref_of : Json → Ref
ref_of j = record {
  id = text_of (at "id" j);
  version = text_of (at "version" j);
  fingerprint = text_of (at "fingerprint" j);
}

abbrev pub search_unit_of : Json → SearchUnit
search_unit_of j =
    if is_text "NONE" j
    then none
    else (if is_text "RAW_BACKEND_ATTEMPT" j
        then some raw_backend_attempt
        else some integrated_stack_invocation)

unfoldable pub resources_of : Json → Resources
unfolding get
resources_of j = record {
  max_search_calls = count_of (at "max_search_calls" j);
  max_search_turns = count_of (at "max_search_turns" j);
  max_results_per_call = count_of (at "max_results_per_call" j);
  max_follow_links = count_of (at "max_follow_links" j);
  automatic_retries = count_of (at "automatic_retries" j);
  retry_policy = ref_of (at "retry_policy" j);
  manual_retries_allowed = is_text "NEW_BUDGETED_EVENT" (at "manual_retry_policy" j);
  timeout_per_call_ms = number_of (at "timeout_per_call_ms" j);
  max_total_runtime_ms = measure_of (at "max_total_runtime_ms" j);
  token_ceiling = measure_of (at "token_ceiling" j);
  money_ceiling = measure_of (at "money_ceiling" j);
  search_unit = search_unit_of (at "search_unit" j);
  resource_document = j;
}

unfoldable pub spec_of : Fields → SearchSpec
unfolding resources_of get
spec_of doc = record {
  spec_status = text_of (get "spec_status" doc);
  track_id = text_of (get "track_id" doc);
  fairness_mode = text_of (get "fairness_mode" doc);
  resources = resources_of (get "resources" doc);
  retriever = if is_null (get "retriever" doc) then none else some (get "retriever" doc);
  canonical_fingerprint = text_of (get "canonical_fingerprint" doc);
}
