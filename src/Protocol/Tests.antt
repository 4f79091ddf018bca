-- ===== src/Protocol/Tests.antt =====
-- The protocol's theorems on a ledger of four events: a failed search, its automatic retry, the check
-- of a source, and a refused search.
mod Receipts
mod Specs
use llm_evaluation_lab.Base.{
  ℕ, suc, ◌+◌, String, Bool, true, false, ◌≡◌, refl, Option, none, some, List, [], ◌∷◌, ◌++◌, ◌↔◌,
  All, Among, inl, inr,
}
use llm_evaluation_lab.Base.Result.{ok, err, ◌>>◌}
use llm_evaluation_lab.Base.Int.{pos, negsuc}
use llm_evaluation_lab.Json.{
  has, Json, null, bool, int, str, obj, arr, Items, nil, cons, Fields, end, field,
}
use llm_evaluation_lab.Protocol.Numbers.{Number, whole, real, number_lt, equal}
use llm_evaluation_lab.Protocol.Schema.{
  const, text_length, each_field, each_item, check_kinds, validate_shape,
}
use llm_evaluation_lab.Protocol.Shapes.{ref_schema, measure_schema}
use llm_evaluation_lab.Protocol.Safety.{Texts, assert_content_safe}
use llm_evaluation_lab.Protocol.Measure.{Measure, known, unknown, not_applicable, total_measure}
use llm_evaluation_lab.Protocol.Event.{
  search_event, verify_event, raw_backend_attempt, verification_unit, succeeded, failed, rejected,
  no_retry, automatic, no_failure, infrastructure, budget, Ref, ref_json, Event, event_json,
  Resources, SearchSpec,
}
use llm_evaluation_lab.Protocol.Ledger.Rules.{with_event, append-eq-validate_event}
use llm_evaluation_lab.Protocol.Ledger.Retries.{AreFew, ledger-root_of, ledger-AreFew}
use llm_evaluation_lab.Protocol.Ledger.Turns.{IsOrderly, ledger-IsOrderly}
use llm_evaluation_lab.Protocol.Schema.Conforms.{Conforms}
use llm_evaluation_lab.Protocol.Schema.Decides.{validate_shape-Conforms_iff}
use llm_evaluation_lab.Protocol.Safety.Clean.{parts, IsClean, assert_content_safe-IsClean_iff}
use llm_evaluation_lab.Cup.Error.{Error, value_error}
use llm_evaluation_lab.Protocol.Ledger.{
  root_of, count_automatic, validate_event, ResourceLedger, ledger, append,
}

abbrev texts : Texts
texts = record {
  search = λ pattern s. true;
  search_any_case = λ pattern s. false;
  unquote = λ s. s;
  lower = λ s. s;
}

abbrev amount : ℕ → Number
amount k = whole (pos k)

abbrev tokens_of : ℕ → Measure
tokens_of k = record {
  state = known;
  value = some (amount k);
  unit = "tokens";
  reason = "observed";
}

abbrev money_of : ℕ → Measure
money_of k = record { state = known; value = some (amount k); unit = "EUR"; reason = "observed" }

abbrev ref_of : String → Ref
ref_of name = record { id = name; version = "1"; fingerprint = "f" }

abbrev first : Event
first = record {
  event_id = "e1";
  kind = search_event;
  unit = raw_backend_attempt;
  status = failed;
  crossed_boundary = true;
  turn = 1;
  result_count = 0;
  elapsed_ms = amount 10;
  tokens = tokens_of 5;
  money = money_of 1;
  retry_kind = no_retry;
  retry_of = none;
  failure_class = infrastructure;
  request_fingerprint = some (ref_of "q1");
  result_fingerprints = [];
}

abbrev retry : Event
retry = record first {
  event_id = "e2";
  status = succeeded;
  result_count = 1;
  retry_kind = automatic;
  retry_of = some "e1";
  failure_class = no_failure;
  result_fingerprints = ref_of "r1" ∷ [];
}

abbrev source_check : Event
source_check = record first {
  event_id = "e3";
  kind = verify_event;
  unit = verification_unit;
  status = succeeded;
  turn = 0;
  failure_class = no_failure;
}

abbrev refused : Event
refused = record first {
  event_id = "e4";
  status = rejected;
  crossed_boundary = false;
  turn = 7;
  tokens = tokens_of 0;
  money = money_of 0;
  failure_class = budget;
  request_fingerprint = none;
}

abbrev resources : Resources
resources = record {
  max_search_calls = 3;
  max_search_turns = 2;
  max_results_per_call = 5;
  max_follow_links = 1;
  automatic_retries = 1;
  retry_policy = ref_of "policy";
  manual_retries_allowed = false;
  timeout_per_call_ms = amount 100;
  max_total_runtime_ms = record {
    state = known;
    value = some (amount 1_000);
    unit = "ms";
    reason = "limit";
  };
  token_ceiling = tokens_of 100;
  money_ceiling = money_of 10;
  search_unit = some raw_backend_attempt;
  resource_document = null;
}

abbrev spec : SearchSpec
spec = record {
  spec_status = "FROZEN";
  track_id = "E1_LIVE";
  fairness_mode = "F1";
  resources = resources;
  retriever = none;
  canonical_fingerprint = "s";
}

abbrev three : List Event
three = first ∷ retry ∷ source_check ∷ []

abbrev ledger_of : List Event → ResourceLedger
ledger_of es = record { spec = spec; run_id = "run"; events = es }

three_checked : ledger texts spec "run" three ≡ ok (ledger_of three)
unfolding ledger text_length has each_field number_lt check_kinds each_item
three_checked = refl

-- The second automatic retry of an attempt is over the limit.
second_retry :
    append texts (ledger_of three) (record retry { event_id = "e5" })
    ≡ err (value_error "automatic retry policy exceeded")
unfolding append text_length has each_field number_lt check_kinds each_item
second_retry = refl

refused_kept : append texts (ledger_of three) refused ≡ ok (ledger_of (three ++ refused ∷ []))
unfolding append text_length has each_field number_lt check_kinds each_item
refused_kept = refl

-- A turn that skips one.
skipped_turn :
    append texts (ledger_of three) (record first { event_id = "e5"; turn = 3 })
    ≡ err (value_error "search-turn sequence invalid")
unfolding append text_length has each_field number_lt check_kinds each_item
skipped_turn = refl

ledger-root_of_example :
    (r : Event) × (root_of three retry ≡ ok r) × (r.retry_of ≡ none) × Among r three
ledger-root_of_example = ledger-root_of texts spec "run" three retry three_checked (inr (inl refl))

ledger-AreFew_example : AreFew spec three
ledger-AreFew_example = ledger-AreFew texts spec "run" three three_checked

ledger-IsOrderly_example : IsOrderly three
ledger-IsOrderly_example = ledger-IsOrderly texts spec "run" three three_checked

append-eq-validate_event_example :
    append texts (ledger_of three) refused
    ≡ (validate_event texts spec three refused >> ok (with_event (ledger_of three) refused))
append-eq-validate_event_example =
    append-eq-validate_event texts (ledger_of three) refused three_checked

-- The conformance of two documents to the shape of a reference.
ref_document : Json
ref_document = ref_json (ref_of "q1")

validate_shape-Conforms_iff_example :
    (validate_shape texts.search ref_schema "contract" ref_document ≡ ok tt)
    ↔ Conforms texts.search ref_schema ref_document
validate_shape-Conforms_iff_example =
    validate_shape-Conforms_iff texts.search ref_schema "contract" ref_document

ref_accepted : validate_shape texts.search ref_schema "contract" ref_document ≡ ok tt
unfolding ref_document validate_shape text_length has each_field
ref_accepted = refl

incomplete_refused :
    validate_shape texts.search ref_schema "contract" (obj (field "id" (str "q1") end))
    ≡ err (value_error "contract: missing required fields")
unfolding validate_shape has
incomplete_refused = refl

-- `True` is no number, though it equals 1.
truth_refused :
    validate_shape texts.search (const (int (pos 1))) "contract" (bool true)
    ≡ err (value_error "contract: invalid constant")
unfolding validate_shape equal
truth_refused = refl

assert_content_safe-IsClean_iff_example :
    (assert_content_safe texts (event_json first) ≡ ok tt)
    ↔ All (IsClean texts) (parts (event_json first))
assert_content_safe-IsClean_iff_example = assert_content_safe-IsClean_iff texts (event_json first)

private_refused :
    assert_content_safe texts (obj (field "api-key" (str "x") end))
    ≡ err (value_error "excluded private field")
unfolding assert_content_safe
private_refused = refl
