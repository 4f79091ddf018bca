-- ===== src/Protocol/Receipt.antt =====
-- search_cup/v23_accounting.py: `ResourceLedger.receipt`.
pub mod Verdict
pub mod Balance
use Prim.Native.String.{◌++◌ as append}
use llm_evaluation_lab.Base.{
  ℕ, suc, ◌+◌, ◌-◌, String, Bool, true, false, not, ◌&&◌, ◌||◌, Option, none, some, List, [], ◌∷◌,
  ◌++◌, map, any, filter, count, is_empty, length, ltb, str_eq, ◌==◌, if◌then◌else◌,
}
use llm_evaluation_lab.Base.Result.{Result, ok, err, ◌>>=◌, ◌>>◌, raise_if, require}
use llm_evaluation_lab.Base.Int.{pos}
use llm_evaluation_lab.Json.{Json, str, arr, obj, array}
use llm_evaluation_lab.Cup.Error.{Error, value_error}
use llm_evaluation_lab.Cup.Contracts.{Runtime}
use llm_evaluation_lab.Cup.Registry.{fingerprint_of, text_leb}
use llm_evaluation_lab.Protocol.Numbers.{Number, whole, number_json, number_lt}
use llm_evaluation_lab.Protocol.Schema.{validate_shape, array as array_schema}
use llm_evaluation_lab.Protocol.Shapes.{hash_schema, number_schema, ref_schema}
use llm_evaluation_lab.Protocol.Safety.{Texts, assert_content_safe}
use llm_evaluation_lab.Protocol.Measure.{
  Measure, measure_json, is_known, validate_measure, measure, total_measure,
}
use llm_evaluation_lab.Protocol.Event.{
  EventKind, search_event, verify_event, model_event, is_search, is_verify, is_model, same_kind,
  is_succeeded, is_failed, is_rejected, is_automatic, is_manual, Ref, ref_json, object_of, Event,
  Resources, SearchUnit, SearchSpec,
}
use llm_evaluation_lab.Protocol.Ledger.{last_turn, ResourceLedger}

-- What the caller supplies.
pub record Supplied : Type 0 where
  pub entrant : String
  pub elapsed : Number
  pub operator : Measure
  pub waiting : Measure
  pub outcomes : List (String × Measure)
  pub prices : List Ref

-- `attempts`, `search` and `verification`
abbrev pub attempts : List Event → List Event
attempts es = filter (λ (e : Event). e.crossed_boundary) es

abbrev pub of_kind : EventKind → List Event → List Event
of_kind k es = filter (λ (e : Event). same_kind k e.kind) es

unfoldable pub sum_of : (Event → ℕ) → List Event → ℕ
sum_of f [] = 0
sum_of f (e ∷ es) = f e + sum_of f es

-- `max(values, default=…)`
unfoldable pub longest : Number → List Event → Number
longest x [] = x
longest x (e ∷ es) = if number_lt x e.elapsed_ms then longest e.elapsed_ms es else longest x es

abbrev pub longest_call : List Event → Number
longest_call [] = whole (pos 0)
longest_call (e ∷ es) = longest e.elapsed_ms es

-- `violations.append(label)` under a condition
abbrev pub reason_if : Bool → String → List String
reason_if true label = label ∷ []
reason_if false label = []

-- `observed > ceiling`
abbrev pub exceeded : String → ℕ → ℕ → List String
exceeded label observed ceiling = reason_if (ltb ceiling observed) (append label "_EXCEEDED")

-- `observed["value"] > ceiling["value"]`, of two measures that are KNOWN and so have values
abbrev pub value_exceeds : Option Number → Option Number → Bool
value_exceeds (some x) (some limit) = number_lt limit x
value_exceeds _ _ = false

unfoldable pub measure_exceeded : String → Measure → Measure → List String
unfolding number_lt
measure_exceeded label observed ceiling =
    if is_known ceiling.state
    then (if is_known observed.state
        then reason_if (value_exceeds observed.value ceiling.value) (append label "_EXCEEDED")
        else append label "_COMPLIANCE_UNKNOWN" ∷ [])
    else []

-- The reasons, in the order in which the source adds them.
unfoldable pub violations :
    SearchSpec → List Event → Measure → Measure → Measure → List Ref → List String
unfolding last_turn measure_exceeded number_lt
violations spec es tokens money runtime price_evidence =
    let r = spec.resources in
    let tried = attempts es in
    let search = of_kind search_event tried in
    exceeded "SEARCH_CALLS" (length search) r.max_search_calls
    ++ (exceeded "SEARCH_TURNS" (last_turn es) r.max_search_turns
        ++ (exceeded "FOLLOW_LINKS" (length (of_kind verify_event tried)) r.max_follow_links
            ++ (reason_if (any (λ (e : Event). ltb r.max_results_per_call e.result_count) search)
                  "RESULT_LIMIT_EXCEEDED"
                ++ (reason_if
                      (any (λ (e : Event). number_lt r.timeout_per_call_ms e.elapsed_ms) tried)
                      "CALL_TIMEOUT_EXCEEDED"
                    ++ (measure_exceeded "TOKENS" tokens r.token_ceiling
                        ++ (measure_exceeded "MONEY" money r.money_ceiling
                            ++ (measure_exceeded "RUNTIME" runtime r.max_total_runtime_ms
                                ++ (reason_if
                                      (str_eq spec.fairness_mode "F3"
                                        && is_known money.state
                                        && is_empty price_evidence)
                                      "PRICE_EVIDENCE_MISSING"
                                    ++ reason_if (any (λ (e : Event). is_rejected e.status) es)
                                        "REQUEST_REJECTED"))))))))

-- `"BLOCKED" if violations else "NOT_EVALUABLE" if infrastructure else "PASS"`
abbrev pub terminal : List String → ℕ → String
terminal reasons failures =
    if is_empty reasons then (if failures == 0 then "PASS" else "NOT_EVALUABLE") else "BLOCKED"

-- `sorted(texts)`
unfoldable pub add_sorted : String → List String → List String
add_sorted x [] = x ∷ []
add_sorted x (y ∷ ys) = let rest = add_sorted x ys in if text_leb x y then x ∷ y ∷ ys else y ∷ rest

unfoldable pub sorted : List String → List String
unfolding add_sorted
sorted [] = []
sorted (x ∷ xs) = add_sorted x (sorted xs)

-- `e["money"]["state"] != "KNOWN" or e["money"]["value"] > 0`
abbrev pub was_paid : Measure → Bool
was_paid m = not (is_known m.state) || value_exceeds m.value (some (whole (pos 0)))

-- The receipt's fields; those that are constant in the source, `quality_score`, `secret_exclusion`,
-- `schema_id` and `evidence_kind`, are left out.
pub record Receipt : Type 0 where
  pub run_id : String
  pub spec_fingerprint : String
  pub track_id : String
  pub fairness_mode : String
  pub entrant_fingerprint : String
  pub retriever_fingerprint : Option String
  pub resource_contract_fingerprint : String
  pub events : List Event
  pub search_unit : SearchUnit
  pub search_attempted : ℕ
  pub search_succeeded : ℕ
  pub search_failed : ℕ
  pub search_remaining : ℕ
  pub search_turns : ℕ
  pub results : ℕ
  pub follow_links : ℕ
  pub provider_requests : ℕ
  pub automatic_retries : ℕ
  pub manual_retries : ℕ
  pub retry_policy : Ref
  pub tokens : Measure
  pub money : Measure
  pub search_money : Measure
  pub verify_money : Measure
  pub model_money : Measure
  pub paid_failed_attempts : List String
  pub elapsed_ms : Number
  pub operator_ms : Measure
  pub waiting_ms : Measure
  pub infrastructure_failures : ℕ
  pub outcome_inputs : List (String × Measure)
  pub price_evidence : List Ref
  pub terminal_status : String
  pub reason_codes : List String

abbrev pub outcomes_json : List (String × Measure) → List (String × Json)
outcomes_json [] = []
outcomes_json ((name, m) ∷ rest) = (name, measure_json m) ∷ outcomes_json rest

abbrev pub money_of : List Event → List Measure
money_of es = map (λ (e : Event). e.money) es

module _ (rt : Runtime) (t : Texts) (sum : List Number → Number) where
  open t use {search}

  -- `for value in outcomes.values(): validate_measure(value)`
  unfoldable pub validate_outcomes : List (String × Measure) → Result Error (Unit {0})
  unfolding validate_measure
  validate_outcomes [] = ok tt
  validate_outcomes ((name, m) ∷ rest) = do validate_measure t m none; validate_outcomes rest

  unfoldable pub check_supplied : Supplied → Result Error (Unit {0})
  unfolding validate_shape validate_measure validate_outcomes assert_content_safe array
  check_supplied s = do
    validate_shape search hash_schema "contract" (str s.entrant)
    validate_shape search number_schema "contract" (number_json s.elapsed)
    validate_measure t s.operator (some "ms")
    validate_measure t s.waiting (some "ms")
    validate_shape search (array_schema ref_schema 0) "contract"
        (arr (array (map ref_json s.prices)))
    assert_content_safe t (obj (object_of (outcomes_json s.outcomes)))
    validate_outcomes s.outcomes

  -- The receipt's fields, from the events and the totals.
  unfoldable pub receipt_of :
      ResourceLedger
      → Supplied
      → Measure
      → Measure
      → Measure
      → Measure
      → Measure
      → List String
      → Receipt
  unfolding sum_of sorted last_turn
  receipt_of l s tokens money search_money verify_money model_money reasons =
      let spec = l.spec in
      let r = spec.resources in
      let es = l.events in
      let tried = attempts es in
      let searches = of_kind search_event tried in
      let failures = count (λ (e : Event). is_failed e.status) tried in
      record {
        run_id = l.run_id;
        spec_fingerprint = spec.canonical_fingerprint;
        track_id = spec.track_id;
        fairness_mode = spec.fairness_mode;
        entrant_fingerprint = s.entrant;
        retriever_fingerprint = elim spec.retriever [
          | none ↦ none
          | some document ↦ some (fingerprint_of rt document)
        ];
        resource_contract_fingerprint = fingerprint_of rt r.resource_document;
        events = es;
        search_unit = r.search_unit;
        search_attempted = length searches;
        search_succeeded = count (λ (e : Event). is_succeeded e.status) searches;
        search_failed = count (λ (e : Event). is_failed e.status) searches;
        search_remaining = r.max_search_calls - length searches;
        search_turns = last_turn es;
        results = sum_of (λ (e : Event). e.result_count) searches;
        follow_links = length (of_kind verify_event tried);
        provider_requests = count (λ (e : Event). is_model e.kind) tried;
        automatic_retries = count (λ (e : Event). is_automatic e.retry_kind) tried;
        manual_retries = count (λ (e : Event). is_manual e.retry_kind) tried;
        retry_policy = r.retry_policy;
        tokens = tokens;
        money = money;
        search_money = search_money;
        verify_money = verify_money;
        model_money = model_money;
        paid_failed_attempts =
            map (λ (e : Event). e.event_id)
              (filter (λ (e : Event). is_failed e.status && was_paid e.money) tried);
        elapsed_ms = s.elapsed;
        operator_ms = s.operator;
        waiting_ms = s.waiting;
        infrastructure_failures = failures;
        outcome_inputs = s.outcomes;
        price_evidence = s.prices;
        terminal_status = terminal reasons failures;
        reason_codes = sorted reasons;
      }

  -- `receipt(…)`, before it is sealed; `max(0, limit - attempts)` is the subtraction that stops at 0.
  unfoldable pub receipt : ResourceLedger → Supplied → Result Error Receipt
  unfolding check_supplied total_measure measure violations longest number_lt receipt_of
  receipt l s = do
    let r : Resources = l.spec.resources
    let tried : List Event = attempts l.events
    check_supplied s
    tokens ← total_measure t sum (map (λ (e : Event). e.tokens) tried) "tokens"
    money ← total_measure t sum (money_of tried) r.money_ceiling.unit
    runtime ← measure t (some s.elapsed) "ms" none "observed fixture value"
    raise_if (number_lt s.elapsed (longest_call tried))
        (value_error "elapsed time shorter than a recorded call")
    search_money ← total_measure t sum (money_of (of_kind search_event tried)) money.unit
    verify_money ← total_measure t sum (money_of (of_kind verify_event tried)) money.unit
    model_money ← total_measure t sum (money_of (of_kind model_event tried)) money.unit
    ok (
        receipt_of l s tokens money search_money verify_money model_money
          (violations l.spec l.events tokens money runtime s.prices))
