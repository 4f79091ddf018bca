-- ===== src/Protocol/Ledger.antt =====
-- search_cup/v23_accounting.py: `ResourceLedger`, its checks and `append`. A ledger holds its events
-- themselves in place of their canonical JSON text.
pub mod Rules
pub mod Chases
pub mod Retries
pub mod Turns
use llm_evaluation_lab.Base.{
  ℕ, zero, suc, ◌+◌, max, String, Bool, true, false, not, ◌&&◌, ◌||◌, Option, none, some, List, [],
  ◌∷◌, ◌++◌, length, any, is_empty, leb, ltb, same, ◌==◌, str_eq, if◌then◌else◌,
}
use llm_evaluation_lab.Base.Result.{Result, ok, err, ◌>>=◌, ◌>>◌, raise_if, require}
use llm_evaluation_lab.Base.Int.{pos}
use llm_evaluation_lab.Json.{str}
use llm_evaluation_lab.Cup.Error.{Error, value_error, other}
use llm_evaluation_lab.Protocol.Numbers.{Number, whole, exact, float_eq}
use llm_evaluation_lab.Protocol.Schema.{validate_shape}
use llm_evaluation_lab.Protocol.Shapes.{text_schema}
use llm_evaluation_lab.Protocol.Safety.{Texts, assert_content_safe}
use llm_evaluation_lab.Protocol.Measure.{Measure, is_known, is_some, validate_measure}
use llm_evaluation_lab.Protocol.Event.{
  EventKind, search_event, verify_event, model_event, ResourceUnit, verification_unit,
  model_request, unit_name, is_search, is_verify, same_kind, is_succeeded, is_failed, is_rejected,
  is_automatic, is_no_retry, RetryKind, no_retry, manual, automatic, is_no_failure,
  is_infrastructure, is_refusal, Event, event_json, event_schema, Resources, SearchUnit, SearchSpec,
}

-- `next((e for e in prior if e["event_id"] == identity), None)`
unfoldable pub find_event : String → List Event → Option Event
find_event id [] = none
find_event id (e ∷ es) =
    let rest = find_event id es in if str_eq e.event_id id then some e else rest

-- `e["event_id"] == event["retry_of"]`, where no identifier equals `None`
abbrev pub find_target : Option String → List Event → Option Event
find_target none prior = none
find_target (some id) prior = find_event id prior

-- How following the retries of an event ends: `next` finds no event, or the rounds are used up.
pub data Chase : Type 0 where
  found : Event → Chase
  missing : Chase
  unended : Chase

-- `while root["retry_of"] is not None: root = next(e for e in prior if …)`, in so many rounds
unfoldable pub chase : ℕ → List Event → Event → Chase
chase zero prior e = elim e.retry_of [ none ↦ found e | some id ↦ unended ]
chase (suc n) prior e = elim e.retry_of [
  | none ↦ found e
  | some id ↦ elim (find_event id prior) [ none ↦ missing | some p ↦ chase n prior p ]
]

-- The loop, with a round for each prior event.
unfoldable pub root_of : List Event → Event → Result Error Event
unfolding chase
root_of prior e = elim (chase (length prior) prior e) [
  | found r ↦ ok r
  | missing ↦ err (other "StopIteration" "")
  | unended ↦ err (other "unending loop" "")
]

-- `sum(e["retry_kind"] == "AUTOMATIC" and root_id(e) == root["event_id"] for e in …)`
unfoldable pub count_automatic : List Event → String → List Event → Result Error ℕ
unfolding root_of
count_automatic prior id [] = ok 0
count_automatic prior id (e ∷ es) =
    let rest = count_automatic prior id es in
    if is_automatic e.retry_kind
    then (do r ← root_of prior e; n ← rest; ok (if str_eq r.event_id id then suc n else n))
    else rest

abbrev pub is_attempted_search : Event → Bool
is_attempted_search e = is_search e.kind && e.crossed_boundary

-- `max((e["turn"] for e in … if e["kind"] == "SEARCH" and e["crossed_boundary"]), default=0)`
unfoldable pub last_turn : List Event → ℕ
last_turn [] = 0
last_turn (e ∷ es) =
    let rest = last_turn es in if is_attempted_search e then max e.turn rest else rest

-- `state == "KNOWN"` and `value == 0`
abbrev pub is_free : Measure → Bool
is_free m =
    is_known m.state
    && elim m.value [ none ↦ false | some x ↦ float_eq (exact x) (exact (whole (pos 0))) ]

unfoldable pub check_status : Event → Result Error (Unit {0})
unfolding float_eq
check_status e = do
  require (same e.crossed_boundary (not (is_rejected e.status)))
      (value_error "attempt/status mismatch")
  raise_if (is_succeeded e.status && not (is_no_failure e.failure_class))
      (value_error "successful event cannot have failure")
  raise_if (is_failed e.status && not (is_infrastructure e.failure_class))
      (value_error "backend failure must remain infrastructure")
  raise_if
      (is_rejected e.status
        && (not (is_refusal e.failure_class)
            || not (e.result_count == 0)
            || not (is_empty e.result_fingerprints)))
      (value_error "invalid pre-boundary rejection")
  raise_if (is_rejected e.status && (not (is_free e.money) || not (is_free e.tokens)))
      (value_error "pre-boundary rejection must not consume backend resources")
  require (length e.result_fingerprints == e.result_count)
      (value_error "result provenance count mismatch")

-- `expected_unit`; `none` is "NONE".
abbrev pub expected_unit : Resources → EventKind → SearchUnit
expected_unit r search_event = r.search_unit
expected_unit r verify_event = some verification_unit
expected_unit r model_event = some model_request

abbrev pub check_expected : SearchUnit → Event → Result Error (Unit {0})
check_expected none e =
    raise_if e.crossed_boundary (value_error "Judgment-only prohibits search attempts")
check_expected (some u) e =
    require (str_eq (unit_name e.unit) (unit_name u))
      (value_error "resource-unit equivalence is forbidden")

unfoldable pub check_unit : SearchSpec → Event → Result Error (Unit {0})
check_unit spec e = do
  check_expected (expected_unit spec.resources e.kind) e
  raise_if (str_eq spec.track_id "JUDGMENT_ONLY" && is_verify e.kind && e.crossed_boundary)
      (value_error "Judgment-only prohibits live verification")
  raise_if (e.crossed_boundary && not (is_some e.request_fingerprint))
      (value_error "attempt must retain request provenance")

unfoldable pub check_turn : List Event → Event → Result Error (Unit {0})
unfolding last_turn
check_turn prior e =
    if is_attempted_search e
    then raise_if (ltb e.turn (max 1 (last_turn prior)) || ltb (last_turn prior + 1) e.turn)
        (value_error "search-turn sequence invalid")
    else raise_if (not (is_search e.kind) && not (e.turn == 0))
        (value_error "non-search event cannot increment search turns")

abbrev bad_target : Error
bad_target = value_error "retry must reference a prior failed same-kind attempt"

unfoldable pub check_automatic : Resources → List Event → Event → Result Error (Unit {0})
unfolding root_of count_automatic
check_automatic r prior target = do
  root ← root_of prior target
  n ← count_automatic prior root.event_id prior
  raise_if (leb r.automatic_retries n) (value_error "automatic retry policy exceeded")

-- The checks of a retry of this kind, on its target.
abbrev pub check_policy : Resources → List Event → RetryKind → Event → Result Error (Unit {0})
check_policy r prior no_retry target = ok tt
check_policy r prior manual target =
    require r.manual_retries_allowed (value_error "manual retry forbidden")
check_policy r prior automatic target = check_automatic r prior target

unfoldable pub check_target :
    Resources → List Event → Event → Option Event → Result Error (Unit {0})
unfolding check_automatic
check_target r prior e none = err bad_target
check_target r prior e (some target) = do
  require (same_kind target.kind e.kind && is_failed target.status) bad_target
  check_policy r prior e.retry_kind target

unfoldable pub check_retry : Resources → List Event → Event → Result Error (Unit {0})
unfolding check_target find_event
check_retry r prior e =
    if is_no_retry e.retry_kind
    then raise_if (is_some e.retry_of) (value_error "undeclared retry")
    else check_target r prior e (find_target e.retry_of prior)

pub record ResourceLedger : Type 0 where
  pub spec : SearchSpec
  pub run_id : String
  pub events : List Event

module _ (t : Texts) where
  open t use {search}

  -- `_validate_event(event, prior)`
  unfoldable pub validate_event : SearchSpec → List Event → Event → Result Error (Unit {0})
  unfolding event_json validate_shape assert_content_safe validate_measure check_status check_unit
      check_turn check_retry
  validate_event spec prior e = do
    validate_shape search event_schema "contract" (event_json e)
    assert_content_safe t (event_json e)
    validate_measure t e.tokens (some "tokens")
    validate_measure t e.money (some spec.resources.money_ceiling.unit)
    raise_if (any (λ (p : Event). str_eq p.event_id e.event_id) prior)
        (value_error "duplicate accounting event")
    check_status e
    check_unit spec e
    check_turn prior e
    check_retry spec.resources prior e

  -- `for event in events: self._validate_event(event, prior); prior.append(event)`
  unfoldable pub validate_events : SearchSpec → List Event → List Event → Result Error (Unit {0})
  unfolding validate_event
  validate_events spec prior [] = ok tt
  validate_events spec prior (e ∷ es) = do
    validate_event spec prior e
    validate_events spec (prior ++ e ∷ []) es

  -- `ResourceLedger(spec, run_id, events)`, with `__post_init__`
  unfoldable pub ledger : SearchSpec → String → List Event → Result Error ResourceLedger
  unfolding validate_shape assert_content_safe validate_events
  ledger spec run_id events = do
    require (str_eq spec.spec_status "FROZEN") (value_error "accounting requires frozen SearchSpec")
    validate_shape search text_schema "contract" (str run_id)
    assert_content_safe t (str run_id)
    validate_events spec [] events
    ok (record { spec = spec; run_id = run_id; events = events })

  -- `append(event)`: a new ledger, which is checked anew.
  unfoldable pub append : ResourceLedger → Event → Result Error ResourceLedger
  unfolding ledger
  append l e = ledger l.spec l.run_id (l.events ++ e ∷ [])
