-- ===== src/Protocol/Record.antt =====
-- search_cup/protocol_v23.py: `validate_entrant`; search_cup/v23_judgment.py: `validate_record`, the
-- check of one judgment against its package.
use llm_evaluation_lab.Base.{
  String, Bool, false, not, ◌&&◌, ◌||◌, Option, none, some, List, [], ◌∷◌, map, any, all, length,
  same, ◌==◌, str_eq, if◌then◌else◌,
}
use llm_evaluation_lab.Base.Int.{pos}
use llm_evaluation_lab.Base.Result.{Result, ok, err, ◌>>=◌, ◌>>◌, raise_if, require}
use llm_evaluation_lab.Json.{Json, null, int, float, arr, obj, nil, Fields, get, truthy}
use llm_evaluation_lab.Lab.Read.{contains}
use llm_evaluation_lab.Cup.Error.{Error, value_error}
use llm_evaluation_lab.Cup.Contracts.{Runtime}
use llm_evaluation_lab.Cup.Registry.{fingerprint_of}
use llm_evaluation_lab.Protocol.Numbers.{whole, real, number_lt, equal}
use llm_evaluation_lab.Protocol.Schema.{
  Schema, minimum, const, enum, null_only, any_of, one_type_of, string_kind, number_kind, null_kind,
  array as array_schema, obj_of, validate_shape,
}
use llm_evaluation_lab.Protocol.Shapes.{
  alternatives, text_schema, hash_schema, ref_schema, check_schema,
}
use llm_evaluation_lab.Protocol.Safety.{Texts, assert_content_safe}
use llm_evaluation_lab.Protocol.Seal.{verify_seal}
use llm_evaluation_lab.Protocol.Controls.{
  any_unproved, at, text_of, names_of, is_text, is_null, is_subset,
}
use llm_evaluation_lab.Protocol.Spec.{Clock, timestamp}
use llm_evaluation_lab.Protocol.Pool.{Unicode, array_items}
use llm_evaluation_lab.Protocol.Package.{texts_in, validate_package}

-- `ENTRANT`
abbrev pub entrant_schema : Schema
entrant_schema = obj_of (
    ("entrant_id", text_schema)
    ∷ ("provider", text_schema)
    ∷ ("requested_model_id", text_schema)
    ∷ ("resolved_model_id", one_type_of (string_kind ∷ null_kind ∷ []))
    ∷ ("resolution_status", enum ("KNOWN" ∷ "UNKNOWN" ∷ []))
    ∷ (
      "identity_status",
      enum ("AS_REQUESTED" ∷ "DECLARED_ALIAS" ∷ "UNRESOLVED" ∷ "SUBSTITUTED" ∷ []),
    )
    ∷ ("alias_evidence", any_of (alternatives (ref_schema ∷ null_only ∷ [])))
    ∷ ("endpoint_mode", text_schema)
    ∷ ("config_fingerprint", hash_schema)
    ∷ [])

-- `validate_entrant(entrant)`
unfoldable pub validate_entrant : Texts → Json → Result Error (Unit {0})
unfolding validate_shape assert_content_safe truthy get equal
validate_entrant t entrant = do
  validate_shape t.search entrant_schema "contract" entrant
  assert_content_safe t entrant
  let known = is_text "KNOWN" (at "resolution_status" entrant)
  let identity = at "identity_status" entrant
  require (same known (truthy (at "resolved_model_id" entrant)))
      (value_error "model resolution missingness mismatch")
  raise_if (not known && not (is_text "UNRESOLVED" identity))
      (value_error "unresolved model cannot assert resolved identity")
  raise_if
      (known
        && (is_text "UNRESOLVED" identity
            || is_text "AS_REQUESTED" identity
              && not (equal (at "requested_model_id" entrant) (at "resolved_model_id" entrant))))
      (value_error "unrecorded model substitution")
  raise_if (is_text "DECLARED_ALIAS" identity && is_null (at "alias_evidence" entrant))
      (value_error "model alias requires frozen evidence")

-- `RECORD_SCHEMA`
abbrev pub record_schema : Schema
record_schema = obj_of (
    ("record_id", text_schema)
    ∷ ("run_id", text_schema)
    ∷ ("candidate_id", text_schema)
    ∷ ("judge_alias", text_schema)
    ∷ ("judge_identity", entrant_schema)
    ∷ ("package_fingerprint", hash_schema)
    ∷ ("rubric_fingerprint", hash_schema)
    ∷ ("state", enum ("ACCEPT" ∷ "REJECT" ∷ "UNKNOWN" ∷ "NOT_EVALUABLE" ∷ "ERROR" ∷ "BLOCKED" ∷ []))
    ∷ ("dimensions", array_schema (obj_of (("id", text_schema) ∷ ("value", text_schema) ∷ [])) 1)
    ∷ ("confidence", one_type_of (number_kind (minimum (whole (pos 0))) ∷ null_kind ∷ []))
    ∷ ("evidence_used", array_schema ref_schema 0)
    ∷ ("reason_codes", array_schema text_schema 1)
    ∷ ("failure_class", enum ("NONE" ∷ "INSUFFICIENT_EVIDENCE" ∷ "INFRASTRUCTURE" ∷ "POLICY" ∷ []))
    ∷ ("committed_at", text_schema)
    ∷ ("observed_peer_records", const (arr nil))
    ∷ ("canonical_fingerprint", hash_schema)
    ∷ [])

-- `next((c for c in candidates if c["candidate_id"] == …), None)`, and the last dimension of an id,
-- as `{d["id"]: d for d in dimensions}[…]` finds it where the ids are distinct
unfoldable pub find_by : String → Json → List Json → Option Json
unfolding equal get
find_by key value [] = none
find_by key value (j ∷ js) =
    let rest = find_by key value js in if equal (at key j) value then some j else rest

abbrev pub found_or_null : Option Json → Json
found_or_null none = null
found_or_null (some j) = j

-- The failure class that a state must have.
abbrev pub expected_failure : String → String
expected_failure state =
    if contains state ("ACCEPT" ∷ "REJECT" ∷ [])
    then "NONE"
    else if str_eq state "UNKNOWN"
    then "INSUFFICIENT_EVIDENCE"
    else (if str_eq state "BLOCKED" then "POLICY" else "INFRASTRUCTURE")

-- `confidence > 1`
abbrev exceeds_one : Json → Bool
exceeds_one (int n) = number_lt (whole (pos 1)) (whole n)
exceeds_one (float x) = number_lt (whole (pos 1)) (real x)
exceeds_one _ = false

abbrev is_quality : String → Bool
is_quality state = contains state ("ACCEPT" ∷ "REJECT" ∷ [])

-- The checks of a judgment's values and state against the rubric.
unfoldable pub check_decision : Json → Json → Result Error (Unit {0})
unfolding find_by array_items truthy get equal number_lt
check_decision judgment rubric = do
  let dimensions = array_items (at "dimensions" rubric)
  let given = array_items (at "dimensions" judgment)
  let state = text_of (at "state" judgment)
  let dimension : Json → Json = λ d. found_or_null (find_by "id" (at "id" d) dimensions)
  let ids = map (λ d. text_of (at "id" d)) dimensions
  let given_ids = map (λ d. text_of (at "id" d)) given
  require (length given == length dimensions && is_subset given_ids ids && is_subset ids given_ids)
      (value_error "rubric dimension mismatch")
  require
      (all
        (λ d.
          contains (text_of (at "value" d)) (names_of (at "allowed_values" (dimension d)))
          || is_text "UNKNOWN" (at "value" d))
        given)
      (value_error "value outside frozen rubric")
  require (is_text (expected_failure state) (at "failure_class" judgment))
      (value_error "judgment state/failure mismatch")
  raise_if (is_quality state && not (truthy (at "evidence_used" judgment)))
      (value_error "quality decision requires frozen evidence")
  raise_if
      (is_quality state
        && any
            (λ d. is_text "UNKNOWN" (at "value" d) && truthy (at "hard_constraint" (dimension d)))
            given)
      (value_error "hard-constraint UNKNOWN cannot become quality decision")
  raise_if
      (str_eq state "ACCEPT"
        && any
            (λ d.
              truthy (at "hard_constraint" (dimension d))
              && not (
                  contains (text_of (at "value" d))
                    (names_of (at "satisfying_values" (dimension d)))))
            given)
      (value_error "hard constraints precede soft acceptance")
  raise_if
      (not (is_null (at "confidence" judgment))
        && (exceeds_one (at "confidence" judgment)
            || not (truthy (at "confidence_allowed" rubric))))
      (value_error "confidence violates frozen rubric")

module _ (rt : Runtime) (t : Texts) (u : Unicode) (clock : Clock) where
  open t use {search}

  -- `validate_record(record, package)`
  unfoldable pub validate_record : Fields → Fields → Result Error (Unit {0})
  unfolding validate_shape verify_seal validate_package timestamp validate_entrant check_decision
      find_by array_items equal get
  validate_record judgment bundle = do
    let j = obj judgment
    let judge = get "judge_identity" judgment
    let state = text_of (get "state" judgment)
    validate_shape search record_schema "contract" j
    verify_seal rt t judgment
    validate_package rt t u clock bundle
    _ ← timestamp clock (text_of (get "committed_at" judgment))
    validate_entrant t judge
    require (equal (at "entrant_id" judge) (get "judge_alias" judgment))
        (value_error "sealed judge identity/alias mismatch")
    raise_if
        (contains state ("ACCEPT" ∷ "REJECT" ∷ "UNKNOWN" ∷ [])
          && (not (is_text "KNOWN" (at "resolution_status" judge))
              || is_text "SUBSTITUTED" (at "identity_status" judge)))
        (value_error "unresolved/substituted judge cannot issue comparable judgment")
    require
        (equal (get "package_fingerprint" judgment) (get "canonical_fingerprint" bundle)
          && is_text (fingerprint_of rt (get "rubric" bundle)) (get "rubric_fingerprint" judgment))
        (value_error "judgment package binding mismatch")
    let candidates = array_items (at "candidates" (get "candidate_pool" bundle))
    candidate ← elim (find_by "candidate_id" (get "candidate_id" judgment) candidates) [
      | none ↦ err (value_error "candidate not frozen in package")
      | some c ↦ ok c
    ]
    require
        (is_subset (texts_in rt t u clock (get "evidence_used" judgment))
          (texts_in rt t u clock (at "evidence" candidate)))
        (value_error "new evidence forbidden")
    check_decision j (get "rubric" bundle)

abbrev gate_names : List String
gate_names = "J1" ∷ "J2" ∷ "J3" ∷ "J4" ∷ "J5" ∷ "J6" ∷ "J7" ∷ "J8" ∷ "J9" ∷ "J10" ∷ []

-- `integrity_gate(checks)`
unfoldable pub integrity_gate : Texts → Fields → Result Error String
unfolding validate_shape assert_content_safe any_unproved
integrity_gate t checks = do
  validate_shape t.search (obj_of (map (λ name. (name, check_schema)) gate_names)) "contract"
      (obj checks)
  assert_content_safe t (obj checks)
  ok (if any_unproved checks then "NOT_EVALUABLE" else "PASS")
