-- ===== src/Protocol/Package.antt =====
-- search_cup/v23_judgment.py: `judgment_contract`, `judgment_package` and `validate_package`.
use llm_evaluation_lab.Base.{
  String, Bool, true, not, ◌&&◌, ◌||◌, List, [], ◌∷◌, map, all, is_empty, ltb, str_eq,
  if◌then◌else◌,
}
use llm_evaluation_lab.Base.Result.{Result, ok, err, ◌>>=◌, ◌>>◌, raise_if, require}
use llm_evaluation_lab.Json.{Json, bool, str, arr, obj, nil, Fields, get, has, truthy}
use llm_evaluation_lab.Cup.Error.{Error, value_error}
use llm_evaluation_lab.Cup.Contracts.{Runtime}
use llm_evaluation_lab.Cup.Competition.{is_distinct}
use llm_evaluation_lab.Cup.Registry.{fingerprint_of}
use llm_evaluation_lab.Protocol.Numbers.{equal}
use llm_evaluation_lab.Protocol.Schema.{
  Schema, const, enum, boolean, null_only, any_of, one_type_of, string_kind, null_kind,
  array as array_schema, obj_of, validate_shape,
}
use llm_evaluation_lab.Protocol.Shapes.{alternatives, text_schema, hash_schema, ref_schema}
use llm_evaluation_lab.Protocol.Safety.{Texts, assert_content_safe}
use llm_evaluation_lab.Protocol.Seal.{seal, verify_seal, add_field}
use llm_evaluation_lab.Protocol.Event.{object_of}
use llm_evaluation_lab.Protocol.Controls.{at, text_of, names_of, is_text, is_null, is_subset}
use llm_evaluation_lab.Protocol.Spec.{Clock, timestamp}
use llm_evaluation_lab.Protocol.Spec.Validate.{validate}
use llm_evaluation_lab.Protocol.Pool.{Unicode, item, array_items, validate_pool}

-- `DIMENSION`, `RUBRIC` and `ADJUDICATION`
abbrev dimension_schema : Schema
dimension_schema = obj_of (
    ("id", text_schema)
    ∷ ("allowed_values", array_schema text_schema 1)
    ∷ ("evidence_threshold", text_schema)
    ∷ ("unknown_rule", const (str "INSUFFICIENT_EVIDENCE_NOT_NEGATIVE"))
    ∷ ("hard_constraint", boolean)
    ∷ ("satisfying_values", array_schema text_schema 0)
    ∷ [])

abbrev rubric_schema : Schema
rubric_schema = obj_of (
    ("id", text_schema)
    ∷ ("version", text_schema)
    ∷ ("dimensions", array_schema dimension_schema 1)
    ∷ ("confidence_allowed", boolean)
    ∷ ("hard_constraints_first", const (bool true))
    ∷ (
      "aggregation",
      obj_of (
          ("method", text_schema)
          ∷ ("tie_policy", enum ("ADJUDICATE" ∷ "PRESERVE_DISAGREEMENT" ∷ []))
          ∷ ("unknown_policy", const (str "PRESERVE"))
          ∷ ("frozen_before_outputs", const (bool true))
          ∷ []),
    )
    ∷ [])

abbrev pub triggers : List String
triggers =
    "DISAGREEMENT" ∷ "CRITICAL_UNKNOWN" ∷ "IDENTITY_COLLISION" ∷ "CONTRADICTION" ∷ "RUBRIC_EDGE"
    ∷ []

abbrev adjudication_schema : Schema
adjudication_schema = obj_of (
    ("id", text_schema)
    ∷ ("version", text_schema)
    ∷ ("allowed", boolean)
    ∷ ("triggers", array_schema (enum triggers) 0)
    ∷ ("thresholds", ref_schema)
    ∷ ("evidence_policy", const (str "FROZEN_PACKET_ONLY"))
    ∷ ("append_only", const (bool true))
    ∷ [])

abbrev optional : Schema → Schema
optional s = any_of (alternatives (s ∷ null_only ∷ []))

abbrev entry_schema : Schema
entry_schema = obj_of (
    ("reference", ref_schema)
    ∷ ("excerpt", text_schema)
    ∷ ("captured_at", text_schema)
    ∷ ("locator", text_schema)
    ∷ ("corpus_fingerprint", optional hash_schema)
    ∷ [])

abbrev packet_schema : Schema
packet_schema =
    obj_of (
      ("id", text_schema)
      ∷ ("version", text_schema)
      ∷ ("entries", array_schema entry_schema 0)
      ∷ [])

abbrev overlay_schema : Schema
overlay_schema = obj_of (
    ("kind", enum ("SYNTHETIC" ∷ "FROZEN" ∷ "LIVE" ∷ []))
    ∷ ("corpus", optional ref_schema)
    ∷ ("reference_set", optional ref_schema)
    ∷ ("capture_cutoff", one_type_of (string_kind ∷ null_kind ∷ []))
    ∷ ("adjudication_time", one_type_of (string_kind ∷ null_kind ∷ []))
    ∷ ("drift_policy", optional ref_schema)
    ∷ [])

-- The arguments of `judgment_contract`.
pub record Parts : Type 0 where
  pub pool : Json
  pub evidence_packet : Json
  pub rubric : Json
  pub adjudication : Json
  pub output_schema : Json
  pub resource_fingerprint : Json
  pub source_overlay : Json

-- `dimension["hard_constraint"]` and the values that satisfy it
unfoldable pub check_dimensions : List Json → Result Error (Unit {0})
unfolding get truthy
check_dimensions [] = ok tt
check_dimensions (d ∷ ds) = do
  let satisfying = names_of (at "satisfying_values" d)
  raise_if
      (not (is_subset satisfying (names_of (at "allowed_values" d)))
        || truthy (at "hard_constraint" d) && is_empty satisfying)
      (value_error "rubric hard-constraint satisfaction must be explicit")
  check_dimensions ds

unfoldable pub check_capture : Clock → Json → Json → Result Error (Unit {0})
unfolding timestamp equal get
check_capture clock overlay entry = do
  capture ← timestamp clock (text_of (at "captured_at" entry))
  raise_if
      (is_text "FROZEN" (at "kind" overlay)
        && (is_null (at "corpus" overlay)
            || is_null (at "reference_set" overlay)
            || not
                (equal (at "corpus_fingerprint" entry) (at "fingerprint" (at "corpus" overlay)))))
      (value_error "evidence outside frozen corpus")
  if is_text "LIVE" (at "kind" overlay)
      then (do
        raise_if
            (is_null (at "capture_cutoff" overlay)
              || is_null (at "adjudication_time" overlay)
              || is_null (at "drift_policy" overlay))
            (value_error "live adjudication overlay incomplete")
        cutoff ← timestamp clock (text_of (at "capture_cutoff" overlay))
        if ltb cutoff.instant capture.instant
            then err (value_error "live evidence/cutoff mismatch")
            else (do
              time ← timestamp clock (text_of (at "adjudication_time" overlay))
              raise_if (ltb time.instant cutoff.instant)
                  (value_error "live evidence/cutoff mismatch")))
      else ok tt

unfoldable pub check_captures : Clock → Json → List Json → Result Error (Unit {0})
unfolding check_capture
check_captures clock overlay [] = ok tt
check_captures clock overlay (e ∷ es) = do
  check_capture clock overlay e
  check_captures clock overlay es

-- The fields of a document that `verify_seal` is asked about; it refuses all but objects.
abbrev pub sealed_fields : Json → Result Error Fields
sealed_fields (obj fs) = ok fs
sealed_fields _ = err (value_error "canonical fingerprint mismatch")

module _ (rt : Runtime) (t : Texts) (u : Unicode) (clock : Clock) where
  open rt use {dumps, loads}
  open t use {search}
  open clock use {occurs}

  -- `{canonical_json(e) for e in value}`, as a list
  abbrev pub texts_in : Json → List String
  texts_in value = map dumps (array_items value)

  -- `judgment_contract(…)`
  unfoldable pub judgment_contract : Parts → Result Error Fields
  unfolding validate_pool validate_shape assert_content_safe check_dimensions check_captures
      is_distinct array_items seal get truthy
  judgment_contract p = do
    pool ← sealed_fields p.pool
    validate_pool rt t u occurs pool
    validate_shape search rubric_schema "contract" p.rubric
    validate_shape search adjudication_schema "contract" p.adjudication
    validate_shape search ref_schema "contract" p.output_schema
    validate_shape search hash_schema "contract" p.resource_fingerprint
    assert_content_safe t p.evidence_packet
    raise_if (truthy (get "collisions" pool))
        (value_error "UNKNOWN_IDENTITY must be adjudicated before candidate freeze")
    require (truthy (get "candidates" pool)) (value_error "frozen judgment pool must not be empty")
    let dimensions = array_items (at "dimensions" p.rubric)
    require (is_distinct (map (λ d. text_of (at "id" d)) dimensions))
        (value_error "duplicate rubric dimensions")
    check_dimensions dimensions
    validate_shape search packet_schema "contract" p.evidence_packet
    let entries = array_items (at "entries" p.evidence_packet)
    let refs = map (λ e. dumps (at "reference" e)) entries
    require (is_distinct refs) (value_error "conflicting evidence identity")
    require
        (all (λ c. is_subset (texts_in (at "evidence" c)) refs)
          (array_items (get "candidates" pool)))
        (value_error "candidate evidence missing from frozen packet")
    validate_shape search overlay_schema "contract" p.source_overlay
    check_captures clock p.source_overlay entries
    seal rt t (
        object_of (
          ("schema_id", str "search-judgment-package/v2")
          ∷ ("candidate_pool", p.pool)
          ∷ ("evidence_packet", p.evidence_packet)
          ∷ ("rubric", p.rubric)
          ∷ ("adjudication", p.adjudication)
          ∷ ("output_schema", p.output_schema)
          ∷ ("resource_fingerprint", p.resource_fingerprint)
          ∷ ("source_overlay", p.source_overlay)
          ∷ ("allowed_tools", arr nil)
          ∷ ("order_policy", str "CANDIDATE_ID_ASC")
          ∷ ("independent_first_pass", bool true)
          ∷ []))

  -- `SearchSpecV2.from_mapping(document).as_dict()`
  unfoldable pub spec_from : Json → Result Error Fields
  unfolding validate
  spec_from document = do
    doc ← sealed_fields document
    validate rt t clock doc
    copy ← loads (dumps document)
    fields ← sealed_fields copy
    validate rt t clock fields
    require (str_eq (dumps copy) (dumps document))
        (value_error "noncanonical SearchSpec representation")
    ok fields

  -- `doc["overlay"][key]["fingerprint"] != value`
  abbrev overlay_binds : Json → String × Json → Bool
  overlay_binds doc (key, value) = equal (at "fingerprint" (at key (at "overlay" doc))) value

  abbrev named : Json → Json
  named value = str (fingerprint_of rt value)

  -- `judgment_package(…, spec)`
  unfoldable pub judgment_package : Parts → Json → Result Error Fields
  unfolding judgment_contract seal equal get
  judgment_package p doc = do
    core ← judgment_contract p
    require (is_text "JUDGMENT_ONLY" (at "track_id" doc) && is_text "FROZEN" (at "spec_status" doc))
        (value_error "judgment package requires frozen Judgment-only SearchSpec")
    require
        (equal p.resource_fingerprint (named (at "resources" doc))
          && equal (at "fingerprint" (at "judgment_contract" doc)) (named (obj core)))
        (value_error "judgment contract/SearchSpec binding mismatch")
    require
        (all (overlay_binds doc) (
          ("candidate_set", named p.pool)
          ∷ ("evidence_packet", named p.evidence_packet)
          ∷ ("rubric", named p.rubric)
          ∷ ("adjudication_policy", named p.adjudication)
          ∷ ("output_schema", at "fingerprint" p.output_schema)
          ∷ ("blind_transform", named (at "policy" p.pool))
          ∷ ("order_policy", named (get "order_policy" core))
          ∷ ("aggregation_policy", named (at "aggregation" p.rubric))
          ∷ []))
        (value_error "judgment overlay/SearchSpec binding mismatch")
    seal rt t (add_field "searchspec" doc core)

  abbrev package_mismatch : Error
  package_mismatch = value_error "judgment package shape mismatch"

  -- `validate_package(package)`, of an object
  unfoldable pub validate_package : Fields → Result Error (Unit {0})
  unfolding verify_seal spec_from judgment_package equal get has
  validate_package bundle = do
    let j = obj bundle
    verify_seal rt t bundle
    document ← item "searchspec" j package_mismatch
    spec ← spec_from document
    pool ← item "candidate_pool" j package_mismatch
    evidence_packet ← item "evidence_packet" j package_mismatch
    rubric ← item "rubric" j package_mismatch
    adjudication ← item "adjudication" j package_mismatch
    output_schema ← item "output_schema" j package_mismatch
    resource_fingerprint ← item "resource_fingerprint" j package_mismatch
    source_overlay ← item "source_overlay" j package_mismatch
    rebuilt ←
        judgment_package
          (record {
            pool = pool;
            evidence_packet = evidence_packet;
            rubric = rubric;
            adjudication = adjudication;
            output_schema = output_schema;
            resource_fingerprint = resource_fingerprint;
            source_overlay = source_overlay;
          })
          (obj spec)
    require (equal j (obj rebuilt))
        (value_error "judgment package contains unfrozen fields or controls")

  -- `judge_view(package)`, before the text is encoded
  unfoldable pub judge_view : Fields → Result Error String
  unfolding validate_package
  judge_view bundle = do validate_package bundle; ok (dumps (obj bundle))
