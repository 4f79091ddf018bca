-- ===== src/Protocol/Gate.antt =====
-- search_cup/protocol_v23.py: the answer of `instance_gate`, the decisions that a spec requires, and
-- `validate_instance_artifact`, on the document of the spec.
pub mod Execution
pub mod Missing
use Prim.Native.String.{◌++◌ as append}
use llm_evaluation_lab.Base.{
  ℕ, String, Bool, true, false, not, ◌&&◌, ◌||◌, Option, none, some, List, [], ◌∷◌, ◌++◌, map, any,
  is_empty, str_eq, if◌then◌else◌,
}
use llm_evaluation_lab.Base.Result.{Result, ok, err, ◌>>=◌, ◌>>◌, raise_if, require}
use llm_evaluation_lab.Json.{Json, null, str, arr, obj, Fields, get, has}
use llm_evaluation_lab.Lab.Read.{contains}
use llm_evaluation_lab.Cup.Error.{Error, value_error}
use llm_evaluation_lab.Cup.Contracts.{Runtime}
use llm_evaluation_lab.Cup.Competition.{is_distinct}
use llm_evaluation_lab.Cup.Registry.{fingerprint_of}
use llm_evaluation_lab.Protocol.Numbers.{equal}
use llm_evaluation_lab.Protocol.Schema.{
  Schema, const, enum, null_only, any_of, object, array as array_schema, obj_of, find_property,
  field_names, validate_shape,
}
use llm_evaluation_lab.Protocol.Shapes.{
  alternatives, text_schema, hash_schema, ref_schema, retriever_schema, searchspec_schema,
}
use llm_evaluation_lab.Protocol.Safety.{Texts, assert_content_safe}
use llm_evaluation_lab.Protocol.Seal.{verify_seal}
use llm_evaluation_lab.Protocol.Event.{object_of}
use llm_evaluation_lab.Protocol.Controls.{
  at, fields_of, text_of, is_text, is_null, is_subset, f1_eligibility,
}
use llm_evaluation_lab.Protocol.Spec.{Clock}
use llm_evaluation_lab.Protocol.Pool.{Unicode, array_items}
use llm_evaluation_lab.Protocol.Package.{sealed_fields, spec_from, validate_package}
use llm_evaluation_lab.Protocol.Record.{entrant_schema, validate_entrant}

-- `SEARCHSPEC_SCHEMA["properties"][key]`
unfoldable pub spec_property : String → Schema
unfolding find_property
spec_property key = elim searchspec_schema [
  | object ps required ↦ elim (find_property key ps) [ none ↦ null_only | some s ↦ s ]
  | _ ↦ null_only
]

abbrev optional_ref : Schema
optional_ref = any_of (alternatives (ref_schema ∷ null_only ∷ []))

abbrev decision_schema : Schema
decision_schema = obj_of (
    ("status", enum ("FROZEN" ∷ "DEFERRED" ∷ "NOT_APPLICABLE" ∷ []))
    ∷ ("artifact", optional_ref)
    ∷ ("approval", optional_ref)
    ∷ ("reason", text_schema)
    ∷ [])

-- `INSTANCE_SCHEMA`
abbrev pub instance_schema : Schema
instance_schema = obj_of (
    ("schema_id", const (str "search-instance-bindings/v2"))
    ∷ ("spec_fingerprint", hash_schema)
    ∷ (
      "decisions",
      obj_of (
          map (λ name. (name, decision_schema))
            ("D1" ∷ "D2" ∷ "D3" ∷ "D4" ∷ "D5" ∷ "D6" ∷ "D7" ∷ "D8" ∷ [])),
    )
    ∷ ("canonical_fingerprint", hash_schema)
    ∷ [])

-- `sorted(required)`
unfoldable pub required_decisions : Json → List String
unfolding get
required_decisions doc =
    let judged = is_text "JUDGMENT_ONLY" (at "track_id" doc) in
    let mode = text_of (at "fairness_mode" doc) in
    "D1" ∷ "D2" ∷ []
    ++ (if judged then "D3" ∷ [] else [])
    ++ (if is_text "FROZEN" (at "kind" (at "overlay" doc)) then "D4" ∷ [] else [])
    ++ "D5" ∷ []
    ++ (if str_eq mode "F1" && not judged then "D6" ∷ [] else [])
    ++ "D7" ∷ []
    ++ (if contains mode ("F2" ∷ "F3" ∷ "ABLATION" ∷ []) then "D8" ∷ [] else [])

-- The answer; the fields that are constant in the source, such as "execution_allowed", which is
-- false, and "terminal_status", which is "BLOCKED", are left out.
pub record Answer : Type 0 where
  pub missing_decisions : List String
  pub reason_codes : List String

abbrev pub answer : List String → Answer
answer missing = record {
  missing_decisions = missing;
  reason_codes =
      if is_empty missing
      then "T1_IMPLEMENTATION_ONLY" ∷ []
      else "INSTANCE_BINDINGS_MISSING" ∷ "T1_IMPLEMENTATION_ONLY" ∷ [];
}

unfoldable pub validate_entrants : Texts → List Json → Result Error (Unit {0})
unfolding validate_entrant
validate_entrants t [] = ok tt
validate_entrants t (e ∷ es) = do validate_entrant t e; validate_entrants t es

module _ (rt : Runtime) (t : Texts) (u : Unicode) (clock : Clock) where
  open t use {search}
  open clock use {occurs}

  abbrev common : String → Json → List (String × Schema)
  common name doc =
      ("schema_id", const (str (append "search-instance/" (append name "/v2"))))
      ∷ ("spec_fingerprint", const (at "canonical_fingerprint" doc))
      ∷ []

  abbrev shaped : Json → List (String × Schema) → Result Error (Unit {0})
  shaped artifact ps = validate_shape search (obj_of ps) "contract" artifact

  unfoldable pub check_d1 : Json → Json → Result Error (Unit {0})
  unfolding validate_shape get
  check_d1 artifact doc =
      shaped artifact (common "d1" doc ++ ("binding", const (at "track_id" doc)) ∷ [])

  unfoldable pub check_d2 : Json → Json → Result Error (Unit {0})
  unfolding validate_shape spec_from get equal
  check_d2 artifact doc = do
    let mark = at "canonical_fingerprint" doc
    shaped artifact
        (common "d2" doc ++ ("binding", const mark) ∷ ("searchspec", searchspec_schema) ∷ [])
    spec ← spec_from rt t u clock (at "searchspec" artifact)
    require (equal (get "canonical_fingerprint" spec) mark) (value_error "task instance mismatch")

  unfoldable pub check_d3 : Json → Json → Result Error (Unit {0})
  unfolding validate_shape validate_package field_names get equal
  check_d3 artifact doc = do
    let names = field_names (fields_of artifact)
    let expected = "schema_id" ∷ "spec_fingerprint" ∷ "judgment_package" ∷ []
    require (is_subset names expected && is_subset expected names)
        (value_error "judgment instance shape mismatch")
    shaped
        (obj (
          object_of (
            ("schema_id", at "schema_id" artifact)
            ∷ ("spec_fingerprint", at "spec_fingerprint" artifact)
            ∷ [])))
        (common "d3" doc)
    bundle ← sealed_fields (at "judgment_package" artifact)
    validate_package rt t u clock bundle
    require
        (equal (at "canonical_fingerprint" (get "searchspec" bundle))
          (at "canonical_fingerprint" doc))
        (value_error "judgment instance mismatch")

  unfoldable pub check_d4 : Json → Json → Result Error (Unit {0})
  unfolding validate_shape spec_property get equal
  check_d4 artifact doc = do
    shaped artifact (common "d4" doc ++ ("frozen_overlay", spec_property "overlay") ∷ [])
    require
        (equal (at "frozen_overlay" artifact) (at "overlay" doc)
          && is_text "FROZEN" (at "kind" (at "overlay" doc)))
        (value_error "corpus/index instance mismatch")

  unfoldable pub check_d5 : Json → Json → Result Error (Unit {0})
  unfolding validate_shape validate_entrants array_items is_distinct get equal
  check_d5 artifact doc = do
    shaped artifact (common "d5" doc ++ ("roster", array_schema entrant_schema 1) ∷ [])
    let roster = array_items (at "roster" artifact)
    require (is_distinct (map (λ e. text_of (at "entrant_id" e)) roster))
        (value_error "duplicate roster alias")
    validate_entrants t roster
    raise_if
        (is_text "E2_RETRIEVER" (at "track_id" doc)
          && not (
              equal (str (fingerprint_of rt (at "roster" artifact)))
                (at "control_model" (at "fixed" (at "variable_control" doc)))))
        (value_error "E2 control model roster mismatch")

  unfoldable pub check_d6 : Json → Json → Result Error (Unit {0})
  unfolding validate_shape f1_eligibility get equal
  check_d6 artifact doc = do
    shaped artifact (common "d6" doc ++ ("retriever", retriever_schema) ∷ [])
    require (equal (at "retriever" artifact) (at "retriever" doc))
        (value_error "retriever qualification instance mismatch")
    eligible ← f1_eligibility rt t occurs (at "retriever" artifact)
    require (str_eq eligible "F1_ELIGIBLE")
        (value_error "retriever qualification instance mismatch")

  unfoldable pub check_d7 : Json → Json → Result Error (Unit {0})
  unfolding validate_shape spec_property get equal
  check_d7 artifact doc = do
    shaped artifact (
        common "d7" doc
        ++ ("binding", const (str (fingerprint_of rt (at "resources" doc))))
          ∷ ("resources", spec_property "resources")
          ∷ [])
    require (equal (at "resources" artifact) (at "resources" doc))
        (value_error "resource instance mismatch")

  unfoldable pub check_d8 : Json → Json → Result Error (Unit {0})
  unfolding validate_shape spec_property get equal
  check_d8 artifact doc = do
    shaped artifact (
        common "d8" doc
        ++ ("system_disclosure", spec_property "system_disclosure")
          ∷ ("economic_package", spec_property "economic_package")
          ∷ ("variable_control", spec_property "variable_control")
          ∷ [])
    require
        (equal (at "system_disclosure" artifact) (at "system_disclosure" doc)
          && equal (at "economic_package" artifact) (at "economic_package" doc)
          && equal (at "variable_control" artifact) (at "variable_control" doc))
        (value_error "system/economic/ablation instance mismatch")

  -- `validate_instance_artifact(name, artifact, spec)`
  unfoldable pub validate_instance_artifact : String → Json → Json → Result Error (Unit {0})
  unfolding check_d1 check_d2 check_d3 check_d4 check_d5 check_d6 check_d7 check_d8
  validate_instance_artifact name artifact doc =
      if str_eq name "D1"
      then check_d1 artifact doc
      else if str_eq name "D2"
      then check_d2 artifact doc
      else if str_eq name "D3"
      then check_d3 artifact doc
      else if str_eq name "D4"
      then check_d4 artifact doc
      else if str_eq name "D5"
      then check_d5 artifact doc
      else if str_eq name "D6"
      then check_d6 artifact doc
      else if str_eq name "D7"
      then check_d7 artifact doc
      else if str_eq name "D8"
      then check_d8 artifact doc
      else err (value_error "unknown instance decision")
