-- ===== src/Protocol/Tests/Specs/Gate.antt =====
-- The gate of the JUDGMENT_ONLY spec, with bindings in which one decision is bound.
use llm_evaluation_lab.Base.{String, ◌≡◌, refl, some, [], ◌∷◌, map}
use llm_evaluation_lab.Base.Result.{ok, err}
use llm_evaluation_lab.Json.{Json, null, str, obj, Fields, array, has}
use llm_evaluation_lab.Cup.Error.{value_error}
use llm_evaluation_lab.Protocol.Numbers.{number_lt}
use llm_evaluation_lab.Protocol.Schema.{text_length, each_field, each_item, check_kinds}
use llm_evaluation_lab.Protocol.Event.{object_of}
use llm_evaluation_lab.Protocol.Pool.{Unicode}
use llm_evaluation_lab.Protocol.Gate.{answer}
use llm_evaluation_lab.Protocol.Gate.Execution.{instance_gate}
use llm_evaluation_lab.Protocol.Gate.Missing.{IsInspected, instance_gate-missing}
use llm_evaluation_lab.Protocol.Tests.{texts}
use llm_evaluation_lab.Protocol.Tests.Specs.{ref, judgment_document, runtime, clock}

abbrev decision : Json
decision = obj (
    object_of
      (("status", str "FROZEN") ∷ ("artifact", ref) ∷ ("approval", ref) ∷ ("reason", str "x") ∷ []))

abbrev deferred : Json
deferred = obj (
    object_of (
      ("status", str "DEFERRED")
      ∷ ("artifact", null)
      ∷ ("approval", null)
      ∷ ("reason", str "x")
      ∷ []))

abbrev bindings_of : String → Json
bindings_of mark = obj (
    object_of (
      ("schema_id", str "search-instance-bindings/v2")
      ∷ ("spec_fingerprint", str mark)
      ∷ (
        "decisions",
        obj (
            object_of (
              ("D1", decision)
              ∷ map (λ name. (name, deferred))
                  ("D2" ∷ "D3" ∷ "D4" ∷ "D5" ∷ "D6" ∷ "D7" ∷ "D8" ∷ []))),
      )
      ∷ ("canonical_fingerprint", str "f")
      ∷ []))

abbrev artifacts_of : String → Fields
artifacts_of track = object_of (
    (
      "f",
      obj (
          object_of (
            ("schema_id", str "search-instance/d1/v2")
            ∷ ("spec_fingerprint", str "f")
            ∷ ("binding", str track)
            ∷ [])),
    )
    ∷ [])

abbrev unicode : Unicode
unicode = record { nfkc = λ s. s; casefold = λ s. s; split = λ s. s ∷ [] }

gate_one_bound :
    instance_gate runtime texts unicode clock
      (obj judgment_document)
      (some (bindings_of "f"))
      (artifacts_of "JUDGMENT_ONLY")
    ≡ ok (answer ("D2" ∷ "D3" ∷ "D5" ∷ "D7" ∷ []))
unfolding instance_gate text_length has each_field number_lt check_kinds each_item array
gate_one_bound = refl

gate_no_artifact :
    instance_gate runtime texts unicode clock
      (obj judgment_document)
      (some (bindings_of "f"))
      (object_of [])
    ≡ ok (answer ("D1" ∷ "D2" ∷ "D3" ∷ "D5" ∷ "D7" ∷ []))
unfolding instance_gate text_length has each_field number_lt check_kinds each_item array
gate_no_artifact = refl

gate_other_document :
    instance_gate runtime texts unicode clock
      (obj judgment_document)
      (some (bindings_of "g"))
      (object_of [])
    ≡ err (value_error "instance/SearchSpec mismatch")
unfolding instance_gate text_length has each_field number_lt check_kinds each_item array
gate_other_document = refl

instance_gate-missing_example :
    IsInspected runtime texts unicode clock
      (obj judgment_document)
      (bindings_of "f")
      (artifacts_of "JUDGMENT_ONLY")
      (answer ("D2" ∷ "D3" ∷ "D5" ∷ "D7" ∷ []))
instance_gate-missing_example =
    instance_gate-missing runtime texts unicode clock (obj judgment_document) (bindings_of "f")
      (artifacts_of "JUDGMENT_ONLY") gate_one_bound
