-- ===== src/Protocol/Tests/Specs/Entrant.antt =====
-- A spec of the track E1_LIVE that validates: the other spec with some fields replaced.
use llm_evaluation_lab.Base.{String, ◌≡◌, refl, List, [], ◌∷◌, map, str_eq, if◌then◌else◌}
use llm_evaluation_lab.Base.Result.{ok, err}
use llm_evaluation_lab.Json.{Json, null, str, arr, obj, Fields, end, field, array, has, get}
use llm_evaluation_lab.Cup.Contracts.{Runtime}
use llm_evaluation_lab.Cup.Error.{value_error}
use llm_evaluation_lab.Protocol.Numbers.{number_lt}
use llm_evaluation_lab.Protocol.Schema.{text_length, each_field, each_item, check_kinds}
use llm_evaluation_lab.Protocol.Event.{object_of}
use llm_evaluation_lab.Protocol.Controls.{fields_of}
use llm_evaluation_lab.Protocol.Spec.Validate.{validate}
use llm_evaluation_lab.Protocol.Spec.Qualified.{IsEntrantTrack, validate-IsEntrantTrack}
use llm_evaluation_lab.Protocol.Tests.{texts}
use llm_evaluation_lab.Protocol.Tests.Specs.{
  ref, strings, a1_document, controls_document, resource_document, judgment_document, runtime,
  clock,
}

-- The fields with this key given this value.
abbrev pub set : String → Json → Fields → Fields
set key value end = end
set key value (field k j rest) =
    if str_eq key k then field k value rest else field k j (set key value rest)

abbrev criterion : Json
criterion = obj (object_of (("status", str "PASS") ∷ ("evidence", arr (array (ref ∷ []))) ∷ []))

abbrev qualification : Json
qualification = obj (
    object_of (
      ("backend_fingerprint", str "f")
      ∷ (
        "criteria",
        obj (
            object_of (
              map (λ name. (name, criterion))
                ("R1" ∷ "R2" ∷ "R3" ∷ "R4" ∷ "R5" ∷ "R6" ∷ "R7" ∷ "R8" ∷ []))),
      )
      ∷ []))

abbrev retriever_with : List String → Json
retriever_with capabilities = obj (
    object_of (
      ("identity", ref)
      ∷ ("backend_id", str "b")
      ∷ ("class", str "RAW_RETRIEVER")
      ∷ ("config_fingerprint", str "f")
      ∷ ("request_schema", ref)
      ∷ ("result_schema", ref)
      ∷ ("capabilities", strings capabilities)
      ∷ ("qualification", qualification)
      ∷ []))

abbrev live_overlay : Json
live_overlay = obj (
    object_of (
      ("kind", str "LIVE")
      ∷ ("window_policy", ref)
      ∷ ("backend", ref)
      ∷ ("drift_policy", ref)
      ∷ ("pooled_candidate_policy", ref)
      ∷ ("adjudication_timing", ref)
      ∷ ("capture_policy", ref)
      ∷ ("exhaustive_reference", null)
      ∷ []))

abbrev entrant_controls : Json
entrant_controls = obj (
    set "principal" (str "ENTRANT_MODEL_CONFIG") (
      set "qualified_nuisance" (strings ("drift" ∷ [])) (
        set "fixed"
          (obj (
            object_of (
              map (λ name. (name, str "f"))
                ("task" ∷ "scope" ∷ "a0" ∷ "a1" ∷ "resources" ∷ "output" ∷ "judgment" ∷ "retriever"
                  ∷ "time_window" ∷ "environment" ∷ "prompt_context" ∷ "tools" ∷ "privacy" ∷ []))))
          (fields_of controls_document))))

abbrev entrant_with : List String → Fields
entrant_with capabilities = set "track_id" (str "E1_LIVE") (
    set "a1" (obj (set "owner" (str "ENTRANT") (fields_of a1_document))) (
      set "variable_control" entrant_controls (
        set "retriever" (retriever_with capabilities) (
          set "resources"
            (obj (set "search_unit" (str "RAW_BACKEND_ATTEMPT") (fields_of resource_document)))
            (set "overlay" live_overlay
              (set "claims" (strings ("EXECUTION_IN_LIVE_WINDOW" ∷ [])) judgment_document))))))

abbrev runtime_of : Fields → Runtime
runtime_of doc = record runtime { loads = λ s. ok (obj doc) }

abbrev entrant : Fields
entrant = entrant_with ("RETRIEVAL" ∷ [])

entrant_valid : validate (runtime_of entrant) texts clock entrant ≡ ok tt
unfolding validate text_length has each_field number_lt check_kinds each_item array
entrant_valid = refl

validate-IsEntrantTrack_example : IsEntrantTrack (runtime_of entrant) texts clock (obj entrant)
unfolding get
validate-IsEntrantTrack_example =
    validate-IsEntrantTrack (runtime_of entrant) texts clock entrant entrant_valid refl

-- A retriever that also plans, under a spec whose entrant owns the planning.
abbrev planner : Fields
planner = entrant_with ("RETRIEVAL" ∷ "SYNONYMS" ∷ [])

planner_refused :
    validate (runtime_of planner) texts clock planner
    ≡ err (value_error "search-stack planning ownership must be explicit")
unfolding validate text_length has each_field number_lt check_kinds each_item array
planner_refused = refl
