-- ===== src/Protocol/Spec.antt =====
-- search_cup/protocol_v23.py: `SearchSpecV2.validate`, its checks in the source's order.
pub mod Validate
pub mod Passed
pub mod Reader
pub mod Judgment
pub mod Qualified
use llm_evaluation_lab.Base.{
  ℕ, String, Bool, true, false, not, ◌&&◌, ◌||◌, Option, none, some, List, [], ◌∷◌, ◌++◌, filter,
  any, all, is_empty, length, ltb, same, ◌==◌, str_eq, if◌then◌else◌,
}
use llm_evaluation_lab.Base.Int.{ℤ, pos}
use llm_evaluation_lab.Base.Result.{Result, ok, err, ◌>>=◌, ◌>>◌, raise_if, require}
use llm_evaluation_lab.Json.{Json, null, int, str, arr, obj, Fields, get, has, truthy}
use llm_evaluation_lab.Lab.Read.{contains}
use llm_evaluation_lab.Cup.Error.{Error, value_error}
use llm_evaluation_lab.Cup.Contracts.{Runtime}
use llm_evaluation_lab.Cup.Registry.{fingerprint_of}
use llm_evaluation_lab.Protocol.Numbers.{Number, whole, number_lt, equal}
use llm_evaluation_lab.Protocol.Schema.{validate_shape, field_names}
use llm_evaluation_lab.Protocol.Shapes.{
  searchspec_schema, measure_schema, ablation_capabilities, a1_behaviors, e1_behaviors, principal,
}
use llm_evaluation_lab.Protocol.Safety.{Texts, assert_content_safe}
use llm_evaluation_lab.Protocol.Seal.{verify_seal}
use llm_evaluation_lab.Protocol.Controls.{
  at, fields_of, text_of, texts_of, names_of, is_text, is_null, is_subset, Bindings, f1_eligibility,
  a0_resource_binding, control_bindings,
}

-- What `datetime.fromisoformat` reads of a text, a `Z` standing for UTC.
pub record Time : Type 0 where
  pub has_zone : Bool
  pub instant : ℕ

-- What the checks of a spec use of Python besides the canonical text: `in` on texts, and times.
pub record Clock : Type 0 where
  pub occurs : String → String → Bool
  pub read_time : String → Option Time

-- `timestamp(value)`
unfoldable pub timestamp : Clock → String → Result Error Time
timestamp clock s = elim (clock.read_time s) [
  | none ↦ err (value_error "invalid timestamp")
  | some time ↦ if time.has_zone then ok time else err (value_error "timestamp requires timezone")
]

-- `COMMON` and `SYSTEM_COMMON`
abbrev common : List String
common = "task" ∷ "scope" ∷ "a0" ∷ "a1" ∷ "resources" ∷ "output" ∷ "judgment" ∷ []

abbrev system_common : List String
system_common = "task" ∷ "scope" ∷ "a0" ∷ "output" ∷ "judgment" ∷ "disclosure_standard" ∷ []

-- `REQUIRED_CONTROLS[track]`, the schema leaving no other track
unfoldable pub required_controls : String → List String
required_controls track =
    if str_eq track "JUDGMENT_ONLY"
    then common
      ++ "candidate_set" ∷ "evidence_packet" ∷ "rubric" ∷ "ordering" ∷ "tools" ∷ "privacy" ∷ []
    else if str_eq track "E1_FROZEN"
    then common
      ++ "corpus" ∷ "index" ∷ "retriever" ∷ "environment" ∷ "prompt_context" ∷ "tools" ∷ "privacy"
        ∷ []
    else if str_eq track "E1_LIVE"
    then common
      ++ "retriever" ∷ "time_window" ∷ "environment" ∷ "prompt_context" ∷ "tools" ∷ "privacy" ∷ []
    else if str_eq track "E2_RETRIEVER"
    then common ++ "control_model" ∷ []
    else if str_eq track "E_PLUS_J"
    then system_common ++ "architecture" ∷ []
    else if str_eq track "ECONOMIC_TRACK"
    then system_common ++ "economic_package" ∷ []
    else system_common

-- `TRACK_CLAIM[track]`
unfoldable pub track_claim : String → String
track_claim track =
    if str_eq track "JUDGMENT_ONLY"
    then "JUDGMENT_ON_FROZEN_PACKAGE"
    else if str_eq track "E1_FROZEN"
    then "EXECUTION_ON_FROZEN_ENVIRONMENT"
    else if str_eq track "E1_LIVE"
    then "EXECUTION_IN_LIVE_WINDOW"
    else if str_eq track "E2_RETRIEVER"
    then "RETRIEVER_SYSTEM_PERFORMANCE"
    else if str_eq track "ECONOMIC_TRACK"
    then "OBSERVED_ECONOMIC_EFFICIENCY"
    else "DECLARED_SYSTEM_PERFORMANCE"

-- `PRINCIPAL[track]`
unfoldable pub find_text : String → List (String × String) → String
find_text key [] = ""
find_text key ((k, v) ∷ rest) = let other = find_text key rest in if str_eq key k then v else other

abbrev pub principal_of : String → String
principal_of track = find_text track principal

-- `value > limit` on counts
abbrev pub count_of : Json → ℕ
count_of (int (pos n)) = n
count_of _ = 0

abbrev pub is_zero_count : Json → Bool
is_zero_count j = equal j (int (pos 0))

-- The mode that a track has.
abbrev pub expected_mode : String → String
expected_mode track =
    if contains track ("JUDGMENT_ONLY" ∷ "E1_FROZEN" ∷ "E1_LIVE" ∷ [])
    then "F1"
    else (if str_eq track "ECONOMIC_TRACK" then "F3" else "F2")

-- `validate_measure(measure, unit)` on a document
unfoldable pub validate_measure_json : Texts → Option String → Json → Result Error (Unit {0})
unfolding validate_shape get
validate_measure_json t unit m = do
  validate_shape t.search measure_schema "contract" m
  raise_if (same (is_text "KNOWN" (at "state" m)) (is_null (at "value" m)))
      (value_error "measurement missingness/value mismatch")
  require (elim unit [ none ↦ true | some u ↦ is_text u (at "unit" m) ])
      (value_error "measurement unit mismatch")
