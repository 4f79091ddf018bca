-- ===== src/Protocol/Measure.antt =====
-- search_cup/protocol_v23.py: `validate_measure`; search_cup/v23_accounting.py: `measure` and
-- `total_measure`.
use llm_evaluation_lab.Base.{
  String, Bool, true, false, Option, none, some, List, [], ◌∷◌, any, same, str_eq, if◌then◌else◌,
}
use llm_evaluation_lab.Base.Result.{Result, ok, ◌>>◌, require}
use llm_evaluation_lab.Json.{Json, null, str, obj, end, field}
use llm_evaluation_lab.Cup.Error.{Error, value_error}
use llm_evaluation_lab.Protocol.Numbers.{Number, number_json}
use llm_evaluation_lab.Protocol.Schema.{validate_shape}
use llm_evaluation_lab.Protocol.Shapes.{measure_schema}
use llm_evaluation_lab.Protocol.Safety.{Texts}

pub data MeasureState : Type 0 where
  known : MeasureState
  unknown : MeasureState
  not_applicable : MeasureState

abbrev pub state_name : MeasureState → String
state_name known = "KNOWN"
state_name unknown = "UNKNOWN"
state_name not_applicable = "NOT_APPLICABLE"

abbrev pub is_known : MeasureState → Bool
is_known known = true
is_known _ = false

abbrev pub is_unknown : MeasureState → Bool
is_unknown unknown = true
is_unknown _ = false

abbrev pub is_not_applicable : MeasureState → Bool
is_not_applicable not_applicable = true
is_not_applicable _ = false

-- A document of the shape MEASURE
pub record Measure : Type 0 where
  pub state : MeasureState
  pub value : Option Number
  pub unit : String
  pub reason : String

abbrev pub optional_number : Option Number → Json
optional_number none = null
optional_number (some x) = number_json x

abbrev pub measure_json : Measure → Json
measure_json m = obj (
    field "state" (str (state_name m.state)) (
      field "value" (optional_number m.value)
        (field "unit" (str m.unit) (field "reason" (str m.reason) end))))

abbrev pub is_some : {A : Type 0} → Option A → Bool
is_some none = false
is_some (some x) = true

-- `state or ("KNOWN" if value is not None else "UNKNOWN")`
abbrev pub state_of : Option Number → Option MeasureState → MeasureState
state_of value (some s) = s
state_of none none = unknown
state_of (some x) none = known

abbrev unit_is : Option String → String → Bool
unit_is none u = true
unit_is (some wanted) u = str_eq u wanted

-- `[item["value"] for item in values]`, of which a total is taken only where every state is KNOWN
unfoldable pub values_of : List Measure → List Number
values_of [] = []
values_of (m ∷ ms) = let rest = values_of ms in elim m.value [ none ↦ rest | some x ↦ x ∷ rest ]

module _ (t : Texts) where
  open t use {search}

  -- `validate_measure(measure, unit)`
  unfoldable pub validate_measure : Measure → Option String → Result Error (Unit {0})
  unfolding validate_shape
  validate_measure m unit = do
    validate_shape search measure_schema "contract" (measure_json m)
    require (same (is_known m.state) (is_some m.value))
        (value_error "measurement missingness/value mismatch")
    require (unit_is unit m.unit) (value_error "measurement unit mismatch")

  -- `measure(value, unit, state=…, reason=…)`
  unfoldable pub measure :
      Option Number → String → Option MeasureState → String → Result Error Measure
  unfolding validate_measure
  measure value unit state reason = do
    let m : Measure = record {
      state = state_of value state;
      value = value;
      unit = unit;
      reason = reason;
    }
    validate_measure m none
    ok m

  unfoldable pub validate_measures : List Measure → String → Result Error (Unit {0})
  unfolding validate_measure
  validate_measures [] unit = ok tt
  validate_measures (m ∷ ms) unit = do validate_measure m (some unit); validate_measures ms unit

  -- Python's `sum`, which rounds where a value is a float
  module _ (sum : List Number → Number) where
    -- `total_measure(values, unit)`
    unfoldable pub total_measure : List Measure → String → Result Error Measure
    unfolding validate_measures measure values_of
    total_measure ms unit = do
      validate_measures ms unit
      if any (λ (m : Measure). is_unknown m.state) ms
          then measure none unit none "at least one raw component unobservable"
          else if any (λ (m : Measure). is_not_applicable m.state) ms
          then measure none unit (some not_applicable)
              "component not applicable; no zero imputation"
          else measure (some (sum (values_of ms))) unit none "sum of raw observed components"
