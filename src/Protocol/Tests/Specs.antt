-- ===== src/Protocol/Tests/Specs.antt =====
-- A spec of the track JUDGMENT_ONLY that validates. Every fingerprint is one text, as the hash is.
mod Entrant
mod Journals
mod Gate
mod Compared
mod Pooled
use llm_evaluation_lab.Base.{
  ℕ, String, Bool, true, false, ◌≡◌, refl, Option, none, some, List, [], ◌∷◌, All, map,
}
use llm_evaluation_lab.Base.Result.{ok, err}
use llm_evaluation_lab.Base.Int.{ℤ, pos, negsuc}
use llm_evaluation_lab.Json.{
  Json, null, bool, int, str, arr, obj, Items, Fields, array, finite, has, get,
}
use llm_evaluation_lab.Cup.Contracts.{Runtime}
use llm_evaluation_lab.Cup.Error.{value_error}
use llm_evaluation_lab.Protocol.Numbers.{number_lt, equal}
use llm_evaluation_lab.Protocol.Schema.{text_length, each_field, each_item, check_kinds}
use llm_evaluation_lab.Protocol.Event.{
  model_event, model_request, succeeded, no_failure, object_of, Event, SearchSpec,
}
use llm_evaluation_lab.Protocol.Ledger.{ResourceLedger, ledger}
use llm_evaluation_lab.Protocol.Spec.{Time, Clock}
use llm_evaluation_lab.Protocol.Spec.Validate.{validate}
use llm_evaluation_lab.Protocol.Spec.Reader.{spec_of}
use llm_evaluation_lab.Protocol.Spec.Judgment.{IsJudgmentOnly, IsOffline, validate-IsJudgmentOnly}
use llm_evaluation_lab.Protocol.Tests.{texts, first}

abbrev ref : Json
ref = obj (object_of (("id", str "r") ∷ ("version", str "1") ∷ ("fingerprint", str "f") ∷ []))

abbrev strings : List String → Json
strings names = arr (array (map str names))

abbrev known_measure : String → Json
known_measure unit = obj (
    object_of (
      ("state", str "KNOWN")
      ∷ ("value", int (pos 9))
      ∷ ("unit", str unit)
      ∷ ("reason", str "limit")
      ∷ []))

abbrev zero : Json
zero = int (pos 0)

abbrev resource_document : Json
resource_document = obj (
    object_of (
      ("schema_id", str "search-resource/v2")
      ∷ ("max_search_calls", zero)
      ∷ ("max_search_turns", zero)
      ∷ ("max_results_per_call", zero)
      ∷ ("max_follow_links", zero)
      ∷ ("automatic_retries", zero)
      ∷ ("retry_policy", ref)
      ∷ ("manual_retry_policy", str "FORBIDDEN")
      ∷ ("timeout_per_call_ms", int (pos 99))
      ∷ ("max_total_runtime_ms", known_measure "ms")
      ∷ ("token_ceiling", known_measure "tokens")
      ∷ ("money_ceiling", known_measure "EUR")
      ∷ ("resource_unit_definition", str "none")
      ∷ ("search_unit", str "NONE")
      ∷ ("failure_policy", str "INFRASTRUCTURE_NOT_QUALITY")
      ∷ ("exhaustion_policy", str "STOP_NO_EXPANSION")
      ∷ ("budget_rejection_policy", str "NO_BACKEND_NO_TICKET")
      ∷ []))

abbrev task_document : Json
task_document = obj (
    object_of (
      ("task_id", str "t")
      ∷ ("task_class", str "c")
      ∷ ("target", str "x")
      ∷ ("objective", str "o")
      ∷ ("success_criteria", strings ("s" ∷ []))
      ∷ ("unit_of_evaluation", str "u")
      ∷ ("output_cardinality", obj (object_of (("minimum", zero) ∷ ("maximum", int (pos 5)) ∷ [])))
      ∷ ("inclusion_criteria", strings [])
      ∷ ("exclusion_criteria", strings [])
      ∷ ("evidence_requirements", strings ("e" ∷ []))
      ∷ ("unknown_semantics", str "INSUFFICIENT_EVIDENCE_NOT_NEGATIVE")
      ∷ ("stop_conditions", strings ("s" ∷ []))
      ∷ []))

abbrev scope_document : Json
scope_document = obj (
    object_of (
      ("language_pool", strings ("en" ∷ []))
      ∷ (
        "geography_scope",
        obj (object_of (("included", strings ("eu" ∷ [])) ∷ ("excluded", strings []) ∷ [])),
      )
      ∷ ("source_classes_allowed", strings ("web" ∷ []))
      ∷ ("source_classes_excluded", strings [])
      ∷ ("time_window", str "w")
      ∷ ("freshness_rule", str "f")
      ∷ ("verification_sources_allowed", strings [])
      ∷ ("verification_sources_excluded", strings [])
      ∷ ("privacy_class", str "PUBLIC_SAFE")
      ∷ ("public_safe_only", bool true)
      ∷ []))

abbrev a0_document : Json
a0_document = obj (
    object_of (
      ("origin", str "HUMAN_MODEL_CO_DESIGN")
      ∷ ("scored", bool false)
      ∷ ("frozen", bool true)
      ∷ ("task_fingerprint", str "f")
      ∷ ("scope_fingerprint", str "f")
      ∷ ("resource_fingerprint", str "f")
      ∷ ("task_hierarchy", strings ("t" ∷ []))
      ∷ ("stop_on_signal", strings ("s" ∷ []))
      ∷ ("economic_success_criteria", strings [])
      ∷ []))

abbrev a1_document : Json
a1_document = obj (
    object_of (
      ("owner", str "NONE")
      ∷ ("allowed", strings [])
      ∷ (
        "forbidden_mutations",
        strings ("TASK" ∷ "SCOPE" ∷ "BUDGET" ∷ "EVIDENCE" ∷ "UNKNOWN_RULE" ∷ []),
      )
      ∷ []))

abbrev controls_document : Json
controls_document = obj (
    object_of (
      ("principal", str "JUDGE_MODEL_CONFIG")
      ∷ (
        "fixed",
        obj (
            object_of (
              map (λ name. (name, str "f"))
                ("task" ∷ "scope" ∷ "a0" ∷ "a1" ∷ "resources" ∷ "output" ∷ "judgment"
                  ∷ "candidate_set" ∷ "evidence_packet" ∷ "rubric" ∷ "ordering" ∷ "tools"
                  ∷ "privacy" ∷ []))),
      )
      ∷ ("qualified_nuisance", strings [])
      ∷ ("changed_capabilities", strings [])
      ∷ ("fixed_capabilities", obj (object_of []))
      ∷ []))

abbrev overlay_document : Json
overlay_document = obj (
    object_of (
      ("kind", str "JUDGMENT")
      ∷ ("candidate_set", ref)
      ∷ ("evidence_packet", ref)
      ∷ ("rubric", ref)
      ∷ ("output_schema", ref)
      ∷ ("adjudication_policy", ref)
      ∷ ("blind_transform", ref)
      ∷ ("order_policy", ref)
      ∷ ("aggregation_policy", ref)
      ∷ ("allowed_tools", strings [])
      ∷ ("independent_first_pass", bool true)
      ∷ []))

abbrev metric_document : Json
metric_document = obj (
    object_of (
      ("metric_id", str "m")
      ∷ ("numerator", str "n")
      ∷ ("denominator", str "d")
      ∷ ("population", ref)
      ∷ ("exclusion_rule", str "e")
      ∷ ("missingness", str "PRESERVE_TYPED_STATES")
      ∷ ("zero_denominator", str "NOT_EVALUABLE")
      ∷ []))

abbrev privacy_document : Json
privacy_document = obj (
    object_of (
      ("public_safe_inputs_only", bool true)
      ∷ ("credential_access", bool false)
      ∷ ("private_locator_access", bool false)
      ∷ ("hidden_authority_access", bool false)
      ∷ ("official_prompt_access", bool false)
      ∷ []))

abbrev judgment_document : Fields
judgment_document = object_of (
    ("schema_id", str "searchspec/v2")
    ∷ ("spec_id", str "s")
    ∷ ("spec_version", str "1")
    ∷ ("spec_status", str "FROZEN")
    ∷ ("architecture_authority", str "SEARCH-CUP/v2.3")
    ∷ ("created_at", str "2026")
    ∷ ("frozen_at", str "2026")
    ∷ ("track_id", str "JUDGMENT_ONLY")
    ∷ ("fairness_mode", str "F1")
    ∷ ("task", task_document)
    ∷ ("scope", scope_document)
    ∷ ("a0", a0_document)
    ∷ ("a1", a1_document)
    ∷ ("variable_control", controls_document)
    ∷ ("retriever", null)
    ∷ ("resources", resource_document)
    ∷ ("output_contract", ref)
    ∷ ("judgment_contract", ref)
    ∷ ("overlay", overlay_document)
    ∷ ("system_disclosure", null)
    ∷ ("economic_package", null)
    ∷ ("claims", strings ("JUDGMENT_ON_FROZEN_PACKAGE" ∷ []))
    ∷ ("metrics", arr (array (metric_document ∷ [])))
    ∷ ("privacy", privacy_document)
    ∷ ("canonical_fingerprint", str "f")
    ∷ [])

abbrev runtime : Runtime
runtime = record {
  lower = λ s. s;
  show = λ n. "n";
  float_of = λ n. some (finite n (pos 0));
  sha256 = λ s. "f";
  dumps = λ j. "json";
  loads = λ s. ok (obj judgment_document);
}

abbrev clock : Clock
clock = record {
  occurs = λ part s. false;
  read_time = λ s. some (record { has_zone = true; instant = 1 });
}

judgment_valid : validate runtime texts clock judgment_document ≡ ok tt
unfolding validate text_length has each_field number_lt check_kinds each_item array
judgment_valid = refl

-- A document with the track alone.
track_alone :
    validate runtime texts clock (object_of (("track_id", str "JUDGMENT_ONLY") ∷ []))
    ≡ err (value_error "contract: missing required fields")
unfolding validate text_length has each_field number_lt check_kinds each_item array
track_alone = refl

abbrev judged : Event
judged = record first {
  kind = model_event;
  unit = model_request;
  status = succeeded;
  turn = 0;
  failure_class = no_failure;
}

judged_checked :
    ledger texts (spec_of judgment_document) "run" (judged ∷ [])
    ≡ ok (record { spec = spec_of judgment_document; run_id = "run"; events = judged ∷ [] })
unfolding ledger spec_of text_length has each_field number_lt check_kinds each_item array
judged_checked = refl

validate-IsJudgmentOnly_example :
    IsJudgmentOnly (obj judgment_document) × All IsOffline (judged ∷ [])
unfolding get
validate-IsJudgmentOnly_example =
    validate-IsJudgmentOnly runtime texts clock judgment_document "run" (judged ∷ []) judgment_valid
      refl judged_checked

-- A search of any kind is refused under this spec.
search_refused :
    ledger texts (spec_of judgment_document) "run" (first ∷ [])
    ≡ err (value_error "Judgment-only prohibits search attempts")
unfolding ledger spec_of text_length has each_field number_lt check_kinds each_item array
search_refused = refl
