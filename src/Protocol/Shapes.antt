-- ===== src/Protocol/Shapes.antt =====
-- search_cup/v23_schema.py: the schemas of the protocol's documents. `$schema`, `$id` and `title`,
-- which `validate_shape` does not read, are left out.
use llm_evaluation_lab.Base.{String, true, false, some, List, [], ◌∷◌, ◌++◌, map, take}
use llm_evaluation_lab.Base.Int.{pos}
use llm_evaluation_lab.Json.{Items, nil, cons, bool, str, arr}
use llm_evaluation_lab.Protocol.Numbers.{whole}
use llm_evaluation_lab.Protocol.Schema.{
  minimum, exclusive_minimum, string_kind, number_kind, null_kind, Schema, any_of, const, enum,
  text, integer, number, null_only, one_type_of, array, Schemas, no_more, or_else, obj_of,
  obj_optional,
}

abbrev array_of_texts : List String → Items
array_of_texts [] = nil
array_of_texts (s ∷ rest) = cons (str s) (array_of_texts rest)

-- The list of an "anyOf".
abbrev pub alternatives : List Schema → Schemas
alternatives [] = no_more
alternatives (s ∷ rest) = or_else s (alternatives rest)

abbrev pub text_schema : Schema
text_schema = text 1 (some "\\S")

abbrev pub hash_schema : Schema
hash_schema = text 0 (some "^[0-9a-f]{64}$")

abbrev pub count_schema : Schema
count_schema = integer (minimum (whole (pos 0)))

abbrev pub number_schema : Schema
number_schema = number (minimum (whole (pos 0)))

abbrev pub texts_schema : Schema
texts_schema = array text_schema 0

abbrev pub ref_schema : Schema
ref_schema =
    obj_of (("id", text_schema) ∷ ("version", text_schema) ∷ ("fingerprint", hash_schema) ∷ [])

abbrev pub terminals : List String
terminals = "PASS" ∷ "FAIL" ∷ "UNKNOWN" ∷ "BLOCKED" ∷ "NOT_EVALUABLE" ∷ "ERROR" ∷ []

abbrev pub tracks : List String
tracks =
    "E1_LIVE" ∷ "E1_FROZEN" ∷ "E2_RETRIEVER" ∷ "JUDGMENT_ONLY" ∷ "E_PLUS_J" ∷ "GLM_SEARCH_STACK"
    ∷ "SYSTEM_PLAYOFF" ∷ "ECONOMIC_TRACK" ∷ []

abbrev pub a1_behaviors : List String
a1_behaviors =
    "QUERY_WORDING" ∷ "SYNONYMS" ∷ "SUBDIRECTION" ∷ "BOUNDED_REFINEMENT" ∷ "EVIDENCE_FOLLOWING"
    ∷ "DECOMPOSITION" ∷ "QUERY_REWRITE" ∷ "SYNTHESIS" ∷ "CROSS_QUERY_PLANNING" ∷ "INTENT_EXPANSION"
    ∷ []

abbrev pub e1_behaviors : List String
e1_behaviors = take 5 a1_behaviors

abbrev pub ablation_capabilities : List String
ablation_capabilities =
    a1_behaviors ++ "RETRIEVAL" ∷ "RANKING" ∷ "AGGREGATION" ∷ "VERIFICATION" ∷ []

abbrev pub measure_schema : Schema
measure_schema = obj_of (
    ("state", enum ("KNOWN" ∷ "UNKNOWN" ∷ "NOT_APPLICABLE" ∷ []))
    ∷ ("value", one_type_of (number_kind (minimum (whole (pos 0))) ∷ null_kind ∷ []))
    ∷ ("unit", text_schema)
    ∷ ("reason", text_schema)
    ∷ [])

abbrev pub check_schema : Schema
check_schema =
    obj_of
      (("status", enum ("PASS" ∷ "FAIL" ∷ "UNKNOWN" ∷ [])) ∷ ("evidence", array ref_schema 0) ∷ [])

abbrev pub qualification_schema : Schema
qualification_schema = obj_of (
    ("backend_fingerprint", hash_schema)
    ∷ (
      "criteria",
      obj_of (
          map (λ name. (name, check_schema))
            ("R1" ∷ "R2" ∷ "R3" ∷ "R4" ∷ "R5" ∷ "R6" ∷ "R7" ∷ "R8" ∷ [])),
    )
    ∷ [])

abbrev pub retriever_schema : Schema
retriever_schema = obj_of (
    ("identity", ref_schema)
    ∷ ("backend_id", text_schema)
    ∷ ("class", enum ("RAW_RETRIEVER" ∷ "FROZEN_RETRIEVER" ∷ "INTEGRATED_SEARCH_STACK" ∷ []))
    ∷ ("config_fingerprint", hash_schema)
    ∷ ("request_schema", ref_schema)
    ∷ ("result_schema", ref_schema)
    ∷ ("capabilities", array (enum (a1_behaviors ++ "RANKING" ∷ "RETRIEVAL" ∷ [])) 0)
    ∷ ("qualification", any_of (alternatives (qualification_schema ∷ null_only ∷ [])))
    ∷ [])

abbrev pub resource_schema : Schema
resource_schema = obj_of (
    ("schema_id", const (str "search-resource/v2"))
    ∷ ("max_search_calls", count_schema)
    ∷ ("max_search_turns", count_schema)
    ∷ ("max_results_per_call", count_schema)
    ∷ ("max_follow_links", count_schema)
    ∷ ("automatic_retries", count_schema)
    ∷ ("retry_policy", ref_schema)
    ∷ ("manual_retry_policy", enum ("FORBIDDEN" ∷ "NEW_BUDGETED_EVENT" ∷ []))
    ∷ ("timeout_per_call_ms", number (exclusive_minimum (whole (pos 0))))
    ∷ ("max_total_runtime_ms", measure_schema)
    ∷ ("token_ceiling", measure_schema)
    ∷ ("money_ceiling", measure_schema)
    ∷ ("resource_unit_definition", text_schema)
    ∷ ("search_unit", enum ("RAW_BACKEND_ATTEMPT" ∷ "INTEGRATED_STACK_INVOCATION" ∷ "NONE" ∷ []))
    ∷ ("failure_policy", const (str "INFRASTRUCTURE_NOT_QUALITY"))
    ∷ ("exhaustion_policy", const (str "STOP_NO_EXPANSION"))
    ∷ ("budget_rejection_policy", const (str "NO_BACKEND_NO_TICKET"))
    ∷ [])

abbrev pub task_schema : Schema
task_schema = obj_of (
    ("task_id", text_schema)
    ∷ ("task_class", text_schema)
    ∷ ("target", text_schema)
    ∷ ("objective", text_schema)
    ∷ ("success_criteria", array text_schema 1)
    ∷ ("unit_of_evaluation", text_schema)
    ∷ ("output_cardinality", obj_of (("minimum", count_schema) ∷ ("maximum", count_schema) ∷ []))
    ∷ ("inclusion_criteria", texts_schema)
    ∷ ("exclusion_criteria", texts_schema)
    ∷ ("evidence_requirements", array text_schema 1)
    ∷ ("unknown_semantics", const (str "INSUFFICIENT_EVIDENCE_NOT_NEGATIVE"))
    ∷ ("stop_conditions", array text_schema 1)
    ∷ [])

abbrev pub scope_schema : Schema
scope_schema = obj_of (
    ("language_pool", array text_schema 1)
    ∷ (
      "geography_scope",
      obj_of (("included", array text_schema 1) ∷ ("excluded", texts_schema) ∷ []),
    )
    ∷ ("source_classes_allowed", array text_schema 1)
    ∷ ("source_classes_excluded", texts_schema)
    ∷ ("time_window", text_schema)
    ∷ ("freshness_rule", text_schema)
    ∷ ("verification_sources_allowed", texts_schema)
    ∷ ("verification_sources_excluded", texts_schema)
    ∷ ("privacy_class", const (str "PUBLIC_SAFE"))
    ∷ ("public_safe_only", const (bool true))
    ∷ [])

abbrev pub controls : List String
controls =
    "task" ∷ "scope" ∷ "a0" ∷ "a1" ∷ "resources" ∷ "output" ∷ "judgment" ∷ "candidate_set"
    ∷ "evidence_packet" ∷ "rubric" ∷ "ordering" ∷ "corpus" ∷ "index" ∷ "retriever" ∷ "time_window"
    ∷ "environment" ∷ "prompt_context" ∷ "tools" ∷ "privacy" ∷ "control_model" ∷ "system_disclosure"
    ∷ "economic_package" ∷ "architecture" ∷ "disclosure_standard" ∷ []

abbrev pub principal : List (String × String)
principal =
    ("JUDGMENT_ONLY", "JUDGE_MODEL_CONFIG")
    ∷ ("E1_FROZEN", "ENTRANT_MODEL_CONFIG")
    ∷ ("E1_LIVE", "ENTRANT_MODEL_CONFIG")
    ∷ ("E2_RETRIEVER", "RETRIEVER_CONFIG")
    ∷ ("GLM_SEARCH_STACK", "SYSTEM")
    ∷ ("SYSTEM_PLAYOFF", "SYSTEM")
    ∷ ("ECONOMIC_TRACK", "SYSTEM_RESOURCE_PACKAGE")
    ∷ ("E_PLUS_J", "COMPOSITE_SYSTEM")
    ∷ []

abbrev pub claims : List String
claims =
    "JUDGMENT_ON_FROZEN_PACKAGE" ∷ "EXECUTION_ON_FROZEN_ENVIRONMENT" ∷ "EXECUTION_IN_LIVE_WINDOW"
    ∷ "RETRIEVER_SYSTEM_PERFORMANCE" ∷ "DECLARED_SYSTEM_PERFORMANCE"
    ∷ "OBSERVED_ECONOMIC_EFFICIENCY" ∷ "SINGLE_CAPABILITY_EFFECT" ∷ "ABSOLUTE_RECALL" ∷ []

abbrev pub frozen_overlay : Schema
frozen_overlay = obj_of (
    ("kind", const (str "FROZEN"))
    ∷ ("corpus", ref_schema)
    ∷ ("collection_provenance", ref_schema)
    ∷ ("public_safe", const (bool true))
    ∷ ("index", ref_schema)
    ∷ ("reference_set", ref_schema)
    ∷ ("reproduction_procedure", ref_schema)
    ∷ [])

abbrev pub live_overlay : Schema
live_overlay = obj_of (
    ("kind", const (str "LIVE"))
    ∷ ("window_policy", ref_schema)
    ∷ ("backend", ref_schema)
    ∷ ("drift_policy", ref_schema)
    ∷ ("pooled_candidate_policy", ref_schema)
    ∷ ("adjudication_timing", ref_schema)
    ∷ ("capture_policy", ref_schema)
    ∷ ("exhaustive_reference", any_of (alternatives (ref_schema ∷ null_only ∷ [])))
    ∷ [])

abbrev pub judgment_overlay : Schema
judgment_overlay = obj_of (
    ("kind", const (str "JUDGMENT"))
    ∷ ("candidate_set", ref_schema)
    ∷ ("evidence_packet", ref_schema)
    ∷ ("rubric", ref_schema)
    ∷ ("output_schema", ref_schema)
    ∷ ("adjudication_policy", ref_schema)
    ∷ ("blind_transform", ref_schema)
    ∷ ("order_policy", ref_schema)
    ∷ ("aggregation_policy", ref_schema)
    ∷ ("allowed_tools", array text_schema 0)
    ∷ ("independent_first_pass", const (bool true))
    ∷ [])

abbrev pub system_disclosure : Schema
system_disclosure = obj_of (
    ("components", array ref_schema 1)
    ∷ ("capabilities", texts_schema)
    ∷ ("tool_classes", texts_schema)
    ∷ ("retry_fallback_policy", ref_schema)
    ∷ ("human_intervention_policy", ref_schema)
    ∷ ("money_source", ref_schema)
    ∷ ("time_source", ref_schema)
    ∷ ("opaque_quantities", texts_schema)
    ∷ [])

abbrev pub economic_package : Schema
economic_package = obj_of (
    (
      "basis",
      enum (
          "MONEY" ∷ "OPERATOR_TIME" ∷ "WALL_CLOCK" ∷ "MONEY_AND_TIME" ∷ "APPROVED_EQUIVALENT" ∷ []),
    )
    ∷ ("definition", ref_schema)
    ∷ ("accounting_period", text_schema)
    ∷ ("currency", text_schema)
    ∷ ("billing_basis", text_schema)
    ∷ ("price_source", ref_schema)
    ∷ ("tax_policy", text_schema)
    ∷ ("exchange_policy", ref_schema)
    ∷ ("rounding_policy", text_schema)
    ∷ ("free_credit_policy", text_schema)
    ∷ ("prepaid_credit_policy", text_schema)
    ∷ ("unused_credit_policy", text_schema)
    ∷ ("cost_basis", enum ("CASH_OUTLAY" ∷ "LIST_PRICE_EQUIVALENT" ∷ "BOTH" ∷ []))
    ∷ ("time_kinds", array (enum ("MACHINE_ELAPSED" ∷ "OPERATOR_ACTIVE" ∷ "WAITING_QUEUE" ∷ [])) 2)
    ∷ [])

abbrev pub metric_schema : Schema
metric_schema = obj_of (
    ("metric_id", text_schema)
    ∷ ("numerator", text_schema)
    ∷ ("denominator", text_schema)
    ∷ ("population", ref_schema)
    ∷ ("exclusion_rule", text_schema)
    ∷ ("missingness", const (str "PRESERVE_TYPED_STATES"))
    ∷ ("zero_denominator", const (str "NOT_EVALUABLE"))
    ∷ [])

-- `sorted(set(PRINCIPAL.values()))`
abbrev principals : List String
principals =
    "COMPOSITE_SYSTEM" ∷ "ENTRANT_MODEL_CONFIG" ∷ "JUDGE_MODEL_CONFIG" ∷ "RETRIEVER_CONFIG"
    ∷ "SYSTEM" ∷ "SYSTEM_RESOURCE_PACKAGE" ∷ []

abbrev pub searchspec_schema : Schema
searchspec_schema = obj_of (
    ("schema_id", const (str "searchspec/v2"))
    ∷ ("spec_id", text_schema)
    ∷ ("spec_version", text_schema)
    ∷ ("spec_status", enum ("DRAFT" ∷ "FROZEN" ∷ "RETIRED" ∷ []))
    ∷ ("architecture_authority", const (str "SEARCH-CUP/v2.3"))
    ∷ ("created_at", text_schema)
    ∷ ("frozen_at", one_type_of (string_kind ∷ null_kind ∷ []))
    ∷ ("track_id", enum (tracks))
    ∷ ("fairness_mode", enum ("F1" ∷ "F2" ∷ "F3" ∷ "ABLATION" ∷ []))
    ∷ ("task", task_schema)
    ∷ ("scope", scope_schema)
    ∷ (
      "a0",
      obj_of (
          ("origin", const (str "HUMAN_MODEL_CO_DESIGN"))
          ∷ ("scored", const (bool false))
          ∷ ("frozen", const (bool true))
          ∷ ("task_fingerprint", hash_schema)
          ∷ ("scope_fingerprint", hash_schema)
          ∷ ("resource_fingerprint", hash_schema)
          ∷ ("task_hierarchy", array text_schema 1)
          ∷ ("stop_on_signal", array text_schema 1)
          ∷ ("economic_success_criteria", texts_schema)
          ∷ []),
    )
    ∷ (
      "a1",
      obj_of (
          ("owner", enum ("ENTRANT" ∷ "SEARCH_STACK" ∷ "NONE" ∷ []))
          ∷ ("allowed", array (enum (a1_behaviors)) 0)
          ∷ (
            "forbidden_mutations",
            const (
                arr (
                  array_of_texts ("TASK" ∷ "SCOPE" ∷ "BUDGET" ∷ "EVIDENCE" ∷ "UNKNOWN_RULE" ∷ []))),
          )
          ∷ []),
    )
    ∷ (
      "variable_control",
      obj_of (
          ("principal", enum (principals ++ "ONE_CAPABILITY" ∷ []))
          ∷ ("fixed", obj_optional (map (λ name. (name, hash_schema)) controls) controls)
          ∷ ("qualified_nuisance", texts_schema)
          ∷ ("changed_capabilities", array (enum (ablation_capabilities)) 0)
          ∷ (
            "fixed_capabilities",
            obj_optional (map (λ name. (name, hash_schema)) ablation_capabilities)
                ablation_capabilities,
          )
          ∷ []),
    )
    ∷ ("retriever", any_of (alternatives (retriever_schema ∷ null_only ∷ [])))
    ∷ ("resources", resource_schema)
    ∷ ("output_contract", ref_schema)
    ∷ ("judgment_contract", ref_schema)
    ∷ ("overlay", any_of (alternatives (frozen_overlay ∷ live_overlay ∷ judgment_overlay ∷ [])))
    ∷ ("system_disclosure", any_of (alternatives (system_disclosure ∷ null_only ∷ [])))
    ∷ ("economic_package", any_of (alternatives (economic_package ∷ null_only ∷ [])))
    ∷ ("claims", array (enum (claims)) 1)
    ∷ ("metrics", array metric_schema 1)
    ∷ (
      "privacy",
      obj_of (
          ("public_safe_inputs_only", const (bool true))
          ∷ ("credential_access", const (bool false))
          ∷ ("private_locator_access", const (bool false))
          ∷ ("hidden_authority_access", const (bool false))
          ∷ ("official_prompt_access", const (bool false))
          ∷ []),
    )
    ∷ ("canonical_fingerprint", hash_schema)
    ∷ [])
