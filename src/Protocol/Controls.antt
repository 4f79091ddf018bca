-- ===== src/Protocol/Controls.antt =====
-- search_cup/protocol_v23.py: `f1_eligibility`, `a0_resource_binding` and `control_bindings`, on the
-- document of a SearchSpec. A key that the schema requires is read by `at`.
use llm_evaluation_lab.Base.{
  String, Bool, true, false, not, ◌||◌, List, [], ◌∷◌, all, str_eq, if◌then◌else◌,
}
use llm_evaluation_lab.Base.Result.{Result, ok, ◌>>◌}
use llm_evaluation_lab.Json.{
  Json, null, str, arr, obj, Items, nil, cons, Fields, end, field, get, truthy,
}
use llm_evaluation_lab.Lab.Read.{contains}
use llm_evaluation_lab.Cup.Error.{Error}
use llm_evaluation_lab.Cup.Contracts.{Runtime}
use llm_evaluation_lab.Cup.Registry.{fingerprint_of}
use llm_evaluation_lab.Protocol.Schema.{validate_shape, field_names}
use llm_evaluation_lab.Protocol.Shapes.{retriever_schema}
use llm_evaluation_lab.Protocol.Safety.{Texts, assert_content_safe}
use llm_evaluation_lab.Protocol.Seal.{remove}

-- `value[key]`
abbrev pub at : String → Json → Json
at key (obj fs) = get key fs
at key _ = null

abbrev pub fields_of : Json → Fields
fields_of (obj fs) = fs
fields_of _ = end

-- A value that the schema has as text, and as an array of texts.
abbrev pub text_of : Json → String
text_of (str s) = s
text_of _ = ""

unfoldable pub texts_of : Items → List String
texts_of nil = []
texts_of (cons j js) = text_of j ∷ texts_of js

abbrev pub names_of : Json → List String
names_of (arr js) = texts_of js
names_of _ = []

abbrev pub is_text : String → Json → Bool
is_text s (str u) = str_eq u s
is_text s _ = false

abbrev pub is_null : Json → Bool
is_null null = true
is_null _ = false

-- `set(xs) <= set(ys)`
abbrev pub is_subset : List String → List String → Bool
is_subset xs ys = all (λ x. contains x ys) xs

-- `c["status"] != "PASS" or not c["evidence"] for c in checks.values()`
unfoldable pub any_unproved : Fields → Bool
unfolding get truthy
any_unproved end = false
any_unproved (field k c rest) =
    not (is_text "PASS" (at "status" c)) || not (truthy (at "evidence" c)) || any_unproved rest

abbrev pub criteria_names : List String
criteria_names = "R1" ∷ "R2" ∷ "R3" ∷ "R4" ∷ "R5" ∷ "R6" ∷ "R7" ∷ "R8" ∷ []

-- The object of some of another's fields, `{key: value[key] for key in keys}`.
abbrev pub pick : List String → Json → Fields
pick [] value = end
pick (k ∷ ks) value = field k (at k value) (pick ks value)

-- A dictionary of fingerprints, and `bindings[key] = value`
abbrev pub Bindings : Type 0
Bindings = List (String × String)

unfoldable pub bind : String → String → Bindings → Bindings
bind key value [] = (key, value) ∷ []
bind key value ((k, v) ∷ rest) =
    let others = bind key value rest in if str_eq key k then (k, value) ∷ rest else (k, v) ∷ others

-- `"search_pro" in text`, of Python's `in`
module _ (rt : Runtime) (t : Texts) (occurs : String → String → Bool) where
  open t use {search, lower}

  abbrev pub fingerprint_at : String → Json → String
  fingerprint_at key value = fingerprint_of rt (at key value)

  -- The answer on a retriever whose shape and content were checked.
  unfoldable pub eligibility : Fields → String
  unfolding any_unproved texts_of field_names remove get
  eligibility retriever =
      let qualification = get "qualification" retriever in
      let checks = fields_of (at "criteria" qualification) in
      if is_null qualification
      then (if occurs "search_pro" (lower (text_of (get "backend_id" retriever)))
          then "NOT_F1_ELIGIBLE_BY_DEFAULT"
          else "NOT_F1_ELIGIBLE")
      else if not (
          is_text (fingerprint_of rt (obj (remove "qualification" retriever)))
            (at "backend_fingerprint" qualification))
      then "NOT_F1_ELIGIBLE"
      else if not (is_subset (field_names checks) criteria_names)
          || not (is_subset criteria_names (field_names checks))
          || any_unproved checks
      then "NOT_F1_ELIGIBLE"
      else if is_text "INTEGRATED_SEARCH_STACK" (get "class" retriever)
          || not
              (is_subset (names_of (get "capabilities" retriever)) ("RETRIEVAL" ∷ "RANKING" ∷ []))
      then "NOT_F1_ELIGIBLE"
      else "F1_ELIGIBLE"

  -- `f1_eligibility(retriever)`
  unfoldable pub f1_eligibility : Json → Result Error String
  unfolding validate_shape assert_content_safe eligibility
  f1_eligibility null = ok "NOT_F1_ELIGIBLE"
  f1_eligibility retriever = do
    validate_shape search retriever_schema "contract" retriever
    assert_content_safe t retriever
    ok (eligibility (fields_of retriever))

  -- `a0_resource_binding(doc)`
  unfoldable pub a0_resource_binding : Json → String
  unfolding get
  a0_resource_binding doc =
      let resource = at "resources" doc in
      let mode = at "fairness_mode" doc in
      if is_text "F1" mode
      then fingerprint_of rt resource
      else if is_text "F3" mode
      then fingerprint_of rt (obj (pick ("max_total_runtime_ms" ∷ "money_ceiling" ∷ []) resource))
      else fingerprint_of rt (obj (pick ("max_total_runtime_ms" ∷ []) resource))

  -- `bindings.update({key: fingerprint(doc[key]) for key in keys})`
  abbrev bind_all : List String → Json → Bindings → Bindings
  bind_all [] doc b = b
  bind_all (k ∷ ks) doc b = bind_all ks doc (bind k (fingerprint_at k doc) b)

  -- `bindings.update({key: value[key]["fingerprint"] for key in keys})`
  abbrev bind_refs : List String → Json → Bindings → Bindings
  bind_refs [] value b = b
  bind_refs (k ∷ ks) value b =
      bind_refs ks value (bind k (text_of (at "fingerprint" (at k value))) b)

  abbrev bind_present : List String → Json → Bindings → Bindings
  bind_present [] doc b = b
  bind_present (k ∷ ks) doc b =
      bind_present ks doc (if is_null (at k doc) then b else bind k (fingerprint_at k doc) b)

  abbrev accounting_keys : List String
  accounting_keys =
      "failure_policy" ∷ "exhaustion_policy" ∷ "budget_rejection_policy" ∷ "retry_policy"
      ∷ "automatic_retries" ∷ "manual_retry_policy" ∷ "max_total_runtime_ms" ∷ []

  abbrev bind_overlay : Json → Bindings → Bindings
  bind_overlay overlay b =
      if is_text "JUDGMENT" (at "kind" overlay)
      then bind "tools" (fingerprint_of rt (arr nil)) (
          bind "ordering" (text_of (at "fingerprint" (at "order_policy" overlay)))
            (bind_refs ("candidate_set" ∷ "evidence_packet" ∷ "rubric" ∷ []) overlay b))
      else if is_text "FROZEN" (at "kind" overlay)
      then bind_refs ("corpus" ∷ "index" ∷ []) overlay b
      else bind "time_window" (text_of (at "fingerprint" (at "window_policy" overlay))) b

  -- `control_bindings(doc)`
  unfoldable pub control_bindings : Json → Bindings
  unfolding bind get
  control_bindings doc =
      let base = bind "judgment" (text_of (at "fingerprint" (at "judgment_contract" doc))) (
        bind "output" (text_of (at "fingerprint" (at "output_contract" doc)))
          (bind_all ("task" ∷ "scope" ∷ "a0" ∷ "a1" ∷ "resources" ∷ "privacy" ∷ []) doc [])) in
      let equal_rules =
        if is_text "E2_RETRIEVER" (at "track_id" doc)
        then bind "resources" (fingerprint_of rt (obj (pick accounting_keys (at "resources" doc))))
            base
        else base in
      bind_overlay (at "overlay" doc)
        (bind_present ("retriever" ∷ "system_disclosure" ∷ "economic_package" ∷ []) doc equal_rules)
