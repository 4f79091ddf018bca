-- ===== src/Protocol/Spec/Validate.antt =====
-- search_cup/protocol_v23.py: the checks of `SearchSpecV2.validate` and their composition.
use llm_evaluation_lab.Base.{
  String, not, ◌&&◌, ◌||◌, none, some, List, [], ◌∷◌, ◌++◌, filter, all, is_empty, length, ltb,
  ◌==◌, str_eq, if◌then◌else◌,
}
use llm_evaluation_lab.Base.Result.{Result, ok, err, ◌>>=◌, ◌>>◌, raise_if, require}
use llm_evaluation_lab.Json.{Json, str, obj, Fields, get, has, truthy}
use llm_evaluation_lab.Lab.Read.{contains}
use llm_evaluation_lab.Cup.Error.{Error, value_error}
use llm_evaluation_lab.Cup.Contracts.{Runtime}
use llm_evaluation_lab.Cup.Registry.{fingerprint_of}
use llm_evaluation_lab.Protocol.Numbers.{equal}
use llm_evaluation_lab.Protocol.Schema.{validate_shape, field_names}
use llm_evaluation_lab.Protocol.Shapes.{
  searchspec_schema, ablation_capabilities, a1_behaviors, e1_behaviors,
}
use llm_evaluation_lab.Protocol.Safety.{Texts, assert_content_safe}
use llm_evaluation_lab.Protocol.Seal.{verify_seal}
use llm_evaluation_lab.Protocol.Controls.{
  at, fields_of, text_of, texts_of, names_of, is_text, is_null, is_subset, Bindings, f1_eligibility,
  a0_resource_binding, control_bindings,
}
use llm_evaluation_lab.Protocol.Spec.{
  Clock, timestamp, required_controls, track_claim, find_text, principal_of, count_of,
  is_zero_count, expected_mode, validate_measure_json,
}

abbrev Check : Type 0
Check = Result Error (Unit {0})

-- `doc["frozen_at"]` against the status and the time of creation
unfoldable pub check_freeze : Clock → Json → Check
unfolding timestamp get
check_freeze clock doc = do
  created ← timestamp clock (text_of (at "created_at" doc))
  if contains (text_of (at "spec_status" doc)) ("FROZEN" ∷ "RETIRED" ∷ [])
      then (if is_null (at "frozen_at" doc)
          then err (value_error "frozen SearchSpec requires valid freeze timestamp")
          else (do
            frozen ← timestamp clock (text_of (at "frozen_at" doc))
            raise_if (ltb frozen.instant created.instant)
                (value_error "frozen SearchSpec requires valid freeze timestamp")))
      else require (is_null (at "frozen_at" doc)) (value_error "draft cannot assert freeze")

unfoldable pub check_cardinality : Json → Check
unfolding get
check_cardinality doc =
    let range = at "output_cardinality" (at "task" doc) in
    raise_if (ltb (count_of (at "maximum" range)) (count_of (at "minimum" range)))
      (value_error "invalid output cardinality")

-- The principal variable, and the one changed capability of an ablation.
unfoldable pub check_principal : Json → Check
unfolding texts_of field_names find_text get truthy
check_principal doc =
    let track = text_of (at "track_id" doc) in
    let controls = at "variable_control" doc in
    let changed = names_of (at "changed_capabilities" controls) in
    let fixed = field_names (fields_of (at "fixed_capabilities" controls)) in
    let others = filter (λ c. not (contains c changed)) ablation_capabilities in
    if is_text "ABLATION" (at "fairness_mode" doc)
    then (do
      raise_if
          (not (str_eq track "E2_RETRIEVER")
            || not (is_text "ONE_CAPABILITY" (at "principal" controls))
            || not (length changed == 1))
          (value_error "ablation requires exactly one changed capability")
      require (is_subset fixed others && is_subset others fixed)
          (value_error "ablation must freeze all non-target capabilities"))
    else raise_if
        (not (is_text (principal_of track) (at "principal" controls))
          || not (is_empty changed)
          || not (is_empty fixed))
        (value_error "principal changed-variable mismatch")

unfoldable pub check_mode : Json → Check
unfolding get
check_mode doc =
    let track = text_of (at "track_id" doc) in
    let mode = text_of (at "fairness_mode" doc) in
    raise_if
      (not (str_eq mode (expected_mode track))
        && not (str_eq track "E2_RETRIEVER" && str_eq mode "ABLATION"))
      (value_error "track/fairness mismatch")

-- `allowed_claims`
unfoldable pub allowed_claims : Json → List String
unfolding track_claim get
allowed_claims doc =
    let track = text_of (at "track_id" doc) in
    let overlay = at "overlay" doc in
    track_claim track
      ∷ (if is_text "ABLATION" (at "fairness_mode" doc)
          then "SINGLE_CAPABILITY_EFFECT" ∷ []
          else [])
    ++ (if (is_text "FROZEN" (at "kind" overlay)
            || is_text "LIVE" (at "kind" overlay)
              && not (is_null (at "exhaustive_reference" overlay)))
          && not (str_eq track "JUDGMENT_ONLY")
        then "ABSOLUTE_RECALL" ∷ []
        else [])

unfoldable pub check_claims : Json → Check
unfolding allowed_claims texts_of get
check_claims doc =
    require (is_subset (names_of (at "claims" doc)) (allowed_claims doc))
      (value_error "claims ceiling exceeded")

unfoldable pub check_judgment_only : Json → Check
unfolding get truthy equal
check_judgment_only doc = do
  let overlay = at "overlay" doc
  let resource = at "resources" doc
  raise_if
      (not (is_text "JUDGMENT" (at "kind" overlay))
        || truthy (at "allowed_tools" overlay)
        || not (is_null (at "retriever" doc)))
      (value_error "Judgment-only must have no retriever or tools")
  raise_if
      (not (is_zero_count (at "max_search_calls" resource))
        || not (is_zero_count (at "max_search_turns" resource))
        || not (is_zero_count (at "max_results_per_call" resource))
        || not (is_zero_count (at "max_follow_links" resource))
        || not (is_text "NONE" (at "search_unit" resource)))
      (value_error "Judgment-only requires zero search and verification")
  raise_if (not (is_text "NONE" (at "owner" (at "a1" doc))) || truthy (at "allowed" (at "a1" doc)))
      (value_error "Judgment-only forbids query planning")

unfoldable pub check_search_track : Json → Check
unfolding texts_of get
check_search_track doc = do
  let retriever = at "retriever" doc
  let unit = at "search_unit" (at "resources" doc)
  raise_if
      (is_text "JUDGMENT" (at "kind" (at "overlay" doc))
        || is_null retriever
        || is_text "NONE" unit)
      (value_error "search track requires retrieval/environment contract")
  let planning = filter (λ c. contains c a1_behaviors) (names_of (at "capabilities" retriever))
  raise_if
      (not (is_empty planning)
        && (not (is_text "SEARCH_STACK" (at "owner" (at "a1" doc)))
            || not (is_subset planning (names_of (at "allowed" (at "a1" doc))))))
      (value_error "search-stack planning ownership must be explicit")
  raise_if
      (is_text "INTEGRATED_SEARCH_STACK" (at "class" retriever)
        && not (is_text "INTEGRATED_STACK_INVOCATION" unit))
      (value_error "integrated invocation is not a raw-call equivalent")

unfoldable pub check_track : Json → Check
unfolding check_judgment_only check_search_track get
check_track doc =
    if is_text "JUDGMENT_ONLY" (at "track_id" doc)
    then check_judgment_only doc
    else check_search_track doc

unfoldable pub check_live : Json → Check
unfolding get truthy equal
check_live doc =
    let overlay = at "overlay" doc in
    let retriever = at "retriever" doc in
    if is_text "LIVE" (at "kind" overlay) && not (is_null retriever)
    then (do
      require
          (equal (at "fingerprint" (at "backend" overlay))
            (at "fingerprint" (at "identity" retriever)))
          (value_error "live backend binding mismatch")
      require (truthy (at "qualified_nuisance" (at "variable_control" doc)))
          (value_error "live drift qualification required"))
    else ok tt

-- The checks on the basis of an economic comparison.
unfoldable pub check_economic : Json → Check
unfolding texts_of get equal
check_economic doc = do
  let economic = at "economic_package" doc
  let resource = at "resources" doc
  let basis = text_of (at "basis" economic)
  raise_if
      (is_null economic
        || not (
            is_subset ("MACHINE_ELAPSED" ∷ "OPERATOR_ACTIVE" ∷ [])
              (names_of (at "time_kinds" economic))))
      (value_error "real-resource/normalization package required")
  require (equal (at "unit" (at "money_ceiling" resource)) (at "currency" economic))
      (value_error "currency mismatch")
  raise_if
      (contains basis ("MONEY" ∷ "MONEY_AND_TIME" ∷ [])
        && not (is_text "KNOWN" (at "state" (at "money_ceiling" resource))))
      (value_error "money-aligned comparison requires known ceiling")
  raise_if
      (contains basis ("WALL_CLOCK" ∷ "MONEY_AND_TIME" ∷ [])
        && not (is_text "KNOWN" (at "state" (at "max_total_runtime_ms" resource))))
      (value_error "time-aligned comparison requires known ceiling")

unfoldable pub check_disclosure : Json → Check
unfolding check_economic get
check_disclosure doc = do
  let mode = text_of (at "fairness_mode" doc)
  raise_if (contains mode ("F2" ∷ "F3" ∷ "ABLATION" ∷ []) && is_null (at "system_disclosure" doc))
      (value_error "system capability/resource disclosure required")
  raise_if
      (str_eq mode "F1"
        && (not (is_null (at "system_disclosure" doc))
            || not (is_null (at "economic_package" doc))))
      (value_error "F1 cannot carry a system/economic comparison package")
  if str_eq mode "F3" then check_economic doc else ok tt

-- `for key, value in control_bindings(doc).items(): …`
unfoldable pub check_bindings : List String → Fields → Bindings → Check
unfolding equal get
check_bindings required fixed [] = ok tt
check_bindings required fixed ((key, value) ∷ rest) = do
  raise_if (contains key required && not (equal (get key fixed) (str value)))
      (value_error "control fingerprint mismatch")
  check_bindings required fixed rest

module _ (rt : Runtime) (t : Texts) (clock : Clock) where
  open t use {search}
  open clock use {occurs}

  unfoldable pub check_a0 : Json → Check
  unfolding a0_resource_binding validate_measure_json get
  check_a0 doc = do
    let a0 = at "a0" doc
    let resource = at "resources" doc
    require
        (is_text (fingerprint_of rt (at "task" doc)) (at "task_fingerprint" a0)
          && is_text (fingerprint_of rt (at "scope" doc)) (at "scope_fingerprint" a0))
        (value_error "A0 binding mismatch")
    require (is_text (a0_resource_binding rt t occurs doc) (at "resource_fingerprint" a0))
        (value_error "A0 resource binding mismatch")
    validate_measure_json t (some "ms") (at "max_total_runtime_ms" resource)
    validate_measure_json t (some "tokens") (at "token_ceiling" resource)
    validate_measure_json t none (at "money_ceiling" resource)

  unfoldable pub check_controls : Json → Check
  unfolding required_controls control_bindings check_bindings get has
  check_controls doc = do
    let required = required_controls (text_of (at "track_id" doc))
    let fixed = fields_of (at "fixed" (at "variable_control" doc))
    require (all (λ key. has key fixed) required) (value_error "missing variable controls")
    check_bindings required fixed (control_bindings rt t occurs doc)

  unfoldable pub check_e1 : Json → Check
  unfolding f1_eligibility texts_of get
  check_e1 doc =
      let track = text_of (at "track_id" doc) in
      let expected = if str_eq track "E1_FROZEN" then "FROZEN" else "LIVE" in
      let a1 = at "a1" doc in
      if contains track ("E1_FROZEN" ∷ "E1_LIVE" ∷ [])
      then (do
        require (is_text expected (at "kind" (at "overlay" doc)))
            (value_error "Live/Frozen overlay mismatch")
        require
            (is_text "ENTRANT" (at "owner" a1)
              && is_subset (names_of (at "allowed" a1)) e1_behaviors)
            (value_error "E1 planning must remain bounded and entrant-owned")
        eligible ← f1_eligibility rt t occurs (at "retriever" doc)
        require
            (str_eq eligible "F1_ELIGIBLE"
              && is_text "RAW_BACKEND_ATTEMPT" (at "search_unit" (at "resources" doc)))
            (value_error "F1 retriever not qualified"))
      else ok tt

  -- `SearchSpecV2.validate(doc)`
  unfoldable pub validate : Fields → Check
  unfolding assert_content_safe validate_shape verify_seal check_freeze check_cardinality check_a0
      check_controls check_principal check_mode check_claims check_track check_e1 check_live
      check_disclosure
  validate document = do
    let doc = obj document
    assert_content_safe t doc
    validate_shape search searchspec_schema "contract" doc
    verify_seal rt t document
    check_freeze clock doc
    check_cardinality doc
    check_a0 doc
    check_controls doc
    check_principal doc
    check_mode doc
    check_claims doc
    check_track doc
    check_e1 doc
    check_live doc
    check_disclosure doc
