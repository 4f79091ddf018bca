-- ===== src/Lab/Mitigation/Disjoint.antt =====
-- A validated mitigation spec calls no status both terminal and blocking.
use mathlib.Core.List.{Perm}
use llm_evaluation_lab.Base.{String, ap, ◌≡◌, List, map, is_empty, All, str_eq, str_eq_iff}
use llm_evaluation_lab.Base.Result.{
  Result, ok, ok-injective, Returns, value, after, after_require, Returns-ok,
}
use llm_evaluation_lab.Json.{Json, null, bool, int, float, str, arr, obj, Fields, get}
use llm_evaluation_lab.Lab.Error.{Error}
use llm_evaluation_lab.Lab.Read.{required_text, string_array}
use llm_evaluation_lab.Lab.Historical.{object_of}
use llm_evaluation_lab.Lab.Mitigation.{
  MitigationSpec, sort_texts, overlapping, validate_mitigation_spec,
}
use llm_evaluation_lab.Lab.Mitigation.Statuses.{sort_texts-perm, apart-raw}

-- The lists of statuses of a spec against those of the document: the same statuses in upper case, in
-- some order, and no two of them equal in upper case.
pub record AreStatuses (upper : String → String) (terminal blocking : List String)
    (spec : MitigationSpec) : Type 0 where
  pub terminal_upper : Perm spec.runtime.terminal_statuses (map upper terminal)
  pub blocking_upper : Perm spec.runtime.blocking_statuses (map upper blocking)
  pub disjoint : All (λ s. All (λ b. ¬ (upper s ≡ upper b)) blocking) terminal

pub record IsSpec (upper : String → String) (j : Json) (spec : MitigationSpec) : Type 0 where
  pub versioned : ◌≡◌ {A = String} spec.schema_version "mitigation-spec/v1"
  pub targeted : ◌≡◌ {A = String} spec.target_failure "premature_parent_closure"
  pub statuses :
      (document : Fields) × (runtime : Fields) × (terminal : List String) × (blocking : List String)
      × (j ≡ obj document)
      × (get "runtime" document ≡ obj runtime)
      × (string_array runtime "terminal_statuses" ≡ ok terminal)
      × (string_array runtime "blocking_statuses" ≡ ok blocking)
      × AreStatuses upper terminal blocking spec

object_of-obj : (key : String) (j : Json) {fs : Fields} → object_of key j ≡ ok fs → j ≡ obj fs
unfolding object_of
object_of-obj key (obj fs) h = ap obj (ok-injective h)
object_of-obj key null h = cc
object_of-obj key (bool b) h = cc
object_of-obj key (int n) h = cc
object_of-obj key (float x) h = cc
object_of-obj key (str s) h = cc
object_of-obj key (arr js) h = cc

module _ (upper : String → String) (companion_mind : MitigationSpec → Result Error (Unit {0})) where
  validate_mitigation_spec-Returns :
      (j : Json) → Returns (IsSpec upper j) (validate_mitigation_spec upper companion_mind j)
  unfolding validate_mitigation_spec
  validate_mitigation_spec-Returns j = after (object_of "mitigation spec" j) λ document is_document.
      after (required_text document "schema_version") λ version _.
        after (required_text document "mitigation_id") λ mitigation_id _.
          after (required_text document "target_failure") λ target _.
            after (required_text document "intervention") λ intervention _.
              after (required_text document "control") λ control _.
                after (required_text document "treatment") λ treatment _.
                  after (required_text document "decision_rule") λ rule _.
                    after_require (str_eq version "mitigation-spec/v1") _ _ λ versioned.
                      after_require (str_eq target "premature_parent_closure") _ _ λ targeted.
                        after (object_of "runtime" (get "runtime" document)) λ runtime is_runtime.
                          after (required_text runtime "guard_type") λ guard_type _.
                            after (required_text runtime "safeguard_id") λ safeguard_id _.
                              after (required_text runtime "empty_evidence_decision")
                                λ empty_evidence _.
                                  after (required_text runtime "non_terminal_decision")
                                    λ non_terminal _.
                                      after (required_text runtime "all_terminal_decision")
                                        λ all_terminal _.
                                          after (string_array runtime "terminal_statuses")
                                            λ raw_terminal read_terminal.
                                              after (string_array runtime "blocking_statuses")
                                                λ raw_blocking read_blocking.
                                                  let terminal =
                                                    sort_texts (map upper raw_terminal) in
                                                  let blocking =
                                                    sort_texts (map upper raw_blocking) in
                                                  after_require
                                                    (is_empty (overlapping terminal blocking)) _ _
                                                    λ apart.
                                                      after (string_array document "metrics")
                                                        λ metrics _.
                                                          after
                                                            (string_array document
                                                            "regression_cases")
                                                            λ regression_cases _.
                                                            after
                                                            (companion_mind (record {
                                                            schema_version = version;
                                                            mitigation_id = mitigation_id;
                                                            target_failure = target;
                                                            intervention = intervention;
                                                            control = control;
                                                            treatment = treatment;
                                                            decision_rule = rule;
                                                            metrics = metrics;
                                                            regression_cases = regression_cases;
                                                            runtime = record {
                                                            guard_type = guard_type;
                                                            safeguard_id = safeguard_id;
                                                            empty_evidence_decision =
                                                            empty_evidence;
                                                            non_terminal_decision = non_terminal;
                                                            all_terminal_decision = all_terminal;
                                                            terminal_statuses = terminal;
                                                            blocking_statuses = blocking;
                                                            };
                                                            }))
                                                            λ _ _. value (record {
                                                            versioned =
                                                            (str_eq_iff version
                                                            "mitigation-spec/v1").0
                                                            versioned;
                                                            targeted =
                                                            (str_eq_iff target
                                                            "premature_parent_closure").0
                                                            targeted;
                                                            statuses = (
                                                            document,
                                                            runtime,
                                                            raw_terminal,
                                                            raw_blocking,
                                                            object_of-obj "mitigation spec" j
                                                            is_document,
                                                            object_of-obj "runtime"
                                                            (get "runtime" document) is_runtime,
                                                            read_terminal,
                                                            read_blocking,
                                                            record {
                                                            terminal_upper =
                                                            sort_texts-perm
                                                            (map upper raw_terminal);
                                                            blocking_upper =
                                                            sort_texts-perm
                                                            (map upper raw_blocking);
                                                            disjoint =
                                                            apart-raw upper raw_terminal
                                                            raw_blocking apart;
                                                            },
                                                            );
                                                            })

  -- A mitigation spec that validates has the known version and target, its statuses are those of the
  -- document in upper case, and no terminal status of the document equals a blocking one once both
  -- are in upper case.
  pub validate_mitigation_spec-IsSpec :
      (j : Json) {spec : MitigationSpec}
      → validate_mitigation_spec upper companion_mind j ≡ ok spec
      → IsSpec upper j spec
  validate_mitigation_spec-IsSpec j h = Returns-ok (validate_mitigation_spec-Returns j) h
