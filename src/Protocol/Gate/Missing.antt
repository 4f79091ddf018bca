-- ===== src/Protocol/Gate/Missing.antt =====
-- What `instance_gate` (search_cup/protocol_v23.py) reports as missing, against a filter of the
-- required decisions.
use llm_evaluation_lab.Base.{
  String, Bool, true, false, not, ◌≡◌, refl, List, [], ◌∷◌, ◌++◌, filter, All, some, if◌then◌else◌,
}
use llm_evaluation_lab.Base.Result.{
  Result, ok, err, ◌>>=◌, ◌>>◌, Returns, value, raised, after, after_require, Returns-ok,
  Returns-map,
}
use llm_evaluation_lab.Json.{Json, obj, Fields}
use llm_evaluation_lab.Cup.Error.{Error, value_error}
use llm_evaluation_lab.Cup.Contracts.{Runtime}
use llm_evaluation_lab.Protocol.Numbers.{equal}
use llm_evaluation_lab.Protocol.Schema.{validate_shape}
use llm_evaluation_lab.Protocol.Safety.{Texts, assert_content_safe}
use llm_evaluation_lab.Protocol.Seal.{verify_seal}
use llm_evaluation_lab.Protocol.Controls.{at}
use llm_evaluation_lab.Protocol.Spec.{Clock}
use llm_evaluation_lab.Protocol.Pool.{Unicode}
use llm_evaluation_lab.Protocol.Package.{sealed_fields}
use llm_evaluation_lab.Protocol.Gate.{
  Answer, answer, instance_schema, required_decisions, validate_instance_artifact,
}
use llm_evaluation_lab.Protocol.Gate.Execution.{
  artifact_of, decision_of, unfrozen, is_bound, missing_of, inspect, instance_gate,
}

-- One round of the loop, over the decision and the check of it.
module _ (name : String) (keep : List String) (Q : Type 0) where
  abbrev round :
      Bool → Result Error (Unit {0}) → Result Error (List String) → Result Error (List String)
  round b check rest = if b then check >> rest else (rest >>= λ missing. ok (name ∷ missing))

  abbrev IsRound : Bool → Result Error (Unit {0}) → List String → Type 0
  IsRound b check missing =
      (missing ≡ (if not b then name ∷ keep else keep)) × ((not b ≡ false → check ≡ ok tt) × Q)

  round-IsRound :
      (b : Bool) (check : Result Error (Unit {0})) (rest : Result Error (List String))
      → Returns (λ missing. (missing ≡ keep) × Q) rest
      → Returns (IsRound b check) (round b check rest)
  round-IsRound true (ok x) rest h = Returns-map (λ missing q. (q.0, ((λ e. refl), q.1))) h
  round-IsRound true (err e) rest h = raised
  round-IsRound false check (ok missing) (value q) = value (rw q.0, ((λ e. cc), q.1))
  round-IsRound false check (err e) h = raised

module _ (rt : Runtime) (t : Texts) (u : Unicode) (clock : Clock) where
  open t use {search}

  module _ (artifacts : Fields) (bindings doc : Json) where
    abbrev pub is_missing : String → Bool
    is_missing name = not (is_bound rt t u clock artifacts (decision_of bindings name))

    -- The artifact of a decision that is not missing is one of the spec.
    abbrev pub IsAccepted : String → Type 0
    IsAccepted name =
        is_missing name ≡ false
        → validate_instance_artifact rt t u clock name
            (artifact_of artifacts (decision_of bindings name)) doc
          ≡ ok tt

    abbrev IsSplit : List String → List String → Type 0
    IsSplit names missing = (missing ≡ filter is_missing names) × All IsAccepted names

    missing_of-IsSplit :
        (names : List String)
        → Returns (IsSplit names) (missing_of rt t u clock artifacts bindings doc names)
    unfolding missing_of
    missing_of-IsSplit [] = value (refl, tt)
    missing_of-IsSplit (name ∷ names) =
        let decision = decision_of bindings name in
        round-IsRound name _ _ (is_bound rt t u clock artifacts decision)
          (validate_instance_artifact rt t u clock name (artifact_of artifacts decision) doc) _
          (missing_of-IsSplit names)

  -- The bindings are of the spec, and what is missing is what a filter of the required decisions
  -- keeps; the artifacts of the others are of the spec.
  abbrev pub IsInspected : Json → Json → Fields → Answer → Type 0
  IsInspected doc bindings artifacts a =
      (equal (at "spec_fingerprint" bindings) (at "canonical_fingerprint" doc) ≡ true)
      × (a.missing_decisions
          ≡ filter (is_missing artifacts bindings doc) (required_decisions doc) ++ unfrozen doc)
      × All (IsAccepted artifacts bindings doc) (required_decisions doc)

  inspect-IsInspected :
      (doc bindings : Json) (artifacts : Fields)
      → Returns (IsInspected doc bindings artifacts) (inspect rt t u clock doc bindings artifacts)
  unfolding inspect
  inspect-IsInspected doc bindings artifacts =
      after (validate_shape search instance_schema "contract" bindings) λ _ _.
        after (sealed_fields bindings) λ fields _. after (verify_seal rt t fields) λ _ _.
          after_require _ (value_error "instance/SearchSpec mismatch") _ λ same.
            after (assert_content_safe t (obj artifacts)) λ _ _.
              after (missing_of rt t u clock artifacts bindings doc (required_decisions doc))
                λ missing m.
                  let s =
                    Returns-ok (missing_of-IsSplit artifacts bindings doc (required_decisions doc))
                      m in
                  value {a = answer (missing ++ unfrozen doc)} (same, rw s.0, s.1)

  -- When `instance_gate` answers on supplied bindings, they name the fingerprint of the spec, what it
  -- reports as missing is exactly the required decisions that are not bound, in their order, then the
  -- mark of a spec that is not frozen, and the artifact of each required decision that is bound passed
  -- `validate_instance_artifact`.
  pub instance_gate-missing :
      (doc bindings : Json) (artifacts : Fields) {a : Answer}
      → instance_gate rt t u clock doc (some bindings) artifacts ≡ ok a
      → IsInspected doc bindings artifacts a
  unfolding instance_gate
  instance_gate-missing doc bindings artifacts =
      Returns-ok (inspect-IsInspected doc bindings artifacts)
