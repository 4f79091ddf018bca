-- ===== src/Protocol/Gate/Execution.antt =====
-- search_cup/protocol_v23.py: `instance_gate`, up to the seal of its answer. `bindings` is the
-- source's `package`.
use llm_evaluation_lab.Base.{
  String, Bool, not, ◌&&◌, Option, none, some, List, [], ◌∷◌, ◌++◌, str_eq, if◌then◌else◌,
}
use llm_evaluation_lab.Base.Result.{Result, ok, ◌>>=◌, ◌>>◌, require}
use llm_evaluation_lab.Json.{Json, obj, Fields, get}
use llm_evaluation_lab.Cup.Error.{Error, value_error}
use llm_evaluation_lab.Cup.Contracts.{Runtime}
use llm_evaluation_lab.Cup.Registry.{fingerprint_of}
use llm_evaluation_lab.Protocol.Numbers.{equal}
use llm_evaluation_lab.Protocol.Schema.{validate_shape}
use llm_evaluation_lab.Protocol.Safety.{Texts, assert_content_safe}
use llm_evaluation_lab.Protocol.Seal.{verify_seal}
use llm_evaluation_lab.Protocol.Controls.{at, text_of, is_text, is_null}
use llm_evaluation_lab.Protocol.Spec.{Clock}
use llm_evaluation_lab.Protocol.Pool.{Unicode}
use llm_evaluation_lab.Protocol.Package.{sealed_fields}
use llm_evaluation_lab.Protocol.Gate.{
  Answer, answer, instance_schema, required_decisions, validate_instance_artifact,
}

-- `artifacts.get(ref["fingerprint"])`, null where there is none
abbrev pub artifact_of : Fields → Json → Json
artifact_of artifacts decision = get (text_of (at "fingerprint" (at "artifact" decision))) artifacts

abbrev pub decision_of : Json → String → Json
decision_of bindings name = at name (at "decisions" bindings)

abbrev pub unfrozen : Json → List String
unfrozen doc = if is_text "FROZEN" (at "spec_status" doc) then [] else "SPEC_NOT_FROZEN" ∷ []

module _ (rt : Runtime) (t : Texts) (u : Unicode) (clock : Clock) where
  open t use {search}

  -- A decision that is frozen and approved, with its artifact among those supplied
  unfoldable pub is_bound : Fields → Json → Bool
  unfolding get
  is_bound artifacts decision =
      is_text "FROZEN" (at "status" decision)
      && not (is_null (at "artifact" decision))
      && not (is_null (at "approval" decision))
      && not (is_null (artifact_of artifacts decision))
      && str_eq (fingerprint_of rt (artifact_of artifacts decision))
          (text_of (at "fingerprint" (at "artifact" decision)))

  -- The loop over the required decisions, which collects those that are missing.
  unfoldable pub missing_of : Fields → Json → Json → List String → Result Error (List String)
  unfolding is_bound validate_instance_artifact get
  missing_of artifacts bindings doc [] = ok []
  missing_of artifacts bindings doc (name ∷ names) =
      let decision = decision_of bindings name in
      let rest = missing_of artifacts bindings doc names in
      if is_bound artifacts decision
      then validate_instance_artifact rt t u clock name (artifact_of artifacts decision) doc >> rest
      else (do missing ← rest; ok (name ∷ missing))

  -- The answer where bindings are supplied.
  unfoldable pub inspect : Json → Json → Fields → Result Error Answer
  unfolding validate_shape verify_seal assert_content_safe missing_of required_decisions equal get
  inspect doc bindings artifacts = do
    validate_shape search instance_schema "contract" bindings
    fields ← sealed_fields bindings
    verify_seal rt t fields
    require (equal (at "spec_fingerprint" bindings) (at "canonical_fingerprint" doc))
        (value_error "instance/SearchSpec mismatch")
    assert_content_safe t (obj artifacts)
    missing ← missing_of artifacts bindings doc (required_decisions doc)
    ok (answer (missing ++ unfrozen doc))

  -- `instance_gate(spec, package, artifacts)`, `artifacts` empty where it is None
  unfoldable pub instance_gate : Json → Option Json → Fields → Result Error Answer
  unfolding inspect required_decisions
  instance_gate doc none artifacts = ok (answer (required_decisions doc))
  instance_gate doc (some bindings) artifacts = inspect doc bindings artifacts
