-- ===== src/Protocol/Spec/Passed.antt =====
-- What a spec that validates has passed.
use llm_evaluation_lab.Base.{◌≡◌}
use llm_evaluation_lab.Base.Result.{ok, then_iff}
use llm_evaluation_lab.Json.{Json, obj, Fields}
use llm_evaluation_lab.Cup.Contracts.{Runtime}
use llm_evaluation_lab.Protocol.Schema.{validate_shape}
use llm_evaluation_lab.Protocol.Shapes.{searchspec_schema}
use llm_evaluation_lab.Protocol.Safety.{Texts, assert_content_safe}
use llm_evaluation_lab.Protocol.Seal.{verify_seal}
use llm_evaluation_lab.Protocol.Spec.{Clock}
use llm_evaluation_lab.Protocol.Spec.Validate.{
  check_freeze, check_cardinality, check_a0, check_controls, check_principal, check_mode,
  check_claims, check_track, check_e1, check_live, check_disclosure, validate,
}

module _ (rt : Runtime) (t : Texts) (clock : Clock) where
  open t use {search}

  pub record IsPassed (doc : Json) : Type 0 where
    pub principal : check_principal doc ≡ ok tt
    pub mode : check_mode doc ≡ ok tt
    pub claims : check_claims doc ≡ ok tt
    pub track : check_track doc ≡ ok tt
    pub e1 : check_e1 rt t clock doc ≡ ok tt
    pub disclosure : check_disclosure doc ≡ ok tt

  pub validate-IsPassed : (doc : Fields) → validate rt t clock doc ≡ ok tt → IsPassed (obj doc)
  unfolding validate
  validate-IsPassed doc h =
      let j = obj doc in
      let (_, h1) = (then_iff (assert_content_safe t j) _).0 h in
      let (_, h2) = (then_iff (validate_shape search searchspec_schema "contract" j) _).0 h1 in
      let (_, h3) = (then_iff (verify_seal rt t doc) _).0 h2 in
      let (_, h4) = (then_iff (check_freeze clock j) _).0 h3 in
      let (_, h5) = (then_iff (check_cardinality j) _).0 h4 in
      let (_, h6) = (then_iff (check_a0 rt t clock j) _).0 h5 in
      let (_, h7) = (then_iff (check_controls rt t clock j) _).0 h6 in
      let (principal, h8) = (then_iff (check_principal j) _).0 h7 in
      let (mode, h9) = (then_iff (check_mode j) _).0 h8 in
      let (claims, h10) = (then_iff (check_claims j) _).0 h9 in
      let (track, h11) = (then_iff (check_track j) _).0 h10 in
      let (e1, h12) = (then_iff (check_e1 rt t clock j) _).0 h11 in
      let (_, disclosure) = (then_iff (check_live j) _).0 h12 in
      record {
        principal = principal;
        mode = mode;
        claims = claims;
        track = track;
        e1 = e1;
        disclosure = disclosure;
      }
