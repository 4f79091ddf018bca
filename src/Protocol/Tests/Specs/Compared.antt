-- ===== src/Protocol/Tests/Specs/Compared.antt =====
-- Comparisons of the JUDGMENT_ONLY spec with itself and with others.
use llm_evaluation_lab.Base.{◌≡◌, refl, ◌↔◌, List, [], ◌∷◌}
use llm_evaluation_lab.Base.Result.{ok, err}
use llm_evaluation_lab.Json.{Json, str, obj, array, has}
use llm_evaluation_lab.Cup.Error.{value_error}
use llm_evaluation_lab.Protocol.Compare.{require_successor, compare_controls}
use llm_evaluation_lab.Protocol.Compare.Comparable.{
  AreComparable, compare_controls-AreComparable_iff,
}
use llm_evaluation_lab.Protocol.Tests.Specs.{judgment_document}
use llm_evaluation_lab.Protocol.Tests.Specs.Entrant.{set}

abbrev original : Json
original = obj judgment_document

abbrev renamed : Json
renamed = obj (set "canonical_fingerprint" (str "g") judgment_document)

abbrev draft : Json
draft = obj (set "spec_status" (str "DRAFT") judgment_document)

abbrev three : List Json
three = original ∷ original ∷ original ∷ []

three_agree : compare_controls three ≡ ok tt
unfolding compare_controls has array
three_agree = refl

other_identity :
    compare_controls (original ∷ original ∷ renamed ∷ [])
    ≡ err (value_error "F1 requires identical SearchSpec identity")
unfolding compare_controls has array
other_identity = refl

draft_last :
    compare_controls (original ∷ draft ∷ [])
    ≡ err (value_error "comparison requires frozen declarations")
unfolding compare_controls has
draft_last = refl

one_alone :
    compare_controls (original ∷ [])
    ≡ err (value_error "comparison requires at least two declarations")
unfolding compare_controls
one_alone = refl

same_run :
    require_successor original renamed "r1" "r1"
    ≡ err (value_error "post-freeze change requires new version and run identity")
unfolding require_successor has
same_run = refl

compare_controls-AreComparable_iff_example : (compare_controls three ≡ ok tt) ↔ AreComparable three
compare_controls-AreComparable_iff_example = compare_controls-AreComparable_iff three
