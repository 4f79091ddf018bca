-- ===== src/Protocol/Tests/Specs/Pooled.antt =====
-- Pools that `pool_candidates` builds or refuses.
use llm_evaluation_lab.Base.{◌≡◌, refl, List, [], ◌∷◌}
use llm_evaluation_lab.Base.Result.{Result, ok, err}
use llm_evaluation_lab.Json.{Json, str, obj, arr, array, has, get}
use llm_evaluation_lab.Cup.Error.{Error, value_error}
use llm_evaluation_lab.Protocol.Numbers.{number_lt, equal}
use llm_evaluation_lab.Protocol.Schema.{text_length, each_field, each_item, check_kinds}
use llm_evaluation_lab.Protocol.Event.{object_of}
use llm_evaluation_lab.Protocol.Controls.{texts_of}
use llm_evaluation_lab.Protocol.Pool.Candidates.{Pooled, pool_candidates}
use llm_evaluation_lab.Protocol.Tests.{texts}
use llm_evaluation_lab.Protocol.Tests.Specs.{ref, runtime, clock}
use llm_evaluation_lab.Protocol.Tests.Specs.Journals.{policy, unicode}

abbrev found : Json
found = obj (
    object_of (
      ("fields", obj (object_of (("name", str "acme") ∷ [])))
      ∷ ("object_fingerprint", str "f")
      ∷ ("evidence", arr (array (ref ∷ [])))
      ∷ ("frozen_submission", ref)
      ∷ ("source_alias", str "s")
      ∷ []))

abbrev pooled : List Json → Result Error Pooled
pooled items = pool_candidates runtime texts unicode clock.occurs items policy

nothing_supplied : pooled [] ≡ err (value_error "candidate pool requires nonempty supplied items")
unfolding pool_candidates text_length has each_field number_lt check_kinds each_item array equal
    texts_of
nothing_supplied = refl

abbrev identity : Result Error Pooled → Result Error Json
identity (ok p) = ok (get "canonical_fingerprint" p.public)
identity (err e) = err e

found_twice : identity (pooled (found ∷ found ∷ [])) ≡ ok (str "f")
unfolding pool_candidates text_length has each_field number_lt check_kinds each_item array equal
    texts_of
found_twice = refl
