-- ===== src/Protocol/Compare.antt =====
-- search_cup/protocol_v23.py: `SearchSpecV2.require_successor` and `compare_controls`, on the
-- documents of the specs.
pub mod Comparable
use llm_evaluation_lab.Base.{
  String, Bool, true, not, ◌&&◌, ◌||◌, ◌≡◌, List, [], ◌∷◌, All, all, str_eq, if◌then◌else◌,
}
use llm_evaluation_lab.Base.Result.{
  Result, ok, err, ◌>>=◌, ◌>>◌, raise_if, require, then_iff, then-ok,
}
use llm_evaluation_lab.Json.{Json, get}
use llm_evaluation_lab.Cup.Error.{Error, value_error}
use llm_evaluation_lab.Protocol.Numbers.{equal}
use llm_evaluation_lab.Protocol.Controls.{at, is_text}

abbrev is_frozen : Json → Bool
is_frozen doc = is_text "FROZEN" (at "spec_status" doc)

-- `a[key] == b[key]`
abbrev same_at : String → Json → Json → Bool
same_at key a b = equal (at key a) (at key b)

-- `require_successor(self, successor, old_run_id, new_run_id)`
unfoldable pub require_successor : Json → Json → String → String → Result Error (Unit {0})
unfolding equal get
require_successor old new old_run_id new_run_id = do
  require (is_frozen old && is_frozen new) (value_error "version transition requires frozen specs")
  raise_if
      (not (same_at "canonical_fingerprint" old new)
        && (same_at "spec_version" old new || str_eq old_run_id new_run_id))
      (value_error "post-freeze change requires new version and run identity")

-- One round of the loop of `compare_controls`.
unfoldable pub compare_with : Json → Json → Result Error (Unit {0})
unfolding equal get
compare_with first doc = do
  let fixed = at "variable_control" first
  let mine = at "variable_control" doc
  require (is_frozen doc && is_frozen first) (value_error "comparison requires frozen declarations")
  require (same_at "track_id" doc first && same_at "fairness_mode" doc first)
      (value_error "cross-track/fairness aggregation forbidden")
  require (same_at "fixed" mine fixed) (value_error "non-principal control changed")
  require (all (λ key. same_at key mine fixed) ("changed_capabilities" ∷ "fixed_capabilities" ∷ []))
      (value_error "ablation capability controls changed")
  require (same_at "claims" doc first) (value_error "claims policy changed")
  raise_if
      (is_text "F1" (at "fairness_mode" first) && not (same_at "canonical_fingerprint" doc first))
      (value_error "F1 requires identical SearchSpec identity")

unfoldable pub compare_each : Json → List Json → Result Error (Unit {0})
unfolding compare_with
compare_each first [] = ok tt
compare_each first (doc ∷ docs) = do compare_with first doc; compare_each first docs

-- `compare_controls(specs)`
unfoldable pub compare_controls : List Json → Result Error (Unit {0})
unfolding compare_each
compare_controls (first ∷ second ∷ docs) = compare_each first (second ∷ docs)
compare_controls _ = err (value_error "comparison requires at least two declarations")
