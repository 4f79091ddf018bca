-- ===== src/Protocol/Compare/Comparable.antt =====
-- `compare_controls` (search_cup/protocol_v23.py) against what its comparison asks of every spec.
use llm_evaluation_lab.Base.{
  String, Bool, not, true, false, ◌&&◌, ◌≡◌, refl, ◌↔◌, List, [], ◌∷◌, All, arith, and-true,
  Bool-cases, inl, inr,
}
use llm_evaluation_lab.Base.Result.{ok, then_iff, require-ok, raise_if_iff}
use llm_evaluation_lab.Json.{Json}
use llm_evaluation_lab.Protocol.Numbers.{equal}
use llm_evaluation_lab.Protocol.Controls.{at, is_text}
use llm_evaluation_lab.Protocol.Compare.{compare_with, compare_each, compare_controls}

-- `a[key] == b[key]`, where both values have one is Python's equality.
abbrev Agree : String → Json → Json → Type 0
Agree key a b = equal (at key a) (at key b) ≡ true

pub record IsComparable (first doc : Json) : Type 0 where
  pub frozen : is_text "FROZEN" (at "spec_status" doc) ≡ true
  pub first_frozen : is_text "FROZEN" (at "spec_status" first) ≡ true
  pub track : Agree "track_id" doc first
  pub fairness : Agree "fairness_mode" doc first
  pub fixed : Agree "fixed" (at "variable_control" doc) (at "variable_control" first)
  pub changed_capabilities :
      Agree "changed_capabilities" (at "variable_control" doc) (at "variable_control" first)
  pub fixed_capabilities :
      Agree "fixed_capabilities" (at "variable_control" doc) (at "variable_control" first)
  pub claims : Agree "claims" doc first
  pub identity :
      is_text "F1" (at "fairness_mode" first) ≡ true → Agree "canonical_fingerprint" doc first

-- At least two specs, and each is comparable with the first.
abbrev pub AreComparable : List Json → Type 0
AreComparable (first ∷ second ∷ docs) = All (IsComparable first) (second ∷ docs)
AreComparable _ = ⊥

implied : (a b : Bool) → (a && not b) ≡ false → a ≡ true → b ≡ true
implied a b h e = ground arith

compare_with→IsComparable :
    (first doc : Json) → compare_with first doc ≡ ok tt → IsComparable first doc
unfolding compare_with
compare_with→IsComparable first doc h =
    let (both, h1) = require-ok _ _ _ h in
    let (frozen, first_frozen) = and-true _ _ both in
    let (kind, h2) = require-ok _ _ _ h1 in
    let (track, fairness) = and-true _ _ kind in
    let (fixed, h3) = require-ok _ _ _ h2 in
    let (capabilities, h4) = require-ok _ _ _ h3 in
    let (changed, fixed_only) = and-true _ _ capabilities in
    let (same, _) = and-true _ _ fixed_only in
    let (claims, h5) = require-ok _ _ _ h4 in
    record {
      frozen = frozen;
      first_frozen = first_frozen;
      track = track;
      fairness = fairness;
      fixed = fixed;
      changed_capabilities = changed;
      fixed_capabilities = same;
      claims = claims;
      identity = implied _ _ ((raise_if_iff _ _).0 h5);
    }

IsComparable→compare_with :
    (first doc : Json) → IsComparable first doc → compare_with first doc ≡ ok tt
unfolding compare_with
IsComparable→compare_with first doc c = rw c.frozen (
    rw c.first_frozen (
      rw c.track (
        rw c.fairness (
          rw c.fixed (
            rw c.changed_capabilities (
              rw c.fixed_capabilities (
                rw c.claims (elim (Bool-cases (is_text "F1" (at "fairness_mode" first))) [
                  | inl f1 ↦ rw f1 (rw (c.identity f1) refl)
                  | inr f1 ↦ rw f1 refl
                ]))))))))

compare_with-IsComparable_iff :
    (first doc : Json) → (compare_with first doc ≡ ok tt) ↔ IsComparable first doc
compare_with-IsComparable_iff first doc =
    (compare_with→IsComparable first doc, IsComparable→compare_with first doc)

compare_each-IsComparable_iff :
    (first : Json) (docs : List Json)
    → (compare_each first docs ≡ ok tt) ↔ All (IsComparable first) docs
unfolding compare_each
compare_each-IsComparable_iff first [] = ((λ h. tt), λ h. refl)
compare_each-IsComparable_iff first (doc ∷ docs) =
    let split = then_iff (compare_with first doc) (compare_each first docs) in
    let one = compare_with-IsComparable_iff first doc in
    let rest = compare_each-IsComparable_iff first docs in
    (
      (λ h. let both = split.0 h in (one.0 both.0, rest.0 both.1)),
      λ h. split.1 (one.1 h.0, rest.1 h.1),
    )

-- A comparison of specs passes exactly when there are at least two, all are frozen, and each has the
-- track, the fairness mode, the fixed controls, both capability controls and the claims of the first,
-- and in the mode F1 also its fingerprint.
pub compare_controls-AreComparable_iff :
    (specs : List Json) → (compare_controls specs ≡ ok tt) ↔ AreComparable specs
unfolding compare_controls
compare_controls-AreComparable_iff (first ∷ second ∷ docs) =
    compare_each-IsComparable_iff first (second ∷ docs)
compare_controls-AreComparable_iff (first ∷ []) = ((λ h. cc), λ h. absurd h)
compare_controls-AreComparable_iff [] = ((λ h. cc), λ h. absurd h)
