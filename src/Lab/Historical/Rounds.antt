-- ===== src/Lab/Historical/Rounds.antt =====
-- What one round of `_validate_historical_cases` lets through.
use mathlib.Core.Path.{subst₂}
use llm_evaluation_lab.Base.{
  ℕ, suc, String, ◌≡◌, ◌≢◌, refl, sym, subst, true, false, List, [], ◌∷◌, All,
}
use llm_evaluation_lab.Base.Result.{
  ok, Returns, Returns-map, value, raised, after, after_require, after_raise_if, Returns-ok,
}
use llm_evaluation_lab.Text.{is_blank}
use llm_evaluation_lab.Json.{Json, obj, Fields, get}
use llm_evaluation_lab.Lab.Read.{
  contains, required_text, text_of-ok, bool_of, array_of, array_of-ok,
}
use llm_evaluation_lab.Lab.Historical.{
  Constraint, HistoricalCase, PairVariants, validate_constraint, validate_constraints, case_body,
  validate_historical_case,
}

abbrev pub IsConstraint : Constraint → Type 0
IsConstraint k =
    (contains k.status ("PASS" ∷ "FAIL" ∷ "UNKNOWN" ∷ []) ≡ true)
    × (is_blank k.constraint_id ≡ false)

-- What a case has by itself: known words where only those are allowed, and a constraint.
pub record IsHistoricalCase (c : HistoricalCase) : Type 0 where
  pub evidence :
      contains c.evidence_state ("SUPPORTED" ∷ "CONTRADICTED" ∷ "UNKNOWN" ∷ "NOT_LOADED" ∷ [])
      ≡ true
  pub confidence : contains c.surface_confidence ("HIGH" ∷ "LOW" ∷ []) ≡ true
  pub constrained : c.constraints ≢ []
  pub constraints : All IsConstraint c.constraints

required_text-ok :
    (fs : Fields) (key : String) {s : String} → required_text fs key ≡ ok s → is_blank s ≡ false
unfolding required_text
required_text-ok fs key h = (text_of-ok key (get key fs) h).1

-- The words that the validators allow.
abbrev statuses : List String
statuses = "PASS" ∷ "FAIL" ∷ "UNKNOWN" ∷ []

abbrev evidence_states : List String
evidence_states = "SUPPORTED" ∷ "CONTRADICTED" ∷ "UNKNOWN" ∷ "NOT_LOADED" ∷ []

validate_constraint-Returns : (i : ℕ) (j : Json) → Returns IsConstraint (validate_constraint i j)
unfolding validate_constraint
validate_constraint-Returns i (obj raw) = after (required_text raw "status") λ status _.
    after_require (contains status statuses) _ _ λ known.
      after (required_text raw "constraint_id")
        λ id read. value (known, required_text-ok raw "constraint_id" read)
validate_constraint-Returns i _ = raised

abbrev AreConstraints : List Json → List Constraint → Type 0
AreConstraints raws ks = All IsConstraint ks × (raws ≢ [] → ks ≢ [])

validate_constraints-Returns :
    (i : ℕ) (raws : List Json) → Returns (AreConstraints raws) (validate_constraints i raws)
unfolding validate_constraints
validate_constraints-Returns i [] = value (tt, λ ne e. ne refl)
validate_constraints-Returns i (raw ∷ raws) = after (validate_constraint i raw) λ k one.
    after (validate_constraints (suc i) raws) λ ks rest. value (
      (
        Returns-ok (validate_constraint-Returns i raw) one,
        (Returns-ok (validate_constraints-Returns (suc i) raws) rest).0,
      ),
      λ _ e. cc,
    )

abbrev Fits : String → String → String → HistoricalCase → Type 0
Fits v m w c = IsHistoricalCase c × (c.variant_id ≡ v) × (c.mechanism_id ≡ m) × (c.variant ≡ w)

case_body-Returns : (v m w : String) (raw : Fields) → Returns (Fits v m w) (case_body v m w raw)
unfolding case_body
case_body-Returns v m w raw = after (required_text raw "evidence_state") λ state _.
    after_require (contains state evidence_states) _ _ λ evidence.
      after (required_text raw "surface_confidence") λ level _.
        after_require (contains level ("HIGH" ∷ "LOW" ∷ [])) _ _ λ confidence.
          after (bool_of "expected_accept" (get "expected_accept" raw)) λ expected _.
            after (array_of "constraints" (get "constraints" raw)) λ raws some_raw.
              after (validate_constraints 0 raws) λ ks read.
                after (required_text raw "scenario") λ scenario _.
                  after (required_text raw "candidate") λ candidate _.
                    let (well, some_constraint) =
                      Returns-ok (validate_constraints-Returns 0 raws) read in
                    value (
                      record {
                        evidence = evidence;
                        confidence = confidence;
                        constrained =
                            some_constraint
                              (array_of-ok "constraints" (get "constraints" raw) some_raw);
                        constraints = well;
                      },
                      refl,
                      refl,
                      refl,
                    )

-- A round's case is new, of a known mechanism, and its variant is new to that mechanism.
pub record IsRound (mechanism_ids seen : List String) (pairs : PairVariants) (c : HistoricalCase)
    : Type 0 where
  pub well : IsHistoricalCase c
  pub new : contains c.variant_id seen ≡ false
  pub known : contains c.mechanism_id mechanism_ids ≡ true
  pub variant : contains c.variant ("TRAP" ∷ "CONTROL" ∷ []) ≡ true
  pub fresh : contains c.variant (pairs c.mechanism_id) ≡ false

module _ (mechanism_ids seen : List String) (pairs : PairVariants) where
  IsRound-of_Fits :
      (v m w : String) (c : HistoricalCase)
      → Fits v m w c
      → contains v seen ≡ false
      → contains m mechanism_ids ≡ true
      → contains w ("TRAP" ∷ "CONTROL" ∷ []) ≡ true
      → contains w (pairs m) ≡ false
      → IsRound mechanism_ids seen pairs c
  IsRound-of_Fits v m w c (well, ev, em, ew) new known variant fresh = record {
    well = well;
    new = subst (λ x. contains x seen ≡ false) (sym ev) new;
    known = subst (λ x. contains x mechanism_ids ≡ true) (sym em) known;
    variant = subst (λ x. contains x ("TRAP" ∷ "CONTROL" ∷ []) ≡ true) (sym ew) variant;
    fresh = subst₂ (λ x y. contains x (pairs y) ≡ false) (sym ew) (sym em) fresh;
  }

  pub validate_historical_case-Returns :
      (i : ℕ) (j : Json)
      → Returns
          (IsRound mechanism_ids seen pairs)
          (validate_historical_case mechanism_ids seen pairs i j)
  unfolding validate_historical_case
  validate_historical_case-Returns i (obj raw) = after (required_text raw "variant_id") λ v _.
      after_raise_if (contains v seen) _ _ λ new. after (required_text raw "mechanism_id") λ m _.
        after_require (contains m mechanism_ids) _ _ λ known.
          after (required_text raw "variant") λ w _.
            after_require (contains w ("TRAP" ∷ "CONTROL" ∷ [])) _ _ λ variant.
              after_raise_if (contains w (pairs m)) _ _ λ fresh.
                Returns-map (λ c fits. IsRound-of_Fits v m w c fits new known variant fresh)
                  (case_body-Returns v m w raw)
  validate_historical_case-Returns i _ = raised
