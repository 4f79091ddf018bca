-- ===== src/Protocol/Spec/Qualified.antt =====
-- The retriever of an E1 spec that validates.
use llm_evaluation_lab.Base.{
  String, Bool, true, false, ◌≡◌, refl, ap, ◌∙◌, [], ◌∷◌, or-false, not-false, and-true, str_eq,
  str_eq_iff, arith, if◌then◌else◌,
}
use llm_evaluation_lab.Base.Result.{Result, ok, ◌>>◌, then_iff, require_iff, bind-ok, ok-injective}
use llm_evaluation_lab.Json.{
  Json, null, bool, int, float, str, arr, obj, Fields, end, field, get, truthy,
}
use llm_evaluation_lab.Lab.Read.{contains}
use llm_evaluation_lab.Cup.Error.{Error}
use llm_evaluation_lab.Cup.Contracts.{Runtime}
use llm_evaluation_lab.Cup.Registry.{fingerprint_of}
use llm_evaluation_lab.Protocol.Schema.{validate_shape, field_names}
use llm_evaluation_lab.Protocol.Shapes.{retriever_schema, e1_behaviors}
use llm_evaluation_lab.Protocol.Safety.{Texts, assert_content_safe}
use llm_evaluation_lab.Protocol.Seal.{remove}
use llm_evaluation_lab.Protocol.Controls.{
  at, fields_of, text_of, names_of, is_text, is_null, is_subset, any_unproved, criteria_names,
  eligibility, f1_eligibility,
}
use llm_evaluation_lab.Protocol.Spec.{Clock}
use llm_evaluation_lab.Protocol.Spec.Passed.{validate-IsPassed}
use llm_evaluation_lab.Protocol.Spec.Validate.{check_e1, validate}

-- A criterion that is met, with evidence.
abbrev pub AreProved : Fields → Type 0
AreProved end = Unit
AreProved (field k c rest) =
    (is_text "PASS" (at "status" c) ≡ true) × (truthy (at "evidence" c) ≡ true) × AreProved rest

any_unproved-AreProved : (fs : Fields) → any_unproved fs ≡ false → AreProved fs
unfolding any_unproved
any_unproved-AreProved end h = tt
any_unproved-AreProved (field k c rest) h =
    let (ab, r) = or-false _ _ h in
    let (a, b) = or-false _ _ ab in (not-false _ a, not-false _ b, any_unproved-AreProved rest r)

taken :
    {A : Type 0} (b : Bool) (m k : Result Error A) {a : A}
    → (if b then m else k) ≡ ok a
    → b ≡ true
    → m ≡ ok a
taken true m k h e = h
taken false m k h e = cc

apart : (s u : String) → str_eq s u ≡ false → ¬ (s ≡ u)
apart s u h e = let b = (str_eq_iff s u).1 e in ground arith

-- A branch that answers NOT_F1_ELIGIBLE was not taken.
ineligible :
    (b : Bool) (y : String)
    → (if b then "NOT_F1_ELIGIBLE" else y) ≡ "F1_ELIGIBLE"
    → (b ≡ false) × (y ≡ "F1_ELIGIBLE")
ineligible true y h = absurd (apart "NOT_F1_ELIGIBLE" "F1_ELIGIBLE" refl h)
ineligible false y h = (refl, h)

ineligible_unless :
    (b : Bool) (x y : String)
    → ¬ (x ≡ "F1_ELIGIBLE")
    → (if b then x else y) ≡ "F1_ELIGIBLE"
    → (b ≡ false) × (y ≡ "F1_ELIGIBLE")
ineligible_unless true x y never h = absurd (never h)
ineligible_unless false x y never h = (refl, h)

abbrev default_answer : Bool → String
default_answer b = if b then "NOT_F1_ELIGIBLE_BY_DEFAULT" else "NOT_F1_ELIGIBLE"

by_default : (b : Bool) → ¬ (default_answer b ≡ "F1_ELIGIBLE")
by_default true h = apart "NOT_F1_ELIGIBLE_BY_DEFAULT" "F1_ELIGIBLE" refl h
by_default false h = apart "NOT_F1_ELIGIBLE" "F1_ELIGIBLE" refl h

module _ (rt : Runtime) (t : Texts) (occurs : String → String → Bool) where
  -- A retriever that qualifies for F1: its qualification names it by its fingerprint, has the eight
  -- criteria, all met with evidence, and it only retrieves and ranks.
  pub record IsQualified (retriever : Fields) : Type 0 where
    pub identity :
        is_text
          (fingerprint_of rt (obj (remove "qualification" retriever)))
          (at "backend_fingerprint" (get "qualification" retriever))
        ≡ true
    pub complete :
        is_subset criteria_names
          (field_names (fields_of (at "criteria" (get "qualification" retriever))))
        ≡ true
    pub proved : AreProved (fields_of (at "criteria" (get "qualification" retriever)))
    pub raw : is_text "INTEGRATED_SEARCH_STACK" (get "class" retriever) ≡ false
    pub modest :
        is_subset (names_of (get "capabilities" retriever)) ("RETRIEVAL" ∷ "RANKING" ∷ []) ≡ true

  eligibility-IsQualified :
      (retriever : Fields)
      → eligibility rt t occurs retriever ≡ "F1_ELIGIBLE"
      → IsQualified retriever
  unfolding eligibility
  eligibility-IsQualified retriever h =
      let (_, h1) =
        ineligible_unless (is_null (get "qualification" retriever)) _ _ (by_default _) h in
      let (named, h2) = ineligible _ _ h1 in
      let (criteria, h3) = ineligible _ _ h2 in
      let (surface, h4) = ineligible _ _ h3 in
      let (sets, proved) = or-false _ _ criteria in
      let (_, complete) = or-false _ _ sets in
      let (raw, modest) = or-false _ _ surface in
      record {
        identity = not-false _ named;
        complete = not-false _ complete;
        proved =
            any_unproved-AreProved (fields_of (at "criteria" (get "qualification" retriever)))
              proved;
        raw = raw;
        modest = not-false _ modest;
      }

  checked-IsQualified :
      (j : Json)
      → (validate_shape t.search retriever_schema "contract" j
          >> (assert_content_safe t j >> ok (eligibility rt t occurs (fields_of j))))
        ≡ ok "F1_ELIGIBLE"
      → IsQualified (fields_of j)
  checked-IsQualified j h =
      let (_, _, h1) = bind-ok (validate_shape t.search retriever_schema "contract" j) _ h in
      let (_, _, e) = bind-ok (assert_content_safe t j) _ h1 in
      eligibility-IsQualified (fields_of j) (ok-injective e)

  f1_eligibility-IsQualified :
      (j : Json) → f1_eligibility rt t occurs j ≡ ok "F1_ELIGIBLE" → IsQualified (fields_of j)
  unfolding f1_eligibility
  f1_eligibility-IsQualified null h =
      absurd (apart "NOT_F1_ELIGIBLE" "F1_ELIGIBLE" refl (ok-injective h))
  f1_eligibility-IsQualified (bool b) h = checked-IsQualified (bool b) h
  f1_eligibility-IsQualified (int n) h = checked-IsQualified (int n) h
  f1_eligibility-IsQualified (float x) h = checked-IsQualified (float x) h
  f1_eligibility-IsQualified (str s) h = checked-IsQualified (str s) h
  f1_eligibility-IsQualified (arr js) h = checked-IsQualified (arr js) h
  f1_eligibility-IsQualified (obj fs) h = checked-IsQualified (obj fs) h

module _ (rt : Runtime) (t : Texts) (clock : Clock) where
  open clock use {occurs}

  abbrev pub is_e1 : Json → Bool
  is_e1 doc = contains (text_of (at "track_id" doc)) ("E1_FROZEN" ∷ "E1_LIVE" ∷ [])

  -- What the declaration of an E1 spec holds.
  pub record IsEntrantTrack (doc : Json) : Type 0 where
    pub qualified : IsQualified rt t occurs (fields_of (at "retriever" doc))
    pub owner : is_text "ENTRANT" (at "owner" (at "a1" doc)) ≡ true
    pub bounded : is_subset (names_of (at "allowed" (at "a1" doc))) e1_behaviors ≡ true
    pub raw_calls : is_text "RAW_BACKEND_ATTEMPT" (at "search_unit" (at "resources" doc)) ≡ true

  check_e1-IsEntrantTrack :
      (doc : Json) → is_e1 doc ≡ true → check_e1 rt t clock doc ≡ ok tt → IsEntrantTrack doc
  unfolding check_e1
  check_e1-IsEntrantTrack doc e h =
      let a1 = at "a1" doc in
      let unit = at "search_unit" (at "resources" doc) in
      let (_, h1) = (then_iff _ _).0 (taken (is_e1 doc) _ _ h e) in
      let (owned, h2) = (then_iff _ _).0 h1 in
      let (eligible, f, raw) = bind-ok (f1_eligibility rt t occurs (at "retriever" doc)) _ h2 in
      let (owner, bounded) =
        and-true (is_text "ENTRANT" (at "owner" a1))
          (is_subset (names_of (at "allowed" a1)) e1_behaviors) ((require_iff _ _).0 owned) in
      let (qualifies, raw_calls) =
        and-true (str_eq eligible "F1_ELIGIBLE") (is_text "RAW_BACKEND_ATTEMPT" unit)
          ((require_iff _ _).0 raw) in
      let same = (str_eq_iff eligible "F1_ELIGIBLE").0 qualifies in
      record {
        qualified = f1_eligibility-IsQualified rt t occurs (at "retriever" doc) (f ∙ ap ok same);
        owner = owner;
        bounded = bounded;
        raw_calls = raw_calls;
      }

  -- A spec document of the tracks E1_FROZEN and E1_LIVE that validates has a retriever that
  -- qualifies for F1: its qualification carries the fingerprint of the rest of the retriever and the
  -- eight criteria, each PASS with evidence, and it is no integrated stack and can only retrieve and
  -- rank. The entrant owns the planning, within the E1 behaviours, and the unit is the raw call.
  pub validate-IsEntrantTrack :
      (doc : Fields)
      → validate rt t clock doc ≡ ok tt
      → is_e1 (obj doc) ≡ true
      → IsEntrantTrack (obj doc)
  validate-IsEntrantTrack doc h e =
      let passed = validate-IsPassed rt t clock doc h in
      check_e1-IsEntrantTrack (obj doc) e passed.e1
