-- ===== src/Cup/Registry.antt =====
-- search_cup/contracts.py: the judge's registry, a snapshot with the hash of its content.
use Prim.Native.Nat.{Ordering}
use Prim.Native.String as Native
use llm_evaluation_lab.Base.{
  String, Bool, true, false, ◌≡◌, ◌≢◌, refl, sym, ap, ◌∙◌, List, [], ◌∷◌, map, str_eq, str_eq_iff,
  if◌then◌else◌, Bool-cases, inl, inr,
}
use llm_evaluation_lab.Base.Result.{
  Result, ok, err, ◌>>=◌, ◌>>◌, require, Returns, value, after, after_require, Returns-ok,
}
use llm_evaluation_lab.Text.{strip, is_blank}
use llm_evaluation_lab.Json.{Json, bool, str, arr, obj, end, field, array}
use llm_evaluation_lab.Cup.Error.{Error, value_error}
use llm_evaluation_lab.Cup.Contracts.{Runtime, required_text, url_key}
use llm_evaluation_lab.Cup.Documents.{strings}
use llm_evaluation_lab.Cup.Competition.{is_distinct}

pub record RegistryLeadAssessment : Type 0 where
  pub source_url : String
  pub real_open : Bool
  pub practical_fit : Bool
  pub geography_eligible : Bool
  pub actionable : Bool
  pub primary_source : Bool
  pub fabricated : Bool
  pub us_only : Bool
  pub senior_or_phd_mismatch : Bool

pub record JudgeRegistrySnapshot : Type 0 where
  pub snapshot_id : String
  pub known_well_keys : List String
  pub assessments : List RegistryLeadAssessment
  pub fingerprint : String

-- `a <= b` on texts
abbrev pub text_leb : String → String → Bool
text_leb a b = elim (Native.compare a b) [ Ordering.gt ↦ false | _ ↦ true ]

-- `sorted({…})`: a text that is there is not added again.
unfoldable pub add_text : String → List String → List String
add_text x [] = x ∷ []
add_text x (y ∷ ys) =
    let rest = add_text x ys in
    if str_eq x y then y ∷ ys else if text_leb x y then x ∷ y ∷ ys else y ∷ rest

unfoldable pub sorted_set : List String → List String
unfolding add_text
sorted_set [] = []
sorted_set (x ∷ xs) = add_text x (sorted_set xs)

-- `asdict(assessment)`
unfoldable pub assessment_dict : RegistryLeadAssessment → Json
assessment_dict a = obj (
    field "source_url" (str a.source_url) (
      field "real_open" (bool a.real_open) (
        field "practical_fit" (bool a.practical_fit) (
          field "geography_eligible" (bool a.geography_eligible) (
            field "actionable" (bool a.actionable) (
              field "primary_source" (bool a.primary_source) (
                field "fabricated" (bool a.fabricated) (
                  field "us_only" (bool a.us_only)
                    (field "senior_or_phd_mismatch" (bool a.senior_or_phd_mismatch) end)))))))))

unfoldable pub payload : String → List String → List RegistryLeadAssessment → Json
unfolding assessment_dict
payload snapshot_id known assessments = obj (
    field "snapshot_id" (str snapshot_id) (
      field "known_well_keys" (strings known)
        (field "assessments" (arr (array (map assessment_dict assessments))) end)))

module _ (rt : Runtime) where
  open rt use {lower, sha256, dumps}

  -- `fingerprint(value)`
  abbrev pub fingerprint_of : Json → String
  fingerprint_of j = sha256 (dumps j)

  -- `RegistryLeadAssessment.key`
  abbrev pub assessment_key : RegistryLeadAssessment → String
  assessment_key a = url_key lower a.source_url

  -- `sorted(assessments, key=…)`, which is stable
  unfoldable pub add_assessment :
      RegistryLeadAssessment → List RegistryLeadAssessment → List RegistryLeadAssessment
  unfolding url_key
  add_assessment a [] = a ∷ []
  add_assessment a (b ∷ bs) =
      let rest = add_assessment a bs in
      if text_leb (assessment_key a) (assessment_key b) then a ∷ b ∷ bs else b ∷ rest

  unfoldable pub sort_assessments : List RegistryLeadAssessment → List RegistryLeadAssessment
  unfolding add_assessment
  sort_assessments [] = []
  sort_assessments (a ∷ rest) = add_assessment a (sort_assessments rest)

  -- `JudgeRegistrySnapshot.create(snapshot_id, known_well_urls, assessments)`: what is hashed is the
  -- stripped identifier, what is kept is the identifier as given.
  unfoldable pub create_snapshot :
      String → List String → List RegistryLeadAssessment → Result Error JudgeRegistrySnapshot
  unfolding sorted_set sort_assessments is_distinct required_text payload
  create_snapshot snapshot_id known_well_urls assessments =
      let known = sorted_set (map (url_key lower) known_well_urls) in
      let sorted = sort_assessments assessments in
      do
        require (is_distinct (map assessment_key sorted))
            (value_error "judge registry assessments must have unique URLs")
        name ← required_text snapshot_id "snapshot_id"
        ok (record {
          snapshot_id = snapshot_id;
          known_well_keys = known;
          assessments = sorted;
          fingerprint = fingerprint_of (payload name known sorted);
        })

  abbrev pub fingerprint_now : JudgeRegistrySnapshot → String
  fingerprint_now s = fingerprint_of (payload s.snapshot_id s.known_well_keys s.assessments)

  -- `snapshot.verify()`
  unfoldable pub verify : JudgeRegistrySnapshot → Result Error (Unit {0})
  unfolding payload
  verify s =
      require (str_eq (fingerprint_now s) s.fingerprint)
        (value_error "judge registry snapshot hash mismatch")

  abbrev Created : String → JudgeRegistrySnapshot → Type 0
  Created id s =
      (s.snapshot_id ≡ id)
      × (s.fingerprint ≡ fingerprint_of (payload (strip id) s.known_well_keys s.assessments))

  required_text-Returns : (s label : String) → Returns (λ t. t ≡ strip s) (required_text s label)
  unfolding required_text
  required_text-Returns s label = elim (Bool-cases (is_blank s)) [
    | inl e ↦ rw e (Returns.raised)
    | inr e ↦ rw e (value refl)
  ]

  create-Created :
      (id : String) (urls : List String) (marks : List RegistryLeadAssessment)
      → Returns (Created id) (create_snapshot id urls marks)
  unfolding create_snapshot
  create-Created id urls marks =
      after_require (is_distinct (map assessment_key (sort_assessments marks))) _ _ λ _.
        after (required_text id "snapshot_id") λ name e.
          let stripped = Returns-ok (required_text-Returns id "snapshot_id") e in
          value (
            refl,
            ap
                (λ n.
                  fingerprint_of
                    (payload n (sorted_set (map (url_key lower) urls)) (sort_assessments marks)))
                stripped,
          )

  -- A snapshot that is created under an identifier without surrounding white space verifies.
  pub verify-create :
      (id : String) (urls : List String) (marks : List RegistryLeadAssessment)
      {s : JudgeRegistrySnapshot}
      → strip id ≡ id
      → create_snapshot id urls marks ≡ ok s
      → verify s ≡ ok tt
  unfolding verify
  verify-create id urls marks {s} clean h =
      let (named, hashed) = Returns-ok (create-Created id urls marks) h in
      let same : fingerprint_now s ≡ s.fingerprint =
        ap (λ n. fingerprint_of (payload n s.known_well_keys s.assessments)) (named ∙ sym clean)
        ∙ sym hashed in
      rw ((str_eq_iff (fingerprint_now s) s.fingerprint).1 same) refl

  -- A snapshot that is created under any other identifier never verifies, unless the hashes of the
  -- content with and without the white space collide.
  pub verify-create_padded :
      (id : String) (urls : List String) (marks : List RegistryLeadAssessment)
      {s : JudgeRegistrySnapshot}
      → create_snapshot id urls marks ≡ ok s
      → fingerprint_of (payload id s.known_well_keys s.assessments)
        ≢ fingerprint_of (payload (strip id) s.known_well_keys s.assessments)
      → verify s ≡ err (value_error "judge registry snapshot hash mismatch")
  unfolding verify
  verify-create_padded id urls marks {s} h differ =
      let (named, hashed) = Returns-ok (create-Created id urls marks) h in
      elim (Bool-cases (str_eq (fingerprint_now s) s.fingerprint)) [
        | inl e ↦ absurd (
            differ (
              ap (λ n. fingerprint_of (payload n s.known_well_keys s.assessments)) (sym named)
              ∙ (str_eq_iff (fingerprint_now s) s.fingerprint).0 e
              ∙ hashed))
        | inr e ↦ rw e refl
      ]
