-- ===== src/Lab/Cases/RoundTrip.antt =====
-- Every well-formed suite is accepted: its document is read back as the suite itself.
use llm_evaluation_lab.Base.{
  ℕ, suc, String, ◌≡◌, ◌≢◌, ◌↔◌, refl, sym, false, List, [], ◌∷◌, All, Among, IsDistinct, map, inl,
  inr,
}
use llm_evaluation_lab.Base.Result.{ok}
use llm_evaluation_lab.Json.{Json, arr, get, array, items-array}
use llm_evaluation_lab.Lab.Read.{contains, contains_of_new, bool_of, array_of, text_of-str}
use llm_evaluation_lab.Lab.Cases.{
  Child, Case, validate_child, validate_children, validate_case, cases_from, validate_cases,
  child_document, case_document, cases_document,
}
use llm_evaluation_lab.Lab.Cases.Sound.{
  IsChild, IsCase, IsSuite, AreNew, ids, validate_cases-IsSuite,
}

array_of-array : (key : String) (js : List Json) → js ≢ [] → array_of key (arr (array js)) ≡ ok js
unfolding array_of array
array_of-array key [] ne = absurd (ne refl)
array_of-array key (j ∷ js) ne = rw (items-array (j ∷ js))

map-ne-nil : (cs : List Child) → cs ≢ [] → map child_document cs ≢ []
map-ne-nil [] ne e = ne refl
map-ne-nil (c ∷ cs) ne e = cc

validate_child-document :
    (i : ℕ) (c : Child) → IsChild c → validate_child i (child_document c) ≡ ok c
unfolding validate_child child_document get
validate_child-document i c h =
    rw (text_of-str "child_id" c.child_id h.0) (rw (text_of-str "status" c.status h.1))

validate_children-document :
    (i : ℕ) (cs : List Child) → All IsChild cs → validate_children i (map child_document cs) ≡ ok cs
unfolding validate_children
validate_children-document i [] h = refl
validate_children-document i (c ∷ cs) h =
    rw (validate_child-document i c h.0) (rw (validate_children-document (suc i) cs h.1))

validate_case-document :
    (seen : List String) (i : ℕ) (c : Case)
    → IsCase c
    → contains c.variant_id seen ≡ false
    → validate_case seen i (case_document c) ≡ ok c
unfolding validate_case case_document get bool_of
validate_case-document seen i c h new = rw (text_of-str "variant_id" c.variant_id h.0) (
    rw new (
      rw (array_of-array "children" (map child_document c.children) (map-ne-nil c.children h.1))
        (rw (validate_children-document 0 c.children h.2))))

-- The identifiers seen so far are apart from those to come.
AreNew-cons :
    (v : String) (seen : List String) (cs : List Case)
    → ¬ (Among v (ids cs))
    → AreNew seen cs
    → AreNew (v ∷ seen) cs
AreNew-cons v seen [] apart h = tt
AreNew-cons v seen (c ∷ cs) apart h = (
  λ m. elim m [ inl e ↦ apart (inl (sym e)) | inr m' ↦ h.0 m' ],
  AreNew-cons v seen cs (λ m. apart (inr m)) h.1,
)

cases_from-document :
    (seen : List String) (i : ℕ) (cs : List Case)
    → All IsCase cs
    → AreNew seen cs
    → IsDistinct (ids cs)
    → cases_from seen i (map case_document cs) ≡ ok cs
unfolding cases_from
cases_from-document seen i [] h new d = refl
cases_from-document seen i (c ∷ cs) h new d =
    rw (validate_case-document seen i c h.0 (contains_of_new c.variant_id seen new.0)) (
      rw (
        cases_from-document (c.variant_id ∷ seen) (suc i) cs h.1
          (AreNew-cons c.variant_id seen cs d.0 new.1) d.1))

AreNew-nil : (cs : List Case) → AreNew [] cs
AreNew-nil [] = tt
AreNew-nil (c ∷ cs) = ((λ m. m), AreNew-nil cs)

map-case-ne-nil : (cs : List Case) → cs ≢ [] → map case_document cs ≢ []
map-case-ne-nil [] ne e = ne refl
map-case-ne-nil (c ∷ cs) ne e = cc

-- `_validate_cases` reads a suite's document back as the suite exactly when the suite is well
-- formed: it has a case, distinct identifiers, a child in every case, and no blank text.
pub validate_cases-document_iff :
    (cs : List Case) → (validate_cases (cases_document cs) ≡ ok cs) ↔ IsSuite cs
unfolding validate_cases cases_document
validate_cases-document_iff cs = (
  λ h. validate_cases-IsSuite (arr (array (map case_document cs))) (unfold validate_cases in h),
  λ w.
      rw (array_of-array "inputs" (map case_document cs) (map-case-ne-nil cs w.inhabited))
        (cases_from-document [] 0 cs w.cases (AreNew-nil cs) w.distinct),
)
