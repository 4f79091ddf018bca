-- ===== src/Lab/Cases/Sound.antt =====
-- What `_validate_cases` promises of the suites that it returns.
use mathlib.Core.Bool.{false≢true}
use llm_evaluation_lab.Base.{
  ℕ, suc, String, ◌≡◌, ◌≢◌, refl, sym, ◌∙◌, false, List, [], ◌∷◌, All, Among, IsDistinct, map,
  arith, inl, inr,
}
use llm_evaluation_lab.Base.Result.{ok, bind-ok, ok-injective, raise_if-ok}
use llm_evaluation_lab.Text.{is_blank}
use llm_evaluation_lab.Json.{Json, obj, get}
use llm_evaluation_lab.Lab.Read.{
  contains, Among→contains, text_of, bool_of, array_of, text_of-ok, array_of-ok,
}
use llm_evaluation_lab.Lab.Cases.{
  Child, Case, validate_child, validate_children, validate_case, cases_from, validate_cases,
}

abbrev pub IsChild : Child → Type 0
IsChild c = (is_blank c.child_id ≡ false) × (is_blank c.status ≡ false)

abbrev pub IsCase : Case → Type 0
IsCase c = (is_blank c.variant_id ≡ false) × (c.children ≢ []) × All IsChild c.children

abbrev pub ids : List Case → List String
ids = map (λ c. c.variant_id)

-- A suite has a case; identifiers are distinct, and nothing that must be text is blank.
pub record IsSuite (cs : List Case) : Type 0 where
  pub inhabited : cs ≢ []
  pub distinct : IsDistinct (ids cs)
  pub cases : All IsCase cs

validate_child-IsChild : (i : ℕ) (j : Json) {c : Child} → validate_child i j ≡ ok c → IsChild c
unfolding validate_child
validate_child-IsChild i (obj fs) h =
    let (a, ea, ha) = bind-ok (text_of "child_id" (get "child_id" fs)) _ h in
    let (b, eb, hb) = bind-ok (text_of "status" (get "status" fs)) _ ha in
    ground (arith, text_of-ok "child_id" _ ea, text_of-ok "status" _ eb)
validate_child-IsChild i _ h = cc

validate_children-All :
    (i : ℕ) (raws : List Json) {cs : List Child}
    → validate_children i raws ≡ ok cs
    → All IsChild cs × (raws ≢ [] → cs ≢ [])
unfolding validate_children
validate_children-All i [] h = rw (← ok-injective h) (tt, λ ne e. ne refl)
validate_children-All i (raw ∷ raws) h =
    let (c, ec, hc) = bind-ok (validate_child i raw) _ h in
    let (r, er, hr) = bind-ok (validate_children (suc i) raws) _ hc in
    let rest = validate_children-All (suc i) raws er in
    rw (← ok-injective hr) ((validate_child-IsChild i raw ec, rest.0), λ _ e. cc)

-- One round: a case that is well formed, whose identifier is new.
validate_case-ok :
    (seen : List String) (i : ℕ) (j : Json) {c : Case}
    → validate_case seen i j ≡ ok c
    → IsCase c × (contains c.variant_id seen ≡ false)
unfolding validate_case
validate_case-ok seen i (obj fs) h =
    let (v, ev, hv) = bind-ok (text_of "variant_id" (get "variant_id" fs)) _ h in
    let (new, hn) = raise_if-ok (contains v seen) _ _ hv in
    let (b, eb, hb) = bind-ok (bool_of "expected_close" (get "expected_close" fs)) _ hn in
    let (raws, er, hr) = bind-ok (array_of "children" (get "children" fs)) _ hb in
    let (cs, ec, hc) = bind-ok (validate_children 0 raws) _ hr in
    let (well, some_child) = validate_children-All 0 raws ec in
    rw (← ok-injective hc) (
      (
        (text_of-ok "variant_id" _ ev).1,
        some_child (array_of-ok "children" (get "children" fs) er),
        well,
      ),
      new,
    )
validate_case-ok seen i _ h = cc

-- The identifiers that a run of the loop returns are new to it.
abbrev pub AreNew : List String → List Case → Type 0
AreNew seen = All (λ c. ¬ (Among c.variant_id seen))

AreNew-tail :
    (v : String) (seen : List String) (cs : List Case) → AreNew (v ∷ seen) cs → AreNew seen cs
AreNew-tail v seen [] h = tt
AreNew-tail v seen (c ∷ cs) h = ((λ m. h.0 (inr m)), AreNew-tail v seen cs h.1)

AreNew-head :
    (v : String) (seen : List String) (cs : List Case) → AreNew (v ∷ seen) cs → ¬ (Among v (ids cs))
AreNew-head v seen [] h m = m
AreNew-head v seen (c ∷ cs) h (inl e) = h.0 (inl (sym e))
AreNew-head v seen (c ∷ cs) h (inr m) = AreNew-head v seen cs h.1 m

cases_from-ok :
    (seen : List String) (i : ℕ) (raws : List Json) {cs : List Case}
    → cases_from seen i raws ≡ ok cs
    → All IsCase cs × AreNew seen cs × IsDistinct (ids cs) × (raws ≢ [] → cs ≢ [])
unfolding cases_from
cases_from-ok seen i [] h = rw (← ok-injective h) (tt, tt, tt, λ ne e. ne refl)
cases_from-ok seen i (raw ∷ raws) h =
    let (c, ec, hc) = bind-ok (validate_case seen i raw) _ h in
    let (r, er, hr) = bind-ok (cases_from (c.variant_id ∷ seen) (suc i) raws) _ hc in
    let (well, new) = validate_case-ok seen i raw ec in
    let (wells, news, distinct, _) = cases_from-ok (c.variant_id ∷ seen) (suc i) raws er in
    rw (← ok-injective hr) (
      (well, wells),
      (
        (λ m. false≢true (sym new ∙ Among→contains c.variant_id seen m)),
        AreNew-tail c.variant_id seen r news,
      ),
      (AreNew-head c.variant_id seen r news, distinct),
      λ _ e. cc,
    )

-- A suite that `_validate_cases` returns has a case, its identifiers are pairwise distinct, and in
-- every case the identifier, the children and each child's two texts are not blank or empty.
pub validate_cases-IsSuite : (j : Json) {cs : List Case} → validate_cases j ≡ ok cs → IsSuite cs
unfolding validate_cases
validate_cases-IsSuite j h =
    let (raws, er, hr) = bind-ok (array_of "inputs" j) _ h in
    let (wells, _, distinct, inhabited) = cases_from-ok [] 0 raws hr in
    record { inhabited = inhabited (array_of-ok "inputs" j er); distinct = distinct; cases = wells }
