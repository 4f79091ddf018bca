-- ===== src/Lab/Historical/Count.antt =====
-- The declared counts of a benchmark that loads: two cases for each mechanism.
use llm_evaluation_lab.Base.{
  ℕ, suc, ◌+◌, ◌*◌, String, ◌≡◌, refl, sym, ap, subst, Bool, true, ◌&&◌, List, [], ◌∷◌, All, Among,
  IsDistinct, arith, count, length, str_eq, str_eq_iff, inl, inr, Bool-cases,
}
use llm_evaluation_lab.Lab.Read.{contains}
use llm_evaluation_lab.Lab.Historical.{HistoricalCase}
use llm_evaluation_lab.Lab.Historical.Pairing.{KnownCase, IsPaired, bit, is_variant}

of_mechanism : String → HistoricalCase → Bool
of_mechanism m c = str_eq c.mechanism_id m

abbrev Splits : Bool → String → Type 0
Splits e w = bit e ≡ bit (e && str_eq w "TRAP") + bit (e && str_eq w "CONTROL")

-- A case of a mechanism is its TRAP or its CONTROL, and not both.
split-variant : (e : Bool) (w : String) → contains w ("TRAP" ∷ "CONTROL" ∷ []) ≡ true → Splits e w
split-variant e w h = elim (Bool-cases (str_eq w "TRAP")) [
  | inl t ↦ subst (Splits e) (sym ((str_eq_iff w "TRAP").0 t)) (ground arith)
  | inr f ↦ subst (Splits e) (sym ((str_eq_iff w "CONTROL").0 (ground arith))) (ground arith)
]

count-split :
    (mechanism_ids : List String) (m : String) (cs : List HistoricalCase)
    → All (KnownCase mechanism_ids) cs
    → count (of_mechanism m) cs ≡ count (is_variant m "TRAP") cs + count (is_variant m "CONTROL") cs
unfolding of_mechanism
count-split mechanism_ids m [] h = omega arith
count-split mechanism_ids m (c ∷ cs) h = ground (
  arith,
  split-variant (str_eq c.mechanism_id m) c.variant h.0.2,
  count-split mechanism_ids m cs h.1,
)

-- How often a name stands in a list of distinct names.
count-absent : (k : String) (xs : List String) → ¬ (Among k xs) → count (str_eq k) xs ≡ 0
count-absent k [] h = refl
count-absent k (x ∷ xs) h = elim (Bool-cases (str_eq k x)) [
  | inl e ↦ absurd (h (inl ((str_eq_iff k x).0 e)))
  | inr e ↦ rw e (count-absent k xs (λ m. h (inr m)))
]

count-distinct :
    (k : String) (xs : List String) → IsDistinct xs → contains k xs ≡ true → count (str_eq k) xs ≡ 1
count-distinct k [] d h = cc
count-distinct k (x ∷ xs) d h = elim (Bool-cases (str_eq k x)) [
  | inl e ↦
      rw e
        (ap suc (count-absent k xs (subst (λ y. ¬ (Among y xs)) (sym ((str_eq_iff k x).0 e)) d.0)))
  | inr e ↦ rw e (count-distinct k xs d.1 (ground arith))
]

total : List String → List HistoricalCase → ℕ
total [] cs = 0
total (m ∷ ms) cs = count (of_mechanism m) cs + total ms cs

total-nil : (ms : List String) → total ms [] ≡ 0
unfolding total
total-nil [] = refl
total-nil (m ∷ ms) = omega (arith, total-nil ms)

total-cons :
    (ms : List String) (c : HistoricalCase) (cs : List HistoricalCase)
    → total ms (c ∷ cs) ≡ count (str_eq c.mechanism_id) ms + total ms cs
unfolding total of_mechanism
total-cons [] c cs = omega arith
total-cons (m ∷ ms) c cs = ground (arith, total-cons ms c cs)

total-eq-length :
    (ms : List String) (cs : List HistoricalCase)
    → IsDistinct ms
    → All (KnownCase ms) cs
    → total ms cs ≡ length cs
total-eq-length ms [] d h = total-nil ms
total-eq-length ms (c ∷ cs) d h = omega (
  arith,
  total-cons ms c cs,
  count-distinct c.mechanism_id ms d h.0.1,
  total-eq-length ms cs d h.1,
)

total_of_pairs :
    (ms : List String) (cs : List HistoricalCase)
    → ((m : String) → Among m ms → count (of_mechanism m) cs ≡ 2)
    → total ms cs ≡ 2 * length ms
unfolding total
total_of_pairs [] cs h = refl
total_of_pairs (m ∷ ms) cs h =
    omega (arith, h m (inl refl), total_of_pairs ms cs (λ k here. h k (inr here)))

-- Distinct mechanisms with a TRAP and a CONTROL each have twice as many cases.
pub length_of_IsPaired :
    (ms : List String) (cs : List HistoricalCase)
    → IsDistinct ms
    → IsPaired ms cs
    → length cs ≡ 2 * length ms
length_of_IsPaired ms cs d p = omega (
  arith,
  total-eq-length ms cs d p.known,
  total_of_pairs ms cs
      (λ m here. omega (arith, count-split ms m cs p.known, p.trap m here, p.control m here)),
)
