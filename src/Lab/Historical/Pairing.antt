-- ===== src/Lab/Historical/Pairing.antt =====
-- A benchmark that loads has one TRAP and one CONTROL for each mechanism, and nothing else.
use llm_evaluation_lab.Base.{
  ℕ, suc, ◌+◌, String, ◌≡◌, refl, subst, Bool, true, false, ◌&&◌, not, List, [], ◌∷◌, All, Among,
  arith, filter, count, is_empty, str_eq, str_eq_iff, if◌then◌else◌, inl, inr, Bool-cases,
}
use llm_evaluation_lab.Base.Result.{ok, Returns, value, after, after_require, Returns-ok}
use llm_evaluation_lab.Json.{Json}
use llm_evaluation_lab.Lab.Read.{contains, array_of}
use llm_evaluation_lab.Lab.Historical.{
  HistoricalCase, PairVariants, add_variant, is_pair, incomplete_ids, validate_historical_case,
  historical_from, validate_historical_cases,
}
use llm_evaluation_lab.Lab.Historical.Rounds.{IsHistoricalCase, validate_historical_case-Returns}

abbrev pub is_variant : String → String → HistoricalCase → Bool
is_variant m v c = str_eq c.mechanism_id m && str_eq c.variant v

abbrev pub bit : Bool → ℕ
bit b = if b then 1 else 0

str_eq_sym : (s t : String) → str_eq s t ≡ str_eq t s
str_eq_sym s t = ground (arith, str_eq_iff s t, str_eq_iff t s)

-- Noting a variant that is new to its mechanism adds one to that pair's count alone.
bit-add_variant :
    (m v k w : String) (pairs : PairVariants)
    → contains w (pairs k) ≡ false
    → bit (contains v (pairs m)) + bit (str_eq k m && str_eq w v)
      ≡ bit (contains v (add_variant k w pairs m))
unfolding add_variant
bit-add_variant m v k w pairs fresh = elim (Bool-cases (str_eq k m)) [
  | inl e ↦
      let stale : contains w (pairs m) ≡ false =
        subst (λ x. contains w (pairs x) ≡ false) ((str_eq_iff k m).0 e) fresh in
      rw e (elim (Bool-cases (str_eq w v)) [
        | inl e' ↦
            let old : contains v (pairs m) ≡ false =
              subst (λ x. contains x (pairs m) ≡ false) ((str_eq_iff w v).0 e') stale in
            rw (str_eq_sym v w) (rw (e', old) refl)
        | inr e' ↦ rw (str_eq_sym v w) (rw e' (omega arith))
      ])
  | inr e ↦ rw e (omega arith)
]

-- What a finished loop knows of its cases.
abbrev pub KnownCase : List String → HistoricalCase → Type 0
KnownCase mechanism_ids c =
    IsHistoricalCase c
    × (contains c.mechanism_id mechanism_ids ≡ true)
    × (contains c.variant ("TRAP" ∷ "CONTROL" ∷ []) ≡ true)

abbrev Noted : List String → PairVariants → List HistoricalCase × PairVariants → Type 0
Noted mechanism_ids pairs result =
    All (KnownCase mechanism_ids) result.0
    × ((m v : String)
        → bit (contains v (pairs m)) + count (is_variant m v) result.0
          ≡ bit (contains v (result.1 m)))

count-cons :
    (m v : String) (c : HistoricalCase) (cs : List HistoricalCase)
    → count (is_variant m v) (c ∷ cs) ≡ bit (is_variant m v c) + count (is_variant m v) cs
count-cons m v c cs = ground arith

historical_from-Returns :
    (mechanism_ids seen : List String) (pairs : PairVariants) (i : ℕ) (raws : List Json)
    → Returns (Noted mechanism_ids pairs) (historical_from mechanism_ids seen pairs i raws)
unfolding historical_from
historical_from-Returns mechanism_ids seen pairs i [] = value (tt, λ m v. omega arith)
historical_from-Returns mechanism_ids seen pairs i (raw ∷ raws) =
    after (validate_historical_case mechanism_ids seen pairs i raw) λ c one.
      let pairs' = add_variant c.mechanism_id c.variant pairs in
      after (historical_from mechanism_ids (c.variant_id ∷ seen) pairs' (suc i) raws) λ rest more.
        let round =
          Returns-ok (validate_historical_case-Returns mechanism_ids seen pairs i raw) one in
        let (known, noted) =
          Returns-ok
            (historical_from-Returns mechanism_ids (c.variant_id ∷ seen) pairs' (suc i) raws)
            more in
        value (
          ((round.well, round.known, round.variant), known),
          λ m v. rw (count-cons m v c rest.0) (
              omega
                (arith, noted m v, bit-add_variant m v c.mechanism_id c.variant pairs round.fresh)),
        )

filter-empty :
    {A : Type 0} (test : A → Bool) (xs : List A) (a : A)
    → is_empty (filter test xs) ≡ true
    → Among a xs
    → test a ≡ false
filter-empty test [] a h m = absurd m
filter-empty test (x ∷ xs) a h (inl e) = ground arith
filter-empty test (x ∷ xs) a h (inr m) = ground (arith, filter-empty test xs a)

-- Every mechanism has one TRAP and one CONTROL, and every case belongs to a mechanism.
pub record IsPaired (mechanism_ids : List String) (cs : List HistoricalCase) : Type 0 where
  pub trap : (m : String) → Among m mechanism_ids → count (is_variant m "TRAP") cs ≡ 1
  pub control : (m : String) → Among m mechanism_ids → count (is_variant m "CONTROL") cs ≡ 1
  pub known : All (KnownCase mechanism_ids) cs

is_pair-both :
    (vs : List String)
    → is_pair vs ≡ true
    → (contains "TRAP" vs ≡ true) × (contains "CONTROL" vs ≡ true)
unfolding is_pair
is_pair-both vs h = ground arith

module _ (mechanism_ids : List String) (result : List HistoricalCase × PairVariants)
    (noted : Noted mechanism_ids (λ m. []) result)
    (complete : is_empty (incomplete_ids mechanism_ids result.1) ≡ true) where
  both :
      (m : String)
      → Among m mechanism_ids
      → (contains "TRAP" (result.1 m) ≡ true) × (contains "CONTROL" (result.1 m) ≡ true)
  unfolding incomplete_ids
  both m here =
      is_pair-both (result.1 m) (
        ground
          (arith, filter-empty (λ k. not (is_pair (result.1 k))) mechanism_ids m complete here))

  IsPaired-of_Noted : IsPaired mechanism_ids result.0
  IsPaired-of_Noted = record {
    trap = λ m here. ground (arith, noted.1 m "TRAP", both m here);
    control = λ m here. ground (arith, noted.1 m "CONTROL", both m here);
    known = noted.0;
  }

validate_historical_cases-Returns :
    (mechanism_ids : List String) (j : Json)
    → Returns (IsPaired mechanism_ids) (validate_historical_cases mechanism_ids j)
unfolding validate_historical_cases
validate_historical_cases-Returns mechanism_ids j = after (array_of "inputs" j) λ raws _.
    after (historical_from mechanism_ids [] (λ m. []) 0 raws) λ result run.
      after_require (is_empty (incomplete_ids mechanism_ids result.1)) _ _ λ complete. value (
        IsPaired-of_Noted mechanism_ids result
          (Returns-ok (historical_from-Returns mechanism_ids [] (λ m. []) 0 raws) run) complete)

-- If the cases are accepted, each mechanism has exactly one TRAP case and exactly one CONTROL case,
-- and every case is of a listed mechanism, is one of the two variants and is well formed.
pub validate_historical_cases-IsPaired :
    (mechanism_ids : List String) (j : Json) {cs : List HistoricalCase}
    → validate_historical_cases mechanism_ids j ≡ ok cs
    → IsPaired mechanism_ids cs
validate_historical_cases-IsPaired mechanism_ids j h =
    Returns-ok (validate_historical_cases-Returns mechanism_ids j) h
