-- ===== src/Lab/Historical/Load.antt =====
-- What `load_historical_benchmark` promises of a suite that it returns.
use llm_evaluation_lab.Base.{
  ℕ, suc, ◌*◌, String, ◌≡◌, sym, ◌∙◌, false, List, [], ◌∷◌, All, Among, IsDistinct, map, length,
  length-map, str_eq, str_eq_iff, inl, inr, ◌==◌, ==_iff, subst, ◌<◌,
}
use mathlib.Core.Bool.{false≢true}
use llm_evaluation_lab.Base.Result.{
  ok, Returns, Returns-map, value, raised, after, after_require, after_raise_if, Returns-ok,
}
use llm_evaluation_lab.Json.{Json, obj, get}
use llm_evaluation_lab.Lab.Read.{
  contains, Among→contains, array_of, required_text, positive_integer, positive_integer-pos,
}
use llm_evaluation_lab.Lab.Historical.{
  Mechanism, HistoricalBenchmarkSuite, validate_mechanism, mechanisms_from, validate_mechanisms,
  validate_historical_cases, object_of, load_historical_benchmark,
}
use llm_evaluation_lab.Lab.Historical.Pairing.{IsPaired, validate_historical_cases-IsPaired}
use llm_evaluation_lab.Lab.Historical.Count.{length_of_IsPaired}

abbrev pub mechanism_ids : List Mechanism → List String
mechanism_ids = map (λ m. m.mechanism_id)

IsNew : List String → Mechanism → Type 0
IsNew seen m = contains m.mechanism_id seen ≡ false

validate_mechanism-Returns :
    (seen : List String) (i : ℕ) (j : Json) → Returns (IsNew seen) (validate_mechanism seen i j)
unfolding validate_mechanism IsNew
validate_mechanism-Returns seen i (obj raw) = after (required_text raw "mechanism_id") λ m _.
    after_raise_if (contains m seen) _ _ λ new. after (required_text raw "name") λ name _.
      after (required_text raw "gate")
        λ gate _. after (required_text raw "source_categories") λ categories _. value new
validate_mechanism-Returns seen i _ = raised

-- Distinct identifiers, none of them seen before.
AreNew : List String → List Mechanism → Type 0
AreNew seen ms = IsDistinct (mechanism_ids ms) × All (λ k. ¬ (Among k seen)) (mechanism_ids ms)

All-drop :
    (v : String) (seen ks : List String)
    → All (λ k. ¬ (Among k (v ∷ seen))) ks
    → (¬ (Among v ks)) × All (λ k. ¬ (Among k seen)) ks
All-drop v seen [] h = ((λ m. m), tt)
All-drop v seen (k ∷ ks) h =
    let (apart, rest) = All-drop v seen ks h.1 in
    ((λ m. elim m [ inl e ↦ h.0 (inl (sym e)) | inr m' ↦ apart m' ]), ((λ m. h.0 (inr m)), rest))

mechanisms_from-Returns :
    (seen : List String) (i : ℕ) (raws : List Json)
    → Returns (AreNew seen) (mechanisms_from seen i raws)
unfolding mechanisms_from AreNew IsNew
mechanisms_from-Returns seen i [] = value (tt, tt)
mechanisms_from-Returns seen i (raw ∷ raws) = after (validate_mechanism seen i raw) λ m one.
    after (mechanisms_from (m.mechanism_id ∷ seen) (suc i) raws) λ ms rest.
      let new = Returns-ok (validate_mechanism-Returns seen i raw) one in
      let (distinct, news) =
        Returns-ok (mechanisms_from-Returns (m.mechanism_id ∷ seen) (suc i) raws) rest in
      let (apart, old) = All-drop m.mechanism_id seen (mechanism_ids ms) news in
      value (
        (apart, distinct),
        ((λ here. false≢true (sym new ∙ Among→contains m.mechanism_id seen here)), old),
      )

validate_mechanisms-Returns :
    (j : Json) → Returns (λ ms. IsDistinct (mechanism_ids ms)) (validate_mechanisms j)
unfolding validate_mechanisms AreNew
validate_mechanisms-Returns j =
    after (array_of "mechanisms" j)
      λ raws _. Returns-map (λ ms h. h.0) (mechanisms_from-Returns [] 0 raws)

pub record IsBenchmark (s : HistoricalBenchmarkSuite) : Type 0 where
  pub public : s.privacy ≡ "PUBLIC_SAFE"
  pub distinct : IsDistinct (mechanism_ids s.mechanisms)
  pub paired : IsPaired (mechanism_ids s.mechanisms) s.cases
  pub inhabited : 0 < length s.cases
  pub sized : length s.cases ≡ 2 * length s.mechanisms

load_historical_benchmark-Returns : (j : Json) → Returns IsBenchmark (load_historical_benchmark j)
unfolding load_historical_benchmark
load_historical_benchmark-Returns j = after (object_of "case document" j) λ root _.
    after (object_of "historical_benchmark" (get "historical_benchmark" root)) λ document _.
      after (required_text document "privacy") λ privacy _.
        after_require (str_eq privacy "PUBLIC_SAFE") _ _ λ public.
          after (object_of "source_scope" (get "source_scope" document)) λ scope _.
            after (validate_mechanisms (get "mechanisms" document)) λ ms read.
              after (validate_historical_cases (mechanism_ids ms) (get "inputs" document))
                λ cs accepted. after (positive_integer scope "mechanism_clusters") λ clusters _.
                  after (positive_integer scope "public_cases") λ declared positive.
                    after_require (clusters == length ms) _ _ λ _.
                      after_require (declared == length cs) _ _ λ counted.
                        after (required_text document "benchmark_id") λ benchmark_id _.
                          after (required_text document "title") λ title _.
                            after (required_text document "run_id") λ run_id _.
                              after (positive_integer scope "observations") λ observations _.
                                after (positive_integer scope "raw_categories") λ categories _.
                                  let distinct =
                                    Returns-ok
                                      (validate_mechanisms-Returns (get "mechanisms" document))
                                      read in
                                  let paired =
                                    validate_historical_cases-IsPaired (mechanism_ids ms)
                                      (get "inputs" document) accepted in
                                  value (record {
                                    public = (str_eq_iff privacy "PUBLIC_SAFE").0 public;
                                    distinct = distinct;
                                    paired = paired;
                                    inhabited =
                                        subst (λ n. 0 < n) ((==_iff declared (length cs)).0 counted)
                                          (positive_integer-pos scope "public_cases" positive);
                                    sized =
                                        rw (← length-map (λ (m : Mechanism). m.mechanism_id) ms) (
                                          length_of_IsPaired (mechanism_ids ms) cs distinct paired);
                                  })

-- A benchmark that loads is PUBLIC_SAFE, its mechanisms are distinct, each has exactly one TRAP and
-- one CONTROL case, and it has twice as many cases as mechanisms and at least one.
pub load_historical_benchmark-IsBenchmark :
    (j : Json) {s : HistoricalBenchmarkSuite} → load_historical_benchmark j ≡ ok s → IsBenchmark s
load_historical_benchmark-IsBenchmark j h = Returns-ok (load_historical_benchmark-Returns j) h
