-- ===== src/Cup/Competition/Fair.antt =====
-- A competition is fair: four entrants with distinct identifiers, one of each provider, and the same
-- budget for each.
use llm_evaluation_lab.Base.{
  ℕ, String, true, ◌≡◌, not, ◌&&◌, List, [], ◌∷◌, map, all, All, Among, IsDistinct, length, ◌==◌,
  ==_iff, and-true, arith,
}
use llm_evaluation_lab.Base.Result.{ok, Returns, value, after, after_require, Returns-ok}
use llm_evaluation_lab.Base.Int.{pos}
use llm_evaluation_lab.Json.{Json, Fields, int, get}
use llm_evaluation_lab.Lab.Read.{contains, contains→Among, Among→contains}
use llm_evaluation_lab.Cup.Contracts.{Runtime, EntrantConfig}
use llm_evaluation_lab.Cup.Documents.{text_of, bool_of}
use llm_evaluation_lab.Cup.Competition.{
  four_of, entrants_from, CompetitionSpec, is_distinct, same_set, budget_of, four_providers,
  competition_from,
}

is_distinct-IsDistinct : (xs : List String) → is_distinct xs ≡ true → IsDistinct xs
unfolding is_distinct
is_distinct-IsDistinct [] h = tt
is_distinct-IsDistinct (x ∷ xs) h =
    let (new, rest) = and-true (not (contains x xs)) (is_distinct xs) h in
    ((λ m. let e = Among→contains x xs m in ground arith), is_distinct-IsDistinct xs rest)

all-Among : (xs ys : List String) → all (λ x. contains x ys) xs ≡ true → All (λ x. Among x ys) xs
all-Among [] ys h = tt
all-Among (x ∷ xs) ys h =
    let (a, b) = and-true (contains x ys) (all (λ x. contains x ys) xs) h in
    (contains→Among x ys a, all-Among xs ys b)

budget_of-twenty : (j : Json) {n : ℕ} → budget_of j ≡ ok n → n ≡ 20
budget_of-twenty (int (pos m)) h = ground arith
budget_of-twenty _ h = cc

module _ (rt : Runtime) where
  open rt use {lower}

  pub record IsFair (c : CompetitionSpec) : Type 0 where
    pub budget : c.max_search_calls ≡ 20
    pub four : length c.entrants ≡ 4
    pub identified : IsDistinct (map (λ (e : EntrantConfig). e.entrant_id) c.entrants)
    pub distinct : IsDistinct (map (λ (e : EntrantConfig). lower e.provider) c.entrants)
    pub known :
        All (λ p. Among p four_providers) (map (λ (e : EntrantConfig). lower e.provider) c.entrants)
    pub present :
        All (λ p. Among p (map (λ (e : EntrantConfig). lower e.provider) c.entrants)) four_providers

  competition_from-Returns : (document : Fields) → Returns IsFair (competition_from rt document)
  unfolding competition_from
  competition_from-Returns document =
      after (text_of (get "competition_id" document) "competition_id") λ id _.
        after (text_of (get "task" document) "task") λ task _.
          after (text_of (get "search_backend_id" document) "search_backend_id") λ backend _.
            after (budget_of (get "max_search_calls" document)) λ budget eb.
              after (bool_of (get "official_match_authorized" document) "official_match_authorized")
                λ authorized _. after (four_of (get "entrants" document)) λ raw _.
                  after (entrants_from rt raw) λ entrants _.
                    let ids = map (λ (e : EntrantConfig). e.entrant_id) entrants in
                    let providers = map (λ (e : EntrantConfig). lower e.provider) entrants in
                    after_require (length entrants == 4) _ _ λ four.
                      after_require (is_distinct ids && is_distinct providers) _ _ λ distinct.
                        after_require (same_set providers four_providers) _ _ λ set.
                          let (di, dp) =
                            and-true (is_distinct ids) (is_distinct providers) distinct in
                          let (known, present) =
                            and-true (all (λ x. contains x four_providers) providers)
                              (all (λ x. contains x providers) four_providers) set in
                          value (record {
                            budget = budget_of-twenty (get "max_search_calls" document) eb;
                            four = (==_iff (length entrants) 4).0 four;
                            identified = is_distinct-IsDistinct ids di;
                            distinct = is_distinct-IsDistinct providers dp;
                            known = all-Among providers four_providers known;
                            present = all-Among four_providers providers present;
                          })

  -- A competition that is read has a budget of 20 calls and four entrants with distinct identifiers,
  -- whose providers in lower case are distinct and are the four known ones.
  pub competition_from-IsFair :
      (document : Fields) {c : CompetitionSpec} → competition_from rt document ≡ ok c → IsFair c
  competition_from-IsFair document h = Returns-ok (competition_from-Returns document) h
