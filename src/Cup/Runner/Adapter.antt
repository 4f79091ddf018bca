-- ===== src/Cup/Runner/Adapter.antt =====
-- search_cup/providers.py: what an entrant does with its tools, as the tree of its calls and its
-- answers to their results. A provider that never stops is no such tree.
use Prim.Native.String.{◌++◌ as append}
use llm_evaluation_lab.Base.{ℕ, suc, String, List, [], ◌∷◌, length, ◌||◌, true, false}
use llm_evaluation_lab.Base.Int.{pos}
use llm_evaluation_lab.Base.Result.{Result, ok, err, ◌>>◌}
use llm_evaluation_lab.Text.{is_blank_text}
use llm_evaluation_lab.Cup.Error.{Error, value_error, other}
use llm_evaluation_lab.Cup.Contracts.{
  EntrantConfig, Lead, SearchResult, SearchTrace, UrlReadResult, Submission, check_submission,
}
use llm_evaluation_lab.Cup.Tools.{Moment, Backend, SearchProxy, search, UrlFixtures, read_page}

pub data Play : Type 0 where
  submits : Submission → Play  -- the constructor's checks included
  raises : Error → Play
  search_web : Moment → String → (Result Error (List SearchResult) → Play) → Play
  read_url : String → (Result Error UrlReadResult → Play) → Play
  sees : (List SearchTrace → Play) → Play  -- `tools.traces` and `tools.search_calls`

-- The arguments of `EntrantProvider.run`
pub record Invitation : Type 0 where
  pub candidate_content : String
  pub competition_content : String
  pub candidate_fingerprint : String
  pub competition_fingerprint : String
  pub entrant : EntrantConfig

abbrev pub Provider : Type 0
Provider = Invitation → Play

-- `EntrantTools` on a proxy, for as long as the provider runs
unfoldable pub play :
    (ℕ → String)
    → Backend
    → UrlFixtures
    → Play
    → SearchProxy
    → Result Error Submission × SearchProxy
unfolding search read_page check_submission
play show backend pages (submits s) p = (check_submission s >> ok s, p)
play show backend pages (raises e) p = (err e, p)
play show backend pages (search_web m query k) p =
    play show backend pages (k (search show m backend query p).0) (search show m backend query p).1
play show backend pages (read_url url k) p = play show backend pages (k (read_page pages url)) p
play show backend pages (sees k) p = play show backend pages (k p.traces) p

-- `FakeProvider`; its clock is read before the n-th search.
pub record FakeProvider : Type 0 where
  pub moment : ℕ → Moment
  pub queries : List String
  pub leads : List Lead
  pub apply_now_urls : List String
  pub search_strategy_summary : String
  pub rejected_or_downgraded : List String
  pub uncertainties : List String

-- `for result in results: tools.read_url(result.url)`
unfoldable pub read_all : List SearchResult → Play → Play
read_all [] next = next
read_all (r ∷ rs) next =
    let rest = read_all rs next in
    read_url r.url λ answer. elim answer [ err e ↦ raises e | ok _ ↦ rest ]

-- `for query in self.queries`
unfoldable pub query_all : (ℕ → Moment) → ℕ → List String → Play → Play
unfolding read_all
query_all moment n [] next = next
query_all moment n (query ∷ queries) next =
    let rest = query_all moment (suc n) queries next in
    search_web (moment n) query
      λ answer. elim answer [ err e ↦ raises e | ok results ↦ read_all results rest ]

abbrev pub fake_submission : FakeProvider → Invitation → ℕ → Submission
fake_submission self i calls = record {
  entrant = i.entrant;
  candidate_fingerprint = i.candidate_fingerprint;
  competition_fingerprint = i.competition_fingerprint;
  leads = self.leads;
  apply_now_urls = self.apply_now_urls;
  search_strategy_summary = self.search_strategy_summary;
  rejected_or_downgraded = self.rejected_or_downgraded;
  uncertainties = self.uncertainties;
  search_calls = pos calls;
}

-- `FakeProvider.run`
unfoldable pub fake_run : FakeProvider → Provider
unfolding query_all
fake_run self i = elim (is_blank_text i.candidate_content || is_blank_text i.competition_content) [
  | true ↦ raises (value_error "canonical candidate and competition content are required")
  | false ↦
      query_all self.moment 0 self.queries
        (sees λ traces. submits (fake_submission self i (length traces)))
]

-- `FailingFakeProvider.run`
abbrev pub failing_run : String → Provider
failing_run message i = raises (other "RuntimeError" message)

-- `LockedLiveProvider.run`
abbrev pub locked_run : String → Provider
locked_run provider i = raises (
    other "LiveProviderNotImplemented" (append provider ": live adapters are outside ENG-SC-01-P0"))
