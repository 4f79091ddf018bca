-- ===== src/Protocol/Spec/Judgment.antt =====
-- A spec of the track JUDGMENT_ONLY reaches no backend, in its declaration and in its ledgers.
use llm_evaluation_lab.Base.{
  String, true, false, not, ◌||◌, ◌≡◌, refl, sym, subst, none, List, [], ◌∷◌, All, All-append,
  or-false, not-false, str_eq_iff, arith, if◌then◌else◌,
}
use llm_evaluation_lab.Base.Result.{ok, then_iff, raise_if_iff}
use llm_evaluation_lab.Json.{Json, str, obj, Fields, get, truthy}
use llm_evaluation_lab.Cup.Contracts.{Runtime}
use llm_evaluation_lab.Protocol.Safety.{Texts}
use llm_evaluation_lab.Protocol.Event.{
  EventKind, search_event, verify_event, model_event, Event, SearchSpec,
}
use llm_evaluation_lab.Protocol.Ledger.{check_unit, ResourceLedger, ledger}
use llm_evaluation_lab.Protocol.Ledger.Rules.{History, start, next, ledger-History}
use llm_evaluation_lab.Protocol.Controls.{at, is_text, is_null}
use llm_evaluation_lab.Protocol.Spec.{Clock, is_zero_count}
use llm_evaluation_lab.Protocol.Spec.Validate.{
  check_judgment_only, check_search_track, check_track, validate,
}
use llm_evaluation_lab.Protocol.Spec.Passed.{validate-IsPassed}
use llm_evaluation_lab.Protocol.Spec.Reader.{resources_of, spec_of}

-- An event that reached a backend is a model request.
abbrev pub IsOffline : Event → Type 0
IsOffline e = e.crossed_boundary ≡ true → e.kind ≡ model_event

unit-IsOffline :
    (spec : SearchSpec) (e : Event) (k : EventKind)
    → e.kind ≡ k
    → spec.track_id ≡ "JUDGMENT_ONLY"
    → spec.resources.search_unit ≡ none
    → check_unit spec e ≡ ok tt
    → IsOffline e
unfolding check_unit
unit-IsOffline spec e model_event same track unit h = λ c. same
unit-IsOffline spec e search_event same track unit h = λ c. ground (arith, h, same, unit, c)
unit-IsOffline spec e verify_event same track unit h = λ c.
    let judged = (str_eq_iff spec.track_id "JUDGMENT_ONLY").1 track in
    ground (arith, h, same, judged, c)

History-IsOffline :
    {spec : SearchSpec} {es : List Event}
    → spec.track_id ≡ "JUDGMENT_ONLY"
    → spec.resources.search_unit ≡ none
    → History spec es
    → All IsOffline es
History-IsOffline track unit start = tt
History-IsOffline {spec} track unit (next {es = es} e past a same) =
    subst (All IsOffline) (sym same) (
      All-append IsOffline es (e ∷ []) (History-IsOffline track unit past)
        (unit-IsOffline spec e e.kind refl track unit a.unit, tt))

-- What the declaration of a spec of this track allows.
pub record IsJudgmentOnly (doc : Json) : Type 0 where
  pub overlay : is_text "JUDGMENT" (at "kind" (at "overlay" doc)) ≡ true
  pub no_tools : truthy (at "allowed_tools" (at "overlay" doc)) ≡ false
  pub no_retriever : is_null (at "retriever" doc) ≡ true
  pub no_calls : is_zero_count (at "max_search_calls" (at "resources" doc)) ≡ true
  pub no_turns : is_zero_count (at "max_search_turns" (at "resources" doc)) ≡ true
  pub no_links : is_zero_count (at "max_follow_links" (at "resources" doc)) ≡ true
  pub no_unit : is_text "NONE" (at "search_unit" (at "resources" doc)) ≡ true
  pub no_planning : truthy (at "allowed" (at "a1" doc)) ≡ false

check_judgment_only-IsJudgmentOnly :
    (doc : Json) → check_judgment_only doc ≡ ok tt → IsJudgmentOnly doc
unfolding check_judgment_only
check_judgment_only-IsJudgmentOnly doc h =
    let (first, rest) = (then_iff _ _).0 h in
    let (second, third) = (then_iff _ _).0 rest in
    let overlay = at "overlay" doc in
    let resource = at "resources" doc in
    let a : (not (is_text "JUDGMENT" (at "kind" overlay))
          || truthy (at "allowed_tools" overlay)
          || not (is_null (at "retriever" doc)))
        ≡ false =
      (raise_if_iff _ _).0 first in
    let b : (not (is_zero_count (at "max_search_calls" resource))
          || not (is_zero_count (at "max_search_turns" resource))
          || not (is_zero_count (at "max_results_per_call" resource))
          || not (is_zero_count (at "max_follow_links" resource))
          || not (is_text "NONE" (at "search_unit" resource)))
        ≡ false =
      (raise_if_iff _ _).0 second in
    let c : (not (is_text "NONE" (at "owner" (at "a1" doc))) || truthy (at "allowed" (at "a1" doc)))
        ≡ false =
      (raise_if_iff _ _).0 third in
    let (a12, a3) = or-false _ _ a in
    let (a1, a2) = or-false _ _ a12 in
    let (b1234, b5) = or-false _ _ b in
    let (b123, b4) = or-false _ _ b1234 in
    let (b12, b3) = or-false _ _ b123 in
    let (b1, b2) = or-false _ _ b12 in
    let (c1, c2) = or-false _ _ c in
    record {
      overlay = not-false _ a1;
      no_tools = a2;
      no_retriever = not-false _ a3;
      no_calls = not-false _ b1;
      no_turns = not-false _ b2;
      no_links = not-false _ b4;
      no_unit = not-false _ b5;
      no_planning = c2;
    }

module _ (rt : Runtime) (t : Texts) (clock : Clock) where
  open t use {search}

  -- A spec document of the track JUDGMENT_ONLY that validates declares no tools, no retriever, no
  -- searches, turns or links and no planning; and in every ledger that is constructed under it, each
  -- event that reached a backend is a model request.
  pub validate-IsJudgmentOnly :
      (doc : Fields) (run_id : String) (es : List Event) {l : ResourceLedger}
      → validate rt t clock doc ≡ ok tt
      → get "track_id" doc ≡ str "JUDGMENT_ONLY"
      → ledger t (spec_of doc) run_id es ≡ ok l
      → IsJudgmentOnly (obj doc) × All IsOffline es
  unfolding check_track spec_of resources_of
  validate-IsJudgmentOnly doc run_id es h track k =
      let passed = validate-IsPassed rt t clock doc h in
      let judged : check_judgment_only (obj doc) ≡ ok tt =
        subst
          (λ j.
            (if is_text "JUDGMENT_ONLY" j
              then check_judgment_only (obj doc)
              else check_search_track (obj doc))
            ≡ ok tt)
          track passed.track in
      let declared = check_judgment_only-IsJudgmentOnly (obj doc) judged in
      let unit : is_text "NONE" (at "search_unit" (get "resources" doc)) ≡ true =
        declared.no_unit in
      (
        declared,
        History-IsOffline (rw track refl) (ground (arith, unit))
            (ledger-History t (spec_of doc) run_id es k),
      )
