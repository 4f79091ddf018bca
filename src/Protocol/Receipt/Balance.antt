-- ===== src/Protocol/Receipt/Balance.antt =====
-- The counts of a receipt add up.
use llm_evaluation_lab.Base.{
  ◌+◌, ◌≤◌, String, true, false, not, ◌≡◌, refl, sym, subst, List, [], ◌∷◌, All, All-append, count,
  length, same, arith,
}
use llm_evaluation_lab.Base.Result.{ok, then_iff, require_iff}
use llm_evaluation_lab.Cup.Contracts.{Runtime}
use llm_evaluation_lab.Protocol.Numbers.{Number}
use llm_evaluation_lab.Protocol.Safety.{Texts}
use llm_evaluation_lab.Protocol.Event.{
  EventKind, search_event, verify_event, is_model, Status, succeeded, failed, rejected,
  is_succeeded, is_failed, is_rejected, Event, SearchSpec,
}
use llm_evaluation_lab.Protocol.Ledger.{check_status, is_attempted_search, ResourceLedger, ledger}
use llm_evaluation_lab.Protocol.Ledger.Rules.{
  History, start, next, ledger-IsChecked, ledger-History,
}
use llm_evaluation_lab.Protocol.Ledger.Turns.{History-IsOrderly}
use llm_evaluation_lab.Protocol.Receipt.{Supplied, attempts, of_kind, Receipt, receipt_of, receipt}
use llm_evaluation_lab.Protocol.Receipt.Verdict.{receipt-IsMadeOf}

abbrev IsBounded : Event → Type 0
IsBounded e = e.crossed_boundary ≡ not (is_rejected e.status)

check_status-IsBounded : (e : Event) → check_status e ≡ ok tt → IsBounded e
unfolding check_status
check_status-IsBounded e h =
    let (b, _) = (then_iff _ _).0 h in
    let s = (require_iff (same e.crossed_boundary (not (is_rejected e.status))) _).0 b in
    ground (arith, s)

History-IsBounded : {spec : SearchSpec} {es : List Event} → History spec es → All IsBounded es
History-IsBounded start = tt
History-IsBounded (next {es = es} e past a same) = subst (All IsBounded) (sym same) (
    All-append IsBounded es (e ∷ []) (History-IsBounded past)
      (check_status-IsBounded e a.status, tt))

settled : (s : Status) → is_rejected s ≡ false → is_succeeded s ≡ not (is_failed s)
settled succeeded h = refl
settled failed h = refl
settled rejected h = cc

attempt-settled :
    (e : Event)
    → IsBounded e
    → e.crossed_boundary ≡ true
    → is_succeeded e.status ≡ not (is_failed e.status)
attempt-settled e b c = settled e.status (ground (arith, b, c))

-- The attempts of a kind have succeeded or failed.
of_kind-settled :
    (k : EventKind) (es : List Event)
    → All IsBounded es
    → length (of_kind k (attempts es))
      ≡ count (λ e. is_succeeded e.status) (of_kind k (attempts es))
        + count (λ e. is_failed e.status) (of_kind k (attempts es))
of_kind-settled k [] h = omega arith
of_kind-settled k (e ∷ es) (b, h) =
    let rest = of_kind-settled k es h in ground (arith, rest, attempt-settled e b)

attempts-by_kind :
    (es : List Event)
    → length (attempts es)
      ≡ length (of_kind search_event (attempts es))
        + length (of_kind verify_event (attempts es))
        + count (λ e. is_model e.kind) (attempts es)
attempts-by_kind [] = omega arith
attempts-by_kind (e ∷ es) = let rest = attempts-by_kind es in ground (arith, rest)

attempts-rejected :
    (es : List Event)
    → All IsBounded es
    → length es ≡ length (attempts es) + count (λ e. is_rejected e.status) es
attempts-rejected [] h = omega arith
attempts-rejected (e ∷ es) (b, h) = let rest = attempts-rejected es h in ground (arith, rest, b)

searches :
    (es : List Event) → count is_attempted_search es ≡ length (of_kind search_event (attempts es))
searches [] = refl
searches (e ∷ es) = let rest = searches es in ground (arith, rest)

-- The counts of a receipt add up to the ledger's events.
pub record IsBalanced (r : Receipt) : Type 0 where
  pub outcomes : r.search_attempted ≡ r.search_succeeded + r.search_failed
  pub kinds : length (attempts r.events) ≡ r.search_attempted + r.follow_links + r.provider_requests
  pub rejections :
      length r.events ≡ length (attempts r.events) + count (λ e. is_rejected e.status) r.events
  pub turns : r.search_turns ≤ r.search_attempted

module _ (rt : Runtime) (t : Texts) (sum : List Number → Number) where
  -- A receipt that is returned for a constructed ledger balances: the searches that reached the
  -- backend are those that succeeded and those that failed, the attempts are the searches, the
  -- verifications and the model requests, the events are the attempts and the rejections, and there
  -- are at most as many search turns as searches.
  pub receipt-IsBalanced :
      (spec : SearchSpec) (run_id : String) (es : List Event) (l : ResourceLedger) (s : Supplied)
      {r : Receipt}
      → ledger t spec run_id es ≡ ok l
      → receipt rt t sum l s ≡ ok r
      → IsBalanced r
  unfolding receipt_of
  receipt-IsBalanced spec run_id es l s h k =
      let past = ledger-History t spec run_id es h in
      let bounded = History-IsBounded past in
      let orderly = History-IsOrderly past in
      let few = orderly.few in
      let (_, same) = ledger-IsChecked t spec run_id es h in
      let w = receipt-IsMadeOf rt t sum l s k in
      rw w.made (
        rw same (record {
          outcomes = of_kind-settled search_event es bounded;
          kinds = attempts-by_kind es;
          rejections = attempts-rejected es bounded;
          turns = omega (arith, few, searches es);
        }))
