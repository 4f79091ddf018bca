-- ===== src/Protocol/Receipt/Verdict.antt =====
-- When a receipt says PASS: every limit of the spec was kept, and nothing failed or was refused.
use Prim.Native.String.{◌++◌ as append}
use llm_evaluation_lab.Base.{
  ℕ, zero, suc, ◌≤◌, String, Bool, true, false, ◌&&◌, ◌≡◌, refl, sym, ap, ◌∙◌, ◌↔◌, inl, inr, none,
  some, List, [], ◌∷◌, ◌++◌, map, any, All, count, is_empty, length, ltb, str_eq, str_eq_iff, arith,
  Bool-cases,
}
use llm_evaluation_lab.Base.Result.{ok, bind-ok, raise_if-ok, ok-injective}
use llm_evaluation_lab.Cup.Contracts.{Runtime}
use llm_evaluation_lab.Protocol.Numbers.{Number, number_lt}
use llm_evaluation_lab.Protocol.Safety.{Texts}
use llm_evaluation_lab.Protocol.Measure.{
  Measure, known, is_known, validate_measure, measure, total_measure,
}
use llm_evaluation_lab.Protocol.Event.{
  search_event, verify_event, model_event, is_failed, is_rejected, Event, Ref, Resources,
  SearchSpec,
}
use llm_evaluation_lab.Protocol.Ledger.{last_turn, ResourceLedger}
use llm_evaluation_lab.Protocol.Receipt.{
  Supplied, attempts, of_kind, reason_if, exceeded, value_exceeds, measure_exceeded, violations,
  terminal, longest_call, money_of, Receipt, check_supplied, receipt_of, receipt,
}

-- A reason list is empty exactly where the condition holds.
abbrev Silent : List String → Type 0
Silent xs = is_empty xs ≡ true

both_iff :
    {A B : Type 0} (xs ys : List String)
    → Silent xs ↔ A
    → Silent ys ↔ B
    → Silent (xs ++ ys) ↔ (A × B)
both_iff [] ys (f, f') (g, g') = ((λ h. (f refl, g h)), λ h. g' h.1)
both_iff (x ∷ xs) ys (f, f') (g, g') = ((λ h. cc), λ h. let e = f' h.0 in cc)

reason_if_iff : (b : Bool) (label : String) → Silent (reason_if b label) ↔ (b ≡ false)
reason_if_iff true label = ((λ h. cc), λ h. cc)
reason_if_iff false label = ((λ h. refl), λ h. refl)

exceeded_iff : (label : String) (n limit : ℕ) → Silent (exceeded label n limit) ↔ (n ≤ limit)
exceeded_iff label n limit =
    let (to, from) = reason_if_iff (ltb limit n) (append label "_EXCEEDED") in
    (
      (λ h. let e = to h in ground (arith, e)),
      λ h. let e : ltb limit n ≡ false = ground arith in from e,
    )

any_iff : (f : Event → Bool) (es : List Event) → (any f es ≡ false) ↔ All (λ e. f e ≡ false) es
any_iff f [] = ((λ h. tt), λ h. refl)
any_iff f (e ∷ es) =
    let (to, from) = any_iff f es in
    ((λ h. (ground arith, to (ground arith))), λ h. rw h.0 (from h.1))

some_iff :
    (f : Event → Bool) (es : List Event) (label : String)
    → Silent (reason_if (any f es) label) ↔ All (λ e. f e ≡ false) es
some_iff f es label =
    let (to, from) = reason_if_iff (any f es) label in
    let (to', from') = any_iff f es in ((λ h. to' (to h)), λ h. from (from' h))

-- Where the ceiling is known, the observed measure is known and not above it.
abbrev pub IsUnder : Measure → Measure → Type 0
IsUnder observed ceiling =
    is_known ceiling.state ≡ true
    → (is_known observed.state ≡ true) × (value_exceeds observed.value ceiling.value ≡ false)

measure_exceeded_iff :
    (label : String) (observed ceiling : Measure)
    → Silent (measure_exceeded label observed ceiling) ↔ IsUnder observed ceiling
unfolding measure_exceeded
measure_exceeded_iff label observed ceiling = elim (Bool-cases (is_known ceiling.state)) [
  | inl set ↦ elim (Bool-cases (is_known observed.state)) [
    | inl seen ↦
        let (to, from) =
          reason_if_iff (value_exceeds observed.value ceiling.value) (append label "_EXCEEDED") in
        ((λ h _. (seen, to (ground (arith, h)))), λ h. let e = from (h set).1 in rw set (rw seen e))
    | inr unseen ↦ ((λ h _. ground arith), λ h. let e = (h set).0 in ground arith)
  ]
  | inr unset ↦ ((λ h e. ground arith), λ h. rw unset refl)
]

-- The spec's limits, kept by a ledger's events and the totals.
pub record IsWithinLimits (spec : SearchSpec) (es : List Event) (tokens money runtime : Measure)
    (prices : List Ref) : Type 0 where
  pub calls : length (of_kind search_event (attempts es)) ≤ spec.resources.max_search_calls
  pub turns : last_turn es ≤ spec.resources.max_search_turns
  pub links : length (of_kind verify_event (attempts es)) ≤ spec.resources.max_follow_links
  pub results :
      All
        (λ (e : Event). ltb spec.resources.max_results_per_call e.result_count ≡ false)
        (of_kind search_event (attempts es))
  pub calls_in_time :
      All
        (λ (e : Event). number_lt spec.resources.timeout_per_call_ms e.elapsed_ms ≡ false)
        (attempts es)
  pub tokens_under : IsUnder tokens spec.resources.token_ceiling
  pub money_under : IsUnder money spec.resources.money_ceiling
  pub runtime_under : IsUnder runtime spec.resources.max_total_runtime_ms
  pub priced : (str_eq spec.fairness_mode "F3" && is_known money.state && is_empty prices) ≡ false
  pub admitted : All (λ (e : Event). is_rejected e.status ≡ false) es

violations_iff :
    (spec : SearchSpec) (es : List Event) (tokens money runtime : Measure) (prices : List Ref)
    → Silent (violations spec es tokens money runtime prices)
      ↔ IsWithinLimits spec es tokens money runtime prices
unfolding violations measure_exceeded number_lt last_turn
violations_iff spec es tokens money runtime prices =
    let r : Resources = spec.resources in
    let tried : List Event = attempts es in
    let searches : List Event = of_kind search_event tried in
    let (to, from) =
      both_iff _ _ (exceeded_iff "SEARCH_CALLS" (length searches) r.max_search_calls) (
        both_iff _ _ (exceeded_iff "SEARCH_TURNS" (last_turn es) r.max_search_turns) (
          both_iff _ _
            (exceeded_iff "FOLLOW_LINKS" (length (of_kind verify_event tried)) r.max_follow_links)
            (both_iff _ _
              (some_iff (λ (e : Event). ltb r.max_results_per_call e.result_count) searches
                "RESULT_LIMIT_EXCEEDED")
              (both_iff _ _
                (some_iff (λ (e : Event). number_lt r.timeout_per_call_ms e.elapsed_ms) tried
                  "CALL_TIMEOUT_EXCEEDED")
                (both_iff _ _ (measure_exceeded_iff "TOKENS" tokens r.token_ceiling) (
                  both_iff _ _ (measure_exceeded_iff "MONEY" money r.money_ceiling) (
                    both_iff _ _ (measure_exceeded_iff "RUNTIME" runtime r.max_total_runtime_ms) (
                      both_iff _ _
                        (reason_if_iff
                          (str_eq spec.fairness_mode "F3"
                            && is_known money.state
                            && is_empty prices)
                          "PRICE_EVIDENCE_MISSING")
                        (some_iff (λ (e : Event). is_rejected e.status) es
                          "REQUEST_REJECTED"))))))))) in
    (
      (λ h.
          let (a, (b, (c, (d, (e, (f, (g, (i, (j, k))))))))) = to h in
          record {
            calls = a;
            turns = b;
            links = c;
            results = d;
            calls_in_time = e;
            tokens_under = f;
            money_under = g;
            runtime_under = i;
            priced = j;
            admitted = k;
          }),
      λ w. from (
        w.calls,
        (
          w.turns,
          (
            w.links,
            (
              w.results,
              (
                w.calls_in_time,
                (w.tokens_under, (w.money_under, (w.runtime_under, (w.priced, w.admitted)))),
              ),
            ),
          ),
        ),
      ),
    )

-- `measure` of a number is that number, KNOWN.
abbrev pub runtime_of : Number → Measure
runtime_of x = record {
  state = known;
  value = some x;
  unit = "ms";
  reason = "observed fixture value";
}

measure-known :
    (t : Texts) (x : Number) {m : Measure}
    → measure t (some x) "ms" none "observed fixture value" ≡ ok m
    → m ≡ runtime_of x
unfolding measure
measure-known t x h =
    let (_, _, e) = bind-ok (validate_measure t (runtime_of x) none) _ h in sym (ok-injective e)

count_zero_iff : (f : Event → Bool) (es : List Event) → (count f es ≡ 0) ↔ All (λ e. f e ≡ false) es
count_zero_iff f [] = ((λ h. tt), λ h. refl)
count_zero_iff f (e ∷ es) =
    let (to, from) = count_zero_iff f es in
    ((λ h. (ground (arith, h), to (ground (arith, h)))), λ h. rw h.0 (from h.1))

terminal-pass_iff :
    (reasons : List String) (n : ℕ) → (terminal reasons n ≡ "PASS") ↔ (Silent reasons × (n ≡ 0))
terminal-pass_iff [] zero = ((λ h. (refl, refl)), λ h. refl)
terminal-pass_iff [] (suc n) = (
  (λ h.
      let e : "NOT_EVALUABLE" ≡ "PASS" = ground (arith, h) in
      let b : false ≡ true = (str_eq_iff "NOT_EVALUABLE" "PASS").1 e in ground arith),
  λ h. absurd (omega (arith, h)),
)
terminal-pass_iff (x ∷ xs) n = ((λ h. cc), λ h. let e = h.0 in cc)

module _ (rt : Runtime) (t : Texts) (sum : List Number → Number) where
  -- What a receipt that is returned was made of.
  pub record IsMadeOf (l : ResourceLedger) (s : Supplied) (r : Receipt) : Type 0 where
    pub tokens : Measure
    pub money : Measure
    pub parts : Measure × Measure × Measure
    pub made :
        r
        ≡ receipt_of rt t sum l s tokens money parts.0 parts.1 parts.2
            (violations l.spec l.events tokens money (runtime_of s.elapsed) s.prices)

  pub receipt-IsMadeOf :
      (l : ResourceLedger) (s : Supplied) {r : Receipt}
      → receipt rt t sum l s ≡ ok r
      → IsMadeOf l s r
  unfolding receipt
  receipt-IsMadeOf l s h =
      let r : Resources = l.spec.resources in
      let tried : List Event = attempts l.events in
      let (_, _, h1) = bind-ok (check_supplied rt t sum s) _ h in
      let (tokens, _, h2) =
        bind-ok (total_measure t sum (map (λ (e : Event). e.tokens) tried) "tokens") _ h1 in
      let (money, _, h3) =
        bind-ok (total_measure t sum (money_of tried) r.money_ceiling.unit) _ h2 in
      let (runtime, e, h4) =
        bind-ok (measure t (some s.elapsed) "ms" none "observed fixture value") _ h3 in
      let (_, h5) = raise_if-ok (number_lt s.elapsed (longest_call tried)) _ _ h4 in
      let (a, _, h6) =
        bind-ok (total_measure t sum (money_of (of_kind search_event tried)) money.unit) _ h5 in
      let (b, _, h7) =
        bind-ok (total_measure t sum (money_of (of_kind verify_event tried)) money.unit) _ h6 in
      let (c, _, h8) =
        bind-ok (total_measure t sum (money_of (of_kind model_event tried)) money.unit) _ h7 in
      let same = measure-known t s.elapsed e in
      record {
        tokens = tokens;
        money = money;
        parts = (a, b, c);
        made =
            sym (ok-injective h8)
            ∙ ap
                (λ m.
                  receipt_of rt t sum l s tokens money a b c
                    (violations l.spec l.events tokens money m s.prices))
                same;
      }

  -- A receipt that is returned says PASS exactly when the events are within the limits of the spec
  -- and nothing failed: no more searches, turns and links than allowed, no search with too many
  -- results, no call over the time limit; tokens, money and elapsed time are known and not above
  -- their ceilings where those are known; known money has price evidence under F3; no request was
  -- rejected, and no attempt failed.
  pub receipt-pass_iff :
      (l : ResourceLedger) (s : Supplied) {r : Receipt}
      → receipt rt t sum l s ≡ ok r
      → (r.terminal_status ≡ "PASS") ↔ (
          IsWithinLimits l.spec l.events r.tokens r.money (runtime_of s.elapsed) s.prices
          × All (λ (e : Event). is_failed e.status ≡ false) (attempts l.events))
  unfolding receipt_of
  receipt-pass_iff l s {r} h =
      let w = receipt-IsMadeOf l s h in
      let reasons = violations l.spec l.events w.tokens w.money (runtime_of s.elapsed) s.prices in
      let tried : List Event = attempts l.events in
      let (to, from) =
        terminal-pass_iff reasons (count (λ (e : Event). is_failed e.status) tried) in
      let (within, kept) =
        violations_iff l.spec l.events w.tokens w.money (runtime_of s.elapsed) s.prices in
      let (none_failed, zero_failed) = count_zero_iff (λ (e : Event). is_failed e.status) tried in
      rw w.made (
        (λ p. let (a, b) = to p in (within a, none_failed b)),
        λ (a, b). from (kept a, zero_failed b),
      )
