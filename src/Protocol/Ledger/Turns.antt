-- ===== src/Protocol/Ledger/Turns.antt =====
-- The identifiers of a ledger's events, and the turns of its searches.
use llm_evaluation_lab.Base.{
  ℕ, suc, ◌≤◌, max, String, true, false, ◌≡◌, refl, sym, subst, inl, inr, List, [], ◌∷◌, ◌++◌, map,
  filter, count, count-append, Among, IsDistinct, IsDistinct-snoc, Bool-cases, arith, str_eq_iff,
  if◌then◌else◌,
}
use mathlib.Core.List.{map-append}
use llm_evaluation_lab.Base.Result.{ok}
use llm_evaluation_lab.Protocol.Event.{Event, SearchSpec}
use llm_evaluation_lab.Protocol.Safety.{Texts}
use llm_evaluation_lab.Protocol.Ledger.{
  is_attempted_search, last_turn, check_turn, ResourceLedger, ledger,
}
use llm_evaluation_lab.Protocol.Ledger.Rules.{
  is_used, IsAccepted, History, start, next, ledger-History,
}

-- The turns of the searches that reached the backend, in order.
abbrev pub search_turns : List Event → List ℕ
search_turns es = map (λ (e : Event). e.turn) (filter is_attempted_search es)

-- Each turn is the turn before it or the next; the first is 1 after turn 0.
abbrev pub AreSteady : ℕ → List ℕ → Type 0
AreSteady last [] = Unit
AreSteady last (t ∷ ts) = (max 1 last ≤ t) × (t ≤ suc last) × AreSteady t ts

abbrev final : ℕ → List ℕ → ℕ
final last [] = last
final last (t ∷ ts) = final t ts

AreSteady-append :
    (last : ℕ) (ts : List ℕ) (t : ℕ)
    → AreSteady last ts
    → max 1 (final last ts) ≤ t
    → t ≤ suc (final last ts)
    → AreSteady last (ts ++ t ∷ [])
AreSteady-append last [] t h low high = (low, high, tt)
AreSteady-append last (s ∷ ts) t (a, b, h) low high = (a, b, AreSteady-append s ts t h low high)

final-append : (last : ℕ) (ts : List ℕ) (t : ℕ) → final last (ts ++ t ∷ []) ≡ t
final-append last [] t = refl
final-append last (s ∷ ts) t = final-append s ts t

search_turns-snoc :
    (es : List Event) (x : Event)
    → search_turns (es ++ x ∷ [])
      ≡ (if is_attempted_search x then search_turns es ++ x.turn ∷ [] else search_turns es)
search_turns-snoc [] x = ground arith
search_turns-snoc (e ∷ es) x = ground (arith, search_turns-snoc es x)

last_turn-snoc :
    (es : List Event) (x : Event)
    → last_turn (es ++ x ∷ [])
      ≡ (if is_attempted_search x then max (last_turn es) x.turn else last_turn es)
unfolding last_turn
last_turn-snoc [] x = ground arith
last_turn-snoc (e ∷ es) x = ground (arith, last_turn-snoc es x)

-- An accepted search takes the last turn or the next.
check_turn-ok :
    (prior : List Event) (e : Event)
    → check_turn prior e ≡ ok tt
    → is_attempted_search e ≡ true
    → (max 1 (last_turn prior) ≤ e.turn) × (e.turn ≤ suc (last_turn prior))
unfolding check_turn
check_turn-ok prior e h s = ground (arith, h, s)

-- What a history keeps of its identifiers and its turns.
pub record IsOrderly (es : List Event) : Type 0 where
  pub distinct : IsDistinct (map (λ (e : Event). e.event_id) es)
  pub steady : AreSteady 0 (search_turns es)
  pub last : last_turn es ≡ final 0 (search_turns es)
  pub few : last_turn es ≤ count is_attempted_search es

Among-used :
    (id : String) (es : List Event)
    → Among id (map (λ (e : Event). e.event_id) es)
    → is_used id es ≡ true
Among-used id [] m = absurd m
Among-used id (e ∷ es) (inl same) =
    let eq = (str_eq_iff e.event_id id).1 (sym same) in ground (arith, eq)
Among-used id (e ∷ es) (inr m) = ground (arith, Among-used id es m)

new_id-IsDistinct :
    (es : List Event) (x : Event)
    → IsDistinct (map (λ (e : Event). e.event_id) es)
    → is_used x.event_id es ≡ false
    → IsDistinct (map (λ (e : Event). e.event_id) (es ++ x ∷ []))
new_id-IsDistinct es x h new =
    subst IsDistinct (sym (map-append (λ (e : Event). e.event_id) es (x ∷ []))) (
      IsDistinct-snoc x.event_id (map (λ (e : Event). e.event_id) es) h
        λ m. let used = Among-used x.event_id es m in ground arith)

IsOrderly-searched :
    {spec : SearchSpec} (es : List Event) (x : Event)
    → IsAccepted spec es x
    → IsOrderly es
    → is_attempted_search x ≡ true
    → IsOrderly (es ++ x ∷ [])
IsOrderly-searched es x a o s =
    let (low, high) = check_turn-ok es x a.turn s in
    let last = o.last in
    let few = o.few in
    record {
      distinct = new_id-IsDistinct es x o.distinct a.new;
      steady = rw (search_turns-snoc es x) (
          rw s (
            AreSteady-append 0 (search_turns es) x.turn o.steady (omega (arith, low, last))
              (omega (arith, high, last))));
      last = rw (search_turns-snoc es x) (
          rw s (
            rw (final-append 0 (search_turns es) x.turn)
              (ground (arith, last_turn-snoc es x, s, low, high))));
      few = ground (
        arith,
        last_turn-snoc es x,
        count-append is_attempted_search es (x ∷ []),
        s,
        low,
        high,
        few,
      );
    }

IsOrderly-next :
    {spec : SearchSpec} (es : List Event) (x : Event)
    → IsAccepted spec es x
    → IsOrderly es
    → IsOrderly (es ++ x ∷ [])
IsOrderly-next es x a o = elim (Bool-cases (is_attempted_search x)) [
  | inl s ↦ IsOrderly-searched es x a o s
  | inr s ↦
      let few = o.few in
      record {
        distinct = new_id-IsDistinct es x o.distinct a.new;
        steady = rw (search_turns-snoc es x) (rw s o.steady);
        last = rw (last_turn-snoc es x) (rw (search_turns-snoc es x) (rw s o.last));
        few =
            ground (arith, last_turn-snoc es x, count-append is_attempted_search es (x ∷ []), few);
      }
]

pub History-IsOrderly : {spec : SearchSpec} {es : List Event} → History spec es → IsOrderly es
unfolding last_turn
History-IsOrderly start = record { distinct = tt; steady = tt; last = refl; few = omega arith }
History-IsOrderly (next {es = es} x past a same) =
    subst IsOrderly (sym same) (IsOrderly-next es x a (History-IsOrderly past))

-- In every ledger that is constructed the events have distinct identifiers; the turns of the searches
-- that reached the backend start at 1 and never fall or skip, each being the turn before it or the
-- next; and the last turn is the highest, and at most the number of those searches.
pub ledger-IsOrderly :
    (t : Texts) (spec : SearchSpec) (run_id : String) (es : List Event) {l : ResourceLedger}
    → ledger t spec run_id es ≡ ok l
    → IsOrderly es
ledger-IsOrderly t spec run_id es h = History-IsOrderly (ledger-History t spec run_id es h)
