-- ===== src/Protocol/Ledger/Chases.antt =====
-- Following the retries of an event back to the attempt that they repeat: the loop ends.
use llm_evaluation_lab.Base.{
  ℕ, zero, suc, String, Bool, true, false, ◌&&◌, ◌≡◌, refl, sym, subst, ◌∙◌, ◌⊎◌, inl, inr, Option,
  none, some, List, [], ◌∷◌, ◌++◌, length, length-append, Among, Among-snoc, Bool-cases,
  Option-cases, and-true, arith, str_eq, if◌then◌else◌,
}
use llm_evaluation_lab.Base.Result.{ok, then_iff, require_iff, raise_if}
use llm_evaluation_lab.Cup.Error.{Error}
use llm_evaluation_lab.Protocol.Measure.{is_some}
use llm_evaluation_lab.Protocol.Event.{
  Event, same_kind, is_failed, is_no_retry, Resources, SearchSpec,
}
use llm_evaluation_lab.Protocol.Ledger.{
  find_event, find_target, found, missing, chase, root_of, check_policy, check_target, check_retry,
}
use llm_evaluation_lab.Protocol.Ledger.Rules.{IsAccepted, History, start, next}

-- The retried event of an accepted one.
pub record IsTarget (r : Resources) (prior : List Event) (e target : Event) : Type 0 where
  pub id : String
  pub names : e.retry_of ≡ some id
  pub finds : find_event id prior ≡ some target
  pub kind : same_kind target.kind e.kind ≡ true
  pub failure : is_failed target.status ≡ true
  pub allowed : check_policy r prior e.retry_kind target ≡ ok tt

check_target-IsTarget :
    (r : Resources) (prior : List Event) (e : Event) (id : String) (o : Option Event)
    → e.retry_of ≡ some id
    → find_event id prior ≡ o
    → check_target r prior e o ≡ ok tt
    → (target : Event) × IsTarget r prior e target
unfolding check_target
check_target-IsTarget r prior e id none names finds h = cc
check_target-IsTarget r prior e id (some target) names finds h =
    let (fits, allowed) = (then_iff _ (check_policy r prior e.retry_kind target)).0 h in
    let (kind, failure) =
      and-true (same_kind target.kind e.kind) (is_failed target.status)
        ((require_iff (same_kind target.kind e.kind && is_failed target.status) _).0 fits) in
    (
      target,
      record {
        id = id;
        names = names;
        finds = finds;
        kind = kind;
        failure = failure;
        allowed = allowed;
      },
    )

retry_cases :
    (r : Resources) (prior : List Event) (e : Event) (first : Bool) (o : Option String) (x : Error)
    → is_no_retry e.retry_kind ≡ first
    → e.retry_of ≡ o
    → (if first then raise_if (is_some o) x else check_target r prior e (find_target o prior))
      ≡ ok tt
    → ((o ≡ none) × (first ≡ true)) ⊎ ((target : Event) × IsTarget r prior e target)
unfolding check_target
retry_cases r prior e true none x first names h = inl (refl, refl)
retry_cases r prior e true (some id) x first names h = cc
retry_cases r prior e false none x first names h = cc
retry_cases r prior e false (some id) x first names h =
    inr (check_target-IsTarget r prior e id (find_event id prior) names refl h)

-- An accepted event repeats nothing, or a failed event of its kind among those before it.
pub check_retry-IsTarget :
    (r : Resources) (prior : List Event) (e : Event)
    → check_retry r prior e ≡ ok tt
    → ((e.retry_of ≡ none) × (is_no_retry e.retry_kind ≡ true))
      ⊎ ((target : Event) × IsTarget r prior e target)
unfolding check_retry
check_retry-IsTarget r prior e h =
    retry_cases r prior e (is_no_retry e.retry_kind) e.retry_of _ refl refl h

pub find_event-Among :
    (id : String) (es : List Event) {p : Event} → find_event id es ≡ some p → Among p es
unfolding find_event
find_event-Among id [] h = cc
find_event-Among id (e ∷ es) {p} h = elim (Bool-cases (str_eq e.event_id id)) [
  | inl same ↦ inl (ground arith)
  | inr other ↦ inr (find_event-Among id es (ground arith))
]

find_event-append :
    (id : String) (es ys : List Event) {p : Event}
    → find_event id es ≡ some p
    → find_event id (es ++ ys) ≡ some p
unfolding find_event
find_event-append id [] ys h = cc
find_event-append id (e ∷ es) ys {p} h = elim (Bool-cases (str_eq e.event_id id)) [
  | inl same ↦ ground arith
  | inr other ↦ ground (arith, find_event-append id es ys {p = p})
]

pub chase-none : (n : ℕ) (es : List Event) (e : Event) → e.retry_of ≡ none → chase n es e ≡ found e
unfolding chase
chase-none zero es e h = rw h refl
chase-none (suc n) es e h = rw h refl

chase-some :
    (n : ℕ) (es : List Event) (e : Event) {id : String} {p : Event}
    → e.retry_of ≡ some id
    → find_event id es ≡ some p
    → chase (suc n) es e ≡ chase n es p
unfolding chase
chase-some n es e h k = cc

-- How a loop that ends has ended: at once, or after a round.
data Ended (n : ℕ) (es : List Event) (e r : Event) : Type 0 where
  at_once : e.retry_of ≡ none → r ≡ e → Ended n es e r
  after_round :
      {m : ℕ} {id : String} {p : Event}
      → n ≡ suc m
      → e.retry_of ≡ some id
      → find_event id es ≡ some p
      → chase m es p ≡ found r
      → Ended n es e r

chase_round :
    (n : ℕ) (es : List Event) (e : Event) {r : Event} (id : String) (o : Option Event)
    → e.retry_of ≡ some id
    → find_event id es ≡ o
    → elim o [ none ↦ missing | some p ↦ chase n es p ] ≡ found r
    → Ended (suc n) es e r
chase_round n es e id none names finds h = cc
chase_round n es e id (some p) names finds h = after_round refl names finds h

chase-Ended :
    (n : ℕ) (es : List Event) (e : Event) {r : Event} → chase n es e ≡ found r → Ended n es e r
unfolding chase
chase-Ended zero es e h = elim (Option-cases e.retry_of) [
  | inl no_more ↦ at_once no_more (ground arith)
  | inr (id, names) ↦ ground arith
]
chase-Ended (suc n) es e h = elim (Option-cases e.retry_of) [
  | inl no_more ↦ at_once no_more (ground arith)
  | inr (id, names) ↦ chase_round n es e id (find_event id es) names refl (ground arith)
]

-- A loop that ends is not changed by later events, nor by one more round.
pub chase-append :
    (n : ℕ) (es ys : List Event) (e : Event) {r : Event}
    → chase n es e ≡ found r
    → chase n (es ++ ys) e ≡ found r
chase-append zero es ys e h = elim (chase-Ended zero es e h) [
  | at_once no_more same ↦ rw same (chase-none zero (es ++ ys) e no_more)
  | after_round more names finds rest ↦ absurd (omega (arith, more))
]
chase-append (suc n) es ys e {r} h = elim (chase-Ended (suc n) es e h) [
  | at_once no_more same ↦ rw same (chase-none (suc n) (es ++ ys) e no_more)
  | after_round {id = id} {p = p} more names finds rest ↦
      let same : n ≡ _ = omega (arith, more) in
      chase-some n (es ++ ys) e names (find_event-append id es ys {p = p} finds)
      ∙ chase-append n es ys p (subst (λ k. chase k es p ≡ found r) (sym same) rest)
]

chase-suc :
    (n : ℕ) (es : List Event) (e : Event) {r : Event}
    → chase n es e ≡ found r
    → chase (suc n) es e ≡ found r
chase-suc zero es e h = elim (chase-Ended zero es e h) [
  | at_once no_more same ↦ rw same (chase-none 1 es e no_more)
  | after_round more names finds rest ↦ absurd (omega (arith, more))
]
chase-suc (suc n) es e {r} h = elim (chase-Ended (suc n) es e h) [
  | at_once no_more same ↦ rw same (chase-none (suc (suc n)) es e no_more)
  | after_round {p = p} more names finds rest ↦
      let same : n ≡ _ = omega (arith, more) in
      chase-some (suc n) es e names finds
      ∙ chase-suc n es p (subst (λ k. chase k es p ≡ found r) (sym same) rest)
]

-- An attempt that a loop ends at repeats nothing.
pub chase-root :
    (n : ℕ) (es : List Event) (e : Event) {r : Event} → chase n es e ≡ found r → r.retry_of ≡ none
chase-root zero es e h = elim (chase-Ended zero es e h) [
  | at_once no_more same ↦ rw same no_more
  | after_round more names finds rest ↦ absurd (omega (arith, more))
]
chase-root (suc n) es e {r} h = elim (chase-Ended (suc n) es e h) [
  | at_once no_more same ↦ rw same no_more
  | after_round {p = p} more names finds rest ↦
      let same : n ≡ _ = omega (arith, more) in
      chase-root n es p (subst (λ k. chase k es p ≡ found r) (sym same) rest)
]

chase-Among :
    (n : ℕ) (es : List Event) (e : Event) {r : Event}
    → Among e es
    → chase n es e ≡ found r
    → Among r es
chase-Among zero es e m h = elim (chase-Ended zero es e h) [
  | at_once no_more same ↦ rw same m
  | after_round more names finds rest ↦ absurd (omega (arith, more))
]
chase-Among (suc n) es e {r} m h = elim (chase-Ended (suc n) es e h) [
  | at_once no_more same ↦ rw same m
  | after_round {id = id} {p = p} more names finds rest ↦
      let same : n ≡ _ = omega (arith, more) in
      chase-Among n es p (find_event-Among id es finds)
        (subst (λ k. chase k es p ≡ found r) (sym same) rest)
]

-- Every event's loop ends within as many rounds as there are events.
abbrev pub HaveRoots : List Event → Type 0
HaveRoots es = (e : Event) → Among e es → (r : Event) × (chase (length es) es e ≡ found r)

-- The event that is accepted last has its target's root.
pub chase-target :
    {r : Resources} (es : List Event) (x target : Event) {root : Event}
    → IsTarget r es x target
    → chase (length es) es target ≡ found root
    → chase (suc (length es)) (es ++ x ∷ []) x ≡ found root
chase-target es x target is ended =
    chase-some (length es) (es ++ x ∷ []) x is.names (find_event-append is.id es _ is.finds)
    ∙ chase-append (length es) es (x ∷ []) target ended

chase-last :
    {spec : SearchSpec} (es : List Event) (x : Event)
    → IsAccepted spec es x
    → HaveRoots es
    → (r : Event) × (chase (suc (length es)) (es ++ x ∷ []) x ≡ found r)
chase-last {spec} es x a roots = elim (check_retry-IsTarget spec.resources es x a.retry) [
  | inl (no_more, _) ↦ (x, chase-none (suc (length es)) (es ++ x ∷ []) x no_more)
  | inr (target, is) ↦
      let (r, ended) = roots target (find_event-Among is.id es is.finds) in
      (r, chase-target es x target is ended)
]

pub length-snoc : (es : List Event) (x : Event) → length (es ++ x ∷ []) ≡ suc (length es)
length-snoc es x = omega (arith, length-append es (x ∷ []))

-- Later events do not change an event's root.
pub chase-snoc :
    (es : List Event) (x e : Event) {r : Event}
    → chase (length es) es e ≡ found r
    → chase (length (es ++ x ∷ [])) (es ++ x ∷ []) e ≡ found r
chase-snoc es x e ended =
    rw (length-snoc es x)
      (chase-suc (length es) (es ++ x ∷ []) e (chase-append (length es) es (x ∷ []) e ended))

HaveRoots-next :
    {spec : SearchSpec} (es : List Event) (x : Event)
    → IsAccepted spec es x
    → HaveRoots es
    → HaveRoots (es ++ x ∷ [])
HaveRoots-next es x a roots e m = elim (Among-snoc e x es m) [
  | inl before ↦ let (r, ended) = roots e before in (r, chase-snoc es x e ended)
  | inr same ↦
      let (r, ended) = chase-last es x a roots in (r, rw same (rw (length-snoc es x) ended))
]

pub History-HaveRoots : {spec : SearchSpec} {es : List Event} → History spec es → HaveRoots es
History-HaveRoots start = λ e m. absurd m
History-HaveRoots (next {es = es} x past a same) =
    subst HaveRoots (sym same) (HaveRoots-next es x a (History-HaveRoots past))

pub root_of-found :
    (es : List Event) (e : Event) {r : Event}
    → chase (length es) es e ≡ found r
    → root_of es e ≡ ok r
unfolding root_of
root_of-found es e h = cc

-- In a history of accepted events the loop from any event ends, within as many rounds as there are
-- events, and finds every event that it looks for: it reaches an event of the history that repeats
-- no other.
pub root_of-ends :
    {spec : SearchSpec} (es : List Event) (e : Event)
    → History spec es
    → Among e es
    → (r : Event) × (root_of es e ≡ ok r) × (r.retry_of ≡ none) × Among r es
root_of-ends es e past m =
    let (r, ended) = History-HaveRoots past e m in
    (
      r,
      root_of-found es e ended,
      chase-root (length es) es e ended,
      chase-Among (length es) es e m ended,
    )
