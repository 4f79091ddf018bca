-- ===== src/Protocol/Ledger/Retries.antt =====
-- The automatic retries of one attempt, counted over a ledger.
use llm_evaluation_lab.Base.{
  ℕ, suc, ◌≤◌, ◌<◌, String, true, false, ◌≡◌, refl, sym, subst, ap, ◌∙◌, inl, inr, none, List, [],
  ◌∷◌, ◌++◌, length, Among, Bool-cases, arith, leb, str_eq, str_eq_iff, if◌then◌else◌,
}
use llm_evaluation_lab.Base.Result.{ok, raise_if_iff, bind-ok, ok-injective}
use llm_evaluation_lab.Protocol.Event.{
  RetryKind, no_retry, manual, automatic, is_automatic, is_no_retry, Event, Resources, SearchSpec,
}
use llm_evaluation_lab.Protocol.Safety.{Texts}
use llm_evaluation_lab.Protocol.Ledger.{
  root_of, count_automatic, check_automatic, check_policy, ResourceLedger, ledger,
}
use llm_evaluation_lab.Protocol.Ledger.Rules.{IsAccepted, History, start, next, ledger-History}
use llm_evaluation_lab.Protocol.Ledger.Chases.{
  check_retry-IsTarget, HaveRoots, History-HaveRoots, chase-target, chase-snoc, length-snoc,
  chase-none, root_of-found, root_of-ends, find_event-Among,
}

-- The count depends on the events before only through the roots of the events that it counts.
count_automatic-same :
    (p q : List Event) (id : String) (es : List Event)
    → ((e : Event) → Among e es → root_of p e ≡ root_of q e)
    → count_automatic p id es ≡ count_automatic q id es
unfolding count_automatic
count_automatic-same p q id [] h = refl
count_automatic-same p q id (e ∷ es) h =
    rw (h e (inl refl)) (rw (count_automatic-same p q id es (λ x m. h x (inr m))) refl)

-- What one event adds to the count.
abbrev counted : String → Event → Event → ℕ → ℕ
counted id x root n =
    if is_automatic x.retry_kind then (if str_eq root.event_id id then suc n else n) else n

counted_comm :
    (id : String) (x e rx re : Event) (n : ℕ)
    → counted id x rx (counted id e re n) ≡ counted id e re (counted id x rx n)
counted_comm id x e rx re n = ground arith

count_automatic-cons :
    (p : List Event) (id : String) (e root : Event) (es : List Event) {n : ℕ}
    → root_of p e ≡ ok root
    → count_automatic p id es ≡ ok n
    → count_automatic p id (e ∷ es) ≡ ok (counted id e root n)
unfolding count_automatic
count_automatic-cons p id e root es h k = elim (Bool-cases (is_automatic e.retry_kind)) [
  | inl yes' ↦ rw yes' (rw h (rw k refl))
  | inr no' ↦ rw no' k
]

-- The count succeeds where every root is found, and one more event adds to it what it must.
record IsTally (p : List Event) (id : String) (es : List Event) (n : ℕ) : Type 0 where
  here : count_automatic p id es ≡ ok n
  grows :
      (x root : Event)
      → root_of p x ≡ ok root
      → count_automatic p id (es ++ x ∷ []) ≡ ok (counted id x root n)

count_automatic-IsTally :
    (p : List Event) (id : String) (es : List Event)
    → ((e : Event) → Among e es → (r : Event) × (root_of p e ≡ ok r))
    → (n : ℕ) × IsTally p id es n
unfolding count_automatic
count_automatic-IsTally p id [] roots =
    (0, record { here = refl; grows = λ x root h. count_automatic-cons p id x root [] h refl })
count_automatic-IsTally p id (e ∷ es) roots =
    let (r, h) = roots e (inl refl) in
    let (n, c) = count_automatic-IsTally p id es (λ x m. roots x (inr m)) in
    (
      counted id e r n,
      record {
        here = count_automatic-cons p id e r es h c.here;
        grows = λ x root k.
            count_automatic-cons p id e r (es ++ x ∷ []) h (c.grows x root k)
            ∙ ap ok (counted_comm id e x r root n);
      },
    )

check_policy-automatic :
    (r : Resources) (prior : List Event) (k : RetryKind) (target : Event)
    → is_automatic k ≡ true
    → check_policy r prior k target ≡ ok tt
    → check_automatic r prior target ≡ ok tt
check_policy-automatic r prior automatic target a h = h
check_policy-automatic r prior no_retry target a h = cc
check_policy-automatic r prior manual target a h = cc

-- An automatic retry is accepted only below the policy's limit for its root.
check_automatic-lt :
    (r : Resources) (prior : List Event) (target root : Event) {n : ℕ}
    → check_automatic r prior target ≡ ok tt
    → root_of prior target ≡ ok root
    → count_automatic prior root.event_id prior ≡ ok n
    → n < r.automatic_retries
unfolding check_automatic
check_automatic-lt r prior target root h k c =
    let (root', e1, h1) = bind-ok (root_of prior target) _ h in
    let (n', e2, h2) = bind-ok (count_automatic prior root'.event_id prior) _ h1 in
    let same : root' ≡ root = ok-injective (sym e1 ∙ k) in
    let equal : n' ≡ _ =
      ok-injective (sym e2 ∙ ap (λ (x : Event). count_automatic prior x.event_id prior) same ∙ c) in
    let below : leb r.automatic_retries n' ≡ false = (raise_if_iff _ _).0 h2 in
    ground (arith, below, equal)

-- For every identifier, the events that are automatic retries of the attempt of that name can be
-- counted, and are at most as many as the policy allows.
abbrev pub AreFew : SearchSpec → List Event → Type 0
AreFew spec es =
    (id : String)
    → (n : ℕ) × (count_automatic es id es ≡ ok n) × (n ≤ spec.resources.automatic_retries)

roots_of :
    (es : List Event)
    → HaveRoots es
    → (e : Event) → Among e es
    → (r : Event) × (root_of es e ≡ ok r)
roots_of es roots e m = let (r, ended) = roots e m in (r, root_of-found es e ended)

root_of-snoc :
    (es : List Event) (x : Event)
    → HaveRoots es
    → (e : Event) → Among e es
    → root_of (es ++ x ∷ []) e ≡ root_of es e
root_of-snoc es x roots e m =
    let (r, ended) = roots e m in
    root_of-found (es ++ x ∷ []) e (chase-snoc es x e ended) ∙ sym (root_of-found es e ended)

count_automatic-kept :
    (es : List Event) (x : Event) (id : String) {n : ℕ}
    → HaveRoots es
    → count_automatic es id es ≡ ok n
    → count_automatic (es ++ x ∷ []) id es ≡ ok n
count_automatic-kept es x id roots h =
    count_automatic-same (es ++ x ∷ []) es id es (root_of-snoc es x roots) ∙ h

not_automatic : (k : RetryKind) → is_no_retry k ≡ true → is_automatic k ≡ false
not_automatic no_retry h = refl
not_automatic manual h = refl
not_automatic automatic h = cc

counted-le :
    (id : String) (x root : Event) (n limit : ℕ)
    → n ≤ limit
    → (is_automatic x.retry_kind ≡ true → root.event_id ≡ id → n < limit)
    → counted id x root n ≤ limit
counted-le id x root n limit h below = elim (Bool-cases (is_automatic x.retry_kind)) [
  | inl auto ↦ elim (Bool-cases (str_eq root.event_id id)) [
    | inl same ↦ let lt = below auto ((str_eq_iff root.event_id id).0 same) in ground (arith, lt)
    | inr other ↦ ground (arith, h)
  ]
  | inr plain ↦ ground (arith, h)
]

-- The event that is accepted last counts for its root, and was below the limit if it is automatic.
last_root :
    {spec : SearchSpec} (es : List Event) (x : Event)
    → IsAccepted spec es x
    → HaveRoots es
    → (root : Event) × (root_of (es ++ x ∷ []) x ≡ ok root)
      × ((n : ℕ)
          → is_automatic x.retry_kind ≡ true
          → count_automatic es root.event_id es ≡ ok n
          → n < spec.resources.automatic_retries)
last_root {spec} es x a roots = elim (check_retry-IsTarget spec.resources es x a.retry) [
  | inl (no_more, first) ↦
      let no_automatic = not_automatic x.retry_kind first in
      (
        x,
        root_of-found (es ++ x ∷ []) x
            (chase-none (length (es ++ x ∷ [])) (es ++ x ∷ []) x no_more),
        λ n auto c. ground arith,
      )
  | inr (target, is) ↦
      let (root, ended) = roots target (find_event-Among is.id es is.finds) in
      (
        root,
        root_of-found (es ++ x ∷ []) x (rw (length-snoc es x) (chase-target es x target is ended)),
        λ n auto c.
            check_automatic-lt spec.resources es target root
              (check_policy-automatic spec.resources es x.retry_kind target auto is.allowed)
              (root_of-found es target ended) c,
      )
]

AreFew-next :
    {spec : SearchSpec} (es : List Event) (x : Event)
    → IsAccepted spec es x
    → HaveRoots es
    → AreFew spec es
    → AreFew spec (es ++ x ∷ [])
AreFew-next {spec} es x a roots few id =
    let (n, before, le) = few id in
    let (root, ends, below) = last_root es x a roots in
    let (m, c) = count_automatic-IsTally (es ++ x ∷ []) id es (λ e m.
      let (r, ended) = roots e m in
      (r, root_of-found (es ++ x ∷ []) e (chase-snoc es x e ended))) in
    let same : m ≡ n = ok-injective (sym c.here ∙ count_automatic-kept es x id roots before) in
    (
      counted id x root m,
      c.grows x root ends,
      counted-le id x root m spec.resources.automatic_retries (omega (arith, le, same))
          λ auto named. let lt = below n auto (rw named before) in omega (arith, lt, same),
    )

History-AreFew : {spec : SearchSpec} {es : List Event} → History spec es → AreFew spec es
unfolding count_automatic
History-AreFew start = λ id. (0, refl, omega arith)
History-AreFew {spec} (next {es = es} x past a same) =
    subst (AreFew spec) (sym same)
      (AreFew-next es x a (History-HaveRoots past) (History-AreFew past))

module _ (t : Texts) where
  -- In every ledger that is constructed: the loop that follows an event's retries ends, within as many
  -- rounds as there are events, at an event of the ledger that repeats no other.
  pub ledger-root_of :
      (spec : SearchSpec) (run_id : String) (es : List Event) (e : Event) {l : ResourceLedger}
      → ledger t spec run_id es ≡ ok l
      → Among e es
      → (r : Event) × (root_of es e ≡ ok r) × (r.retry_of ≡ none) × Among r es
  ledger-root_of spec run_id es e h m = root_of-ends es e (ledger-History t spec run_id es h) m

  -- In every ledger that is constructed, and for every identifier: the automatic retries whose chain
  -- starts at the attempt of that name are at most as many as the spec's resources allow.
  pub ledger-AreFew :
      (spec : SearchSpec) (run_id : String) (es : List Event) {l : ResourceLedger}
      → ledger t spec run_id es ≡ ok l
      → AreFew spec es
  ledger-AreFew spec run_id es h = History-AreFew (ledger-History t spec run_id es h)
