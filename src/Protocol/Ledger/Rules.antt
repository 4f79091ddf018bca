-- ===== src/Protocol/Ledger/Rules.antt =====
-- What the checks of a ledger establish, and the history of its events.
use llm_evaluation_lab.Base.{
  String, Bool, true, false, ◌≡◌, refl, sym, ap, subst, ◌∙◌, some, List, [], ◌∷◌, ◌++◌, append-nil,
  append_assoc, any, str_eq,
}
use llm_evaluation_lab.Base.Result.{
  ok, ◌>>◌, raise_if, then_iff, raise_if_iff, bind-ok, require-ok, ok-injective, then-ok, skip,
}
use llm_evaluation_lab.Json.{str}
use llm_evaluation_lab.Protocol.Schema.{validate_shape}
use llm_evaluation_lab.Protocol.Shapes.{text_schema}
use llm_evaluation_lab.Protocol.Safety.{Texts, assert_content_safe}
use llm_evaluation_lab.Protocol.Measure.{validate_measure}
use llm_evaluation_lab.Protocol.Event.{Event, event_json, event_schema, SearchSpec}
use llm_evaluation_lab.Protocol.Ledger.{
  check_status, check_unit, check_turn, check_retry, validate_event, validate_events,
  ResourceLedger, ledger, append,
}

abbrev pub is_used : String → List Event → Bool
is_used id prior = any (λ (p : Event). str_eq p.event_id id) prior

-- The same ledger with one event more.
abbrev pub with_event : ResourceLedger → Event → ResourceLedger
with_event l e = record { spec = l.spec; run_id = l.run_id; events = l.events ++ e ∷ [] }

-- The checks of an event that look at the events before it.
pub record IsAccepted (spec : SearchSpec) (prior : List Event) (e : Event) : Type 0 where
  pub new : is_used e.event_id prior ≡ false
  pub status : check_status e ≡ ok tt
  pub unit : check_unit spec e ≡ ok tt
  pub turn : check_turn prior e ≡ ok tt
  pub retry : check_retry spec.resources prior e ≡ ok tt

-- The events of a ledger: each was accepted after those before it.
pub data History (spec : SearchSpec) : List Event → Type 0 where
  start : History spec []
  next :
      {es es' : List Event} (e : Event)
      → History spec es
      → IsAccepted spec es e
      → es' ≡ es ++ e ∷ []
      → History spec es'

module _ (t : Texts) where
  open t use {search}

  validate_event-IsAccepted :
      (spec : SearchSpec) (prior : List Event) (e : Event)
      → validate_event t spec prior e ≡ ok tt
      → IsAccepted spec prior e
  unfolding validate_event
  validate_event-IsAccepted spec prior e h =
      let (_, h1) =
        (then_iff (validate_shape search event_schema "contract" (event_json e)) _).0 h in
      let (_, h2) = (then_iff (assert_content_safe t (event_json e)) _).0 h1 in
      let (_, h3) = (then_iff (validate_measure t e.tokens (some "tokens")) _).0 h2 in
      let (_, h4) =
        (then_iff (validate_measure t e.money (some spec.resources.money_ceiling.unit)) _).0 h3 in
      let (new, h5) = (then_iff (raise_if (is_used e.event_id prior) _) _).0 h4 in
      let (status, h6) = (then_iff (check_status e) _).0 h5 in
      let (unit, h7) = (then_iff (check_unit spec e) _).0 h6 in
      let (turn, retry) =
        (then_iff (check_turn prior e) (check_retry spec.resources prior e)).0 h7 in
      record {
        new = (raise_if_iff (is_used e.event_id prior) _).0 new;
        status = status;
        unit = unit;
        turn = turn;
        retry = retry;
      }

  validate_events-History :
      (spec : SearchSpec) (prior es : List Event)
      → History spec prior
      → validate_events t spec prior es ≡ ok tt
      → History spec (prior ++ es)
  unfolding validate_events
  validate_events-History spec prior [] past h = subst (History spec) (sym (append-nil prior)) past
  validate_events-History spec prior (e ∷ es) past h =
      let (first, rest) = (then_iff (validate_event t spec prior e) _).0 h in
      subst (History spec) (append_assoc prior (e ∷ []) es) (
        validate_events-History spec (prior ++ e ∷ []) es
          (next e past (validate_event-IsAccepted spec prior e first) refl) rest)

  -- The checks of a ledger that was constructed.
  pub record IsChecked (spec : SearchSpec) (run_id : String) (es : List Event) : Type 0 where
    pub frozen : str_eq spec.spec_status "FROZEN" ≡ true
    pub shaped : validate_shape search text_schema "contract" (str run_id) ≡ ok tt
    pub safe : assert_content_safe t (str run_id) ≡ ok tt
    pub valid : validate_events t spec [] es ≡ ok tt

  pub ledger-IsChecked :
      (spec : SearchSpec) (run_id : String) (es : List Event) {l : ResourceLedger}
      → ledger t spec run_id es ≡ ok l
      → IsChecked spec run_id es × (l ≡ record { spec = spec; run_id = run_id; events = es })
  unfolding ledger
  ledger-IsChecked spec run_id es h =
      let (frozen, h1) = require-ok (str_eq spec.spec_status "FROZEN") _ _ h in
      let (_, shaped, h2) =
        bind-ok (validate_shape search text_schema "contract" (str run_id)) _ h1 in
      let (_, safe, h3) = bind-ok (assert_content_safe t (str run_id)) _ h2 in
      let (_, valid, h4) = bind-ok (validate_events t spec [] es) _ h3 in
      (
        record { frozen = frozen; shaped = shaped; safe = safe; valid = valid },
        sym (ok-injective h4),
      )

  pub ledger-History :
      (spec : SearchSpec) (run_id : String) (es : List Event) {l : ResourceLedger}
      → ledger t spec run_id es ≡ ok l
      → History spec es
  ledger-History spec run_id es h =
      let (c, _) = ledger-IsChecked spec run_id es h in
      validate_events-History spec [] es start c.valid

  validate_events-append :
      (spec : SearchSpec) (prior es : List Event) (e : Event)
      → validate_events t spec prior es ≡ ok tt
      → validate_events t spec prior (es ++ e ∷ []) ≡ validate_event t spec (prior ++ es) e
  unfolding validate_events
  validate_events-append spec prior [] e h =
      then-ok (validate_event t spec prior e)
      ∙ ap (λ p. validate_event t spec p e) (sym (append-nil prior))
  validate_events-append spec prior (x ∷ es) e h =
      let (first, rest) = (then_iff (validate_event t spec prior x) _).0 h in
      rw first (
        validate_events-append spec (prior ++ x ∷ []) es e rest
        ∙ ap (λ p. validate_event t spec p e) (append_assoc prior (x ∷ []) es))

  -- Appending to a ledger that was constructed checks the new event alone: whatever the event,
  -- checking the whole history anew gives the same ledger, or the same error, as checking the event
  -- after those that the ledger holds.
  pub append-eq-validate_event :
      (l : ResourceLedger) (e : Event)
      → ledger t l.spec l.run_id l.events ≡ ok l
      → append t l e ≡ (validate_event t l.spec l.events e >> ok (with_event l e))
  unfolding append ledger
  append-eq-validate_event l e h =
      let (c, _) = ledger-IsChecked l.spec l.run_id l.events h in
      let frozen = c.frozen in
      rw frozen (
        skip (validate_shape search text_schema "contract" (str l.run_id)) _ c.shaped
        ∙ skip (assert_content_safe t (str l.run_id)) _ c.safe
        ∙ ap (λ m. m >> ok (with_event l e)) (validate_events-append l.spec [] l.events e c.valid))
