-- ===== src/Protocol/Journal/Phases.antt =====
-- A journal has two phases: the first passes, and then the overrides of a complete set of them.
use llm_evaluation_lab.Base.{
  String, true, false, not, if◌then◌else◌, ◌&&◌, ◌≡◌, refl, sym, ap, ◌∙◌, subst, List, [], ◌∷◌,
  ◌++◌, append-nil, append_assoc, map, any, All, All-append, is_empty, str_eq_iff, arith,
}
use mathlib.Core.List.{map-append}
use llm_evaluation_lab.Base.Result.{
  ok, require, then_iff, require_iff, raise_if_iff, bind-ok, require-ok,
}
use llm_evaluation_lab.Json.{Json, Fields, get, obj, arr, str, array, truthy}
use llm_evaluation_lab.Lab.Read.{contains}
use llm_evaluation_lab.Cup.Competition.{is_distinct}
use llm_evaluation_lab.Cup.Registry.{fingerprint_of}
use llm_evaluation_lab.Protocol.Schema.{validate_shape, array as array_schema}
use llm_evaluation_lab.Protocol.Shapes.{text_schema}
use llm_evaluation_lab.Protocol.Seal.{verify_seal}
use llm_evaluation_lab.Protocol.Controls.{at, names_of, is_text}
use llm_evaluation_lab.Protocol.Package.{validate_package}
use llm_evaluation_lab.Protocol.Record.{validate_record}
use llm_evaluation_lab.Cup.Error.{value_error}
use llm_evaluation_lab.Cup.Contracts.{Runtime}
use llm_evaluation_lab.Protocol.Safety.{Texts, assert_content_safe}
use llm_evaluation_lab.Protocol.Spec.{Clock}
use llm_evaluation_lab.Protocol.Pool.{Unicode}
use llm_evaluation_lab.Protocol.Journal.{
  Entry, first_pass, human_override, unsupported, is_override, records_of, overrides_of, text_at,
  overwrites, check_prior, all_pairs, pair_of, same_pairs, candidate_ids, check_first_pass,
  check_override, refuse_unsupported, first_pass_schema, override_schema, entry_json,
  validate_entry, validate_entries, JudgmentJournal, journal,
}

-- Two first passes of one journal: one run, and neither overwrites the other.
abbrev pub IsSeparate : Fields → Fields → Type 0
IsSeparate old r = (text_at "run_id" old ≡ text_at "run_id" r) × (overwrites old r ≡ false)

abbrev pub AreSeparate : List Fields → Type 0
AreSeparate [] = Unit
AreSeparate (r ∷ rs) = All (IsSeparate r) rs × AreSeparate rs

abbrev IsComplete : Fields → List String → List Entry → Type 0
IsComplete bundle aliases es =
    same_pairs (map pair_of (records_of es)) (all_pairs aliases (candidate_ids bundle)) ≡ true

-- The first passes come first; they are of one run, each judge and each candidate having one, and
-- no record twice; and where there is an override, every judge has a first pass of every candidate.
pub record IsPhased (bundle : Fields) (aliases : List String) (es : List Entry) : Type 0 where
  pub ordered : es ≡ map first_pass (records_of es) ++ map human_override (overrides_of es)
  pub separate : AreSeparate (records_of es)
  pub complete : is_empty (overrides_of es) ≡ false → IsComplete bundle aliases es

check_prior-IsSeparate :
    (olds : List Fields) (r : Fields)
    → check_prior olds r ≡ ok tt
    → All (λ old. IsSeparate old r) olds
unfolding check_prior
check_prior-IsSeparate [] r h = tt
check_prior-IsSeparate (old ∷ rest) r h =
    let (run, h1) = (then_iff _ _).0 h in
    let (_, h2) = (then_iff _ _).0 h1 in
    let (kept, h3) = (then_iff _ _).0 h2 in
    (
      (
        (str_eq_iff (text_at "run_id" old) (text_at "run_id" r)).0 ((require_iff _ _).0 run),
        (raise_if_iff (overwrites old r) _).0 kept,
      ),
      check_prior-IsSeparate rest r h3,
    )

AreSeparate-snoc :
    (rs : List Fields) (r : Fields)
    → AreSeparate rs
    → All (λ old. IsSeparate old r) rs
    → AreSeparate (rs ++ r ∷ [])
AreSeparate-snoc [] r h k = (tt, tt)
AreSeparate-snoc (x ∷ rs) r (h, hs) (k, ks) =
    (All-append (IsSeparate x) rs (r ∷ []) h (k, tt), AreSeparate-snoc rs r hs ks)

records_of-append : (es ys : List Entry) → records_of (es ++ ys) ≡ records_of es ++ records_of ys
unfolding records_of
records_of-append [] ys = refl
records_of-append (first_pass r ∷ es) ys = ap (◌∷◌ r) (records_of-append es ys)
records_of-append (human_override e ∷ es) ys = records_of-append es ys
records_of-append (unsupported j ∷ es) ys = records_of-append es ys

overrides_of-append :
    (es ys : List Entry) → overrides_of (es ++ ys) ≡ overrides_of es ++ overrides_of ys
unfolding overrides_of
overrides_of-append [] ys = refl
overrides_of-append (first_pass r ∷ es) ys = overrides_of-append es ys
overrides_of-append (human_override e ∷ es) ys = ap (◌∷◌ e) (overrides_of-append es ys)
overrides_of-append (unsupported j ∷ es) ys = overrides_of-append es ys

no_overrides : (es : List Entry) → any is_override es ≡ false → overrides_of es ≡ []
unfolding overrides_of
no_overrides [] h = refl
no_overrides (first_pass r ∷ es) h = no_overrides es h
no_overrides (human_override e ∷ es) h = cc
no_overrides (unsupported j ∷ es) h = no_overrides es h

true_is_not_false : ¬ (true ≡ false)
true_is_not_false h = ground arith

snoc-first_pass :
    {bundle : Fields} {aliases : List String} (es : List Entry) (r : Fields)
    → check_prior (records_of es) r ≡ ok tt
    → any is_override es ≡ false
    → IsPhased bundle aliases es
    → IsPhased bundle aliases (es ++ first_pass r ∷ [])
unfolding records_of overrides_of
snoc-first_pass es r prior first p =
    let none = no_overrides es first in
    let records : records_of (es ++ first_pass r ∷ []) ≡ records_of es ++ r ∷ [] =
      records_of-append es (first_pass r ∷ []) in
    let overrides : overrides_of (es ++ first_pass r ∷ []) ≡ [] =
      overrides_of-append es (first_pass r ∷ []) ∙ append-nil (overrides_of es) ∙ none in
    let all_passes : es ≡ map first_pass (records_of es) =
      p.ordered
      ∙ ap (λ os. map first_pass (records_of es) ++ map human_override os) none
      ∙ append-nil (map first_pass (records_of es)) in
    record {
      ordered = rw records (
          rw overrides (
            ap (λ xs. xs ++ first_pass r ∷ []) all_passes
            ∙ sym (map-append first_pass (records_of es) (r ∷ []))
            ∙ sym (append-nil (map first_pass (records_of es ++ r ∷ [])))));
      separate = rw records (
          AreSeparate-snoc (records_of es) r p.separate
            (check_prior-IsSeparate (records_of es) r prior));
      complete = λ h. let some = ap is_empty (sym overrides) ∙ h in absurd (true_is_not_false some);
    }

snoc-human_override :
    {bundle : Fields} {aliases : List String} (es : List Entry) (e : Fields)
    → IsComplete bundle aliases es
    → IsPhased bundle aliases es
    → IsPhased bundle aliases (es ++ human_override e ∷ [])
unfolding records_of overrides_of
snoc-human_override {bundle} {aliases} es e c p =
    let records : records_of (es ++ human_override e ∷ []) ≡ records_of es =
      records_of-append es (human_override e ∷ []) ∙ append-nil (records_of es) in
    let overrides : overrides_of (es ++ human_override e ∷ []) ≡ overrides_of es ++ e ∷ [] =
      overrides_of-append es (human_override e ∷ []) in
    record {
      ordered = rw records (
          rw overrides (
            ap (λ xs. xs ++ human_override e ∷ []) p.ordered
            ∙ append_assoc (map first_pass (records_of es)) (map human_override (overrides_of es))
                (human_override e ∷ [])
            ∙ ap (λ xs. map first_pass (records_of es) ++ xs)
                (sym (map-append human_override (overrides_of es) (e ∷ [])))));
      separate = rw records p.separate;
      complete = λ h. rw records c;
    }

module _ (rt : Runtime) (t : Texts) (u : Unicode) (clock : Clock) where
  open t use {search}

  check_first_pass-ok :
      (bundle : Fields) (aliases : List String) (es : List Entry) (r : Fields)
      → check_first_pass rt t u clock bundle aliases es r ≡ ok tt
      → (check_prior (records_of es) r ≡ ok tt) × (any is_override es ≡ false)
  unfolding check_first_pass
  check_first_pass-ok bundle aliases es r h =
      let (_, h1) =
        (then_iff (validate_shape search first_pass_schema "contract" (entry_json (first_pass r)))
            _).0
          h in
      let (_, h2) = (then_iff (validate_record rt t u clock r bundle) _).0 h1 in
      let (_, h3) =
        (then_iff
            (require (contains (text_at "judge_alias" r) aliases)
              (value_error "undeclared judge alias"))
            _).0
          h2 in
      let (prior, first) = (then_iff (check_prior (records_of es) r) _).0 h3 in
      (prior, (raise_if_iff (any is_override es) _).0 first)

  check_override-IsComplete :
      (bundle : Fields) (aliases : List String) (es : List Entry) (e : Fields)
      → check_override rt t u clock bundle aliases es e ≡ ok tt
      → IsComplete bundle aliases es
  unfolding check_override
  check_override-IsComplete bundle aliases es e h =
      let (_, h1) = (then_iff (validate_shape search override_schema "contract" (obj e)) _).0 h in
      let (_, h2) = (then_iff (verify_seal rt t e) _).0 h1 in
      let (_, h3) =
        require-ok
          (truthy (at "allowed" (get "adjudication" bundle))
            && contains (text_at "trigger" e)
                (names_of (at "triggers" (get "adjudication" bundle))))
          _ _ h2 in
      let (_, h4) =
        require-ok
          (is_text (fingerprint_of rt (arr (array (map entry_json es))))
            (get "previous_journal_fingerprint" e))
          _ _ h3 in
      let (complete, _) =
        require-ok
          (same_pairs (map pair_of (records_of es)) (all_pairs aliases (candidate_ids bundle))) _ _
          h4 in
      complete

  refuse_unsupported-fails : (j : Json) → ¬ (refuse_unsupported rt t u clock j ≡ ok tt)
  unfolding refuse_unsupported
  refuse_unsupported-fails j h =
      let (_, refused) =
        (then_iff
            (if is_text "FIRST_PASS" (at "kind" j)
              then validate_shape search first_pass_schema "contract" j
              else ok tt)
            _).0
          h in
      cc

  validate_entry-IsPhased :
      (bundle : Fields) (aliases : List String) (es : List Entry) (e : Entry)
      → validate_entry rt t u clock bundle aliases es e ≡ ok tt
      → IsPhased bundle aliases es
      → IsPhased bundle aliases (es ++ e ∷ [])
  unfolding validate_entry
  validate_entry-IsPhased bundle aliases es (first_pass r) h p =
      let (prior, first) = check_first_pass-ok bundle aliases es r h in
      snoc-first_pass es r prior first p
  validate_entry-IsPhased bundle aliases es (human_override e) h p =
      snoc-human_override es e (check_override-IsComplete bundle aliases es e h) p
  validate_entry-IsPhased bundle aliases es (unsupported j) h p =
      absurd (refuse_unsupported-fails j h)

  validate_entries-IsPhased :
      (bundle : Fields) (aliases : List String) (prior es : List Entry)
      → validate_entries rt t u clock bundle aliases prior es ≡ ok tt
      → IsPhased bundle aliases prior
      → IsPhased bundle aliases (prior ++ es)
  unfolding validate_entries
  validate_entries-IsPhased bundle aliases prior [] h p =
      subst (IsPhased bundle aliases) (sym (append-nil prior)) p
  validate_entries-IsPhased bundle aliases prior (e ∷ es) h p =
      let (first, rest) = (then_iff (validate_entry rt t u clock bundle aliases prior e) _).0 h in
      subst (IsPhased bundle aliases) (append_assoc prior (e ∷ []) es) (
        validate_entries-IsPhased bundle aliases (prior ++ e ∷ []) es rest
          (validate_entry-IsPhased bundle aliases prior e first p))

  -- In every journal that is constructed the first passes come before the overrides; they are of one
  -- run, no two share a record identifier or a judge and a candidate; and where there is an
  -- override, the first passes are those of every judge on every candidate, and of no other.
  pub journal-IsPhased :
      (bundle : Fields) (aliases : List String) (es : List Entry) {j : JudgmentJournal}
      → journal rt t u clock bundle aliases es ≡ ok j
      → IsPhased bundle aliases es
  unfolding journal records_of overrides_of
  journal-IsPhased bundle aliases es h =
      let (_, _, h1) = bind-ok (validate_package rt t u clock bundle) _ h in
      let (_, h2) = require-ok (not (is_empty aliases) && is_distinct aliases) _ _ h1 in
      let (_, _, h3) =
        bind-ok
          (validate_shape search (array_schema text_schema 1) "contract"
            (arr (array (map str aliases))))
          _ h2 in
      let (_, _, h4) = bind-ok (assert_content_safe t (arr (array (map str aliases)))) _ h3 in
      let (_, valid, _) = bind-ok (validate_entries rt t u clock bundle aliases [] es) _ h4 in
      validate_entries-IsPhased bundle aliases [] es valid
        (record { ordered = refl; separate = tt; complete = λ e. absurd (true_is_not_false e) })
