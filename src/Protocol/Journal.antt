-- ===== src/Protocol/Journal.antt =====
-- search_cup/v23_judgment.py: `JudgmentJournal`, which holds its entries in place of their canonical
-- JSON text, its checks and `append`.
pub mod Phases
use llm_evaluation_lab.Base.{
  ℕ, String, Bool, true, false, not, ◌&&◌, ◌||◌, Option, none, some, List, [], ◌∷◌, ◌++◌, map, any,
  all, filter, is_empty, ltb, str_eq, if◌then◌else◌,
}
use llm_evaluation_lab.Base.Result.{Result, ok, err, ◌>>=◌, ◌>>◌, raise_if, require}
use llm_evaluation_lab.Json.{Json, str, arr, obj, Fields, end, field, get, array, truthy}
use llm_evaluation_lab.Lab.Read.{contains}
use llm_evaluation_lab.Cup.Error.{Error, value_error, other}
use llm_evaluation_lab.Cup.Contracts.{Runtime}
use llm_evaluation_lab.Cup.Competition.{is_distinct}
use llm_evaluation_lab.Cup.Registry.{fingerprint_of}
use llm_evaluation_lab.Protocol.Numbers.{equal}
use llm_evaluation_lab.Protocol.Schema.{
  Schema, const, enum, array as array_schema, obj_of, validate_shape,
}
use llm_evaluation_lab.Protocol.Shapes.{text_schema, hash_schema, ref_schema}
use llm_evaluation_lab.Protocol.Safety.{Texts, assert_content_safe}
use llm_evaluation_lab.Protocol.Seal.{verify_seal}
use llm_evaluation_lab.Protocol.Controls.{at, text_of, names_of, is_text, is_subset}
use llm_evaluation_lab.Protocol.Spec.{Time, Clock, timestamp}
use llm_evaluation_lab.Protocol.Pool.{Unicode, array_items}
use llm_evaluation_lab.Protocol.Package.{triggers, texts_in, validate_package}
use llm_evaluation_lab.Protocol.Record.{record_schema, find_by, validate_record}

-- An entry by its "kind": a first pass is its record, an override its own fields. Any other value is
-- unsupported, also one of kind FIRST_PASS that is not of a first pass's shape.
pub data Entry : Type 0 where
  first_pass : Fields → Entry
  human_override : Fields → Entry
  unsupported : Json → Entry

abbrev pub entry_json : Entry → Json
entry_json (first_pass r) = obj (field "kind" (str "FIRST_PASS") (field "record" (obj r) end))
entry_json (human_override e) = obj e
entry_json (unsupported j) = j

abbrev pub is_override : Entry → Bool
is_override (human_override e) = true
is_override _ = false

-- `[old["record"] for old in prior if old["kind"] == "FIRST_PASS"]`
unfoldable pub records_of : List Entry → List Fields
records_of [] = []
records_of (first_pass r ∷ es) = r ∷ records_of es
records_of (human_override e ∷ es) = records_of es
records_of (unsupported j ∷ es) = records_of es

unfoldable pub overrides_of : List Entry → List Fields
overrides_of [] = []
overrides_of (first_pass r ∷ es) = overrides_of es
overrides_of (human_override e ∷ es) = e ∷ overrides_of es
overrides_of (unsupported j ∷ es) = overrides_of es

abbrev pub text_at : String → Fields → String
text_at key fs = text_of (get key fs)

abbrev pub first_pass_schema : Schema
first_pass_schema = obj_of (("kind", const (str "FIRST_PASS")) ∷ ("record", record_schema) ∷ [])

abbrev pub override_schema : Schema
override_schema = obj_of (
    ("kind", const (str "HUMAN_OVERRIDE"))
    ∷ ("candidate_id", text_schema)
    ∷ ("prior_machine_fingerprints", array_schema hash_schema 1)
    ∷ ("adjudicator_alias", text_schema)
    ∷ ("decision", enum ("ACCEPT" ∷ "REJECT" ∷ "UNKNOWN" ∷ []))
    ∷ ("trigger", enum triggers)
    ∷ ("reason_code", text_schema)
    ∷ ("evidence_used", array_schema ref_schema 1)
    ∷ ("timestamp", text_schema)
    ∷ ("previous_journal_fingerprint", hash_schema)
    ∷ ("canonical_fingerprint", hash_schema)
    ∷ [])

-- The same record, or the same judge and candidate.
abbrev pub overwrites : Fields → Fields → Bool
overwrites old r =
    str_eq (text_at "record_id" old) (text_at "record_id" r)
    || str_eq (text_at "judge_alias" old) (text_at "judge_alias" r)
      && str_eq (text_at "candidate_id" old) (text_at "candidate_id" r)

-- The loop over the prior first passes.
unfoldable pub check_prior : List Fields → Fields → Result Error (Unit {0})
unfolding equal get
check_prior [] r = ok tt
check_prior (old ∷ rest) r = do
  require (str_eq (text_at "run_id" old) (text_at "run_id" r))
      (value_error "one journal requires one run identity")
  raise_if
      (str_eq (text_at "judge_alias" old) (text_at "judge_alias" r)
        && not (equal (get "judge_identity" old) (get "judge_identity" r)))
      (value_error "judge identity changed during run")
  raise_if (overwrites old r) (value_error "first-pass overwrite forbidden")
  check_prior rest r

-- Judges and candidates
abbrev pub Pair : Type 0
Pair = String × String

abbrev pub same_pair : Pair → Pair → Bool
same_pair (a, b) (c, d) = str_eq a c && str_eq b d

abbrev pub has_pair : Pair → List Pair → Bool
has_pair p = any (same_pair p)

unfoldable pub pairs_with : String → List String → List Pair
pairs_with a [] = []
pairs_with a (c ∷ cs) = (a, c) ∷ pairs_with a cs

-- `{(j, c["candidate_id"]) for j in aliases for c in candidates}`
unfoldable pub all_pairs : List String → List String → List Pair
unfolding pairs_with
all_pairs [] cs = []
all_pairs (a ∷ as') cs = pairs_with a cs ++ all_pairs as' cs

abbrev pub pair_of : Fields → Pair
pair_of r = (text_at "judge_alias" r, text_at "candidate_id" r)

abbrev pub same_pairs : List Pair → List Pair → Bool
same_pairs ps qs = all (λ p. has_pair p qs) ps && all (λ q. has_pair q ps) qs

-- `any(timestamp(…) < timestamp(r[key]) for r in …)` raises the error.
unfoldable pub check_after : Clock → String → String → Error → List Fields → Result Error (Unit {0})
unfolding timestamp get
check_after clock time key e [] = ok tt
check_after clock time key e (r ∷ rs) = do
  here ← timestamp clock time
  there ← timestamp clock (text_at key r)
  raise_if (ltb here.instant there.instant) e
  check_after clock time key e rs

abbrev pub candidate_ids : Fields → List String
candidate_ids bundle =
    map (λ c. text_of (at "candidate_id" c))
      (array_items (at "candidates" (get "candidate_pool" bundle)))

-- The records on the override's candidate, and what its trigger asks of them.
unfoldable pub check_related : Fields → List Fields → Result Error (Unit {0})
unfolding get
check_related entry related = do
  let states = map (λ r. text_at "state" r) related
  let marks = map (λ r. text_at "canonical_fingerprint" r) related
  let named = names_of (get "prior_machine_fingerprints" entry)
  let trigger = get "trigger" entry
  require (is_subset named marks && is_subset marks named && not (is_empty related))
      (value_error "override must preserve all prior machine judgments")
  raise_if (is_text "DISAGREEMENT" trigger && all (λ s. all (str_eq s) states) states)
      (value_error "disagreement trigger lacks disagreement")
  raise_if (is_text "CRITICAL_UNKNOWN" trigger && not (contains "UNKNOWN" states))
      (value_error "UNKNOWN trigger lacks unresolved judgment")
  raise_if (is_text "IDENTITY_COLLISION" trigger)
      (value_error "identity collisions must be resolved before package freeze")

module _ (rt : Runtime) (t : Texts) (u : Unicode) (clock : Clock) where
  open t use {search}

  unfoldable pub check_first_pass :
      Fields → List String → List Entry → Fields → Result Error (Unit {0})
  unfolding validate_shape validate_record records_of check_prior get
  check_first_pass bundle aliases prior r = do
    validate_shape search first_pass_schema "contract" (entry_json (first_pass r))
    validate_record rt t u clock r bundle
    require (contains (text_at "judge_alias" r) aliases) (value_error "undeclared judge alias")
    check_prior (records_of prior) r
    raise_if (any is_override prior) (value_error "first pass must precede synthesis/adjudication")

  unfoldable pub check_override :
      Fields → List String → List Entry → Fields → Result Error (Unit {0})
  unfolding validate_shape verify_seal records_of overrides_of all_pairs check_related find_by
      check_after array_items array truthy get
  check_override bundle aliases prior e = do
    validate_shape search override_schema "contract" (obj e)
    verify_seal rt t e
    let rules = get "adjudication" bundle
    let records = records_of prior
    let candidates = array_items (at "candidates" (get "candidate_pool" bundle))
    require
        (truthy (at "allowed" rules)
          && contains (text_at "trigger" e) (names_of (at "triggers" rules)))
        (value_error "adjudication trigger not frozen")
    require
        (is_text (fingerprint_of rt (arr (array (map entry_json prior))))
          (get "previous_journal_fingerprint" e))
        (value_error "adjudication chain mismatch")
    require (same_pairs (map pair_of records) (all_pairs aliases (candidate_ids bundle)))
        (value_error "all independent first passes required before adjudication")
    check_related e
        (filter (λ r. str_eq (text_at "candidate_id" r) (text_at "candidate_id" e)) records)
    candidate ← elim (find_by "candidate_id" (get "candidate_id" e) candidates) [
      | none ↦ err (other "StopIteration" "")
      | some c ↦ ok c
    ]
    require
        (is_subset (texts_in rt t u clock (get "evidence_used" e))
          (texts_in rt t u clock (at "evidence" candidate)))
        (value_error "adjudicator cannot add evidence")
    check_after clock (text_at "timestamp" e) "committed_at"
        (value_error "override predates first pass") records
    check_after clock (text_at "timestamp" e) "timestamp"
        (value_error "override predates append-only history") (overrides_of prior)

  -- What a value of kind FIRST_PASS lacks is reported before it is refused.
  unfoldable pub refuse_unsupported : Json → Result Error (Unit {0})
  unfolding validate_shape get
  refuse_unsupported j = do
    if is_text "FIRST_PASS" (at "kind" j)
        then validate_shape t.search first_pass_schema "contract" j
        else ok tt
    err (value_error "unsupported judgment journal entry")

  -- `_validate_entry(entry, prior, package)`
  unfoldable pub validate_entry :
      Fields → List String → List Entry → Entry → Result Error (Unit {0})
  unfolding check_first_pass check_override refuse_unsupported
  validate_entry bundle aliases prior (first_pass r) = check_first_pass bundle aliases prior r
  validate_entry bundle aliases prior (human_override e) = check_override bundle aliases prior e
  validate_entry bundle aliases prior (unsupported j) = refuse_unsupported j

  unfoldable pub validate_entries :
      Fields → List String → List Entry → List Entry → Result Error (Unit {0})
  unfolding validate_entry
  validate_entries bundle aliases prior [] = ok tt
  validate_entries bundle aliases prior (e ∷ es) = do
    validate_entry bundle aliases prior e
    validate_entries bundle aliases (prior ++ e ∷ []) es

pub record JudgmentJournal : Type 0 where
  pub bundle : Fields
  pub judge_aliases : List String
  pub entries : List Entry

module _ (rt : Runtime) (t : Texts) (u : Unicode) (clock : Clock) where
  open t use {search}

  -- `JudgmentJournal(package, judge_aliases, entries)`, with `__post_init__`
  unfoldable pub journal : Fields → List String → List Entry → Result Error JudgmentJournal
  unfolding validate_package validate_shape assert_content_safe validate_entries is_distinct array
  journal bundle aliases es = do
    validate_package rt t u clock bundle
    require (not (is_empty aliases) && is_distinct aliases)
        (value_error "judge aliases must be unique")
    validate_shape search (array_schema text_schema 1) "contract" (arr (array (map str aliases)))
    assert_content_safe t (arr (array (map str aliases)))
    validate_entries rt t u clock bundle aliases [] es
    ok (record { bundle = bundle; judge_aliases = aliases; entries = es })

  -- `append(entry)`
  unfoldable pub append_entry : JudgmentJournal → Entry → Result Error JudgmentJournal
  unfolding journal
  append_entry j e = journal j.bundle j.judge_aliases (j.entries ++ e ∷ [])
