-- ===== src/Protocol/Tests/Specs/Journals.antt =====
-- A journal of one judge and one candidate: the first pass, and an override of it.
use llm_evaluation_lab.Base.{String, true, false, ◌≡◌, refl, List, [], ◌∷◌, str_eq, if◌then◌else◌}
use llm_evaluation_lab.Base.Result.{Result, ok, err}
use llm_evaluation_lab.Json.{Json, null, bool, str, arr, obj, nil, Fields, array, has, get, truthy}
use llm_evaluation_lab.Cup.Contracts.{Runtime}
use llm_evaluation_lab.Cup.Error.{Error, value_error}
use llm_evaluation_lab.Protocol.Numbers.{number_lt}
use llm_evaluation_lab.Protocol.Schema.{text_length, each_field, each_item, check_kinds}
use llm_evaluation_lab.Protocol.Event.{object_of}
use llm_evaluation_lab.Protocol.Controls.{fields_of}
use llm_evaluation_lab.Protocol.Pool.{Unicode}
use llm_evaluation_lab.Protocol.Package.{validate_package}
use llm_evaluation_lab.Protocol.Journal.{
  Entry, first_pass, human_override, JudgmentJournal, journal, append_entry,
}
use llm_evaluation_lab.Protocol.Journal.Phases.{IsPhased, journal-IsPhased}
use llm_evaluation_lab.Protocol.Tests.{texts}
use llm_evaluation_lab.Protocol.Tests.Specs.{ref, strings, judgment_document, runtime, clock}

abbrev pub policy : Json
policy = obj (
    object_of (
      ("id", str "p")
      ∷ ("version", str "1")
      ∷ ("normalization", str "NFKC_CASEFOLD_WHITESPACE_V1")
      ∷ ("identity_fields", strings ("name" ∷ []))
      ∷ ("visible_fields", strings ("name" ∷ []))
      ∷ ("collision_policy", str "UNKNOWN_IDENTITY")
      ∷ ("ordering", str "CANDIDATE_ID_ASC")
      ∷ []))

abbrev evidence : Json
evidence = arr (array (ref ∷ []))

abbrev candidate : Json
candidate = obj (
    object_of (
      ("candidate_id", str "candidate-f")
      ∷ ("fields", obj (object_of (("name", str "acme") ∷ [])))
      ∷ ("evidence", evidence)
      ∷ []))

abbrev pool : Json
pool = obj (
    object_of (
      ("schema_id", str "search-candidate-pool/v2")
      ∷ ("policy", policy)
      ∷ ("candidates", arr (array (candidate ∷ [])))
      ∷ ("collisions", arr nil)
      ∷ ("canonical_fingerprint", str "f")
      ∷ []))

abbrev rubric : Json
rubric = obj (
    object_of (
      ("id", str "r")
      ∷ ("version", str "1")
      ∷ (
        "dimensions",
        arr (
            array (
              obj (
                object_of (
                  ("id", str "fit")
                  ∷ ("allowed_values", strings ("YES" ∷ "NO" ∷ []))
                  ∷ ("evidence_threshold", str "one")
                  ∷ ("unknown_rule", str "INSUFFICIENT_EVIDENCE_NOT_NEGATIVE")
                  ∷ ("hard_constraint", bool true)
                  ∷ ("satisfying_values", strings ("YES" ∷ []))
                  ∷ []))
              ∷ [])),
      )
      ∷ ("confidence_allowed", bool false)
      ∷ ("hard_constraints_first", bool true)
      ∷ (
        "aggregation",
        obj (
            object_of (
              ("method", str "m")
              ∷ ("tie_policy", str "ADJUDICATE")
              ∷ ("unknown_policy", str "PRESERVE")
              ∷ ("frozen_before_outputs", bool true)
              ∷ [])),
      )
      ∷ []))

abbrev adjudication : Json
adjudication = obj (
    object_of (
      ("id", str "a")
      ∷ ("version", str "1")
      ∷ ("allowed", bool true)
      ∷ ("triggers", strings ("CONTRADICTION" ∷ []))
      ∷ ("thresholds", ref)
      ∷ ("evidence_policy", str "FROZEN_PACKET_ONLY")
      ∷ ("append_only", bool true)
      ∷ []))

abbrev packet : Json
packet = obj (
    object_of (
      ("id", str "e")
      ∷ ("version", str "1")
      ∷ (
        "entries",
        arr (
            array (
              obj (
                object_of (
                  ("reference", ref)
                  ∷ ("excerpt", str "x")
                  ∷ ("captured_at", str "2026")
                  ∷ ("locator", str "l")
                  ∷ ("corpus_fingerprint", null)
                  ∷ []))
              ∷ [])),
      )
      ∷ []))

abbrev overlay : Json
overlay = obj (
    object_of (
      ("kind", str "SYNTHETIC")
      ∷ ("corpus", null)
      ∷ ("reference_set", null)
      ∷ ("capture_cutoff", null)
      ∷ ("adjudication_time", null)
      ∷ ("drift_policy", null)
      ∷ []))

abbrev bundle : Fields
bundle = object_of (
    ("schema_id", str "search-judgment-package/v2")
    ∷ ("candidate_pool", pool)
    ∷ ("evidence_packet", packet)
    ∷ ("rubric", rubric)
    ∷ ("adjudication", adjudication)
    ∷ ("output_schema", ref)
    ∷ ("resource_fingerprint", str "f")
    ∷ ("source_overlay", overlay)
    ∷ ("allowed_tools", arr nil)
    ∷ ("order_policy", str "CANDIDATE_ID_ASC")
    ∷ ("independent_first_pass", bool true)
    ∷ ("searchspec", obj judgment_document)
    ∷ ("canonical_fingerprint", str "f")
    ∷ [])

-- The canonical text is read back as the spec or as the package.
abbrev text_of_document : Json → String
text_of_document j = if truthy (get "spec_id" (fields_of j)) then "spec" else "bundle"

abbrev document_of_text : String → Result Error Json
document_of_text s = if str_eq s "spec" then ok (obj judgment_document) else ok (obj bundle)

abbrev bundle_runtime : Runtime
bundle_runtime = record runtime { dumps = text_of_document; loads = document_of_text }

abbrev pub unicode : Unicode
unicode = record { nfkc = λ s. s; casefold = λ s. s; split = λ s. s ∷ [] }

bundle_valid : validate_package bundle_runtime texts unicode clock bundle ≡ ok tt
unfolding validate_package text_length has each_field number_lt check_kinds each_item array truthy
    get
bundle_valid = refl

abbrev judge : Json
judge = obj (
    object_of (
      ("entrant_id", str "j1")
      ∷ ("provider", str "p")
      ∷ ("requested_model_id", str "m")
      ∷ ("resolved_model_id", str "m")
      ∷ ("resolution_status", str "KNOWN")
      ∷ ("identity_status", str "AS_REQUESTED")
      ∷ ("alias_evidence", null)
      ∷ ("endpoint_mode", str "e")
      ∷ ("config_fingerprint", str "f")
      ∷ []))

-- A first pass with this identifier and this state, its one dimension having this value.
abbrev judgment : String → String → String → Fields
judgment name state value = object_of (
    ("record_id", str name)
    ∷ ("run_id", str "run")
    ∷ ("candidate_id", str "candidate-f")
    ∷ ("judge_alias", str "j1")
    ∷ ("judge_identity", judge)
    ∷ ("package_fingerprint", str "f")
    ∷ ("rubric_fingerprint", str "f")
    ∷ ("state", str state)
    ∷ (
      "dimensions",
      arr (array (obj (object_of (("id", str "fit") ∷ ("value", str value) ∷ [])) ∷ [])),
    )
    ∷ ("confidence", null)
    ∷ ("evidence_used", evidence)
    ∷ ("reason_codes", strings ("r" ∷ []))
    ∷ ("failure_class", str "NONE")
    ∷ ("committed_at", str "2026")
    ∷ ("observed_peer_records", arr nil)
    ∷ ("canonical_fingerprint", str "f")
    ∷ [])

abbrev override : Fields
override = object_of (
    ("kind", str "HUMAN_OVERRIDE")
    ∷ ("candidate_id", str "candidate-f")
    ∷ ("prior_machine_fingerprints", strings ("f" ∷ []))
    ∷ ("adjudicator_alias", str "h")
    ∷ ("decision", str "REJECT")
    ∷ ("trigger", str "CONTRADICTION")
    ∷ ("reason_code", str "r")
    ∷ ("evidence_used", evidence)
    ∷ ("timestamp", str "2026")
    ∷ ("previous_journal_fingerprint", str "f")
    ∷ ("canonical_fingerprint", str "f")
    ∷ [])

abbrev entries : List Entry
entries = first_pass (judgment "r1" "ACCEPT" "YES") ∷ human_override override ∷ []

abbrev made : List Entry → JudgmentJournal
made es = record { bundle = bundle; judge_aliases = "j1" ∷ []; entries = es }

journal_made :
    journal bundle_runtime texts unicode clock bundle ("j1" ∷ []) entries ≡ ok (made entries)
unfolding journal text_length has each_field number_lt check_kinds each_item array truthy get
journal_made = refl

journal-IsPhased_example : IsPhased bundle ("j1" ∷ []) entries
journal-IsPhased_example =
    journal-IsPhased bundle_runtime texts unicode clock bundle ("j1" ∷ []) entries journal_made

-- A second first pass of the judge on the candidate, one that accepts against
-- a hard constraint; and an override before any first pass.
overwrite_refused :
    append_entry bundle_runtime texts unicode clock
      (made (first_pass (judgment "r1" "ACCEPT" "YES") ∷ []))
      (first_pass (judgment "r2" "REJECT" "NO"))
    ≡ err (value_error "first-pass overwrite forbidden")
unfolding append_entry text_length has each_field number_lt check_kinds each_item array truthy get
overwrite_refused = refl

hard_constraint_refused :
    append_entry bundle_runtime texts unicode clock
      (made [])
      (first_pass (judgment "r1" "ACCEPT" "NO"))
    ≡ err (value_error "hard constraints precede soft acceptance")
unfolding append_entry text_length has each_field number_lt check_kinds each_item array truthy get
hard_constraint_refused = refl

early_override_refused :
    append_entry bundle_runtime texts unicode clock (made []) (human_override override)
    ≡ err (value_error "all independent first passes required before adjudication")
unfolding append_entry text_length has each_field number_lt check_kinds each_item array truthy get
early_override_refused = refl
