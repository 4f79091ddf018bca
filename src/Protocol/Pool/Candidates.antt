-- ===== src/Protocol/Pool/Candidates.antt =====
-- search_cup/v23_judgment.py: `pool_candidates`, which builds a blind pool of candidates and the
-- ledger of where they come from.
use Prim.Native.String.{◌++◌ as append}
use llm_evaluation_lab.Base.{
  String, Bool, not, ◌||◌, List, [], ◌∷◌, ◌++◌, map, any, filter, is_empty, length, ltb, str_eq,
  if◌then◌else◌,
}
use llm_evaluation_lab.Base.Result.{Result, ok, ◌>>=◌, ◌>>◌, raise_if, require}
use llm_evaluation_lab.Json.{Json, null, str, arr, obj, Fields, array, get}
use llm_evaluation_lab.Cup.Error.{Error, value_error}
use llm_evaluation_lab.Cup.Contracts.{Runtime}
use llm_evaluation_lab.Cup.Registry.{fingerprint_of, sorted_set}
use llm_evaluation_lab.Protocol.Schema.{Schema, array as array_schema, obj_of, validate_shape}
use llm_evaluation_lab.Protocol.Shapes.{text_schema, hash_schema, ref_schema}
use llm_evaluation_lab.Protocol.Safety.{Texts, assert_content_safe}
use llm_evaluation_lab.Protocol.Seal.{seal}
use llm_evaluation_lab.Protocol.Event.{object_of}
use llm_evaluation_lab.Protocol.Controls.{at, fields_of, text_of, names_of, is_subset}
use llm_evaluation_lab.Protocol.Pool.{
  Unicode, normal, pool_policy, provenance_keys, normalize_fields, array_items,
}

-- `field_schema`, with `POOL_ITEM`
abbrev item_schema : List String → Schema
item_schema visible = obj_of (
    ("fields", obj_of (map (λ name. (name, text_schema)) visible))
    ∷ ("object_fingerprint", hash_schema)
    ∷ ("evidence", array_schema ref_schema 1)
    ∷ ("frozen_submission", ref_schema)
    ∷ ("source_alias", text_schema)
    ∷ [])

-- `[value for item in group for value in item["evidence"]]`
unfoldable pub evidence_in : List Json → List Json
unfolding array_items get
evidence_in [] = []
evidence_in (i ∷ is) = array_items (at "evidence" i) ++ evidence_in is

-- The public pool and the hidden ledger.
pub record Pooled : Type 0 where
  pub public : Fields
  pub hidden : Fields

module _ (rt : Runtime) (t : Texts) (u : Unicode) (occurs : String → String → Bool) where
  open rt use {dumps, loads}
  open t use {search, lower}

  -- The last of the values with this canonical text, null where there is none.
  unfoldable pub with_text : String → List Json → Json
  with_text text [] = null
  with_text text (j ∷ js) =
      let rest = with_text text js in
      if any (λ k. str_eq (dumps k) text) js
      then rest
      else (if str_eq (dumps j) text then j else null)

  -- `[evidence[key] for key in sorted(evidence)]`
  abbrev evidence_by_text : List Json → List Json
  evidence_by_text group =
      let found = evidence_in group in
      map (λ text. with_text text found) (sorted_set (map dumps found))

  abbrev candidate_id_of : Json → Json → String
  candidate_id_of policy i =
      let key =
        map (λ name. (name, str (normal u (text_of (at name (at "fields" i))))))
          (names_of (at "identity_fields" policy)) in
      append "candidate-" (
        fingerprint_of rt
          (obj (object_of (("key", obj (object_of key)) ∷ ("policy", policy) ∷ []))))

  unfoldable pub check_items : List String → List Json → Result Error (Unit {0})
  unfolding validate_shape assert_content_safe
  check_items visible [] = ok tt
  check_items visible (i ∷ is) = do
    validate_shape search (item_schema visible) "contract" i
    assert_content_safe t i
    check_items visible is

  abbrev group_of : Json → List Json → String → List Json
  group_of policy items identity = filter (λ i. str_eq (candidate_id_of policy i) identity) items

  abbrev normalized_of : Json → Json → Json
  normalized_of policy i =
      obj (normalize_fields u (names_of (at "identity_fields" policy)) (fields_of (at "fields" i)))

  -- Objects of one identity that differ
  abbrev collides : Json → List Json → Bool
  collides policy group =
      ltb 1 (length (sorted_set (map (λ i. text_of (at "object_fingerprint" i)) group)))
      || ltb 1 (length (sorted_set (map (λ i. dumps (normalized_of policy i)) group)))

  abbrev first_normalized : Json → List Json → Json
  first_normalized policy [] = null
  first_normalized policy (i ∷ is) = normalized_of policy i

  abbrev candidate_json : Json → List Json → String → Json
  candidate_json policy group identity = obj (
      object_of (
        ("candidate_id", str identity)
        ∷ ("fields", first_normalized policy group)
        ∷ ("evidence", arr (array (evidence_by_text group)))
        ∷ []))

  abbrev collision_json : List Json → String → Json
  collision_json group identity = obj (
      object_of (
        ("candidate_id", str identity)
        ∷ ("terminal_status", str "UNKNOWN_IDENTITY")
        ∷ ("evidence", arr (array (evidence_by_text group)))
        ∷ []))

  -- `canonical_json({"submission": …, "source_alias": …})`
  abbrev provenance_text : Json → String
  provenance_text i = dumps (
      obj (
        object_of
          (("submission", at "frozen_submission" i) ∷ ("source_alias", at "source_alias" i) ∷ [])))

  -- `[json.loads(p) for p in provenance]`
  unfoldable pub load_all : List String → Result Error (List Json)
  load_all [] = ok []
  load_all (p ∷ ps) = do j ← loads p; js ← load_all ps; ok (j ∷ js)

  unfoldable pub ledger_entries : Json → List Json → List String → Result Error (List Json)
  unfolding load_all get
  ledger_entries policy items [] = ok []
  ledger_entries policy items (identity ∷ rest) = do
    sources ← load_all (sorted_set (map provenance_text (group_of policy items identity)))
    entries ← ledger_entries policy items rest
    ok (
        obj (object_of (("candidate_id", str identity) ∷ ("sources", arr (array sources)) ∷ []))
        ∷ entries)

  abbrev is_signal : String → Json → Bool
  is_signal rendered i =
      occurs (u.casefold (text_of (at "source_alias" i))) rendered
      || occurs (u.casefold (text_of (at "id" (at "frozen_submission" i)))) rendered

  -- `pool_candidates(items, policy)`
  unfoldable pub pool_candidates : List Json → Json → Result Error Pooled
  unfolding validate_shape assert_content_safe check_items evidence_in with_text ledger_entries seal
      normalize_fields normal sorted_set get
  pool_candidates items policy = do
    validate_shape search pool_policy "contract" policy
    assert_content_safe t policy
    let visible = names_of (at "visible_fields" policy)
    require (is_subset (names_of (at "identity_fields" policy)) visible)
        (value_error "identity fields must be frozen visible fields")
    raise_if (is_empty items) (value_error "candidate pool requires nonempty supplied items")
    raise_if (any (λ name. any (λ token. occurs token (lower name)) provenance_keys) visible)
        (value_error "provenance field cannot be visible")
    check_items visible items
    let identities = sorted_set (map (λ i. candidate_id_of policy i) items)
    let group : String → List Json = λ identity. group_of policy items identity
    let apart = filter (λ identity. not (collides policy (group identity))) identities
    let mixed = filter (λ identity. collides policy (group identity)) identities
    entries ← ledger_entries policy items identities
    public ← seal rt t (
        object_of (
          ("schema_id", str "search-candidate-pool/v2")
          ∷ ("policy", policy)
          ∷ ("candidates", arr (array (map (λ c. candidate_json policy (group c) c) apart)))
          ∷ ("collisions", arr (array (map (λ c. collision_json (group c) c) mixed)))
          ∷ []))
    hidden ← seal rt t (
        object_of (
          ("schema_id", str "search-provenance-ledger/v2")
          ∷ ("candidate_set_fingerprint", get "canonical_fingerprint" public)
          ∷ ("entries", arr (array entries))
          ∷ []))
    raise_if (any (is_signal (u.casefold (dumps (obj public)))) items)
        (value_error "provenance signal in blind package")
    ok (record { public = public; hidden = hidden })
