-- ===== src/Protocol/Pool.antt =====
-- search_cup/v23_judgment.py: `validate_pool`, the check of a blind pool of candidates.
pub mod Candidates
use Prim.Native.String.{◌++◌ as append}
use llm_evaluation_lab.Base.{
  String, Bool, true, false, not, ◌&&◌, ◌||◌, List, [], ◌∷◌, map, any, str_eq, if◌then◌else◌,
}
use llm_evaluation_lab.Base.Result.{Result, ok, err, ◌>>=◌, ◌>>◌, raise_if, require}
use llm_evaluation_lab.Json.{Json, str, arr, obj, Fields, end, field, get, has, items}
use llm_evaluation_lab.Lab.Read.{contains}
use llm_evaluation_lab.Cup.Error.{Error, value_error}
use llm_evaluation_lab.Cup.Contracts.{Runtime}
use llm_evaluation_lab.Cup.Registry.{fingerprint_of, sorted_set}
use llm_evaluation_lab.Protocol.Numbers.{equal}
use llm_evaluation_lab.Protocol.Schema.{
  Schema, const, array as array_schema, obj_of, validate_shape,
}
use llm_evaluation_lab.Protocol.Shapes.{text_schema, hash_schema, ref_schema}
use llm_evaluation_lab.Protocol.Safety.{Texts}
use llm_evaluation_lab.Protocol.Seal.{verify_seal}
use llm_evaluation_lab.Protocol.Controls.{at, fields_of, text_of, texts_of, names_of, is_subset}

-- `unicodedata.normalize("NFKC", …)`, `casefold` and `split` without arguments
pub record Unicode : Type 0 where
  pub nfkc : String → String
  pub casefold : String → String
  pub split : String → List String

-- `" ".join(texts)`
unfoldable pub join_words : List String → String
join_words [] = ""
join_words (w ∷ ws) =
    let rest = join_words ws in elim ws [ [] ↦ w | x ∷ xs ↦ append w (append " " rest) ]

-- `_normal(value)`
unfoldable pub normal : Unicode → String → String
unfolding join_words
normal u s = join_words (u.split (u.casefold (u.nfkc s)))

-- `value[key]`, where a missing key is a `KeyError`, which the caller turns into this error
abbrev pub item : String → Json → Error → Result Error Json
item key (obj fs) e = if has key fs then ok (get key fs) else err e
item key _ e = err e

unfoldable pub array_items : Json → List Json
unfolding items
array_items (arr js) = items js
array_items _ = []

-- `PROVENANCE_KEYS`
abbrev pub provenance_keys : List String
provenance_keys =
    "provider" ∷ "model" ∷ "entrant" ∷ "submission" ∷ "branch" ∷ "commit" ∷ "run_id" ∷ "rank"
    ∷ "order" ∷ []

-- `POOL_POLICY`
abbrev pub pool_policy : Schema
pool_policy = obj_of (
    ("id", text_schema)
    ∷ ("version", text_schema)
    ∷ ("normalization", const (str "NFKC_CASEFOLD_WHITESPACE_V1"))
    ∷ ("identity_fields", array_schema text_schema 1)
    ∷ ("visible_fields", array_schema text_schema 1)
    ∷ ("collision_policy", const (str "UNKNOWN_IDENTITY"))
    ∷ ("ordering", const (str "CANDIDATE_ID_ASC"))
    ∷ [])

abbrev candidate_schema : List String → Schema
candidate_schema visible = obj_of (
    ("candidate_id", text_schema)
    ∷ ("fields", obj_of (map (λ name. (name, text_schema)) visible))
    ∷ ("evidence", array_schema ref_schema 1)
    ∷ [])

abbrev pool_schema : List String → Schema
pool_schema visible = obj_of (
    ("schema_id", const (str "search-candidate-pool/v2"))
    ∷ ("policy", pool_policy)
    ∷ ("candidates", array_schema (candidate_schema visible) 0)
    ∷ (
      "collisions",
      array_schema
          (obj_of (
            ("candidate_id", text_schema)
            ∷ ("terminal_status", const (str "UNKNOWN_IDENTITY"))
            ∷ ("evidence", array_schema ref_schema 1)
            ∷ []))
          0,
    )
    ∷ ("canonical_fingerprint", hash_schema)
    ∷ [])

-- `xs == ys` on lists of texts
unfoldable pub same_texts : List String → List String → Bool
same_texts [] [] = true
same_texts (x ∷ xs) (y ∷ ys) = str_eq x y && same_texts xs ys
same_texts _ _ = false

-- The fields with those of identity normalised.
unfoldable pub normalize_fields : Unicode → List String → Fields → Fields
unfolding normal
normalize_fields u identity end = end
normalize_fields u identity (field k v rest) =
    let value = if contains k identity then str (normal u (text_of v)) else v in
    field k value (normalize_fields u identity rest)

abbrev pick_fields : List String → Fields → Fields
pick_fields [] fs = end
pick_fields (k ∷ ks) fs = field k (get k fs) (pick_fields ks fs)

abbrev pool_mismatch : Error
pool_mismatch = value_error "candidate pool shape mismatch"

module _ (rt : Runtime) (t : Texts) (u : Unicode) (occurs : String → String → Bool) where
  open t use {search, lower}

  unfoldable pub check_candidate : Json → Json → Result Error (Unit {0})
  unfolding normalize_fields equal get
  check_candidate policy candidate = do
    let identity = names_of (at "identity_fields" policy)
    let fields = fields_of (at "fields" candidate)
    let normalized = normalize_fields u identity fields
    let key = obj (pick_fields identity normalized)
    let expected =
        append "candidate-" (fingerprint_of rt (obj (field "key" key (field "policy" policy end))))
    require
        (str_eq (text_of (at "candidate_id" candidate)) expected
          && equal (obj normalized) (obj fields))
        (value_error "candidate identity must derive from normalized task key")

  unfoldable pub check_candidates : Json → List Json → Result Error (Unit {0})
  unfolding check_candidate
  check_candidates policy [] = ok tt
  check_candidates policy (c ∷ cs) = do check_candidate policy c; check_candidates policy cs

  -- `any(token in key.lower() for token in PROVENANCE_KEYS)`
  abbrev is_provenance : String → Bool
  is_provenance key = any (λ token. occurs token (lower key)) provenance_keys

  -- `validate_pool(pool)`, of an object
  unfoldable pub validate_pool : Fields → Result Error (Unit {0})
  unfolding verify_seal validate_shape check_candidates array_items texts_of same_texts sorted_set
      get has
  validate_pool pool = do
    verify_seal rt t pool
    policy ← item "policy" (obj pool) pool_mismatch
    validate_shape search pool_policy "contract" policy
    let identity = names_of (at "identity_fields" policy)
    let visible = names_of (at "visible_fields" policy)
    validate_shape search (pool_schema visible) "contract" (obj pool)
    raise_if (not (is_subset identity visible) || any is_provenance visible)
        (value_error "invalid blind field policy")
    let candidates = array_items (get "candidates" pool)
    let ids = map (λ c. text_of (at "candidate_id" c)) candidates
    require (same_texts ids (sorted_set ids)) (value_error "candidate identity/order mismatch")
    check_candidates policy candidates
