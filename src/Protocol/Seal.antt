-- ===== src/Protocol/Seal.antt =====
-- search_cup/protocol_v23.py: `seal`, `verify_seal` and `reference`, which name a document by the hash
-- of its canonical text.
use llm_evaluation_lab.Base.{String, if◌then◌else◌, str_eq}
use llm_evaluation_lab.Base.Result.{Result, ok, err, ◌>>=◌, ◌>>◌, require}
use llm_evaluation_lab.Json.{Json, str, obj, Fields, end, field, get}
use llm_evaluation_lab.Cup.Error.{Error, value_error, other}
use llm_evaluation_lab.Cup.Contracts.{Runtime}
use llm_evaluation_lab.Cup.Registry.{fingerprint_of}
use llm_evaluation_lab.Protocol.Numbers.{equal}
use llm_evaluation_lab.Protocol.Safety.{Texts, assert_content_safe}
use llm_evaluation_lab.Protocol.Event.{Ref}

-- `document.pop(key, None)`
unfoldable pub remove : String → Fields → Fields
remove key end = end
remove key (field k j rest) =
    let others = remove key rest in if str_eq key k then others else field k j others

-- `document[key] = value`, for a key that is not there
unfoldable pub add_field : String → Json → Fields → Fields
add_field key value end = field key value end
add_field key value (field k j rest) = field k j (add_field key value rest)

abbrev pub object_fields : Json → Result Error Fields
object_fields (obj fs) = ok fs
object_fields _ = err (other "AttributeError" "")

module _ (rt : Runtime) (t : Texts) where
  open rt use {dumps, loads}

  -- `seal(document)`
  unfoldable pub seal : Fields → Result Error Fields
  unfolding remove add_field assert_content_safe
  seal document = do
    assert_content_safe t (obj document)
    copy ← loads (dumps (obj document))
    fields ← object_fields copy
    let unsealed = remove "canonical_fingerprint" fields
    ok (add_field "canonical_fingerprint" (str (fingerprint_of rt (obj unsealed))) unsealed)

  -- `verify_seal(document)`, of an object
  unfoldable pub verify_seal : Fields → Result Error (Unit {0})
  unfolding seal equal get
  verify_seal document = do
    assert_content_safe t (obj document)
    sealed ← seal document
    require (equal (get "canonical_fingerprint" document) (get "canonical_fingerprint" sealed))
        (value_error "canonical fingerprint mismatch")

  -- `reference(document, identity, version)`
  unfoldable pub reference : Json → String → String → Result Error Ref
  unfolding assert_content_safe
  reference document identity version = do
    assert_content_safe t document
    ok (record { id = identity; version = version; fingerprint = fingerprint_of rt document })
