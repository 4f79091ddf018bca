-- ===== src/Protocol/Safety.antt =====
-- search_cup/protocol_v23.py: `finite_json` and the scanner `assert_content_safe`.
pub mod Clean
use Prim.Native.Char.{code}
use llm_evaluation_lab.Base.{String, Bool, ◌&&◌, ◌||◌, List, [], ◌∷◌, map, any, leb, if◌then◌else◌}
use llm_evaluation_lab.Base.Result.{Result, ok, err, ◌>>=◌, ◌>>◌, raise_if, require}
use llm_evaluation_lab.Json.{Json, float, str, arr, obj, Items, nil, cons, Fields, end, field}
use llm_evaluation_lab.Lab.Read.{contains}
use llm_evaluation_lab.Cup.Error.{Error, value_error}
use llm_evaluation_lab.Protocol.Numbers.{is_finite}

-- What the protocol uses of Python on texts: `re.search(pattern, text) is not None`, the same with
-- `re.I`, `urllib.parse.unquote` and `str.lower`.
pub record Texts : Type 0 where
  pub search : String → String → Bool
  pub search_any_case : String → String → Bool
  pub unquote : String → String
  pub lower : String → String

abbrev non_finite : Error
non_finite = value_error "non-finite JSON number"

-- `finite_json(value)`, on what JSON can hold
unfoldable mutual
  pub finite_json : Json → Result Error (Unit {0})
  finite_json (obj fs) = finite_fields fs
  finite_json (arr js) = finite_items js
  finite_json (float x) = require (is_finite x) non_finite
  finite_json _ = ok tt

  pub finite_fields : Fields → Result Error (Unit {0})
  finite_fields end = ok tt
  finite_fields (field key j rest) = do finite_json j; finite_fields rest

  pub finite_items : Items → Result Error (Unit {0})
  finite_items nil = ok tt
  finite_items (cons j rest) = do finite_json j; finite_items rest

-- `PRIVATE_KEYS`
abbrev private_keys : List String
private_keys =
    "api_key" ∷ "apikey" ∷ "access_token" ∷ "refresh_token" ∷ "authorization" ∷ "password"
    ∷ "credentials" ∷ "private_key" ∷ "private_archive" ∷ "raw" ∷ "l0" ∷ "health" ∷ "relationship"
    ∷ "financial" ∷ "google_drive" ∷ "hidden_registry" ∷ "answer_key" ∷ []

-- `PRIVATE_PATTERNS`
abbrev private_patterns : List String
private_patterns =
    "(?:docs|drive)\\.google\\.com" ∷ "(?:file|gdrive)://"
    ∷ "\\b(?:sk|ghp|github_pat)[-_][A-Za-z0-9_-]{12,}"
    ∷ "\\b(?:Bearer|Basic)\\s+[A-Za-z0-9+/=_-]{8,}"
    ∷ "-----BEGIN (?:RSA |EC |OPENSSH )?PRIVATE KEY-----"
    ∷ "\\b(?:api[_-]?key|access[_-]?token|password)\\s*[:=]\\s*\\S+" ∷ []

-- `re.sub(r"[^a-z0-9]", "", text)`
unfoldable pub letters_and_digits : String → String
letters_and_digits String.[] = String.[]
letters_and_digits (String.◌∷◌ c s) =
    let rest = letters_and_digits s in
    if leb 97 (code c) && leb (code c) 122 || leb 48 (code c) && leb (code c) 57
    then String.◌∷◌ c rest
    else rest

module _ (t : Texts) where
  open t use {search_any_case, unquote, lower}

  -- `re.sub(r"[^a-z0-9]", "", key.lower()) in NORMALIZED_PRIVATE_KEYS`
  unfoldable pub is_private_key : String → Bool
  unfolding letters_and_digits
  is_private_key key =
      contains (letters_and_digits (lower key)) (map letters_and_digits private_keys)

  -- The text, decoded twice, matches a private pattern.
  unfoldable pub is_private_text : String → Bool
  is_private_text s =
      any (λ pattern. search_any_case pattern (unquote (unquote s))) private_patterns

  abbrev pub visit_text : String → Result Error (Unit {0})
  visit_text s = raise_if (is_private_text s) (value_error "excluded credential or private locator")

  unfoldable mutual
    unfolding is_private_key is_private_text

    pub visit : Json → Result Error (Unit {0})
    visit (obj fs) = visit_fields fs
    visit (arr js) = visit_items js
    visit (str s) = visit_text s
    visit _ = ok tt

    pub visit_fields : Fields → Result Error (Unit {0})
    visit_fields end = ok tt
    visit_fields (field key j rest) = do
      raise_if (is_private_key key) (value_error "excluded private field")
      visit_text key
      visit j
      visit_fields rest

    pub visit_items : Items → Result Error (Unit {0})
    visit_items nil = ok tt
    visit_items (cons j rest) = do visit j; visit_items rest

  -- `assert_content_safe(value)`
  unfoldable pub assert_content_safe : Json → Result Error (Unit {0})
  unfolding finite_json visit
  assert_content_safe j = do finite_json j; visit j
