-- ===== src/Protocol/Schema.antt =====
-- search_cup/v23_schema.py: the schemas' closed vocabulary and `validate_shape`.
pub mod Conforms
pub mod Decides
use Prim.Native.String.{◌++◌ as append}
use Prim.Native.Char.{Char}
use llm_evaluation_lab.Base.{
  ℕ, zero, suc, String, Bool, true, false, not, ◌&&◌, ◌||◌, Option, none, some, List, [], ◌∷◌, map,
  any, all, filter, ltb, str_eq, if◌then◌else◌,
}
use llm_evaluation_lab.Base.Int.{ℤ, pos}
use llm_evaluation_lab.Base.Result.{Result, ok, err, ◌>>=◌, ◌>>◌, raise_if, require}
use llm_evaluation_lab.Json.{
  Json, null, bool, int, float, str, arr, obj, Items, nil, cons, Fields, end, field, has,
}
use llm_evaluation_lab.Lab.Read.{contains}
use llm_evaluation_lab.Cup.Error.{Error, value_error}
use llm_evaluation_lab.Protocol.Numbers.{
  Number, whole, real, exact, number_json, number_lt, is_finite, equal,
}

-- "minimum" and "exclusiveMinimum"
pub data Bound : Type 0 where
  unbounded : Bound
  minimum : Number → Bound
  exclusive_minimum : Number → Bound

-- The types of a list of types, `{"type": ["number", "null"], "minimum": 0}`
pub data Kind : Type 0 where
  string_kind : Kind
  number_kind : Bound → Kind
  null_kind : Kind

-- The forms of the schemas in the source: `obj`, `arr`, `enum` and `const` build four of them.
mutual
  pub data Schema : Type 0 where
    any_of : Schemas → Schema
    const : Json → Schema
    enum : List String → Schema
    -- "minLength" and "pattern"
    text : ℕ → Option String → Schema
    integer : Bound → Schema
    number : Bound → Schema
    boolean : Schema
    null_only : Schema
    one_type_of : List Kind → Schema
    -- "properties" and "required"; "additionalProperties" is false
    object : Properties → List String → Schema
    -- "items" and "minItems"; "uniqueItems" is true
    array : Schema → ℕ → Schema

  pub data Schemas : Type 0 where
    no_more : Schemas
    or_else : Schema → Schemas → Schemas

  pub data Properties : Type 0 where
    no_property : Properties
    property : String → Schema → Properties → Properties

-- `schema["properties"][key]`
unfoldable pub find_property : String → Properties → Option Schema
find_property key no_property = none
find_property key (property k s rest) = if str_eq key k then some s else find_property key rest

unfoldable pub property_names : Properties → List String
property_names no_property = []
property_names (property k s rest) = k ∷ property_names rest

abbrev pub properties : List (String × Schema) → Properties
properties [] = no_property
properties ((k, s) ∷ rest) = property k s (properties rest)

-- `obj(properties, optional=…)` and `arr(items, minimum)`
abbrev pub obj_optional : List (String × Schema) → List String → Schema
obj_optional ps optional =
    object (properties ps)
      (filter (λ k. not (contains k optional)) (property_names (properties ps)))

abbrev pub obj_of : List (String × Schema) → Schema
obj_of ps = object (properties ps) (property_names (properties ps))

-- `len(value)`, in code points
unfoldable pub text_length : String → ℕ
text_length String.[] = 0
text_length (String.◌∷◌ c s) = suc (text_length s)

-- The first error of a shape, with the path at which it stands.
abbrev shape : String → String → Error
shape path message = value_error (append path message)

-- `any(item in value[:i] for i, item in enumerate(value))`, where `==` may hold either way round
abbrev pub among_items : Json → Items → Bool
among_items j nil = false
among_items j (cons k ks) = equal j k || among_items j ks

-- `any(item in value[:i] for i, item in enumerate(value))`: an item equals a later one.
unfoldable pub has_duplicate : Items → Bool
has_duplicate nil = false
has_duplicate (cons j js) = among_items j js || has_duplicate js

-- `type(value) is type(constant)`
abbrev pub same_type : Json → Json → Bool
same_type null null = true
same_type (bool a) (bool b) = true
same_type (int m) (int n) = true
same_type (float x) (float y) = true
same_type (str s) (str t) = true
same_type (arr js) (arr ks) = true
same_type (obj fs) (obj gs) = true
same_type _ _ = false

unfoldable pub field_names : Fields → List String
field_names end = []
field_names (field key j rest) = key ∷ field_names rest

unfoldable pub item_count : Items → ℕ
item_count nil = 0
item_count (cons j js) = suc (item_count js)

abbrev pub in_bound : Bound → Number → Bool
in_bound unbounded x = true
in_bound (minimum m) x = not (number_lt x m)
in_bound (exclusive_minimum m) x = number_lt m x

-- `item` for every item, and `property` for every field
unfoldable pub each_item : (Json → Result Error (Unit {0})) → Items → Result Error (Unit {0})
each_item check nil = ok tt
each_item check (cons j js) = do check j; each_item check js

-- A key without a property is refused before.
abbrev pub check_property : Option (Json → Result Error (Unit {0})) → Json → Result Error (Unit {0})
check_property none j = ok tt
check_property (some check) j = check j

unfoldable pub each_field :
    (String → Option (Json → Result Error (Unit {0}))) → Fields → Result Error (Unit {0})
each_field checks end = ok tt
each_field checks (field key j rest) = do check_property (checks key) j; each_field checks rest

abbrev pub check_number : String → Bound → Json → Result Error (Unit {0})
check_number path b (int n) = require (in_bound b (whole n)) (shape path ": invalid number")
check_number path b (float x) =
    require (is_finite x && in_bound b (real x)) (shape path ": invalid number")
check_number path b _ = err (shape path ": invalid type")

abbrev pub check_integer : String → Bound → Json → Result Error (Unit {0})
check_integer path b (int n) = require (in_bound b (whole n)) (shape path ": invalid number")
check_integer path b _ = err (shape path ": invalid type")

-- `try: …; return` and `except ValueError: pass`: the checks raise nothing else.
abbrev pub or_try : Result Error (Unit {0}) → Result Error (Unit {0}) → Result Error (Unit {0})
or_try (ok u) m = ok u
or_try (err e) m = m

-- `re.search(pattern, value) is not None`, of Python's `re`
module _ (search : String → String → Bool) where
  abbrev pub fits_text : ℕ → Option String → String → Bool
  fits_text n none s = not (ltb (text_length s) n)
  fits_text n (some pattern) s = not (ltb (text_length s) n) && search pattern s

  abbrev check_text : String → ℕ → Option String → Json → Result Error (Unit {0})
  check_text path n pattern (str s) = require (fits_text n pattern s) (shape path ": invalid text")
  check_text path n pattern _ = err (shape path ": invalid type")

  abbrev pub check_kind : Kind → String → Json → Result Error (Unit {0})
  check_kind string_kind path j = check_text path 0 none j
  check_kind (number_kind b) path j = check_number path b j
  check_kind null_kind path null = ok tt
  check_kind null_kind path _ = err (shape path ": invalid type")

  unfoldable pub check_kinds : List Kind → String → Json → Result Error (Unit {0})
  check_kinds [] path j = err (shape path ": no allowed shape")
  check_kinds (k ∷ ks) path j = or_try (check_kind k path j) (check_kinds ks path j)

  -- `validate_shape(value, schema, path)`
  unfoldable mutual
    unfolding find_property property_names has_duplicate field_names item_count

    pub validate_shape : Schema → String → Json → Result Error (Unit {0})
    validate_shape (any_of ss) path j = validate_any ss path j
    validate_shape (const c) path j =
        require (same_type j c && equal j c) (shape path ": invalid constant")
    validate_shape (enum names) path (str s) =
        require (contains s names) (shape path ": invalid enum")
    validate_shape (enum names) path _ = err (shape path ": invalid enum")
    validate_shape (text n pattern) path j = check_text path n pattern j
    validate_shape (integer b) path j = check_integer path b j
    validate_shape (number b) path j = check_number path b j
    validate_shape boolean path (bool b) = ok tt
    validate_shape boolean path _ = err (shape path ": invalid type")
    validate_shape null_only path null = ok tt
    validate_shape null_only path _ = err (shape path ": invalid type")
    validate_shape (one_type_of ks) path j = check_kinds ks path j
    validate_shape (object ps required) path (obj fs) = do
      raise_if (any (λ key. not (has key fs)) required) (shape path ": missing required fields")
      raise_if (any (λ key. not (contains key (property_names ps))) (field_names fs))
          (shape path ": unexpected fields")
      each_field (λ key. validate_property ps path key) fs
    validate_shape (object ps required) path _ = err (shape path ": invalid type")
    validate_shape (array s n) path (arr js) = do
      raise_if (ltb (item_count js) n) (shape path ": too few items")
      raise_if (has_duplicate js) (shape path ": duplicate items")
      each_item (validate_shape s (append path "[]")) js
    validate_shape (array s n) path _ = err (shape path ": invalid type")

    pub validate_any : Schemas → String → Json → Result Error (Unit {0})
    validate_any no_more path j = err (shape path ": no allowed shape")
    validate_any (or_else s ss) path j = or_try (validate_shape s path j) (validate_any ss path j)

    -- The check of the field with this name, against `schema["properties"][key]`.
    pub validate_property : Properties → String → String → Option (Json → Result Error (Unit {0}))
    validate_property no_property path key = none
    validate_property (property k s rest) path key =
        let others = validate_property rest path key in
        if str_eq key k then some (validate_shape s (append path (append "." key))) else others
