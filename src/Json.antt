-- ===== src/Json.antt =====
-- The values that `json.loads` returns. An object's keys are unique, the last of two equal keys in
-- the text having won. A float is any value of a Python float: `finite m e` is m · 2 ^ e.
pub mod Keys
use llm_evaluation_lab.Base.{
  zero, String, ◌≡◌, refl, ap, Bool, true, false, ◌||◌, List, [], ◌∷◌, str_eq, if◌then◌else◌,
}
use llm_evaluation_lab.Base.Int.{ℤ, pos, is_negative}

pub data Float : Type 0 where
  finite : ℤ → ℤ → Float
  infinite : Bool → Float  -- `true` is -inf
  nan : Float

-- `x < 0`
abbrev pub float_is_negative : Float → Bool
float_is_negative (finite m e) = is_negative m
float_is_negative (infinite b) = b
float_is_negative nan = false

abbrev pub is_nan : Float → Bool
is_nan nan = true
is_nan _ = false

mutual
  pub data Json : Type 0 where
    null : Json
    bool : Bool → Json
    int : ℤ → Json
    float : Float → Json
    str : String → Json
    arr : Items → Json
    obj : Fields → Json

  pub data Items : Type 0 where
    nil : Items
    cons : Json → Items → Items

  pub data Fields : Type 0 where
    end : Fields
    field : String → Json → Fields → Fields

unfoldable pub items : Items → List Json
items nil = []
items (cons j js) = j ∷ items js

unfoldable pub array : List Json → Items
array [] = nil
array (j ∷ js) = cons j (array js)

pub items-array : (js : List Json) → items (array js) ≡ js
unfolding items array
items-array [] = refl
items-array (j ∷ js) = ap (◌∷◌ j) (items-array js)

-- `document.get(key)`: Python's `None`, which is also JSON's null, where the key is missing
unfoldable pub get : String → Fields → Json
get key end = null
get key (field k j rest) = if str_eq key k then j else get key rest

-- `key in document`
unfoldable pub has : String → Fields → Bool
has key end = false
has key (field k j rest) = str_eq key k || has key rest

-- `document.get(key, default)`
unfoldable pub get_or : String → Fields → Json → Json
get_or key end default = default
get_or key (field k j rest) default = if str_eq key k then j else get_or key rest default

abbrev pub is_zero : ℤ → Bool
is_zero (pos zero) = true
is_zero _ = false

-- `bool(value)`
unfoldable pub truthy : Json → Bool
truthy null = false
truthy (bool b) = b
truthy (int n) = if is_zero n then false else true
truthy (float (finite m e)) = if is_zero m then false else true
truthy (float x) = true
truthy (str s) = if str_eq s "" then false else true
truthy (arr nil) = false
truthy (arr (cons j js)) = true
truthy (obj end) = false
truthy (obj (field k j rest)) = true
