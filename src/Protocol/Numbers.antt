-- ===== src/Protocol/Numbers.antt =====
-- Python's numbers as JSON holds them: an `int` or a `float`, compared by their exact values.
use llm_evaluation_lab.Base.{
  ℕ, suc, ◌+◌, ◌-◌, ◌*◌, ◌^◌, Bool, true, false, not, ◌&&◌, ltb, str_eq, same, ◌==◌,
}
use llm_evaluation_lab.Base.Int.{ℤ, pos, negsuc}
use llm_evaluation_lab.Json.{
  Json, null, bool, int, float, str, arr, obj, Items, nil, cons, Fields, end, field, Float, finite,
  infinite, nan, get, has,
}

-- An `int` or a `float`, and no `bool`.
pub data Number : Type 0 where
  whole : ℤ → Number
  real : Float → Number

abbrev pub number_json : Number → Json
number_json (whole n) = int n
number_json (real x) = float x

-- The value m · 2 ^ e: comparing an `int` with a `float` rounds neither.
abbrev pub exact : Number → Float
exact (whole n) = finite n (pos 0)
exact (real x) = x

abbrev up : ℤ → ℕ
up (pos e) = e
up (negsuc e) = 0

abbrev down : ℤ → ℕ
down (pos e) = 0
down (negsuc e) = suc e

abbrev scale : ℤ → ℕ → ℤ
scale (pos m) k = pos (m * 2 ^ k)
scale (negsuc m) k = negsuc (suc m * 2 ^ k - 1)

abbrev int_lt : ℤ → ℤ → Bool
int_lt (pos a) (pos b) = ltb a b
int_lt (pos a) (negsuc b) = false
int_lt (negsuc a) (pos b) = true
int_lt (negsuc a) (negsuc b) = ltb b a

-- `x < y`
unfoldable pub float_lt : Float → Float → Bool
float_lt (finite m e) (finite n f) = int_lt (scale m (up e + down f)) (scale n (up f + down e))
float_lt (finite m e) (infinite negative) = not negative
float_lt (infinite negative) (finite m e) = negative
float_lt (infinite a) (infinite b) = a && not b
float_lt nan y = false
float_lt (finite m e) nan = false
float_lt (infinite a) nan = false

unfoldable pub number_lt : Number → Number → Bool
unfolding float_lt
number_lt x y = float_lt (exact x) (exact y)

abbrev pub is_finite : Float → Bool
is_finite (finite m e) = true
is_finite _ = false

abbrev is_nan : Float → Bool
is_nan nan = true
is_nan _ = false

-- `x == y`
unfoldable pub float_eq : Float → Float → Bool
unfolding float_lt
float_eq x y = not (is_nan x) && not (is_nan y) && not (float_lt x y) && not (float_lt y x)

abbrev bool_value : Bool → Float
bool_value true = finite (pos 1) (pos 0)
bool_value false = finite (pos 0) (pos 0)

-- `len(document)`
unfoldable pub field_count : Fields → ℕ
field_count end = 0
field_count (field k j rest) = suc (field_count rest)

-- `a == b` on two JSON values: `True == 1`, and the order of an object's fields is immaterial.
unfoldable mutual
  unfolding float_eq field_count get has

  pub equal : Json → Json → Bool
  equal null null = true
  equal (bool a) (bool b) = same a b
  equal (bool a) (int n) = float_eq (bool_value a) (finite n (pos 0))
  equal (bool a) (float x) = float_eq (bool_value a) x
  equal (int m) (bool b) = float_eq (finite m (pos 0)) (bool_value b)
  equal (int m) (int n) = float_eq (finite m (pos 0)) (finite n (pos 0))
  equal (int m) (float x) = float_eq (finite m (pos 0)) x
  equal (float x) (bool b) = float_eq x (bool_value b)
  equal (float x) (int n) = float_eq x (finite n (pos 0))
  equal (float x) (float y) = float_eq x y
  equal (str s) (str t) = str_eq s t
  equal (arr js) (arr ks) = equal_items js ks
  equal (obj fs) (obj gs) = (field_count fs == field_count gs) && equal_fields fs gs
  equal _ _ = false

  pub equal_items : Items → Items → Bool
  equal_items nil nil = true
  equal_items (cons j js) (cons k ks) = equal j k && equal_items js ks
  equal_items _ _ = false

  -- Every field of the first stands in the second with an equal value.
  pub equal_fields : Fields → Fields → Bool
  equal_fields end gs = true
  equal_fields (field key j rest) gs = has key gs && equal j (get key gs) && equal_fields rest gs
