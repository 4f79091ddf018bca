-- ===== src/Lab/Read.antt =====
-- The readers of one field that the validators share: `_required_text`, `_string_array`,
-- `_positive_integer`, and the tests `isinstance(…, bool)`, `isinstance(…, list)`.
use llm_evaluation_lab.Base.{
  ℕ, suc, ◌<◌, String, ◌≡◌, ◌≢◌, Bool, true, false, List, [], ◌∷◌, arith, str_eq, str_eq_iff, any,
  Among, if◌then◌else◌, inl, inr, Bool-cases,
}
use llm_evaluation_lab.Base.Int.{pos}
use llm_evaluation_lab.Base.Result.{Result, ok, err, ◌>>=◌, ok-injective}
use llm_evaluation_lab.Text.{strip, is_blank}
use llm_evaluation_lab.Json.{Json, null, bool, int, float, str, arr, obj, Fields, get, items}
use llm_evaluation_lab.Lab.Error.{
  Error, text_required, array_required, boolean_required, positive_required, item_required,
}

-- `value in seen`
abbrev pub contains : String → List String → Bool
contains s = any (str_eq s)

pub contains→Among : (s : String) (xs : List String) → contains s xs ≡ true → Among s xs
contains→Among s [] h = cc
contains→Among s (x ∷ xs) h = elim (Bool-cases (str_eq s x)) [
  | inl e ↦ inl ((str_eq_iff s x).0 e)
  | inr e ↦ inr (contains→Among s xs (ground arith))
]

pub Among→contains : (s : String) (xs : List String) → Among s xs → contains s xs ≡ true
Among→contains s [] m = absurd m
Among→contains s (x ∷ xs) (inl e) = rw ((str_eq_iff s x).1 e)
Among→contains s (x ∷ xs) (inr m) = ground (arith, Among→contains s xs m)

pub contains_of_new : (s : String) (xs : List String) → ¬ (Among s xs) → contains s xs ≡ false
contains_of_new s xs new = elim (Bool-cases (contains s xs)) [
  | inl e ↦ absurd (new (contains→Among s xs e))
  | inr e ↦ e
]

-- What `_required_text` returns for `document.get(key)` once that is read.
unfoldable pub text_of : String → Json → Result Error String
text_of key (str s) = if is_blank s then err (text_required key) else ok s
text_of key _ = err (text_required key)

-- `_required_text(document, key, path)`; the path stands only in the message.
unfoldable pub required_text : Fields → String → Result Error String
unfolding text_of
required_text document key = text_of key (get key document)

unfoldable pub bool_of : String → Json → Result Error Bool
bool_of key (bool b) = ok b
bool_of key _ = err (boolean_required key)

-- `isinstance(value, list) and value`
unfoldable pub array_of : String → Json → Result Error (List Json)
unfolding items
array_of key (arr js) = elim (items js) [ [] ↦ err (array_required key) | j ∷ r ↦ ok (j ∷ r) ]
array_of key _ = err (array_required key)

unfoldable pub string_items : String → ℕ → List Json → Result Error (List String)
string_items key i [] = ok []
string_items key i (str s ∷ js) =
    let rest = string_items key (suc i) js in
    if is_blank s then err (item_required key i) else (rest >>= λ r. ok (strip s ∷ r))
string_items key i (_ ∷ js) = err (item_required key i)

-- `_string_array(document, key, path)`
unfoldable pub string_array : Fields → String → Result Error (List String)
unfolding array_of string_items
string_array document key = do js ← array_of key (get key document); string_items key 0 js

unfoldable pub positive_of : String → Json → Result Error ℕ
positive_of key (int (pos (suc n))) = ok (suc n)
positive_of key _ = err (positive_required key)

-- `_positive_integer(document, key, path)`: a Boolean, though an `int` in Python, is refused.
unfoldable pub positive_integer : Fields → String → Result Error ℕ
unfolding positive_of
positive_integer document key = positive_of key (get key document)

positive_of-pos : (key : String) (j : Json) {n : ℕ} → positive_of key j ≡ ok n → 0 < n
unfolding positive_of
positive_of-pos key (int (pos (suc n))) h = rw (← ok-injective h) (omega arith)
positive_of-pos key _ h = cc

-- A reader that succeeds has read the value itself.
pub text_of-ok :
    (key : String) (j : Json) {s : String}
    → text_of key j ≡ ok s
    → (j ≡ str s) × (is_blank s ≡ false)
unfolding text_of
text_of-ok key (str t) h = ground arith
text_of-ok key _ h = cc

pub bool_of-ok : (key : String) (j : Json) {b : Bool} → bool_of key j ≡ ok b → j ≡ bool b
unfolding bool_of
bool_of-ok key (bool b) h = cc
bool_of-ok key _ h = cc

pub array_of-ok : (key : String) (j : Json) {js : List Json} → array_of key j ≡ ok js → js ≢ []
unfolding array_of
array_of-ok key (arr is) h e = ground arith
array_of-ok key null h e = cc
array_of-ok key (bool b) h e = cc
array_of-ok key (int n) h e = cc
array_of-ok key (float x) h e = cc
array_of-ok key (str s) h e = cc
array_of-ok key (obj fs) h e = cc

pub text_of-str : (key s : String) → is_blank s ≡ false → text_of key (str s) ≡ ok s
unfolding text_of
text_of-str key s h = rw h

pub positive_integer-pos :
    (document : Fields) (key : String) {n : ℕ} → positive_integer document key ≡ ok n → 0 < n
unfolding positive_integer
positive_integer-pos document key h = positive_of-pos key (get key document) h
