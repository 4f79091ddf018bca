-- ===== src/Lab/Cases.antt =====
-- evaluation_lab.py: `_validate_cases`, which reads the inputs of a closure suite.
pub mod Sound
pub mod RoundTrip
use llm_evaluation_lab.Base.{ℕ, zero, suc, String, Bool, List, [], ◌∷◌, map, str_eq, if◌then◌else◌}
use llm_evaluation_lab.Base.Result.{Result, ok, err, ◌>>=◌, ◌>>◌, raise_if}
use llm_evaluation_lab.Json.{Json, bool, str, arr, obj, Fields, end, field, get, array}
use llm_evaluation_lab.Lab.Error.{Error, entry_required, duplicate}
use llm_evaluation_lab.Lab.Read.{contains, text_of, bool_of, array_of}

pub record Child : Type 0 where
  pub child_id : String
  pub status : String

pub record Case : Type 0 where
  pub variant_id : String
  pub children : List Child
  pub expected_close : Bool

unfoldable pub validate_child : ℕ → Json → Result Error Child
validate_child i (obj raw_child) = do
  child_id ← text_of "child_id" (get "child_id" raw_child)
  status ← text_of "status" (get "status" raw_child)
  ok (record { child_id = child_id; status = status })
validate_child i _ = err (entry_required i)

-- The inner loop, over `raw_children` from index `i` on.
unfoldable pub validate_children : ℕ → List Json → Result Error (List Child)
validate_children i [] = ok []
validate_children i (raw ∷ raws) = do
  child ← validate_child i raw
  rest ← validate_children (suc i) raws
  ok (child ∷ rest)

-- One round of the outer loop, with the identifiers seen before it.
unfoldable pub validate_case : List String → ℕ → Json → Result Error Case
validate_case seen i (obj raw_case) = do
  variant_id ← text_of "variant_id" (get "variant_id" raw_case)
  raise_if (contains variant_id seen) (duplicate "variant_id" variant_id)
  expected ← bool_of "expected_close" (get "expected_close" raw_case)
  raw_children ← array_of "children" (get "children" raw_case)
  children ← validate_children 0 raw_children
  ok (record { variant_id = variant_id; children = children; expected_close = expected })
validate_case seen i _ = err (entry_required i)

unfoldable pub cases_from : List String → ℕ → List Json → Result Error (List Case)
cases_from seen i [] = ok []
cases_from seen i (raw ∷ raws) = do
  one ← validate_case seen i raw
  rest ← cases_from (one.variant_id ∷ seen) (suc i) raws
  ok (one ∷ rest)

-- `_validate_cases(document.get("inputs"), path)`
unfoldable pub validate_cases : Json → Result Error (List Case)
validate_cases raw_cases = do raws ← array_of "inputs" raw_cases; cases_from [] 0 raws

-- The document that a suite's inputs are written as.
unfoldable pub child_document : Child → Json
child_document c = obj (field "child_id" (str c.child_id) (field "status" (str c.status) end))

unfoldable pub case_document : Case → Json
case_document c = obj (
    field "variant_id" (str c.variant_id) (
      field "children" (arr (array (map child_document c.children)))
        (field "expected_close" (bool c.expected_close) end)))

unfoldable pub cases_document : List Case → Json
cases_document cs = arr (array (map case_document cs))
