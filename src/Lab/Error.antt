-- ===== src/Lab/Error.antt =====
-- The `ValueError`s of evaluation_lab.py, a constructor for each message, with what it names, and the
-- OverflowError of a conversion.
use llm_evaluation_lab.Base.{ℕ, String, List}
use llm_evaluation_lab.Base.Int.{ℤ}

pub data Error : Type 0 where
  -- {key!r} must be a non-empty string; … a non-empty array; an object; boolean
  text_required array_required object_required boolean_required : String → Error
  -- {key!r} must be a positive integer
  positive_required : String → Error
  -- {key}[{index}] must be a non-empty string
  item_required : String → ℕ → Error
  -- inputs[{index}] must be an object
  entry_required : ℕ → Error
  -- duplicate {key} {value!r}; unsupported {key} {value!r}; unknown {key} {value!r}
  duplicate unsupported unknown : String → String → Error
  -- terminal and blocking statuses overlap
  overlap : List String → Error
  -- every mechanism needs one TRAP and one CONTROL
  incomplete : List String → Error
  -- the declared count {key} does not match the fixture
  count_mismatch : String → Error
  -- the suite's {key} does not match that of the MitigationSpec
  spec_mismatch : String → Error
  -- no evaluation case is given
  no_cases : Error
  -- latency_ms and token_cost must be non-negative
  negative_cost : Error
  -- result {key!r} accuracy must be numeric
  numeric_required : String → Error
  -- int too large to convert to float, Python's OverflowError
  int_too_large : Error
  -- experiment run {run_id!r} already exists
  already_exists : String → Error
  -- unsupported experiment store schema version
  unsupported_version : ℤ → Error
  -- the store does not exist; it is missing experiment_runs
  store_missing table_missing : Error
  -- run list limit must be between 1 and 1000
  bad_limit : ℤ → Error
