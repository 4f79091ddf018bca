-- ===== src/Lab/Float.antt =====
-- The float arithmetic that the lab does on counts: Python's `int / int` and `float - float`. The
-- rounding of IEEE 754 is a parameter, with the two facts that the code relies on.
use llm_evaluation_lab.Base.{ℕ, ◌^◌, ◌≤◌, ◌<◌, ◌≡◌}
use llm_evaluation_lab.Json.{Float}

pub record Arithmetic : Type 0 where
  pub div : ℕ → ℕ → Float
  pub sub : Float → Float → Float
  -- 0.0 and 1.0
  pub float_zero : Float
  pub float_one : Float
  pub div_self : (n : ℕ) → 0 < n → div n n ≡ float_one
  -- Correct rounding separates m / n from 1 where m and n are floats exactly.
  pub div_eq_one : (m n : ℕ) → 0 < n → m ≤ n → n ≤ 2 ^ 53 → div m n ≡ float_one → m ≡ n
