-- ===== src/Protocol/Tests/Receipts.antt =====
-- A receipt of the three events: within its limits, and yet not a PASS, for an attempt failed.
use llm_evaluation_lab.Base.{ℕ, ◌+◌, false, ◌≡◌, refl, ◌↔◌, some, List, [], ◌∷◌, All}
use llm_evaluation_lab.Base.Result.{ok}
use llm_evaluation_lab.Base.Int.{pos, negsuc}
use llm_evaluation_lab.Json.{null, finite, has}
use llm_evaluation_lab.Cup.Contracts.{Runtime}
use llm_evaluation_lab.Protocol.Numbers.{Number, whole, real, number_lt}
use llm_evaluation_lab.Protocol.Schema.{text_length, each_field, each_item, check_kinds}
use llm_evaluation_lab.Protocol.Measure.{Measure, known}
use llm_evaluation_lab.Protocol.Event.{is_failed, Event}
use llm_evaluation_lab.Protocol.Receipt.{Supplied, attempts, sorted, Receipt, receipt_of, receipt}
use llm_evaluation_lab.Protocol.Receipt.Verdict.{IsWithinLimits, runtime_of, receipt-pass_iff}
use llm_evaluation_lab.Protocol.Receipt.Balance.{IsBalanced, receipt-IsBalanced}
use llm_evaluation_lab.Protocol.Tests.{
  texts, amount, tokens_of, money_of, spec, three, ledger_of, three_checked,
}

abbrev runtime : Runtime
runtime = record {
  lower = λ s. s;
  show = λ n. "n";
  float_of = λ n. some (finite n (pos 0));
  sha256 = λ s. "hash";
  dumps = λ j. "json";
  loads = λ s. ok null;
}

abbrev sum_whole : List Number → ℕ
sum_whole [] = 0
sum_whole (whole (pos n) ∷ xs) = n + sum_whole xs
sum_whole (whole (negsuc n) ∷ xs) = sum_whole xs
sum_whole (real x ∷ xs) = sum_whole xs

abbrev sum : List Number → Number
sum xs = whole (pos (sum_whole xs))

abbrev milliseconds : ℕ → Measure
milliseconds k = record { state = known; value = some (amount k); unit = "ms"; reason = "observed" }

abbrev supplied : Supplied
supplied = record {
  entrant = "entrant";
  elapsed = amount 40;
  operator = milliseconds 0;
  waiting = milliseconds 0;
  outcomes = [];
  prices = [];
}

abbrev made : Receipt
made =
    receipt_of runtime texts sum (ledger_of three) supplied
      (record (tokens_of 15) { reason = "sum of raw observed components" })
      (record (money_of 3) { reason = "sum of raw observed components" })
      (record (money_of 2) { reason = "sum of raw observed components" })
      (record (money_of 1) { reason = "sum of raw observed components" })
      (record (money_of 0) { reason = "sum of raw observed components" }) []

receipt_runs : receipt runtime texts sum (ledger_of three) supplied ≡ ok made
unfolding receipt text_length has each_field number_lt check_kinds each_item
receipt_runs = refl

not_evaluable : made.terminal_status ≡ "NOT_EVALUABLE"
unfolding receipt_of
not_evaluable = refl

receipt-pass_iff_example : (made.terminal_status ≡ "PASS") ↔ (
    IsWithinLimits spec three made.tokens made.money (runtime_of (amount 40)) []
    × All (λ (e : Event). is_failed e.status ≡ false) (attempts three))
receipt-pass_iff_example =
    receipt-pass_iff runtime texts sum (ledger_of three) supplied receipt_runs

receipt-IsBalanced_example : IsBalanced made
receipt-IsBalanced_example =
    receipt-IsBalanced runtime texts sum spec "run" three (ledger_of three) supplied three_checked
      receipt_runs

sorted_reasons : sorted ("TOKENS" ∷ "MONEY" ∷ []) ≡ "MONEY" ∷ "TOKENS" ∷ []
unfolding sorted
sorted_reasons = refl
