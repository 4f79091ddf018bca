-- ===== src/Lab/Store/NotANumber.antt =====
-- A latency that is a NaN: it passes the checks of `persist_experiment_run` (evaluation_lab.py), and
-- the table refuses it.
use llm_evaluation_lab.Base.{
  String, ◌≡◌, refl, ap, Bool, true, false, ◌||◌, none, some, List, arith, str_eq,
}
use llm_evaluation_lab.Base.Int.{pos}
use llm_evaluation_lab.Base.Result.{Result, ok, err, ok-injective, ◌>>=◌, ◌>>◌, raise_if, require}
use llm_evaluation_lab.Text.{strip, is_blank, is_blank_text}
use llm_evaluation_lab.Json.{Float, Fields, str, get, get_or, float_is_negative, is_nan}
use llm_evaluation_lab.Lab.Error.{Error, already_exists}
use llm_evaluation_lab.Lab.Store.{
  Row, Python, Request, finish, insert, py_str, mapping_of, policy_accuracy, case_suite_version_of,
  row_of, store_row, store_checked, persist_experiment_run,
}
use llm_evaluation_lab.Lab.Store.ReadBack.{holding}

-- What the first computation returns, the second returns with `f` applied.
abbrev Follows : {A : Type 0} → (A → A) → Result Error A → Result Error A → Type 0
Follows f m n = (a : _) → m ≡ ok a → n ≡ ok (f a)

module _ {A : Type 0} (f : A → A) where
  -- The same step in both.
  after_same :
      {B : Type 0} (m : Result Error B) {k l : B → Result Error A}
      → ((b : B) → Follows f (k b) (l b))
      → Follows f (m >>= k) (m >>= l)
  after_same (ok b) h = h b
  after_same (err e) h = λ a x. cc

  -- A check that the second passes where the first does.
  after_check :
      (b c : Bool) (e : Error) {m n : Result Error A}
      → (b ≡ false → c ≡ false)
      → Follows f m n
      → Follows f (raise_if b e >> m) (raise_if c e >> n)
  after_check true c e pass h = λ a x. cc
  after_check false c e pass h = λ a x. rw (pass refl) (h a x)

insert-nan :
    (row : Row) (rows : List Row) → is_nan row.run.latency_ms ≡ true → insert row rows ≡ none
unfolding insert
insert-nan row rows h = ground arith

nan-pos : (x : Float) → is_nan x ≡ true → float_is_negative x ≡ false
nan-pos x h = ground arith

module _ (py : Python) (now : String) (result : Fields) (q : Request) (x : Float) where
  -- The same call and the same row with another latency.
  abbrev pub timed : Request
  timed = record q { latency_ms = x }

  abbrev timed_row : Row → Row
  timed_row row = record row { run = record row.run { latency_ms = x } }

  row_of-timed :
      is_nan x ≡ true → Follows timed_row (row_of py now result q) (row_of py now result timed)
  unfolding row_of
  row_of-timed missing =
      let id = strip (py_str py (get_or "run_id" result (str ""))) in
      let negative = float_is_negative q.latency_ms || float_is_negative q.token_cost in
      let timely = float_is_negative x || float_is_negative q.token_cost in
      let suited = str_eq q.suite "closure" || str_eq q.suite "historical" in
      let plain = nan-pos x missing in
      after_check timed_row (is_blank_text id) (is_blank_text id) _ (λ e. e)
        (after_same timed_row (require suited _) λ _.
          after_check timed_row (is_blank q.model) (is_blank q.model) _ (λ e. e)
            (after_check timed_row (is_blank q.prompt_version) (is_blank q.prompt_version) _
              (λ e. e)
              (after_check timed_row (is_blank q.git_commit) (is_blank q.git_commit) _ (λ e. e)
                (after_check timed_row negative timely _ (λ e. ground (arith, plain))
                  (after_same timed_row
                    (raise_if (is_blank_text (case_suite_version_of py result)) _)
                    λ _.
                      after_same timed_row (mapping_of py "regression" (get "regression" result))
                        λ regression.
                          after_same timed_row
                            (raise_if
                              (is_blank_text
                                (strip (py_str py (get_or "status" regression (str "")))))
                              _)
                            λ _.
                              after_same timed_row (policy_accuracy py result "baseline")
                                λ baseline.
                                  after_same timed_row (policy_accuracy py result "treatment")
                                    λ treatment.
                                      λ row h. ap (λ r. ok (timed_row r)) (ok-injective h))))))

  -- If a call passes the checks, the same call with a NaN as its latency passes them too, and the
  -- table refuses it, whatever rows it holds: the call raises that the run already exists and leaves
  -- the rows as they were, also where no row has the run's identifier.
  pub persist_nan-already_exists :
      (rows : List Row) {row : Row}
      → row_of py now result q ≡ ok row
      → is_nan x ≡ true
      → (row_of py now result timed ≡ ok (timed_row row))
        × (persist_experiment_run py now result timed (holding rows)
            ≡ (err (already_exists row.run.run_id), holding rows))
  unfolding persist_experiment_run store_checked store_row finish
  persist_nan-already_exists rows {row} checked missing =
      let passed = row_of-timed missing row checked in
      (
        passed,
        rw passed (
            ap
              (finish (timed_row row)
                (record { user_version = pos 1; experiment_runs = some rows }))
              (insert-nan (timed_row row) rows missing)),
      )
