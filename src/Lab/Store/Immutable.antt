-- ===== src/Lab/Store/Immutable.antt =====
-- A stored run is immutable: nothing that `persist_experiment_run` does changes or hides it.
use llm_evaluation_lab.Base.{
  zero, suc, String, ◌≡◌, refl, sym, subst, true, false, Option, none, some, List, [], ◌∷◌, ◌++◌,
  ◌⊎◌, arith, str_eq_refl, Bool-cases, inl, inr,
}
use llm_evaluation_lab.Base.Int.{ℤ, pos, negsuc}
use llm_evaluation_lab.Base.Result.{Result, ok, err}
use llm_evaluation_lab.Lab.Error.{Error}
use llm_evaluation_lab.Lab.Store.{
  Run, Row, Database, finish, has_run, not_null, insert, find_run, store_row, open_read_only_store,
}

-- The rows that a reader finds, none where the store is missing or has another version.
abbrev pub rows_or_none : Result Error (List Row) → List Row
rows_or_none (ok rows) = rows
rows_or_none (err e) = []

abbrev pub rows_of : Option Database → List Row
rows_of file = rows_or_none (open_read_only_store file)

pub find_run-append :
    (id : String) (rows : List Row) (row found : Row)
    → find_run id rows ≡ some found
    → find_run id (rows ++ row ∷ []) ≡ some found
unfolding find_run
find_run-append id [] row found h = cc
find_run-append id (r ∷ rows) row found h = ground (arith, find_run-append id rows row found)

pub find_run-new :
    (rows : List Row) (row : Row)
    → has_run row.run.run_id rows ≡ false
    → find_run row.run.run_id (rows ++ row ∷ []) ≡ some row
unfolding find_run has_run
find_run-new [] row h = rw (str_eq_refl row.run.run_id)
find_run-new (r ∷ rows) row h = ground (arith, find_run-new rows row)

-- What storing a row does to the rows that can be read.
pub data Stored (row : Row) (before : List Row) : Result Error Run × List Row → Type 0 where
  refused : {e : Error} → Stored row before (err e, before)
  added :
      has_run row.run.run_id before ≡ false
      → not_null row.run ≡ true
      → Stored row before (ok row.run, before ++ row ∷ [])

-- A database that is not stamped has no table yet, as `_initialize_store` leaves none behind.
abbrev pub IsStamped : Option Database → Type 0
IsStamped none = Unit
IsStamped (some db) = db.user_version ≡ pos 0 → db.experiment_runs ≡ none

abbrev pub Outcome : Row → Option Database → Type 0
Outcome row file =
    let (r, file') = store_row row file in Stored row (rows_of file) (r, rows_of file')

insert-cases :
    (row : Row) (rows : List Row)
    → (insert row rows ≡ none)
      ⊎ ((insert row rows ≡ some (rows ++ row ∷ []))
          × (has_run row.run.run_id rows ≡ false)
          × (not_null row.run ≡ true))
unfolding insert
insert-cases row rows = elim (Bool-cases (has_run row.run.run_id rows)) [
  | inl e ↦ inl (rw e)
  | inr e ↦ elim (Bool-cases (not_null row.run)) [
    | inl e' ↦ inr (rw (e, e'), e, e')
    | inr e' ↦ inl (rw (e, e'))
  ]
]

abbrev FinishOutcome : Row → List Row → Option (List Row) → Type 0
FinishOutcome row rows o =
    let (r, file) = finish row (record { user_version = pos 1; experiment_runs = some rows }) o in
    Stored row rows (r, rows_of file)

-- Storing into a table that is there, or that the call has made.
stored_in : (row : Row) (rows : List Row) → FinishOutcome row rows (insert row rows)
unfolding finish open_read_only_store
stored_in row rows = elim (insert-cases row rows) [
  | inl e ↦ subst (FinishOutcome row rows) (sym e) refused
  | inr (e, new, filled) ↦ subst (FinishOutcome row rows) (sym e) (added new filled)
]

store_fields :
    (row : Row) (v : ℤ) (t : Option (List Row))
    → (v ≡ pos 0 → t ≡ none)
    → Outcome row (some (record { user_version = v; experiment_runs = t }))
unfolding store_row open_read_only_store
store_fields row (pos zero) none h = stored_in row []
store_fields row (pos zero) (some rows) h = cc (h refl)
store_fields row (pos (suc zero)) none h = stored_in row []
store_fields row (pos (suc zero)) (some rows) h = stored_in row rows
store_fields row (pos (suc (suc n))) t h = refused
store_fields row (negsuc n) t h = refused

pub store_row-Outcome : (row : Row) (file : Option Database) → IsStamped file → Outcome row file
unfolding store_row open_read_only_store
store_row-Outcome row none h = stored_in row []
store_row-Outcome row (some db) h = store_fields row db.user_version db.experiment_runs h
