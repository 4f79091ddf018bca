-- ===== src/Lab/Store/History.antt =====
-- A store over a sequence of calls of `persist_experiment_run`.
use llm_evaluation_lab.Base.{
  zero, suc, String, ◌≡◌, refl, ap, ◌∙◌, false, Option, none, some, List, [], ◌∷◌,
}
use llm_evaluation_lab.Base.Int.{ℤ, pos, negsuc}
use llm_evaluation_lab.Base.Result.{Result, ok, err, raise_if-ok, bind-ok, ok-injective}
use llm_evaluation_lab.Text.{strip, is_blank_text}
use llm_evaluation_lab.Json.{Fields}
use llm_evaluation_lab.Lab.Error.{Error}
use llm_evaluation_lab.Lab.Store.{
  Run, Row, Database, Python, Request, Detail, finish, insert, find_run, row_of, detail_of,
  store_row, store_checked, persist_experiment_run, get_experiment_run, open_read_only_store,
}
use llm_evaluation_lab.Lab.Store.Immutable.{
  rows_or_none, rows_of, find_run-append, Stored, refused, added, IsStamped, store_row-Outcome,
}

finish-IsStamped :
    (row : Row) (rows : Option (List Row)) (o : Option (List Row))
    → IsStamped (finish row (record { user_version = pos 1; experiment_runs = rows }) o).1
unfolding finish
finish-IsStamped row rows none = λ e. cc
finish-IsStamped row rows (some rows') = λ e. cc

stamp_fields :
    (row : Row) (v : ℤ) (t : Option (List Row))
    → (v ≡ pos 0 → t ≡ none)
    → IsStamped (store_row row (some (record { user_version = v; experiment_runs = t }))).1
unfolding store_row
stamp_fields row (pos zero) none h = finish-IsStamped row (some []) (insert row [])
stamp_fields row (pos zero) (some rows) h = finish-IsStamped row (some rows) (insert row rows)
stamp_fields row (pos (suc zero)) none h = finish-IsStamped row (some []) (insert row [])
stamp_fields row (pos (suc zero)) (some rows) h = finish-IsStamped row (some rows) (insert row rows)
stamp_fields row (pos (suc (suc n))) t h = λ e. h e
stamp_fields row (negsuc n) t h = λ e. h e

store_row-IsStamped :
    (row : Row) (file : Option Database) → IsStamped file → IsStamped (store_row row file).1
unfolding store_row
store_row-IsStamped row none h = finish-IsStamped row (some []) (insert row [])
store_row-IsStamped row (some db) h = stamp_fields row db.user_version db.experiment_runs h

-- A row that is found stays found.
Stored-keeps :
    {row : Row} {before : List Row} {result : Result Error Run × List Row} (id : String)
    (found : Row)
    → Stored row before result
    → find_run id before ≡ some found
    → find_run id result.1 ≡ some found
Stored-keeps id found refused h = h
Stored-keeps {row} {before} id found (added new filled) h = find_run-append id before row found h

Keeps : Option Database → Option Database → Type 0
Keeps file file' =
    IsStamped file'
    × ((id : String) (found : Row)
        → find_run id (rows_of file) ≡ some found
        → find_run id (rows_of file') ≡ some found)

store_checked-Keeps :
    (r : Result Error Row) (file : Option Database)
    → IsStamped file
    → Keeps file (store_checked r file).1
unfolding store_checked Keeps
store_checked-Keeps (err e) file h = (h, λ id found p. p)
store_checked-Keeps (ok row) file h = (
  store_row-IsStamped row file h,
  λ id found p. Stored-keeps id found (store_row-Outcome row file h) p,
)

get_fields :
    (id : String) (v : ℤ) (t : Option (List Row)) (row : Row)
    → find_run id (rows_of (some (record { user_version = v; experiment_runs = t }))) ≡ some row
    → (rows : List Row) × (open_read_only_store
          (some (record { user_version = v; experiment_runs = t }))
        ≡ ok rows)
      × (find_run id rows ≡ some row)
unfolding open_read_only_store find_run
get_fields id (pos (suc zero)) (some rows) row h = (rows, refl, h)
get_fields id (pos (suc zero)) none row h = cc
get_fields id (pos zero) t row h = cc
get_fields id (pos (suc (suc n))) t row h = cc
get_fields id (negsuc n) t row h = cc

-- A row is found only in a store that can be read.
readable :
    (id : String) (file : Option Database) (row : Row)
    → find_run id (rows_of file) ≡ some row
    → (rows : List Row) × (open_read_only_store file ≡ ok rows) × (find_run id rows ≡ some row)
unfolding open_read_only_store find_run
readable id none row h = cc
readable id (some db) row h = get_fields id db.user_version db.experiment_runs row h

rows_of-open :
    (file : Option Database) {rows : List Row}
    → open_read_only_store file ≡ ok rows
    → rows_of file ≡ rows
rows_of-open file h = ap rows_or_none h

module _ (py : Python) where
  open py use {loads}

  abbrev pub detail : Row → Detail
  detail row = record { run = row.run; result = loads row.result_json }

  -- A call: the time, the result and the keyword arguments.
  abbrev pub Call : Type 0
  Call = String × Fields × Request

  -- The store after a sequence of calls, whether they return or raise.
  unfoldable pub persist_all : List Call → Option Database → Option Database
  persist_all [] file = file
  persist_all ((now, result, q) ∷ calls) file =
      persist_all calls (persist_experiment_run py now result q file).1

  persist_all-Keeps :
      (calls : List Call) (file : Option Database)
      → IsStamped file
      → Keeps file (persist_all calls file)
  unfolding persist_all Keeps persist_experiment_run
  persist_all-Keeps [] file s = (s, λ id found p. p)
  persist_all-Keeps ((now, result, q) ∷ calls) file s =
      let (s', keep) = store_checked-Keeps (row_of py now result q) file s in
      let (s'', more) =
        persist_all-Keeps calls (persist_experiment_run py now result q file).1 s' in
      (s'', λ id found p. more id found (keep id found p))

  pub get-found :
      (file : Option Database) (run_id : String) (row : Row)
      → is_blank_text (strip run_id) ≡ false
      → find_run (strip run_id) (rows_of file) ≡ some row
      → get_experiment_run py file run_id ≡ ok (some (detail row))
  unfolding get_experiment_run detail_of
  get-found file run_id row e h =
      let (rows, opened, found) = readable (strip run_id) file row h in rw e (rw opened (rw found))

  detail_of-some :
      (o : Option Row) {d : Detail}
      → detail_of py o ≡ some d
      → (row : Row) × (o ≡ some row) × (d ≡ detail row)
  unfolding detail_of
  detail_of-some none h = cc
  detail_of-some (some row) h = (row, refl, cc)

  found_of_get :
      (file : Option Database) (run_id : String) (d : Detail)
      → get_experiment_run py file run_id ≡ ok (some d)
      → (row : Row) × (is_blank_text (strip run_id) ≡ false)
        × (find_run (strip run_id) (rows_of file) ≡ some row)
        × (d ≡ detail row)
  unfolding get_experiment_run detail_of
  found_of_get file run_id d h =
      let (named, h1) = raise_if-ok (is_blank_text (strip run_id)) _ _ h in
      let (rows, opened, h2) = bind-ok (open_read_only_store file) _ h1 in
      let (row, found, e) = detail_of-some (find_run (strip run_id) rows) (ok-injective h2) in
      (row, named, ap (find_run (strip run_id)) (rows_of-open file opened) ∙ found, e)

  -- Whatever is persisted afterwards, in whatever order and with whatever errors, a run that can be
  -- read is read back unchanged.
  pub get_experiment_run-persist_all :
      (calls : List Call) (file : Option Database) (run_id : String) (d : Detail)
      → IsStamped file
      → get_experiment_run py file run_id ≡ ok (some d)
      → get_experiment_run py (persist_all calls file) run_id ≡ ok (some d)
  unfolding Keeps
  get_experiment_run-persist_all calls file run_id d s h =
      let (row, named, found, e) = found_of_get file run_id d h in
      let (_, keep) = persist_all-Keeps calls file s in
      rw e (get-found (persist_all calls file) run_id row named (keep (strip run_id) row found))
