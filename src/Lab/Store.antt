-- ===== src/Lab/Store.antt =====
-- evaluation_lab.py: the SQLite store of experiment runs. A database is its `user_version` and the
-- rows of `experiment_runs`, if that table is there, in the order of insertion; a path with no
-- database is `none`. SQLite stores a NaN as NULL, which a NOT NULL column refuses.
pub mod Immutable
pub mod Listing
pub mod History
pub mod ReadBack
pub mod NotANumber
use llm_evaluation_lab.Base.{
  ℕ, zero, suc, String, ◌≡◌, Bool, true, false, ◌&&◌, ◌||◌, not, Option, none, some, List, [], ◌∷◌,
  ◌++◌, map, any, take, leb, ltb, str_eq, if◌then◌else◌,
}
use llm_evaluation_lab.Base.Int.{ℤ, pos, negsuc}
use llm_evaluation_lab.Base.Result.{Result, ok, err, ◌>>=◌, ◌>>◌, raise_if, require}
use Prim.Native.Nat.{Ordering}
use Prim.Native.String as Native
use llm_evaluation_lab.Text.{strip, is_blank, is_blank_text}
use llm_evaluation_lab.Json.{
  Float, float_is_negative, is_nan, Json, null, bool, int, float, str, arr, obj, Fields, get,
  get_or, truthy,
}
use llm_evaluation_lab.Lab.Error.{
  Error, text_required, object_required, unsupported, negative_cost, numeric_required,
  int_too_large, already_exists, unsupported_version, store_missing, table_missing, bad_limit,
}

pub record Run : Type 0 where
  pub run_id : String
  pub suite : String
  pub case_suite_version : String
  pub model : String
  pub prompt_version : String
  pub git_commit : String
  pub created_at_utc : String
  pub latency_ms : Float
  pub token_cost : Float
  pub baseline_accuracy : Float
  pub treatment_accuracy : Float
  pub regression_status : String

-- A row: the metadata that is reported, and the stored JSON text.
pub record Row : Type 0 where
  pub run : Run
  pub result_json : String

pub record Database : Type 0 where
  pub user_version : ℤ
  pub experiment_runs : Option (List Row)

abbrev pub store_schema_version : ℤ
store_schema_version = pos 1

-- What the store uses of Python: `str` of a JSON value that is no text, `float` of an integer, which
-- is `none` where it raises an OverflowError, and `json.dumps(…, sort_keys=True)` and `json.loads`.
pub record Python : Type 0 where
  pub show : Json → String
  pub float_of : ℤ → Option Float
  pub dumps : Fields → String
  pub loads : String → Json

-- `version not in {0, STORE_SCHEMA_VERSION}`
unfoldable pub supported : ℤ → Bool
supported (pos zero) = true
supported (pos (suc zero)) = true
supported _ = false

-- `_initialize_store`: `CREATE TABLE IF NOT EXISTS` and the version stamp commit at once.
unfoldable pub initialize_store : Database → Result Error Database
unfolding supported
initialize_store db =
    if supported db.user_version
    then ok (record {
      user_version = store_schema_version;
      experiment_runs = elim db.experiment_runs [ none ↦ some [] | some rows ↦ some rows ];
    })
    else err (unsupported_version db.user_version)

-- `sqlite3.connect(path)` makes an empty database where there is none.
abbrev pub connect : Option Database → Database
connect none = record { user_version = pos zero; experiment_runs = none }
connect (some db) = db

abbrev pub is_version_one : ℤ → Bool
is_version_one (pos (suc zero)) = true
is_version_one _ = false

-- `_open_read_only_store`: the rows that the connection can read.
unfoldable pub open_read_only_store : Option Database → Result Error (List Row)
open_read_only_store none = err store_missing
open_read_only_store (some db) =
    if is_version_one db.user_version
    then elim db.experiment_runs [ none ↦ err table_missing | some rows ↦ ok rows ]
    else err (unsupported_version db.user_version)

unfoldable pub has_run : String → List Row → Bool
has_run id rows = any (λ row. str_eq id row.run.run_id) rows

-- The NOT NULL constraints; the CHECKs hold of what `persist_experiment_run` lets through.
unfoldable pub not_null : Run → Bool
not_null r = not (
    is_nan r.latency_ms
    || is_nan r.token_cost
    || is_nan r.baseline_accuracy
    || is_nan r.treatment_accuracy)

-- The INSERT: `none` is an IntegrityError.
unfoldable pub insert : Row → List Row → Option (List Row)
unfolding has_run not_null
insert row rows =
    if has_run row.run.run_id rows || not (not_null row.run) then none else some (rows ++ row ∷ [])

-- The keyword arguments of `persist_experiment_run`.
pub record Request : Type 0 where
  pub suite : String
  pub model : String
  pub prompt_version : String
  pub git_commit : String
  pub latency_ms : Float
  pub token_cost : Float
  pub created_at_utc : Option String

pub record Detail : Type 0 where
  pub run : Run
  pub result : Json

unfoldable pub find_run : String → List Row → Option Row
find_run id [] = none
find_run id (row ∷ rows) = if str_eq id row.run.run_id then some row else find_run id rows

-- The end of the `with` block: the INSERT is committed, or its IntegrityError is reported.
unfoldable pub finish : Row → Database → Option (List Row) → Result Error Run × Option Database
finish row db none = (err (already_exists row.run.run_id), some db)
finish row db (some rows) = (ok row.run, some (record db { experiment_runs = some rows }))

-- The database part: what was initialized stays, also when the INSERT is refused.
unfoldable pub store_row : Row → Option Database → Result Error Run × Option Database
unfolding initialize_store
store_row row file = elim (initialize_store (connect file)) [
  | err e ↦ (err e, some (connect file))
  | ok db ↦ elim db.experiment_runs [
    | none ↦ (err table_missing, some db)
    | some rows ↦ finish row db (insert row rows)
  ]
]

-- The checked values are stored, or the check's error is raised before the database is opened.
unfoldable pub store_checked :
    Result Error Row → Option Database → Result Error Run × Option Database
store_checked (err e) file = (err e, file)
store_checked (ok row) file = store_row row file

module _ (py : Python) where
  open py use {show, float_of, dumps, loads}

  -- `str(value)`
  unfoldable pub py_str : Json → String
  py_str (str s) = s
  py_str j = show j

  -- `_policy_accuracy(result, key)`
  unfoldable pub numeric_of : String → Json → Result Error Float
  numeric_of key (int n) = elim (float_of n) [ none ↦ err int_too_large | some x ↦ ok x ]
  numeric_of key (float x) = ok x
  numeric_of key _ = err (numeric_required key)

  unfoldable pub mapping_of : String → Json → Result Error Fields
  mapping_of key (obj fs) = ok fs
  mapping_of key _ = err (object_required key)

  unfoldable pub policy_accuracy : Fields → String → Result Error Float
  policy_accuracy result key = do
    policy ← mapping_of key (get key result)
    numeric_of key (get "accuracy" policy)

  -- `str(result.get("benchmark_id") or result.get("case_id") or "").strip()`
  unfoldable pub case_suite_version_of : Fields → String
  unfolding py_str strip truthy
  case_suite_version_of result = strip (
      if truthy (get "benchmark_id" result)
      then py_str (get "benchmark_id" result)
      else if truthy (get "case_id" result)
      then py_str (get "case_id" result)
      else "")

  -- `created_at_utc or _utc_timestamp()`
  abbrev pub created_or : Option String → String → String
  created_or none now = now
  created_or (some s) now = if is_blank_text s then now else s

  -- The checks of `persist_experiment_run` and the values that it would insert.
  unfoldable pub row_of : String → Fields → Request → Result Error Row
  unfolding policy_accuracy
  row_of now result q = do
    let run_id = strip (py_str (get_or "run_id" result (str "")))
    raise_if (is_blank_text run_id) (text_required "run_id")
    require (str_eq q.suite "closure" || str_eq q.suite "historical") (unsupported "suite" q.suite)
    raise_if (is_blank q.model) (text_required "model")
    raise_if (is_blank q.prompt_version) (text_required "prompt_version")
    raise_if (is_blank q.git_commit) (text_required "git_commit")
    raise_if (float_is_negative q.latency_ms || float_is_negative q.token_cost) negative_cost
    let version = case_suite_version_of result
    raise_if (is_blank_text version) (text_required "case-suite identity")
    regression ← mapping_of "regression" (get "regression" result)
    let status = strip (py_str (get_or "status" regression (str "")))
    raise_if (is_blank_text status) (text_required "status")
    baseline ← policy_accuracy result "baseline"
    treatment ← policy_accuracy result "treatment"
    ok (record {
      run = record {
        run_id = run_id;
        suite = q.suite;
        case_suite_version = version;
        model = strip q.model;
        prompt_version = strip q.prompt_version;
        git_commit = strip q.git_commit;
        created_at_utc = created_or q.created_at_utc now;
        latency_ms = q.latency_ms;
        token_cost = q.token_cost;
        baseline_accuracy = baseline;
        treatment_accuracy = treatment;
        regression_status = status;
      };
      result_json = dumps result;
    })

  -- `persist_experiment_run(store_path, result, …)` at the time `now`
  unfoldable pub persist_experiment_run :
      String → Fields → Request → Option Database → Result Error Run × Option Database
  persist_experiment_run now result q file = store_checked (row_of now result q) file

  unfoldable pub detail_of : Option Row → Option Detail
  detail_of none = none
  detail_of (some row) = some (record { run = row.run; result = loads row.result_json })

  -- `get_experiment_run(store_path, run_id)`
  unfoldable pub get_experiment_run : Option Database → String → Result Error (Option Detail)
  get_experiment_run file run_id =
      let id = strip run_id in
      do
        raise_if (is_blank_text id) (text_required "run_id")
        rows ← open_read_only_store file
        ok (detail_of (find_run id rows))

-- `ORDER BY created_at_utc DESC, run_id DESC`, SQLite's BINARY order being that of code points.
unfoldable pub newer_or_same : Row → Row → Bool
newer_or_same a b = elim (Native.compare a.run.created_at_utc b.run.created_at_utc) [
  | Ordering.gt ↦ true
  | Ordering.lt ↦ false
  | Ordering.eq ↦ elim (Native.compare a.run.run_id b.run.run_id) [ Ordering.lt ↦ false | _ ↦ true ]
]

unfoldable pub place : Row → List Row → List Row
place row [] = row ∷ []
place row (other ∷ rows) =
    if newer_or_same row other then row ∷ other ∷ rows else other ∷ place row rows

unfoldable pub newest_first : List Row → List Row
newest_first [] = []
newest_first (row ∷ rows) = place row (newest_first rows)

-- `limit < 1 or limit > 1000`
unfoldable pub limit_of : ℤ → Result Error ℕ
limit_of (pos (suc n)) = if ltb 1000 (suc n) then err (bad_limit (pos (suc n))) else ok (suc n)
limit_of limit = err (bad_limit limit)

-- `list_experiment_runs(store_path, limit)`
unfoldable pub list_experiment_runs : Option Database → ℤ → Result Error (List Run)
unfolding limit_of open_read_only_store newest_first place newer_or_same
list_experiment_runs file limit = do
  n ← limit_of limit
  rows ← open_read_only_store file
  ok (map (λ row. row.run) (take n (newest_first rows)))
