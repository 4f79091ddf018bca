-- ===== src/Cup/Tools/Metered.antt =====
-- The budget of a search proxy and the trace of every call.
use llm_evaluation_lab.Base.{
  ℕ, suc, ◌+◌, ◌≤◌, ◌<◌, min, String, ◌≡◌, refl, sym, subst, none, some, List, [], ◌∷◌, ◌++◌,
  length, length-append, leb, leb→le, arith, Bool-cases, inl, inr,
}
use llm_evaluation_lab.Base.Result.{Result, ok, err}
use llm_evaluation_lab.Cup.Error.{
  Error, backend_error, error_type, value_error, type_error, budget_exceeded, access_denied, other,
}
use llm_evaluation_lab.Cup.Contracts.{SearchRequest, SearchResult, SearchTrace}
use llm_evaluation_lab.Cup.Tools.{
  Moment, Backend, SearchProxy, Attempt, succeeded, failed, attempt, settle, search, over_budget,
  calls_used, request_of, failure_trace, success_trace,
}

-- What a trace says of the call's end.
abbrev pub Tells : SearchTrace → Result Error (List SearchResult) → Type 0
Tells t (ok rs) = (t.status ≡ "SUCCEEDED") × (t.result_count ≡ length rs) × (t.error_type ≡ none)
Tells t (err e) =
    (t.status ≡ "FAILED") × (t.result_count ≡ 0) × (t.error_type ≡ some (error_type e))

-- The trace of a call of this proxy on this query.
pub record IsTraceOf (p : SearchProxy) (query : String) (t : SearchTrace) : Type 0 where
  pub entrant : t.entrant_id ≡ p.entrant_id
  pub number : t.call_number ≡ suc (calls_used p)
  pub asked : t.query ≡ query

-- How a call ends: refused before the backend is asked, or traced.
pub data Metered (show : ℕ → String) (query : String) (p : SearchProxy)
    : Result Error (List SearchResult) × SearchProxy → Type 0 where
  refused : p.max_calls ≤ calls_used p → Metered show query p (err (over_budget show p), p)
  traced :
      {r : Result Error (List SearchResult)} {p' : SearchProxy} (t : SearchTrace)
      → calls_used p < p.max_calls
      → IsTraceOf p query t
      → Tells t r
      → p' ≡ record p { traces = p.traces ++ t ∷ [] }
      → Metered show query p (r, p')

failure-Tells :
    (m : Moment) (r : SearchRequest) (id : String) (e : Error)
    → Tells (failure_trace m r id e) (err e)
failure-Tells m r id (value_error s) = (refl, refl, refl)
failure-Tells m r id (type_error s) = (refl, refl, refl)
failure-Tells m r id (budget_exceeded s) = (refl, refl, refl)
failure-Tells m r id (backend_error e) = (refl, refl, refl)
failure-Tells m r id (access_denied s) = (refl, refl, refl)
failure-Tells m r id (other n s) = (refl, refl, refl)

failure-IsTraceOf :
    (m : Moment) (query : String) (p : SearchProxy) (id : String) (e : Error)
    → IsTraceOf p query (failure_trace m (request_of m query p) id e)
failure-IsTraceOf m query p id (value_error s) = record {
  entrant = refl;
  number = refl;
  asked = refl;
}
failure-IsTraceOf m query p id (type_error s) = record {
  entrant = refl;
  number = refl;
  asked = refl;
}
failure-IsTraceOf m query p id (budget_exceeded s) = record {
  entrant = refl;
  number = refl;
  asked = refl;
}
failure-IsTraceOf m query p id (backend_error e) = record {
  entrant = refl;
  number = refl;
  asked = refl;
}
failure-IsTraceOf m query p id (access_denied s) = record {
  entrant = refl;
  number = refl;
  asked = refl;
}
failure-IsTraceOf m query p id (other n s) = record { entrant = refl; number = refl; asked = refl }

settle-Metered :
    (show : ℕ → String) (m : Moment) (query : String) (p : SearchProxy) (a : Attempt)
    → calls_used p < p.max_calls
    → Metered show query p (settle m (request_of m query p) p a)
unfolding settle
settle-Metered show m query p (succeeded rs id req resp) h =
    traced (success_trace m (request_of m query p) rs id req resp) h
      (record { entrant = refl; number = refl; asked = refl }) (refl, refl, refl) refl
settle-Metered show m query p (failed e id) h =
    traced (failure_trace m (request_of m query p) id e) h (failure-IsTraceOf m query p id e)
      (failure-Tells m (request_of m query p) id e) refl

-- A call on a spent budget is refused and changes nothing. Any other call, whatever the backend does,
-- adds exactly one trace, with the next number, the entrant and the query: SUCCEEDED with the number
-- of results if the call returns, and FAILED with the exception's type if it raises.
pub search-Metered :
    (show : ℕ → String) (m : Moment) (backend : Backend) (query : String) (p : SearchProxy)
    → Metered show query p (search show m backend query p)
unfolding search
search-Metered show m backend query p = elim (Bool-cases (leb p.max_calls (calls_used p))) [
  | inl e ↦ rw e (refused (leb→le p.max_calls (calls_used p) e))
  | inr e ↦
      rw e (settle-Metered show m query p (attempt backend (request_of m query p)) (ground arith))
]

-- A sequence of calls, each with what it reads, its backend and its query.
abbrev pub Call : Type 0
Call = Moment × Backend × String

unfoldable pub search_all : (ℕ → String) → List Call → SearchProxy → SearchProxy
search_all show [] p = p
search_all show ((m, backend, query) ∷ calls) p =
    search_all show calls (search show m backend query p).1

-- A proxy within its budget, with the traces numbered from 1 under its entrant.
abbrev pub AreNumbered : String → ℕ → List SearchTrace → Type 0
AreNumbered id n [] = Unit
AreNumbered id n (t ∷ ts) = (t.entrant_id ≡ id) × (t.call_number ≡ n) × AreNumbered id (suc n) ts

pub record IsMetered (p : SearchProxy) : Type 0 where
  pub within : calls_used p ≤ p.max_calls
  pub numbered : AreNumbered p.entrant_id 1 p.traces

AreNumbered-append :
    (id : String) (n : ℕ) (ts : List SearchTrace) (t : SearchTrace)
    → AreNumbered id n ts
    → t.entrant_id ≡ id
    → t.call_number ≡ n + length ts
    → AreNumbered id n (ts ++ t ∷ [])
AreNumbered-append id n [] t h e k = (e, omega (arith, k), tt)
AreNumbered-append id n (s ∷ ts) t (a, b, h) e k =
    (a, b, AreNumbered-append id (suc n) ts t h e (omega (arith, k)))

-- What a call does to the count, the budget and the entrant.
unfoldable pub Steps : SearchProxy → SearchProxy → Type 0
Steps p p' =
    IsMetered p'
    × (p'.max_calls ≡ p.max_calls)
    × (p'.entrant_id ≡ p.entrant_id)
    × (calls_used p' ≡ min p.max_calls (suc (calls_used p)))

pub Metered-Steps :
    {show : ℕ → String} {query : String} (p : SearchProxy)
    {x : Result Error (List SearchResult) × SearchProxy}
    → IsMetered p
    → Metered show query p x
    → Steps p x.1
unfolding Steps
Metered-Steps p i (refused h) = let w = i.within in (i, refl, refl, omega (arith, h, w))
Metered-Steps p i (traced t h is told e) =
    let n = is.number in
    subst (Steps p) (sym e) (
      record {
        within = omega (arith, h, length-append p.traces (t ∷ []));
        numbered =
            AreNumbered-append p.entrant_id 1 p.traces t i.numbered is.entrant (omega (arith, n));
      },
      refl,
      refl,
      omega (arith, h, length-append p.traces (t ∷ [])),
    )

-- However many calls are made, on whatever backends, of a metered proxy: it stays metered, so that its
-- traces are numbered from 1 and never more than the budget, and it has traced every call until the
-- budget was spent and none after.
pub search_all-IsMetered :
    (show : ℕ → String) (calls : List Call) (p : SearchProxy)
    → IsMetered p
    → IsMetered (search_all show calls p)
      × (calls_used (search_all show calls p) ≡ min p.max_calls (calls_used p + length calls))
unfolding search_all Steps
search_all-IsMetered show [] p i = let w = i.within in (i, omega (arith, w))
search_all-IsMetered show ((m, backend, query) ∷ calls) p i =
    let (i', same_budget, _, used) = Metered-Steps p i (search-Metered show m backend query p) in
    let (i'', total) = search_all-IsMetered show calls (search show m backend query p).1 i' in
    (i'', omega (arith, total, same_budget, used))
