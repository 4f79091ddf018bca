-- ===== src/Lab/Store/Listing.antt =====
-- The listing against a sorted rearrangement of the table.
use mathlib.Core.List.{Perm}
use mathlib.Core.List.Perm
use llm_evaluation_lab.Base.{
  ℕ, zero, suc, Option, ◌≤◌, ◌≡◌, sym, true, false, List, [], ◌∷◌, map, take, arith, Bool-cases,
  inl, inr,
}
use llm_evaluation_lab.Base.Int.{ℤ, pos, negsuc}
use llm_evaluation_lab.Base.Result.{ok, bind-ok, ok-injective}
use llm_evaluation_lab.Text.Order.{flip-compare, AtMost, AtMost-refl, not_lt-AtMost}
use llm_evaluation_lab.Lab.Store.{
  Run, Row, Database, newer_or_same, place, newest_first, limit_of, open_read_only_store,
  list_experiment_runs,
}

-- A row was not made before the next one, and of two made at one time its identifier is not smaller.
abbrev pub IsNewer : Row → Row → Type 0
IsNewer r s =
    AtMost s.run.created_at_utc r.run.created_at_utc
    × (s.run.created_at_utc ≡ r.run.created_at_utc → AtMost s.run.run_id r.run.run_id)

abbrev pub IsNewestFirst : List Row → Type 0
IsNewestFirst [] = Unit
IsNewestFirst (r ∷ []) = Unit
IsNewestFirst (r ∷ s ∷ rows) = IsNewer r s × IsNewestFirst (s ∷ rows)

newer_or_same-IsNewer : (r s : Row) → newer_or_same r s ≡ true → IsNewer r s
unfolding newer_or_same
newer_or_same-IsNewer r s h = (
  not_lt-AtMost r.run.created_at_utc s.run.created_at_utc (λ e. ground (arith, e)),
  λ same.
      let level : AtMost r.run.created_at_utc s.run.created_at_utc =
        rw same (AtMost-refl r.run.created_at_utc) in
      not_lt-AtMost r.run.run_id s.run.run_id (λ e. ground (arith, e, level)),
)

newer_total : (a b : Row) → newer_or_same a b ≡ false → newer_or_same b a ≡ true
unfolding newer_or_same
newer_total a b h = ground (
  arith,
  flip-compare a.run.created_at_utc b.run.created_at_utc,
  flip-compare a.run.run_id b.run.run_id,
)

-- Placing a row behind one that is newer.
behind-IsNewestFirst :
    (x r : Row) (rows : List Row)
    → IsNewestFirst (x ∷ rows)
    → IsNewer x r
    → IsNewestFirst (x ∷ place r rows)
unfolding place
behind-IsNewestFirst x r [] h n = (n, tt)
behind-IsNewestFirst x r (a ∷ rows) h n = elim (Bool-cases (newer_or_same r a)) [
  | inl e ↦ rw e (n, (newer_or_same-IsNewer r a e, h.1))
  | inr e ↦
      rw e (h.0, behind-IsNewestFirst a r rows h.1 (newer_or_same-IsNewer a r (newer_total r a e)))
]

place-IsNewestFirst :
    (r : Row) (rows : List Row) → IsNewestFirst rows → IsNewestFirst (place r rows)
unfolding place
place-IsNewestFirst r [] h = tt
place-IsNewestFirst r (a ∷ rows) h = elim (Bool-cases (newer_or_same r a)) [
  | inl e ↦ rw e (newer_or_same-IsNewer r a e, h)
  | inr e ↦ rw e (behind-IsNewestFirst a r rows h (newer_or_same-IsNewer a r (newer_total r a e)))
]

newest_first-IsNewestFirst : (rows : List Row) → IsNewestFirst (newest_first rows)
unfolding newest_first
newest_first-IsNewestFirst [] = tt
newest_first-IsNewestFirst (r ∷ rows) =
    place-IsNewestFirst r (newest_first rows) (newest_first-IsNewestFirst rows)

place-perm : (r : Row) (rows : List Row) → Perm (place r rows) (r ∷ rows)
unfolding place
place-perm r [] = Perm.refl (r ∷ [])
place-perm r (a ∷ rows) = elim (Bool-cases (newer_or_same r a)) [
  | inl e ↦ rw e (Perm.refl (r ∷ a ∷ rows))
  | inr e ↦ rw e (Perm.trans (Perm.cons a (place-perm r rows)) (Perm.swap r a rows))
]

newest_first-perm : (rows : List Row) → Perm (newest_first rows) rows
unfolding newest_first
newest_first-perm [] = Perm.refl []
newest_first-perm (r ∷ rows) =
    Perm.trans (place-perm r (newest_first rows)) (Perm.cons r (newest_first-perm rows))

limit_of-ok : (limit : ℤ) {n : ℕ} → limit_of limit ≡ ok n → (limit ≡ pos n) × (1 ≤ n) × (n ≤ 1000)
unfolding limit_of
limit_of-ok (pos (suc n)) h = ground arith
limit_of-ok (pos zero) h = cc
limit_of-ok (negsuc n) h = cc

-- A listing is the first rows, as many as the limit allows, of the whole table in the order newest
-- first: by time and then by identifier, both descending. The limit lies between 1 and 1000.
pub list_experiment_runs-newest :
    (file : Option Database) (limit : ℤ) {runs : List Run}
    → list_experiment_runs file limit ≡ ok runs
    → (n : ℕ) × (rows : List Row) × (sorted : List Row) × (limit ≡ pos n)
      × (1 ≤ n)
      × (n ≤ 1000)
      × (open_read_only_store file ≡ ok rows)
      × Perm sorted rows
      × IsNewestFirst sorted
      × (runs ≡ map (λ row. row.run) (take n sorted))
unfolding list_experiment_runs
list_experiment_runs-newest file limit h =
    let (n, en, h1) = bind-ok (limit_of limit) _ h in
    let (rows, er, h2) = bind-ok (open_read_only_store file) _ h1 in
    let (el, low, high) = limit_of-ok limit en in
    (
      n,
      rows,
      newest_first rows,
      el,
      low,
      high,
      er,
      newest_first-perm rows,
      newest_first-IsNewestFirst rows,
      sym (ok-injective h2),
    )
