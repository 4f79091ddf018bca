-- ===== src/Cup/Scores/Ranking.antt =====
-- The order of the scores and the bounds of a total.
use mathlib.Core.List.{Perm}
use mathlib.Core.List.Perm
use llm_evaluation_lab.Base.{true, false, ◌≡◌, List, [], ◌∷◌, All, arith, Bool-cases, inl, inr}
use llm_evaluation_lab.Text.Order.{flip-compare, AtMost}
use llm_evaluation_lab.Json.{Float}
use llm_evaluation_lab.Cup.Contracts.{Runtime}
use llm_evaluation_lab.Cup.Judge.{Scoring}
use llm_evaluation_lab.Cup.Scorecard.{CompetitionScore}
use llm_evaluation_lab.Cup.Scores.{
  at_least_zero, at_most_hundred, clamp, ranks_before, rank_one, ranked,
}

module _ (rt : Runtime) (sc : Scoring) where
  open sc use {less, whole, less-irreflexive, less-asymmetric, zero-less-hundred}

  abbrev pub IsWithin : Float → Type 0
  IsWithin x = (less x (whole 0) ≡ false) × (less (whole 100) x ≡ false)

  at_least_zero-IsWithin :
      (y : Float) → less (whole 100) y ≡ false → IsWithin (at_least_zero rt sc y)
  at_least_zero-IsWithin y h = elim (Bool-cases (less (whole 0) y)) [
    | inl e ↦ rw e (less-asymmetric (whole 0) y e, h)
    | inr e ↦
        rw e (less-irreflexive (whole 0), less-asymmetric (whole 0) (whole 100) zero-less-hundred)
  ]

  at_most_hundred-le : (x : Float) → less (whole 100) (at_most_hundred rt sc x) ≡ false
  at_most_hundred-le x = elim (Bool-cases (less x (whole 100))) [
    | inl e ↦ rw e (less-asymmetric x (whole 100) e)
    | inr e ↦ rw e (less-irreflexive (whole 100))
  ]

  pub clamp-IsWithin : (x : Float) → IsWithin (clamp rt sc x)
  unfolding clamp
  clamp-IsWithin x = at_least_zero-IsWithin (at_most_hundred rt sc x) (at_most_hundred-le x)

  -- A total is not below the next one, and of two totals with neither below the other the entrant of
  -- the first does not come after that of the second.
  abbrev pub IsAhead : CompetitionScore → CompetitionScore → Type 0
  IsAhead a b =
      (less a.total b.total ≡ false)
      × (less b.total a.total ≡ false → AtMost a.entrant_id b.entrant_id)

  ranks_before-IsAhead : (a b : CompetitionScore) → ranks_before rt sc a b ≡ true → IsAhead a b
  unfolding ranks_before
  ranks_before-IsAhead a b h = elim (Bool-cases (less b.total a.total)) [
    | inl e ↦ (less-asymmetric b.total a.total e, λ level. cc)
    | inr e ↦ (ground arith, λ level after. ground (arith, after))
  ]

  abbrev pub IsRanked : List CompetitionScore → Type 0
  IsRanked [] = Unit
  IsRanked (a ∷ []) = Unit
  IsRanked (a ∷ b ∷ rest) = IsAhead a b × IsRanked (b ∷ rest)

  ranks_total :
      (a b : CompetitionScore) → ranks_before rt sc a b ≡ false → ranks_before rt sc b a ≡ true
  unfolding ranks_before
  ranks_total a b h = ground (arith, flip-compare a.entrant_id b.entrant_id)

  behind-IsRanked :
      (x a : CompetitionScore) (rest : List CompetitionScore)
      → IsRanked (x ∷ rest)
      → IsAhead x a
      → IsRanked (x ∷ rank_one rt sc a rest)
  unfolding rank_one
  behind-IsRanked x a [] h n = (n, tt)
  behind-IsRanked x a (b ∷ rest) h n = elim (Bool-cases (ranks_before rt sc a b)) [
    | inl e ↦ rw e (n, (ranks_before-IsAhead a b e, h.1))
    | inr e ↦
        rw e (h.0, behind-IsRanked b a rest h.1 (ranks_before-IsAhead b a (ranks_total a b e)))
  ]

  rank_one-IsRanked :
      (a : CompetitionScore) (rest : List CompetitionScore)
      → IsRanked rest
      → IsRanked (rank_one rt sc a rest)
  unfolding rank_one
  rank_one-IsRanked a [] h = tt
  rank_one-IsRanked a (b ∷ rest) h = elim (Bool-cases (ranks_before rt sc a b)) [
    | inl e ↦ rw e (ranks_before-IsAhead a b e, h)
    | inr e ↦ rw e (behind-IsRanked b a rest h (ranks_before-IsAhead b a (ranks_total a b e)))
  ]

  pub ranked-IsRanked : (scores : List CompetitionScore) → IsRanked (ranked rt sc scores)
  unfolding ranked
  ranked-IsRanked [] = tt
  ranked-IsRanked (a ∷ rest) = rank_one-IsRanked a (ranked rt sc rest) (ranked-IsRanked rest)

  rank_one-perm :
      (a : CompetitionScore) (rest : List CompetitionScore)
      → Perm (rank_one rt sc a rest) (a ∷ rest)
  unfolding rank_one
  rank_one-perm a [] = Perm.refl (a ∷ [])
  rank_one-perm a (b ∷ rest) = elim (Bool-cases (ranks_before rt sc a b)) [
    | inl e ↦ rw e (Perm.refl (a ∷ b ∷ rest))
    | inr e ↦ rw e (Perm.trans (Perm.cons b (rank_one-perm a rest)) (Perm.swap a b rest))
  ]

  pub ranked-perm : (scores : List CompetitionScore) → Perm (ranked rt sc scores) scores
  unfolding ranked
  ranked-perm [] = Perm.refl []
  ranked-perm (a ∷ rest) =
      Perm.trans (rank_one-perm a (ranked rt sc rest)) (Perm.cons a (ranked-perm rest))

  rank_one-All :
      (P : CompetitionScore → Type 0) (a : CompetitionScore) (rest : List CompetitionScore)
      → P a
      → All P rest
      → All P (rank_one rt sc a rest)
  unfolding rank_one
  rank_one-All P a [] p h = (p, tt)
  rank_one-All P a (b ∷ rest) p h = elim (Bool-cases (ranks_before rt sc a b)) [
    | inl e ↦ rw e (p, h)
    | inr e ↦ rw e (h.0, rank_one-All P a rest p h.1)
  ]

  pub ranked-All :
      (P : CompetitionScore → Type 0) (scores : List CompetitionScore)
      → All P scores
      → All P (ranked rt sc scores)
  unfolding ranked
  ranked-All P [] h = tt
  ranked-All P (a ∷ rest) h = rank_one-All P a (ranked rt sc rest) h.0 (ranked-All P rest h.1)
