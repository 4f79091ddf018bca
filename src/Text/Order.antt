-- ===== src/Text/Order.antt =====
-- The order of texts by code points is antisymmetric in this sense: swapping the texts swaps the
-- answer of `compare`.
use Prim.Native.Nat.{ℕ, Ordering, compare as compare_ℕ}
use Prim.Native.Char.{code}
use Prim.Native.String.{String, compare, then}
use Prim.Native.String.compare as C
use mathlib.Core.Path.{◌≡◌, refl, sym, ap, ap₂, ◌∙◌}
use native.Mathlib.Omega.{arith}

abbrev pub flip : Ordering → Ordering
flip Ordering.lt = Ordering.gt
flip Ordering.eq = Ordering.eq
flip Ordering.gt = Ordering.lt

flip-compare_ℕ : (a b : ℕ) → compare_ℕ b a ≡ flip (compare_ℕ a b)
flip-compare_ℕ a b = ground arith

flip-then : (a b : Ordering) → then (flip a) (flip b) ≡ flip (then a b)
flip-then Ordering.lt b = refl
flip-then Ordering.eq b = refl
flip-then Ordering.gt b = refl

pub flip-compare : (s t : String) → compare t s ≡ flip (compare s t)
flip-compare String.[] String.[] = refl
flip-compare String.[] (String.◌∷◌ d t) = C.cons-nil d t ∙ ap flip (sym (C.nil-cons d t))
flip-compare (String.◌∷◌ c s) String.[] = C.nil-cons c s ∙ ap flip (sym (C.cons-nil c s))
flip-compare (String.◌∷◌ c s) (String.◌∷◌ d t) =
    C.cons-cons d c t s
    ∙ (ap₂ then (flip-compare_ℕ (code c) (code d)) (flip-compare s t)
        ∙ flip-then (compare_ℕ (code c) (code d)) (compare s t))
    ∙ ap flip (sym (C.cons-cons c d s t))

-- The first text does not come after the second.
abbrev pub AtMost : String → String → Type 0
AtMost s t = ¬ (compare s t ≡ Ordering.gt)

flip-gt : (a : Ordering) → a ≡ flip a → ¬ (a ≡ Ordering.gt)
flip-gt Ordering.lt h e = cc
flip-gt Ordering.eq h e = cc
flip-gt Ordering.gt h e = cc

pub AtMost-refl : (s : String) → AtMost s s
AtMost-refl s = flip-gt (compare s s) (flip-compare s s)

-- What is not less is not exceeded.
pub not_lt-AtMost : (s t : String) → ¬ (compare s t ≡ Ordering.lt) → AtMost t s
not_lt-AtMost s t h e = h (flip-compare t s ∙ ap flip e)
