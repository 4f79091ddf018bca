-- ===== src/Lab/Mitigation/Statuses.antt =====
-- The lists of statuses of a mitigation spec (evaluation_lab.py): sorting keeps the statuses, and no
-- overlap of the sorted lists means none of the lists as they are read.
use Prim.Native.Nat.{Ordering}
use Prim.Native.String as Native
use mathlib.Core.List.{Perm}
use mathlib.Core.List.Perm
use llm_evaluation_lab.Base.{
  String, true, ap, All-at, ◌≡◌, refl, List, [], ◌∷◌, map, filter, is_empty, All, Among, Bool-cases,
  inl, inr, arith,
}
use llm_evaluation_lab.Lab.Read.{contains, Among→contains}
use llm_evaluation_lab.Lab.Mitigation.{add_sorted, sort_texts, unique, overlapping}

unique-empty : (xs : List String) → is_empty (unique xs) ≡ true → xs ≡ []
unfolding unique
unique-empty [] h = refl
unique-empty (x ∷ []) h = cc
unique-empty (x ∷ y ∷ ys) h = elim (Bool-cases (contains x (y ∷ ys))) [
  | inl e ↦ let none = unique-empty (y ∷ ys) (ground arith) in cc
  | inr e ↦ ground arith
]

filter-empty :
    (ys xs : List String) → filter (λ s. contains s ys) xs ≡ [] → All (λ s. ¬ (Among s ys)) xs
filter-empty ys [] h = tt
filter-empty ys (x ∷ xs) h = elim (Bool-cases (contains x ys)) [
  | inl e ↦ ground arith
  | inr e ↦
      ((λ m. let here = Among→contains x ys m in ground arith), filter-empty ys xs (ground arith))
]

overlapping-empty :
    (terminal blocking : List String)
    → is_empty (overlapping terminal blocking) ≡ true
    → All (λ s. ¬ (Among s blocking)) terminal
unfolding overlapping
overlapping-empty terminal blocking h =
    filter-empty blocking terminal (unique-empty (filter (λ s. contains s blocking) terminal) h)

beside :
    (x y : String) (ys rest : List String)
    → Perm rest (x ∷ ys)
    → (c : Ordering) → Perm (elim c [ Ordering.gt ↦ y ∷ rest | _ ↦ x ∷ y ∷ ys ]) (x ∷ y ∷ ys)
beside x y ys rest p Ordering.lt = Perm.refl (x ∷ y ∷ ys)
beside x y ys rest p Ordering.eq = Perm.refl (x ∷ y ∷ ys)
beside x y ys rest p Ordering.gt = Perm.trans (Perm.cons y p) (Perm.swap x y ys)

add_sorted-perm : (x : String) (xs : List String) → Perm (add_sorted x xs) (x ∷ xs)
unfolding add_sorted
add_sorted-perm x [] = Perm.refl (x ∷ [])
add_sorted-perm x (y ∷ ys) =
    beside x y ys (add_sorted x ys) (add_sorted-perm x ys) (Native.compare x y)

pub sort_texts-perm : (xs : List String) → Perm (sort_texts xs) xs
unfolding sort_texts
sort_texts-perm [] = Perm.refl []
sort_texts-perm (x ∷ xs) =
    Perm.trans (add_sorted-perm x (sort_texts xs)) (Perm.cons x (sort_texts-perm xs))

beside-Among :
    (a x y : String) (ys rest : List String)
    → (Among a (x ∷ ys) → Among a rest)
    → (c : Ordering) → Among a (x ∷ y ∷ ys)
    → Among a (elim c [ Ordering.gt ↦ y ∷ rest | _ ↦ x ∷ y ∷ ys ])
beside-Among a x y ys rest k Ordering.lt m = m
beside-Among a x y ys rest k Ordering.eq m = m
beside-Among a x y ys rest k Ordering.gt (inl e) = inr (k (inl e))
beside-Among a x y ys rest k Ordering.gt (inr (inl e)) = inl e
beside-Among a x y ys rest k Ordering.gt (inr (inr m)) = inr (k (inr m))

add_sorted-Among : (a x : String) (xs : List String) → Among a (x ∷ xs) → Among a (add_sorted x xs)
unfolding add_sorted
add_sorted-Among a x [] m = m
add_sorted-Among a x (y ∷ ys) m =
    beside-Among a x y ys (add_sorted x ys) (add_sorted-Among a x ys) (Native.compare x y) m

sort_texts-Among : (a : String) (xs : List String) → Among a xs → Among a (sort_texts xs)
unfolding sort_texts
sort_texts-Among a [] m = absurd m
sort_texts-Among a (x ∷ xs) (inl e) = add_sorted-Among a x (sort_texts xs) (inl e)
sort_texts-Among a (x ∷ xs) (inr m) =
    add_sorted-Among a x (sort_texts xs) (inr (sort_texts-Among a xs m))

All-of : {P : String → Type 0} (xs : List String) → ((a : String) → Among a xs → P a) → All P xs
All-of [] h = tt
All-of (x ∷ xs) h = (h x (inl refl), All-of xs λ a m. h a (inr m))

Among-map :
    (f : String → String) (a : String) (xs : List String) → Among a xs → Among (f a) (map f xs)
Among-map f a [] m = absurd m
Among-map f a (x ∷ xs) (inl e) = inl (ap f e)
Among-map f a (x ∷ xs) (inr m) = inr (Among-map f a xs m)

-- No status of the one sorted list in the other: none of the lists as they were.
pub apart-raw :
    (upper : String → String) (terminal blocking : List String)
    → is_empty (overlapping (sort_texts (map upper terminal)) (sort_texts (map upper blocking)))
      ≡ true
    → All (λ s. All (λ b. ¬ (upper s ≡ upper b)) blocking) terminal
apart-raw upper terminal blocking h =
    let ts = sort_texts (map upper terminal) in
    let bs = sort_texts (map upper blocking) in
    All-of terminal λ s ms. All-of blocking λ b mb same.
      All-at (λ t. ¬ (Among t bs)) ts (upper s) (overlapping-empty ts bs h)
        (sort_texts-Among (upper s) (map upper terminal) (Among-map upper s terminal ms))
        (rw same (sort_texts-Among (upper b) (map upper blocking) (Among-map upper b blocking mb)))
