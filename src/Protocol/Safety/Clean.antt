-- ===== src/Protocol/Safety/Clean.antt =====
-- A document that passes the scanner holds no private key and no private text, at any depth.
use llm_evaluation_lab.Base.{String, true, false, ◌≡◌, refl, ◌↔◌, List, [], ◌∷◌, ◌++◌, All}
use llm_evaluation_lab.Base.Result.{Result, ok, ◌>>◌, raise_if, then_iff, require_iff, raise_if_iff}
use llm_evaluation_lab.Json.{
  Json, float, str, arr, obj, Items, nil, cons, Fields, end, field, Float,
}
use llm_evaluation_lab.Cup.Error.{Error}
use llm_evaluation_lab.Protocol.Numbers.{is_finite}
use llm_evaluation_lab.Protocol.Safety.{
  Texts, finite_json, finite_fields, finite_items, is_private_key, is_private_text, visit_text,
  visit, visit_fields, visit_items, assert_content_safe,
}

-- A key, a text or a number that stands somewhere in a document.
pub data Part : Type 0 where
  key_part : String → Part
  text_part : String → Part
  number_part : Float → Part

-- The parts of a document at any depth.
unfoldable mutual
  pub parts : Json → List Part
  parts (obj fs) = parts_of_fields fs
  parts (arr js) = parts_of_items js
  parts (str s) = text_part s ∷ []
  parts (float x) = number_part x ∷ []
  parts _ = []

  pub parts_of_fields : Fields → List Part
  parts_of_fields end = []
  parts_of_fields (field key j rest) = key_part key ∷ parts j ++ parts_of_fields rest

  pub parts_of_items : Items → List Part
  parts_of_items nil = []
  parts_of_items (cons j rest) = parts j ++ parts_of_items rest

All-append_iff : (P : Part → Type 0) (xs ys : List Part) → All P (xs ++ ys) ↔ (All P xs × All P ys)
All-append_iff P [] ys = ((λ h. (tt, h)), λ h. h.1)
All-append_iff P (x ∷ xs) ys =
    let (to, from) = All-append_iff P xs ys in
    ((λ h. let (a, b) = to h.1 in ((h.0, a), b)), λ h. (h.0.0, from (h.0.1, h.1)))

-- Two checks that decide the two halves decide the whole.
then_append_iff :
    (P : Part → Type 0) (xs ys : List Part) (m k : Result Error (Unit {0}))
    → (m ≡ ok tt) ↔ All P xs
    → (k ≡ ok tt) ↔ All P ys
    → ((m >> k) ≡ ok tt) ↔ All P (xs ++ ys)
then_append_iff P xs ys m k (f, f') (g, g') =
    let (to, from) = then_iff m k in
    let (split, join) = All-append_iff P xs ys in
    ((λ h. let (a, b) = to h in join (f a, g b)), λ h. let (a, b) = split h in from (f' a, g' b))

abbrev IsNumberFinite : Part → Type 0
IsNumberFinite (number_part x) = is_finite x ≡ true
IsNumberFinite _ = Unit

mutual
  unfolding finite_json parts

  finite_json_iff : (j : Json) → (finite_json j ≡ ok tt) ↔ All IsNumberFinite (parts j)
  finite_json_iff (obj fs) = finite_fields_iff fs
  finite_json_iff (arr js) = finite_items_iff js
  finite_json_iff (float x) =
      let (to, from) = require_iff (is_finite x) _ in ((λ h. (to h, tt)), λ h. from h.0)
  finite_json_iff (str s) = ((λ h. (tt, tt)), λ h. refl)
  finite_json_iff _ = ((λ h. tt), λ h. refl)

  finite_fields_iff :
      (fs : Fields) → (finite_fields fs ≡ ok tt) ↔ All IsNumberFinite (parts_of_fields fs)
  finite_fields_iff end = ((λ h. tt), λ h. refl)
  finite_fields_iff (field key j rest) =
      let (to, from) =
        then_append_iff IsNumberFinite (parts j) (parts_of_fields rest) (finite_json j)
          (finite_fields rest) (finite_json_iff j) (finite_fields_iff rest) in
      ((λ h. (tt, to h)), λ h. from h.1)

  finite_items_iff :
      (js : Items) → (finite_items js ≡ ok tt) ↔ All IsNumberFinite (parts_of_items js)
  finite_items_iff nil = ((λ h. tt), λ h. refl)
  finite_items_iff (cons j rest) =
      then_append_iff IsNumberFinite (parts j) (parts_of_items rest) (finite_json j)
        (finite_items rest) (finite_json_iff j) (finite_items_iff rest)

module _ (t : Texts) where
  abbrev IsPublic : Part → Type 0
  IsPublic (key_part k) = (is_private_key t k ≡ false) × (is_private_text t k ≡ false)
  IsPublic (text_part s) = is_private_text t s ≡ false
  IsPublic (number_part x) = Unit

  -- A number is finite; a key is not a private one; and no key or text matches a private pattern.
  abbrev pub IsClean : Part → Type 0
  IsClean (key_part k) = (is_private_key t k ≡ false) × (is_private_text t k ≡ false)
  IsClean (text_part s) = is_private_text t s ≡ false
  IsClean (number_part x) = is_finite x ≡ true

  mutual
    unfolding visit parts

    visit_iff : (j : Json) → (visit t j ≡ ok tt) ↔ All IsPublic (parts j)
    visit_iff (obj fs) = visit_fields_iff fs
    visit_iff (arr js) = visit_items_iff js
    visit_iff (str s) =
        let (to, from) = raise_if_iff (is_private_text t s) _ in ((λ h. (to h, tt)), λ h. from h.0)
    visit_iff (float x) = ((λ h. (tt, tt)), λ h. refl)
    visit_iff _ = ((λ h. tt), λ h. refl)

    visit_fields_iff :
        (fs : Fields) → (visit_fields t fs ≡ ok tt) ↔ All IsPublic (parts_of_fields fs)
    visit_fields_iff end = ((λ h. tt), λ h. refl)
    visit_fields_iff (field key j rest) =
        let (to, from) =
          then_append_iff IsPublic (parts j) (parts_of_fields rest) (visit t j)
            (visit_fields t rest) (visit_iff j) (visit_fields_iff rest) in
        (
          (λ h.
              let (a, h1) = (then_iff (raise_if (is_private_key t key) _) _).0 h in
              let (b, h2) = (then_iff (visit_text t key) _).0 h1 in
              (((raise_if_iff _ _).0 a, (raise_if_iff _ _).0 b), to h2)),
          λ ((a, b), h). rw a (rw b (from h)),
        )

    visit_items_iff : (js : Items) → (visit_items t js ≡ ok tt) ↔ All IsPublic (parts_of_items js)
    visit_items_iff nil = ((λ h. tt), λ h. refl)
    visit_items_iff (cons j rest) =
        then_append_iff IsPublic (parts j) (parts_of_items rest) (visit t j) (visit_items t rest)
          (visit_iff j) (visit_items_iff rest)

  IsClean-part_iff : (p : Part) → (IsNumberFinite p × IsPublic p) ↔ IsClean p
  IsClean-part_iff (key_part k) = ((λ h. h.1), λ h. (tt, h))
  IsClean-part_iff (text_part s) = ((λ h. h.1), λ h. (tt, h))
  IsClean-part_iff (number_part x) = ((λ h. h.0), λ h. (h, tt))

  IsClean-parts_iff : (ps : List Part) → (All IsNumberFinite ps × All IsPublic ps) ↔ All IsClean ps
  IsClean-parts_iff [] = ((λ h. tt), λ h. (tt, tt))
  IsClean-parts_iff (p ∷ ps) =
      let (to, from) = IsClean-parts_iff ps in
      let (one, two) = IsClean-part_iff p in
      (
        (λ ((a, cs), (b, ds)). (one (a, b), to (cs, ds))),
        λ (c, h). let (a, b) = two c in let (cs, ds) = from h in ((a, cs), (b, ds)),
      )

  -- The scanner passes a document exactly when, at any depth, every number is finite, no key is a
  -- private one once it is put in lower case and stripped of all but letters and digits, and no key
  -- or text, percent-decoded twice, matches a private pattern.
  pub assert_content_safe-IsClean_iff :
      (j : Json) → (assert_content_safe t j ≡ ok tt) ↔ All IsClean (parts j)
  unfolding assert_content_safe
  assert_content_safe-IsClean_iff j =
      let (to, from) = then_iff (finite_json j) (visit t j) in
      let (join, split) = IsClean-parts_iff (parts j) in
      (
        (λ h. let (a, b) = to h in join ((finite_json_iff j).0 a, (visit_iff j).0 b)),
        λ h. let (a, b) = split h in from ((finite_json_iff j).1 a, (visit_iff j).1 b),
      )
