-- ===== src/Protocol/Schema/Decides.antt =====
-- `validate_shape` decides whether a document conforms to its schema.
use Prim.Native.String.{◌++◌ as append}
use llm_evaluation_lab.Base.{
  String, ◌≡◌, refl, ◌⊎◌, ◌↔◌, inl, inr, Bool, true, false, not, ◌&&◌, Option, List, [], ◌∷◌, any,
  All, ltb, str_eq, str_eq_iff, arith, Bool-cases, and-true,
}
use llm_evaluation_lab.Base.Result.{Result, ok, err, require_iff, raise_if-ok, bind-ok}
use llm_evaluation_lab.Json.{
  Json, null, bool, int, float, str, arr, obj, Items, nil, cons, Fields, end, field, has,
}
use llm_evaluation_lab.Lab.Read.{contains, contains→Among, Among→contains}
use llm_evaluation_lab.Cup.Error.{Error}
use llm_evaluation_lab.Protocol.Numbers.{whole, real, is_finite, equal}
use llm_evaluation_lab.Protocol.Schema.{
  Bound, Kind, string_kind, number_kind, null_kind, Schema, any_of, const, enum, text, integer,
  number, boolean, null_only, one_type_of, object, array, Schemas, no_more, or_else, Properties,
  no_property, property, property_names, among_items, has_duplicate, same_type, field_names,
  item_count, in_bound, each_item, check_property, each_field, fits_text, check_kind, check_kinds,
  check_number, or_try, validate_shape, validate_any, validate_property,
}
use llm_evaluation_lab.Protocol.Schema.Conforms.{
  IsItem, IsField, AreUnequal, IsOfKind, IsOfKinds, Conforms, ConformsToOne, ConformsAt,
}

abbrev Check : Type 0
Check = Result Error (Unit {0})

or_try_iff : (m n : Check) → (or_try m n ≡ ok tt) ↔ ((m ≡ ok tt) ⊎ (n ≡ ok tt))
or_try_iff (ok u) n = ((λ h. inl refl), λ h. refl)
or_try_iff (err e) n = ((λ h. inr h), λ h. elim h [ inl a ↦ cc | inr b ↦ b ])

each_item_iff :
    (check : Json → Check) (js : Items)
    → (each_item check js ≡ ok tt) ↔ ((j : Json) → IsItem j js → check j ≡ ok tt)
unfolding each_item
each_item_iff check nil = ((λ h j m. absurd m), λ h. refl)
each_item_iff check (cons k ks) =
    let (to, from) = each_item_iff check ks in
    (
      (λ h j m.
          let (_, first, rest) = bind-ok (check k) _ h in
          elim m [ inl e ↦ rw e first | inr n ↦ to rest j n ]),
      λ h. rw (h k (inl refl)) (from λ j m. h j (inr m)),
    )

each_field_iff :
    (checks : String → Option (Json → Check)) (fs : Fields)
    → (each_field checks fs ≡ ok tt)
      ↔ ((key : String) (j : Json) → IsField key j fs → check_property (checks key) j ≡ ok tt)
unfolding each_field
each_field_iff checks end = ((λ h key j m. absurd m), λ h. refl)
each_field_iff checks (field k i rest) =
    let (to, from) = each_field_iff checks rest in
    (
      (λ h key j m.
          let (_, first, others) = bind-ok (check_property (checks k) i) _ h in
          elim m [ inl (e, f) ↦ rw e (rw f first) | inr n ↦ to others key j n ]),
      λ h. rw (h k i (inl (refl, refl))) (from λ key j m. h key j (inr m)),
    )

among_items_iff :
    (j : Json) (js : Items)
    → (among_items j js ≡ false) ↔ ((k : Json) → IsItem k js → equal j k ≡ false)
among_items_iff j nil = ((λ h k m. absurd m), λ h. refl)
among_items_iff j (cons i is) =
    let (to, from) = among_items_iff j is in
    (
      (λ h k m. elim m [ inl e ↦ rw e (ground arith) | inr n ↦ to (ground arith) k n ]),
      λ h. rw (h i (inl refl)) (from λ k m. h k (inr m)),
    )

has_duplicate_iff : (js : Items) → (has_duplicate js ≡ false) ↔ AreUnequal js
unfolding has_duplicate
has_duplicate_iff nil = ((λ h. tt), λ h. refl)
has_duplicate_iff (cons j js) =
    let (to, from) = has_duplicate_iff js in
    let (new, old) = among_items_iff j js in
    ((λ h. (new (ground arith), to (ground arith))), λ h. rw (old h.0) (from h.1))

required_iff :
    (fs : Fields) (keys : List String)
    → (any (λ key. not (has key fs)) keys ≡ false) ↔ All (λ key. has key fs ≡ true) keys
required_iff fs [] = ((λ h. tt), λ h. refl)
required_iff fs (k ∷ ks) =
    let (to, from) = required_iff fs ks in
    ((λ h. (ground arith, to (ground arith))), λ h. rw h.0 (from h.1))

known_iff :
    (names : List String) (fs : Fields)
    → (any (λ key. not (contains key names)) (field_names fs) ≡ false)
      ↔ ((key : String) (j : Json) → IsField key j fs → contains key names ≡ true)
unfolding field_names
known_iff names end = ((λ h key j m. absurd m), λ h. refl)
known_iff names (field k i rest) =
    let (to, from) = known_iff names rest in
    (
      (λ h key j m. elim m [
        | inl (e, _) ↦ rw e (ground arith)
        | inr n ↦ to (ground arith) key j n
      ]),
      λ h. rw (h k i (inl (refl, refl))) (from λ key j m. h key j (inr m)),
    )

check_number_iff :
    (search : String → String → Bool) (path : String) (b : Bound) (j : Json)
    → (check_number path b j ≡ ok tt) ↔ IsOfKind search (number_kind b) j
check_number_iff search path b (int n) = require_iff (in_bound b (whole n)) _
check_number_iff search path b (float x) =
    let (to, from) = require_iff (is_finite x && in_bound b (real x)) _ in
    ((λ h. and-true (is_finite x) (in_bound b (real x)) (to h)), λ h. from (ground (arith, h)))
check_number_iff search path b _ = ((λ h. cc), λ h. absurd h)

module _ (search : String → String → Bool) where
  check_kind_iff :
      (k : Kind) (path : String) (j : Json)
      → (check_kind search k path j ≡ ok tt) ↔ IsOfKind search k j
  check_kind_iff string_kind path (str s) = ((λ h. tt), λ h. ground arith)
  check_kind_iff string_kind path _ = ((λ h. cc), λ h. absurd h)
  check_kind_iff (number_kind b) path j = check_number_iff search path b j
  check_kind_iff null_kind path null = ((λ h. tt), λ h. refl)
  check_kind_iff null_kind path _ = ((λ h. cc), λ h. absurd h)

  check_kinds_iff :
      (ks : List Kind) (path : String) (j : Json)
      → (check_kinds search ks path j ≡ ok tt) ↔ IsOfKinds search ks j
  unfolding check_kinds
  check_kinds_iff [] path j = ((λ h. cc), λ h. absurd h)
  check_kinds_iff (k ∷ ks) path j =
      let (to, from) = check_kinds_iff ks path j in
      let (to_first, from_first) = check_kind_iff k path j in
      let (tried, try) = or_try_iff (check_kind search k path j) (check_kinds search ks path j) in
      (
        (λ h. elim (tried h) [ inl a ↦ inl (to_first a) | inr b ↦ inr (to b) ]),
        λ h. elim h [ inl a ↦ try (inl (from_first a)) | inr b ↦ try (inr (from b)) ],
      )

  -- A key that has a property is among the property's names.
  ConformsAt-known :
      (ps : Properties) (key : String) (j : Json)
      → ConformsAt search ps key j
      → contains key (property_names ps) ≡ true
  unfolding Conforms property_names
  ConformsAt-known no_property key j h = absurd h
  ConformsAt-known (property k s rest) key j (inl (e, c)) = rw ((str_eq_iff key k).1 e)
  ConformsAt-known (property k s rest) key j (inr (e, c)) =
      ground (arith, ConformsAt-known rest key j c)

  mutual
    unfolding validate_shape Conforms property_names

    validate_shape-Conforms :
        (s : Schema) (path : String) (j : Json)
        → validate_shape search s path j ≡ ok tt
        → Conforms search s j
    validate_shape-Conforms (any_of ss) path j h = validate_any-Conforms ss path j h
    validate_shape-Conforms (const c) path j h =
        and-true (same_type j c) (equal j c) ((require_iff (same_type j c && equal j c) _).0 h)
    validate_shape-Conforms (enum names) path (str s) h =
        contains→Among s names ((require_iff (contains s names) _).0 h)
    validate_shape-Conforms (text n pattern) path (str s) h =
        (require_iff (fits_text search n pattern s) _).0 h
    validate_shape-Conforms (integer b) path (int n) h = (require_iff (in_bound b (whole n)) _).0 h
    validate_shape-Conforms (number b) path j h = (check_number_iff search path b j).0 h
    validate_shape-Conforms boolean path (bool b) h = tt
    validate_shape-Conforms null_only path null h = tt
    validate_shape-Conforms (one_type_of ks) path j h = (check_kinds_iff ks path j).0 h
    validate_shape-Conforms (object ps required) path (obj fs) h =
        let (have, h1) = raise_if-ok (any (λ key. not (has key fs)) required) _ _ h in
        let (known, h2) =
          raise_if-ok (any (λ key. not (contains key (property_names ps))) (field_names fs)) _ _
            h1 in
        (
          (required_iff fs required).0 have,
          λ key j m.
              validate_property-Conforms ps path key j
                ((known_iff (property_names ps) fs).0 known key j m)
                ((each_field_iff (λ key. validate_property search ps path key) fs).0 h2 key j m),
        )
    validate_shape-Conforms (array s n) path (arr js) h =
        let (long, h1) = raise_if-ok (ltb (item_count js) n) _ _ h in
        let (distinct, h2) = raise_if-ok (has_duplicate js) _ _ h1 in
        (
          ground arith,
          (has_duplicate_iff js).0 distinct,
          λ j m.
              validate_shape-Conforms s (append path "[]") j
                ((each_item_iff (validate_shape search s (append path "[]")) js).0 h2 j m),
        )
    validate_shape-Conforms _ path j h = cc

    validate_any-Conforms :
        (ss : Schemas) (path : String) (j : Json)
        → validate_any search ss path j ≡ ok tt
        → ConformsToOne search ss j
    validate_any-Conforms no_more path j h = cc
    validate_any-Conforms (or_else s ss) path j h =
        elim ((or_try_iff (validate_shape search s path j) (validate_any search ss path j)).0 h) [
          | inl a ↦ inl (validate_shape-Conforms s path j a)
          | inr b ↦ inr (validate_any-Conforms ss path j b)
        ]

    validate_property-Conforms :
        (ps : Properties) (path key : String) (j : Json)
        → contains key (property_names ps) ≡ true
        → check_property (validate_property search ps path key) j ≡ ok tt
        → ConformsAt search ps key j
    validate_property-Conforms no_property path key j known h = cc
    validate_property-Conforms (property k s rest) path key j known h =
        elim (Bool-cases (str_eq key k)) [
          | inl e ↦ inl (
            (str_eq_iff key k).0 e,
            validate_shape-Conforms s (append path (append "." key)) j (ground arith),
          )
          | inr e ↦ inr (
            (λ same. let e' = (str_eq_iff key k).1 same in ground arith),
            validate_property-Conforms rest path key j (ground arith) (ground arith),
          )
        ]

  mutual
    unfolding validate_shape Conforms property_names

    Conforms-validate_shape :
        (s : Schema) (path : String) (j : Json)
        → Conforms search s j
        → validate_shape search s path j ≡ ok tt
    Conforms-validate_shape (any_of ss) path j h = Conforms-validate_any ss path j h
    Conforms-validate_shape (const c) path j h =
        (require_iff (same_type j c && equal j c) _).1 (ground (arith, h))
    Conforms-validate_shape (enum names) path (str s) h =
        (require_iff (contains s names) _).1 (Among→contains s names h)
    Conforms-validate_shape (text n pattern) path (str s) h =
        (require_iff (fits_text search n pattern s) _).1 h
    Conforms-validate_shape (integer b) path (int n) h = (require_iff (in_bound b (whole n)) _).1 h
    Conforms-validate_shape (number b) path j h = (check_number_iff search path b j).1 h
    Conforms-validate_shape boolean path (bool b) h = refl
    Conforms-validate_shape null_only path null h = refl
    Conforms-validate_shape (one_type_of ks) path j h = (check_kinds_iff ks path j).1 h
    Conforms-validate_shape (object ps required) path (obj fs) (have, each) =
        rw ((required_iff fs required).1 have) (
          rw
            ((known_iff (property_names ps) fs).1
              λ key j m. ConformsAt-known ps key j (each key j m))
            ((each_field_iff (λ key. validate_property search ps path key) fs).1
              λ key j m. ConformsAt-validate_property ps path key j (each key j m)))
    Conforms-validate_shape (array s n) path (arr js) (long, distinct, each) =
        let short : ltb (item_count js) n ≡ false = ground arith in
        rw short (
          rw ((has_duplicate_iff js).1 distinct) (
            (each_item_iff (validate_shape search s (append path "[]")) js).1
              λ j m. Conforms-validate_shape s (append path "[]") j (each j m)))
    Conforms-validate_shape _ path j h = absurd h

    Conforms-validate_any :
        (ss : Schemas) (path : String) (j : Json)
        → ConformsToOne search ss j
        → validate_any search ss path j ≡ ok tt
    Conforms-validate_any no_more path j h = absurd h
    Conforms-validate_any (or_else s ss) path j h =
        (or_try_iff (validate_shape search s path j) (validate_any search ss path j)).1 (elim h [
          | inl a ↦ inl (Conforms-validate_shape s path j a)
          | inr b ↦ inr (Conforms-validate_any ss path j b)
        ])

    ConformsAt-validate_property :
        (ps : Properties) (path key : String) (j : Json)
        → ConformsAt search ps key j
        → check_property (validate_property search ps path key) j ≡ ok tt
    ConformsAt-validate_property no_property path key j h = absurd h
    ConformsAt-validate_property (property k s rest) path key j (inl (e, c)) =
        rw ((str_eq_iff key k).1 e) (Conforms-validate_shape s (append path (append "." key)) j c)
    ConformsAt-validate_property (property k s rest) path key j (inr (e, c)) =
        elim (Bool-cases (str_eq key k)) [
          | inl same ↦ absurd (e ((str_eq_iff key k).0 same))
          | inr other ↦ rw other (ConformsAt-validate_property rest path key j c)
        ]

  -- On every schema of the vocabulary and every JSON value, whatever regular expressions match:
  -- `validate_shape` returns exactly when the value conforms to the schema, as said by recursion on
  -- the schema: an object has every required key and, for each of its keys, a property that the value
  -- conforms to; an array is long enough, has no two equal items, and each item conforms; a
  -- number lies within its bound; one of the alternatives holds.
  pub validate_shape-Conforms_iff :
      (s : Schema) (path : String) (j : Json)
      → (validate_shape search s path j ≡ ok tt) ↔ Conforms search s j
  validate_shape-Conforms_iff s path j =
      (validate_shape-Conforms s path j, Conforms-validate_shape s path j)
