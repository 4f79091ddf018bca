-- ===== src/Protocol/Schema/Conforms.antt =====
-- What a document must be to pass `validate_shape`, said without the validator.
use llm_evaluation_lab.Base.{
  ◌≤◌, String, ◌≡◌, ◌≢◌, ◌⊎◌, Bool, true, false, List, [], ◌∷◌, All, Among,
}
use llm_evaluation_lab.Json.{
  Json, null, bool, int, float, str, arr, obj, Items, nil, cons, Fields, end, field, has,
}
use llm_evaluation_lab.Protocol.Numbers.{whole, real, is_finite, equal}
use llm_evaluation_lab.Protocol.Schema.{
  Bound, Kind, string_kind, number_kind, null_kind, Schema, any_of, const, enum, text, integer,
  number, boolean, null_only, one_type_of, object, array, Schemas, no_more, or_else, Properties,
  no_property, property, same_type, item_count, in_bound, fits_text,
}

abbrev pub IsItem : Json → Items → Type 0
IsItem j nil = ⊥
IsItem j (cons k ks) = (j ≡ k) ⊎ IsItem j ks

abbrev pub IsField : String → Json → Fields → Type 0
IsField key j end = ⊥
IsField key j (field k i rest) = ((key ≡ k) × (j ≡ i)) ⊎ IsField key j rest

-- No item equals a later one.
abbrev pub AreUnequal : Items → Type 0
AreUnequal nil = Unit
AreUnequal (cons j js) = ((k : Json) → IsItem k js → equal j k ≡ false) × AreUnequal js

module _ (search : String → String → Bool) where
  abbrev IsNumber : Bound → Json → Type 0
  IsNumber b (int n) = in_bound b (whole n) ≡ true
  IsNumber b (float x) = (is_finite x ≡ true) × (in_bound b (real x) ≡ true)
  IsNumber b _ = ⊥

  abbrev pub IsOfKind : Kind → Json → Type 0
  IsOfKind string_kind (str s) = Unit
  IsOfKind string_kind _ = ⊥
  IsOfKind (number_kind b) j = IsNumber b j
  IsOfKind null_kind null = Unit
  IsOfKind null_kind _ = ⊥

  abbrev pub IsOfKinds : List Kind → Json → Type 0
  IsOfKinds [] j = ⊥
  IsOfKinds (k ∷ ks) j = IsOfKind k j ⊎ IsOfKinds ks j

  unfoldable mutual
    pub Conforms : Schema → Json → Type 0
    Conforms (any_of ss) j = ConformsToOne ss j
    Conforms (const c) j = (same_type j c ≡ true) × (equal j c ≡ true)
    Conforms (enum names) (str s) = Among s names
    Conforms (enum names) _ = ⊥
    Conforms (text n pattern) (str s) = fits_text search n pattern s ≡ true
    Conforms (text n pattern) _ = ⊥
    Conforms (integer b) (int n) = in_bound b (whole n) ≡ true
    Conforms (integer b) _ = ⊥
    Conforms (number b) j = IsNumber b j
    Conforms boolean (bool b) = Unit
    Conforms boolean _ = ⊥
    Conforms null_only null = Unit
    Conforms null_only _ = ⊥
    Conforms (one_type_of ks) j = IsOfKinds ks j
    Conforms (object ps required) (obj fs) =
        All (λ key. has key fs ≡ true) required
        × ((key : String) (j : Json) → IsField key j fs → ConformsAt ps key j)
    Conforms (object ps required) _ = ⊥
    Conforms (array s n) (arr js) =
        (n ≤ item_count js) × AreUnequal js × ((j : Json) → IsItem j js → Conforms s j)
    Conforms (array s n) _ = ⊥

    pub ConformsToOne : Schemas → Json → Type 0
    ConformsToOne no_more j = ⊥
    ConformsToOne (or_else s ss) j = Conforms s j ⊎ ConformsToOne ss j

    -- The key has a property, and the value conforms to the first of that name.
    pub ConformsAt : Properties → String → Json → Type 0
    ConformsAt no_property key j = ⊥
    ConformsAt (property k s rest) key j =
        ((key ≡ k) × Conforms s j) ⊎ ((key ≢ k) × ConformsAt rest key j)
