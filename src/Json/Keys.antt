-- ===== src/Json/Keys.antt =====
-- `json.dumps(document, sort_keys=True)` writes the fields of every object in the order of their keys.
use Prim.Native.Nat.{Ordering}
use Prim.Native.String as Native
use llm_evaluation_lab.Base.{String, ◌≡◌, ◌≢◌, refl, sym, ap, ◌∙◌}
use llm_evaluation_lab.Text.Order.{AtMost-refl}
use llm_evaluation_lab.Json.{
  Json, null, bool, int, float, str, arr, obj, Items, nil, cons, Fields, end, field,
}

unfoldable pub insert_field : String → Json → Fields → Fields
insert_field k j end = field k j end
insert_field k j (field l i fs) =
    let rest = insert_field k j fs in
    elim (Native.compare k l) [ Ordering.gt ↦ field l i rest | _ ↦ field k j (field l i fs) ]

-- The value that is read back, its keys sorted at every depth.
unfoldable mutual
  unfolding insert_field

  pub sort_keys : Json → Json
  sort_keys (arr js) = arr (sort_items js)
  sort_keys (obj fs) = obj (sort_fields fs)
  sort_keys null = null
  sort_keys (bool b) = bool b
  sort_keys (int n) = int n
  sort_keys (float x) = float x
  sort_keys (str s) = str s

  pub sort_items : Items → Items
  sort_items nil = nil
  sort_items (cons j js) = cons (sort_keys j) (sort_items js)

  pub sort_fields : Fields → Fields
  sort_fields end = end
  sort_fields (field k j fs) = insert_field k (sort_keys j) (sort_fields fs)

-- Equal but for the order of the fields of objects, at any depth: two neighbouring fields may change
-- places if their keys differ.
mutual
  pub data IsReordered : Json → Json → Type 0 where
    same : (j : Json) → IsReordered j j
    in_array : {js ks : Items} → AreReordered js ks → IsReordered (arr js) (arr ks)
    in_object : {fs gs : Fields} → HaveReordered fs gs → IsReordered (obj fs) (obj gs)

  pub data AreReordered : Items → Items → Type 0 where
    no_items : AreReordered nil nil
    both :
        {j k : Json} {js ks : Items}
        → IsReordered j k
        → AreReordered js ks
        → AreReordered (cons j js) (cons k ks)

  pub data HaveReordered : Fields → Fields → Type 0 where
    no_fields : HaveReordered end end
    keep :
        (key : String) {j k : Json} {fs gs : Fields}
        → IsReordered j k
        → HaveReordered fs gs
        → HaveReordered (field key j fs) (field key k gs)
    swap :
        (k l : String) (j i : Json) (fs : Fields)
        → k ≢ l
        → HaveReordered (field k j (field l i fs)) (field l i (field k j fs))
    trans : {fs gs hs : Fields} → HaveReordered fs gs → HaveReordered gs hs → HaveReordered fs hs

HaveReordered-refl : (fs : Fields) → HaveReordered fs fs
HaveReordered-refl end = HaveReordered.no_fields
HaveReordered-refl (field k j fs) =
    HaveReordered.keep k (IsReordered.same j) (HaveReordered-refl fs)

gt-distinct : (k l : String) → Native.compare k l ≡ Ordering.gt → k ≢ l
gt-distinct k l h e = AtMost-refl l (ap (λ s. Native.compare s l) (sym e) ∙ h)

-- The first of two fields goes on behind the second, or stays.
passed :
    (k l : String) (j i : Json) (fs rest : Fields)
    → HaveReordered (field k j fs) rest
    → (c : Ordering) → Native.compare k l ≡ c
    → HaveReordered
        (field k j (field l i fs))
        (elim c [ Ordering.gt ↦ field l i rest | _ ↦ field k j (field l i fs) ])
passed k l j i fs rest h Ordering.lt e = HaveReordered-refl (field k j (field l i fs))
passed k l j i fs rest h Ordering.eq e = HaveReordered-refl (field k j (field l i fs))
passed k l j i fs rest h Ordering.gt e =
    HaveReordered.trans (HaveReordered.swap k l j i fs (gt-distinct k l e))
      (HaveReordered.keep l (IsReordered.same i) h)

insert_field-HaveReordered :
    (k : String) (j : Json) (fs : Fields) → HaveReordered (field k j fs) (insert_field k j fs)
unfolding insert_field
insert_field-HaveReordered k j end = HaveReordered-refl (field k j end)
insert_field-HaveReordered k j (field l i fs) =
    passed k l j i fs (insert_field k j fs) (insert_field-HaveReordered k j fs) (Native.compare k l)
      refl

mutual
  unfolding sort_keys sort_items sort_fields

  pub sort_keys-IsReordered : (j : Json) → IsReordered j (sort_keys j)
  sort_keys-IsReordered (arr js) = IsReordered.in_array (sort_items-AreReordered js)
  sort_keys-IsReordered (obj fs) = IsReordered.in_object (sort_fields-HaveReordered fs)
  sort_keys-IsReordered null = IsReordered.same null
  sort_keys-IsReordered (bool b) = IsReordered.same (bool b)
  sort_keys-IsReordered (int n) = IsReordered.same (int n)
  sort_keys-IsReordered (float x) = IsReordered.same (float x)
  sort_keys-IsReordered (str s) = IsReordered.same (str s)

  sort_items-AreReordered : (js : Items) → AreReordered js (sort_items js)
  sort_items-AreReordered nil = AreReordered.no_items
  sort_items-AreReordered (cons j js) =
      AreReordered.both (sort_keys-IsReordered j) (sort_items-AreReordered js)

  sort_fields-HaveReordered : (fs : Fields) → HaveReordered fs (sort_fields fs)
  sort_fields-HaveReordered end = HaveReordered.no_fields
  sort_fields-HaveReordered (field k j fs) =
      HaveReordered.trans
        (HaveReordered.keep k (sort_keys-IsReordered j) (sort_fields-HaveReordered fs))
        (insert_field-HaveReordered k (sort_keys j) (sort_fields fs))
