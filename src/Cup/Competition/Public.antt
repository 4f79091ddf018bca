-- ===== src/Cup/Competition/Public.antt =====
-- A candidate card is public: no key of the document, at any depth, is a private one.
use llm_evaluation_lab.Base.{
  ℕ, suc, String, false, ◌≡◌, refl, ◌↔◌, List, [], ◌∷◌, ◌++◌, All, All-append,
}
use llm_evaluation_lab.Base.Result.{ok, raise_if-ok, bind-ok}
use llm_evaluation_lab.Json.{
  Json, null, bool, int, float, str, arr, obj, Items, nil, cons, Fields, end, field,
}
use llm_evaluation_lab.Cup.Contracts.{Runtime}
use llm_evaluation_lab.Cup.Competition.{
  is_forbidden, private_field, scan_forbidden_keys, scan_fields, scan_items,
}

-- The keys of a document at any depth.
unfoldable mutual
  pub keys : Json → List String
  keys (obj fs) = keys_of_fields fs
  keys (arr js) = keys_of_items js
  keys _ = []

  pub keys_of_fields : Fields → List String
  keys_of_fields end = []
  keys_of_fields (field key j rest) = key ∷ keys j ++ keys_of_fields rest

  pub keys_of_items : Items → List String
  keys_of_items nil = []
  keys_of_items (cons j rest) = keys j ++ keys_of_items rest

All-split : (P : String → Type 0) (xs ys : List String) → All P (xs ++ ys) → All P xs × All P ys
All-split P [] ys h = (tt, h)
All-split P (x ∷ xs) ys (p, h) = let (a, b) = All-split P xs ys h in ((p, a), b)

module _ (rt : Runtime) where
  open rt use {lower}

  abbrev pub IsOpen : String → Type 0
  IsOpen key = is_forbidden lower key ≡ false

  mutual
    unfolding scan_forbidden_keys scan_fields scan_items keys keys_of_fields keys_of_items

    scan-Open :
        (path : String) (j : Json) → scan_forbidden_keys rt path j ≡ ok tt → All IsOpen (keys j)
    scan-Open path (obj fs) h = fields-Open path fs h
    scan-Open path (arr js) h = items-Open path 0 js h
    scan-Open path null h = tt
    scan-Open path (bool b) h = tt
    scan-Open path (int n) h = tt
    scan-Open path (float x) h = tt
    scan-Open path (str s) h = tt

    fields-Open :
        (path : String) (fs : Fields)
        → scan_fields rt path fs ≡ ok tt
        → All IsOpen (keys_of_fields fs)
    fields-Open path end h = tt
    fields-Open path (field key j rest) h =
        let (e, h1) = raise_if-ok (is_forbidden lower key) (private_field path key) _ h in
        let (_, h2, h3) = bind-ok (scan_forbidden_keys rt _ j) _ h1 in
        (
          e,
          All-append IsOpen (keys j) (keys_of_fields rest) (scan-Open _ j h2)
              (fields-Open path rest h3),
        )

    items-Open :
        (path : String) (i : ℕ) (js : Items)
        → scan_items rt path i js ≡ ok tt
        → All IsOpen (keys_of_items js)
    items-Open path i nil h = tt
    items-Open path i (cons j rest) h =
        let (_, h2, h3) = bind-ok (scan_forbidden_keys rt _ j) _ h in
        All-append IsOpen (keys j) (keys_of_items rest) (scan-Open _ j h2)
          (items-Open path (suc i) rest h3)

  mutual
    unfolding scan_forbidden_keys scan_fields scan_items keys keys_of_fields keys_of_items

    scan-open :
        (path : String) (j : Json) → All IsOpen (keys j) → scan_forbidden_keys rt path j ≡ ok tt
    scan-open path (obj fs) h = scan_fields-open path fs h
    scan-open path (arr js) h = scan_items-open path 0 js h
    scan-open path null h = refl
    scan-open path (bool b) h = refl
    scan-open path (int n) h = refl
    scan-open path (float x) h = refl
    scan-open path (str s) h = refl

    scan_fields-open :
        (path : String) (fs : Fields)
        → All IsOpen (keys_of_fields fs)
        → scan_fields rt path fs ≡ ok tt
    scan_fields-open path end h = refl
    scan_fields-open path (field key j rest) (e, h) =
        let (a, b) = All-split IsOpen (keys j) (keys_of_fields rest) h in
        rw e (rw (scan-open _ j a) (scan_fields-open path rest b))

    scan_items-open :
        (path : String) (i : ℕ) (js : Items)
        → All IsOpen (keys_of_items js)
        → scan_items rt path i js ≡ ok tt
    scan_items-open path i nil h = refl
    scan_items-open path i (cons j rest) h =
        let (a, b) = All-split IsOpen (keys j) (keys_of_items rest) h in
        rw (scan-open _ j a) (scan_items-open path (suc i) rest b)

  -- The scan of a candidate document passes exactly when no key at any depth, stripped and in lower
  -- case, is a private one.
  pub scan_forbidden_keys-IsOpen_iff :
      (path : String) (j : Json) → (scan_forbidden_keys rt path j ≡ ok tt) ↔ All IsOpen (keys j)
  scan_forbidden_keys-IsOpen_iff path j = (scan-Open path j, scan-open path j)
