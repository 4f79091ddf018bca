-- ===== src/Base/Result.antt =====
-- A computation that may raise: the value or the exception.
use mathlib.Core.Path.{◌≡◌, refl, subst}
use mathlib.Core.Bool.{Bool, true, false}
use mathlib.Core.Logic.{◌⊎◌, ◌↔◌, inl, inr}

pub data Result {ℓ} (E A : Type ℓ) : Type ℓ where
  ok : A → Result E A
  err : E → Result E A

module _ {E : Type 0} where
  infixl 5 ◌>>=◌ ◌>>◌
  abbrev pub ◌>>=◌ : {A B : Type 0} → Result E A → (A → Result E B) → Result E B
  ok a >>= f = f a
  err e >>= f = err e

  abbrev pub ◌>>◌ : {B : Type 0} → Result E (Unit {0}) → Result E B → Result E B
  m >> k = m >>= λ _. k

  -- `if not condition: raise e`
  abbrev pub require : Bool → E → Result E (Unit {0})
  require true e = ok tt
  require false e = err e

  -- `if condition: raise e`
  abbrev pub raise_if : Bool → E → Result E (Unit {0})
  raise_if true e = err e
  raise_if false e = ok tt

module _ {E : Type 0} {A : Type 0} where
  pub require-ok :
      (b : Bool) (e : E) (m : Result E A) {a : A}
      → (require b e >> m) ≡ ok a
      → (b ≡ true) × (m ≡ ok a)
  require-ok true e m h = (refl, h)
  require-ok false e m h = cc

  pub raise_if-ok :
      (b : Bool) (e : E) (m : Result E A) {a : A}
      → (raise_if b e >> m) ≡ ok a
      → (b ≡ false) × (m ≡ ok a)
  raise_if-ok false e m h = (refl, h)
  raise_if-ok true e m h = cc

  pub bind-ok :
      {B : Type 0} (m : Result E A) (f : A → Result E B) {b : B}
      → (m >>= f) ≡ ok b
      → (a : A) × (m ≡ ok a) × (f a ≡ ok b)
  bind-ok (ok a) f h = (a, refl, h)
  bind-ok (err e) f h = cc

  pub Result-cases : (r : Result E A) → ((a : A) × (r ≡ ok a)) ⊎ ((e : E) × (r ≡ err e))
  Result-cases (ok a) = inl (a, refl)
  Result-cases (err e) = inr (e, refl)

  pub ok-injective : {a b : A} → ◌≡◌ {A = Result E A} (ok a) (ok b) → a ≡ b
  ok-injective h = cc

-- If a run returns, what it returns has the property. The rules read a `do` block from the top.
pub data Returns {E A : Type 0} (P : A → Type 0) : Result E A → Type 0 where
  value : {a : A} → P a → Returns P (ok a)
  raised : {e : E} → Returns P (err e)

module _ {E : Type 0} {B : Type 0} {P : B → Type 0} where
  pub after :
      {A : Type 0} (m : Result E A) {f : A → Result E B}
      → ((a : A) → m ≡ ok a → Returns P (f a))
      → Returns P (m >>= f)
  after (ok a) k = k a refl
  after (err e) k = raised

  pub after_require :
      (b : Bool) (e : E) (m : Result E B) → (b ≡ true → Returns P m) → Returns P (require b e >> m)
  after_require true e m k = k refl
  after_require false e m k = raised

  pub after_raise_if :
      (b : Bool) (e : E) (m : Result E B)
      → (b ≡ false → Returns P m)
      → Returns P (raise_if b e >> m)
  after_raise_if true e m k = raised
  after_raise_if false e m k = k refl

  pub Returns-ok : {r : Result E B} {b : B} → Returns P r → r ≡ ok b → P b
  Returns-ok (value p) h = subst P (ok-injective h) p
  Returns-ok raised h = cc

  pub Returns-map :
      {Q : B → Type 0} {r : Result E B} → ((b : B) → Q b → P b) → Returns Q r → Returns P r
  Returns-map f (value {a = b} q) = value (f b q)
  Returns-map f raised = raised

-- A check before another: both pass.
module _ {E : Type 0} where
  pub then_iff : (m k : Result E (Unit {0})) → ((m >> k) ≡ ok tt) ↔ ((m ≡ ok tt) × (k ≡ ok tt))
  then_iff (ok u) k = ((λ h. (refl, h)), λ h. h.1)
  then_iff (err e) k = ((λ h. cc), λ h. cc)

  pub require_iff : (b : Bool) (e : E) → (require b e ≡ ok tt) ↔ (b ≡ true)
  require_iff true e = ((λ h. refl), λ h. refl)
  require_iff false e = ((λ h. cc), λ h. cc)

  pub raise_if_iff : (b : Bool) (e : E) → (raise_if b e ≡ ok tt) ↔ (b ≡ false)
  raise_if_iff true e = ((λ h. cc), λ h. cc)
  raise_if_iff false e = ((λ h. refl), λ h. refl)

  pub then-ok : (m : Result E (Unit {0})) → (m >> ok tt) ≡ m
  then-ok (ok u) = refl
  then-ok (err e) = refl

  -- A check that passes can be left out, in front of any computation.
  pub skip : {A : Type 0} (m : Result E (Unit {0})) (k : Result E A) → m ≡ ok tt → (m >> k) ≡ k
  skip (ok u) k h = refl
  skip (err e) k h = cc
