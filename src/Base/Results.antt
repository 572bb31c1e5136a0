-- ===== src/Base/Results.antt =====
-- A value, or the error that stopped the code before there was one.
use mathlib.Core.Bool.{Bool, true, false}
use mathlib.Core.Option.{Option, none, some}
use mathlib.Core.Path.{◌≡◌, refl, ap}
use mathlib.Core.Logic.{◌≢◌, ◌⊎◌, inl, inr}

pub data Try {ℓ} (E : Type 0) (A : Type ℓ) : Type ℓ where
  caught : E → Try E A
  value : A → Try E A

module _ {E : Type 0} where
  infixl 5 ◌>>=◌
  abbrev pub ◌>>=◌ {i j} : {A : Type i} {B : Type j} → Try E A → (A → Try E B) → Try E B
  caught e >>= next = caught e
  value x >>= next = next x

  infixl 5 ◌>>◌
  abbrev pub ◌>>◌ {j} : {B : Type j} → Try E (Unit {0}) → Try E B → Try E B
  first >> next = first >>= λ _. next

  -- `if !b { return err }`
  abbrev pub require : Bool → E → Try E (Unit {0})
  require false e = caught e
  require true e = value tt

  -- The value of a pointer, or the error that stands for nil.
  abbrev pub or_error {i} : {A : Type i} → E → Option A → Try E A
  or_error e none = caught e
  or_error e (some x) = value x

  pub value_of_bind {i j} :
      {A : Type i} {B : Type j} (first : Try E A) (next : A → Try E B) {y : B}
      → (first >>= next) ≡ value y
      → (x : A) × (first ≡ value x) × (next x ≡ value y)
  value_of_bind (caught e) next same = cc
  value_of_bind (value x) next same = (x, refl, same)

  pub value_of_require : (b : Bool) (e : E) {u : Unit {0}} → require b e ≡ value u → b ≡ true
  value_of_require false e same = cc
  value_of_require true e same = refl

  pub value_inj {i} : {A : Type i} {x y : A} → ◌≡◌ {A = Try E A} (value x) (value y) → x ≡ y
  value_inj same = cc

  pub value_of_or_error {i} :
      {A : Type i} (e : E) (o : Option A) {x : A} → or_error e o ≡ value x → o ≡ some x
  value_of_or_error e none same = cc
  value_of_or_error e (some y) same = ap some (value_inj same)

  pub caught_of_bind {i j} :
      {A : Type i} {B : Type j} (first : Try E A) (next : A → Try E B) {e : E}
      → (first >>= next) ≡ caught e
      → (first ≡ caught e) ⊎ ((x : A) × (first ≡ value x) × (next x ≡ caught e))
  caught_of_bind (caught e) next same = inl cc
  caught_of_bind (value x) next same = inr (x, refl, same)

  pub caught_of_require :
      (b : Bool) (e : E) {f : E} → require b e ≡ caught f → (b ≡ false) × (f ≡ e)
  caught_of_require false e same = (refl, cc)
  caught_of_require true e same = cc

  pub value-ne-caught {i} : {A : Type i} {x : A} {e : E} → ◌≢◌ {A = Try E A} (value x) (caught e)
  value-ne-caught same = cc

  -- A pointer that is not nil is followed.
  pub past_given {i j} :
      {A : Type i} {B : Type j} (d : E) (o : Option A) (next : A → Try E B) {e : E}
      → (x : A) × (o ≡ some x)
      → (or_error d o >>= next) ≡ caught e
      → (x : A) × (o ≡ some x) × (next x ≡ caught e)
  past_given d none next given same = cc given.1
  past_given d (some x) next given same = (x, refl, same)
