-- ===== src/Prelude/Results.antt =====
-- Calls that return a value or throw an error, and their sequencing, which the `do` blocks read.
use mathlib.Core.Path.{◌≡◌, refl, ap}
use mathlib.Core.Bool.{Bool, true, false}
use mathlib.Core.Option.{Option, none, some}
use mathlib.Core.Logic.{◌↔◌}

-- A call with errors of type `E`.
pub data Outcome {ℓ} (E : Type 0) (A : Type ℓ) : Type ℓ where
  err : E → Outcome E A
  ok : A → Outcome E A

module _ {E : Type 0} where
  infixl 5 ◌>>=◌ ◌>>◌
  abbrev pub ◌>>=◌ {ℓ κ} : {A : Type ℓ} {B : Type κ} → Outcome E A → (A → Outcome E B) → Outcome E B
  err e >>= next = err e
  ok a >>= next = next a

  -- The second call, if the first returns.
  abbrev pub ◌>>◌ {ℓ} : {B : Type ℓ} → Outcome E (Unit {0}) → Outcome E B → Outcome E B
  first >> second = first >>= λ returned. second

  abbrev pub throw_if : Bool → E → Outcome E (Unit {0})
  throw_if true e = err e
  throw_if false e = ok tt

  abbrev pub or_throw {ℓ} : {A : Type ℓ} → Option A → E → Outcome E A
  or_throw none e = err e
  or_throw (some a) e = ok a

  -- A check that lets a call go on.
  pub throw_if-false : (b : Bool) (e : E) → throw_if b e ≡ ok tt → b ≡ false
  throw_if-false true e h = cc
  throw_if-false false e h = refl

  pub ok-cancel {ℓ} : {A : Type ℓ} {x y : A} → ◌≡◌ {A = Outcome E A} (ok x) (ok y) → x ≡ y
  ok-cancel h = cc

  pub or_throw-some {ℓ} :
      {A : Type ℓ} (o : Option A) (e : E) (a : A) → or_throw o e ≡ ok a → o ≡ some a
  or_throw-some none e a h = cc
  or_throw-some (some x) e a h = ap some (ok-cancel h)

  -- A sequence of two calls returns what the second does, if both return.
  pub then_ok {ℓ} :
      {B : Type ℓ} (first : Outcome E (Unit {0})) (second : Outcome E B) (b : B)
      → (first >> second ≡ ok b) ↔ ((first ≡ ok tt) × (second ≡ ok b))
  then_ok (err e) second b = (λ h. cc, λ (h, k). cc)
  then_ok (ok tt) second b = (λ h. (refl, h), λ (h, k). k)

  -- A call that goes on with the value of another one returns, if both do.
  pub bind_ok {ℓ κ} :
      {A : Type ℓ} {B : Type κ} (first : Outcome E A) (next : A → Outcome E B) (b : B)
      → first >>= next ≡ ok b
      → (a : A) × (first ≡ ok a) × (next a ≡ ok b)
  bind_ok (err e) next b h = cc
  bind_ok (ok a) next b h = (a, refl, h)
