-- ===== src/Prelude/Outcomes.antt =====
-- A value or the reason for an error: what an operation that can throw gives.
use mathlib.Core.Path.{◌≡◌, refl}
use mathlib.Core.Bool.{Bool, true, false}
use mathlib.Core.Option.{Option, none, some}

pub data Outcome {ℓ} (E : Type 0) (A : Type ℓ) : Type ℓ where
  err : (reason : E) → Outcome E A
  ok : (value : A) → Outcome E A

module _ {E : Type 0} where
  infixl 5 ◌>>=◌ ◌>>◌
  abbrev pub ◌>>=◌ {ℓ κ} :
      {A : Type ℓ} {B : Type κ} (first : Outcome E A) (next : A → Outcome E B) → Outcome E B
  err why >>= next = err why
  ok x >>= next = next x

  abbrev pub ◌>>◌ {κ} :
      {B : Type κ} (check : Outcome E (Unit {0})) (next : Outcome E B) → Outcome E B
  check >> next = check >>= λ passed. next

  abbrev pub require : (test : Bool) (why : E) → Outcome E (Unit {0})
  require false why = err why
  require true why = ok tt

  abbrev pub found {ℓ} : {A : Type ℓ} (row : Option A) (why : E) → Outcome E A
  found (some x) why = ok x
  found none why = err why

  abbrev pub is_ok {ℓ} : {A : Type ℓ} → Outcome E A → Bool
  is_ok (err why) = false
  is_ok (ok x) = true

  pub ok-injective {ℓ} : {A : Type ℓ} {x y : A} → ◌≡◌ {A = Outcome E A} (ok x) (ok y) → x ≡ y
  ok-injective same = cc

  -- The first part of a chain that succeeds has succeeded.
  pub bind-eq-ok {ℓ κ} :
      {A : Type ℓ} {B : Type κ} (first : Outcome E A) (next : A → Outcome E B) {y : B}
      → (first >>= next) ≡ ok y
      → (x : A) × (first ≡ ok x) × (next x ≡ ok y)
  bind-eq-ok (err why) next done = absurd (cc)
  bind-eq-ok (ok x) next done = (x, refl, done)

  pub require-eq-ok {κ} :
      {B : Type κ} (test : Bool) (why : E) (next : Outcome E B) {y : B}
      → (require test why >> next) ≡ ok y
      → (test ≡ true) × (next ≡ ok y)
  require-eq-ok false why next done = absurd (cc)
  require-eq-ok true why next done = (refl, done)
