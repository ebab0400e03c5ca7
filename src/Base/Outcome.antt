-- ===== src/Base/Outcome.antt =====
-- The outcome of a C function that returns 0 with its outputs set, or an error code.
use mathlib.Core.Path.{◌≡◌, refl}
use mathlib.Core.Logic.{◌⊎◌, inl, inr}
use mathlib.Core.Bool.{Bool, true, false}

pub data Result {ℓ μ} (E : Type μ) (A : Type ℓ) : Type (ℓ ⊔ μ) where
  ok : A → Result E A
  err : E → Result E A

module _ {μ} {E : Type μ} where
  -- `if ((rc = f(...))) return rc;`
  infixl 5 ◌>>=◌ ◌>>◌
  abbrev pub ◌>>=◌ {ℓ κ} : {A : Type ℓ} {B : Type κ} → Result E A → (A → Result E B) → Result E B
  err code >>= next = err code
  ok value >>= next = next value

  -- `if (!test) return code;`
  abbrev pub guard : Bool → E → Result E (Unit {0})
  guard false code = err code
  guard true code = ok tt

  abbrev pub ◌>>◌ {κ} : {B : Type κ} → Result E (Unit {0}) → Result E B → Result E B
  check >> next = check >>= λ _. next

  -- Every check on the way to a success has passed.
  pub guard-eq-ok : (test : Bool) (code : E) {u : Unit {0}} → guard test code ≡ ok u → test ≡ true
  guard-eq-ok false code e = cc
  guard-eq-ok true code e = refl

  pub Result-cases {ℓ} :
      {A : Type ℓ} (r : Result E A) → ((value : A) × (r ≡ ok value)) ⊎ ((code : E) × (r ≡ err code))
  Result-cases (err code) = inr (code, refl)
  Result-cases (ok value) = inl (value, refl)
