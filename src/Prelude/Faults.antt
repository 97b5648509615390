-- ===== src/Prelude/Faults.antt =====
-- How an operation of the virtual machine can fail to return: a failed `assert`, a call of
-- `geevm_panic` or of `GEEVM_UNREACHBLE`, or an operation that C++ leaves undefined.
use mathlib.Core.Path.{◌≡◌, refl}
use mathlib.Core.Bool.{Bool, true, false}

pub data Fault : Type 0 where
  assertion panic unreachable undefined : Fault

pub data Result {ℓ} (A : Type ℓ) : Type ℓ where
  ok : A → Result A
  fault : Fault → Result A

module _ {ℓ κ} {A : Type ℓ} {B : Type κ} where
  infixl 5 ◌>>=◌
  -- An operation and what is done with its result; a fault ends both.
  abbrev pub ◌>>=◌ : Result A → (A → Result B) → Result B
  fault why >>= next = fault why
  ok a >>= next = next a

module _ {ℓ} {B : Type ℓ} where
  infixl 5 ◌>>◌
  abbrev pub ◌>>◌ : Result (Unit {0}) → Result B → Result B
  check >> rest = check >>= λ _. rest

-- `assert(b)`, and the preconditions of an operation that C++ leaves undefined.
abbrev pub guard : Bool → Fault → Result (Unit {0})
guard true e = ok tt
guard false e = fault e

-- The operation returns, and its result satisfies `P`.
abbrev pub Returns {ℓ} : {A : Type ℓ} → (A → Type 0) → Result A → Type 0
Returns P (ok a) = P a
Returns P (fault e) = ⊥

module _ {ℓ κ} {A : Type ℓ} {B : Type κ} where
  -- A sequence that ends well has a first part that ends well.
  pub >>=-eq-ok :
      (first : Result A) (next : A → Result B) {last : B}
      → (first >>= next) ≡ ok last
      → (middle : A) × (first ≡ ok middle) × (next middle ≡ ok last)
  >>=-eq-ok (ok middle) next ends = (middle, refl, ends)
  >>=-eq-ok (fault why) next ends = cc
