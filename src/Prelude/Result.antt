-- ===== src/Prelude/Result.antt =====
-- Results of code that may go wrong: by a failed `assert`, by `std::terminate`, by the use of a
-- null pointer, or by a use that the language leaves undefined.
use mathlib.Core.Bool.{Bool, true, false}

pub data Fault : Type 0 where
  assertion_failed terminated null_access undefined_behaviour : Fault

pub data Result {ℓ} (A : Type ℓ) : Type ℓ where
  ok : A → Result A
  fault : Fault → Result A

infixl 5 ◌>>=◌ ◌>>◌
abbrev pub ◌>>=◌ {ℓ κ} : {A : Type ℓ} {B : Type κ} → Result A → (A → Result B) → Result B
ok a >>= f = f a
fault e >>= f = fault e

abbrev pub ◌>>◌ {ℓ} : {B : Type ℓ} → Result (Unit {0}) → Result B → Result B
m >> k = m >>= λ _. k

-- `assert(b)`
abbrev pub assert : Bool → Result (Unit {0})
assert true = ok tt
assert false = fault assertion_failed
