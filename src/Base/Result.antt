-- ===== src/Base/Result.antt =====
-- Results of C code that may touch memory out of bounds, dereference NULL or fail a `vassert`.
use mathlib.Core.Bool.{Bool, true, false}

pub data Run {ℓ} (A : Type ℓ) : Type ℓ where
  ok : A → Run A
  fault : Run A

infixl 5 ◌>>=◌ ◌>>◌
abbrev pub ◌>>=◌ {ℓ κ} : {A : Type ℓ} {B : Type κ} → Run A → (A → Run B) → Run B
ok a >>= f = f a
fault >>= f = fault

abbrev pub ◌>>◌ {ℓ} : {B : Type ℓ} → Run (Unit {0}) → Run B → Run B
m >> k = m >>= λ _. k

-- `vassert(cond)` writes through a NULL pointer when the condition fails.
abbrev pub vassert : Bool → Run (Unit {0})
vassert true = ok tt
vassert false = fault
