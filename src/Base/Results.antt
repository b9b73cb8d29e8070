-- ===== src/Base/Results.antt =====
-- How a call of the sources can end. `assert` is compiled in only without NDEBUG, so a call takes
-- the build as an argument.
use mathlib.Core.Bool.{Bool, true, false}

pub data Build : Type 0 where
  debug release : Build

-- `aborted`: an `assert` failed. `faulted`: undefined behaviour, such as an array index out of
-- range, a read through a null pointer, or `% 0`. `blocked`: waits for a lock that this thread holds.
pub data Outcome {ℓ} (A : Type ℓ) : Type ℓ where
  ok : A → Outcome A
  aborted faulted blocked : Outcome A

infixl 5 ◌>>=◌ ◌>>◌
abbrev pub ◌>>=◌ {ℓ κ} : {A : Type ℓ} {B : Type κ} → Outcome A → (A → Outcome B) → Outcome B
ok a >>= f = f a
aborted >>= f = aborted
faulted >>= f = faulted
blocked >>= f = blocked

abbrev pub ◌>>◌ {ℓ} : {B : Type ℓ} → Outcome (Unit {0}) → Outcome B → Outcome B
m >> k = m >>= λ _. k

-- assert(condition)
abbrev pub assert : Build → Bool → Outcome (Unit {0})
assert release c = ok tt
assert debug true = ok tt
assert debug false = aborted

-- An access that is defined only where the condition holds.
abbrev pub defined : Bool → Outcome (Unit {0})
defined true = ok tt
defined false = faulted
