-- ===== src/Base/Outcome.antt =====
-- What a C++ call can come to: a value, a failed `ASSERT` (threads/utility.h), which aborts the
-- program, an access that C++ leaves undefined (a null pointer, an index out of range), or, in the
-- model of a `while` loop, the end of the fuel, which the theorems rule out.
use mathlib.Core.Bool.{Bool, true, false}
use mathlib.Core.List.{List}
use Prim.Native.Nat.{ℕ}
use osproject.Base.Tests.{ltb, if◌then◌else◌}
use osproject.Base.Lists.{length, set}
use mathlib.Core.Option.{Option, none, some}

pub data Outcome {ℓ} (A : Type ℓ) : Type ℓ where
  ok : A → Outcome A
  abort : Outcome A
  fault : Outcome A
  timeout : Outcome A

infixl 5 ◌>>=◌ ◌>>◌
abbrev pub ◌>>=◌ {ℓ κ} : {A : Type ℓ} {B : Type κ} → Outcome A → (A → Outcome B) → Outcome B
ok a >>= f = f a
abort >>= f = abort
fault >>= f = fault
timeout >>= f = timeout

abbrev pub ◌>>◌ {ℓ} : {B : Type ℓ} → Outcome (Unit {0}) → Outcome B → Outcome B
m >> k = m >>= λ _. k

-- `ASSERT(condition)`
abbrev pub assert : Bool → Outcome (Unit {0})
assert true = ok tt
assert false = abort

-- A dereference, or an index into an array.
abbrev pub deref {ℓ} : {A : Type ℓ} → Option A → Outcome A
deref (some a) = ok a
deref none = fault

-- An assignment to an element of an array.
abbrev pub store {ℓ} : {A : Type ℓ} → List A → ℕ → A → Outcome (List A)
store xs i v = if ltb i (length xs) then ok (set xs i v) else fault
