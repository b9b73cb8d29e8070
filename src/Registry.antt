-- ===== src/Registry.antt =====
-- The registry of tests and the table of results: src/Test.h and src/Test.cpp.
pub mod Order
pub mod Sets
mod Tests
use Prim.Native.String.{String}
use memory_allocators.Base.{ℕ, Bool, List, [], ◌∷◌, ◌++◌, ltb, if◌then◌else◌}

-- std::set<A, C>, where `C` compares by a number: its elements in order. `emplace` adds nothing where
-- the set has an element that is neither before nor behind the new one.
module _ {A : Type 0} (key : A → ℕ) where
  unfoldable pub emplace : A → List A → List A
  emplace x [] = x ∷ []
  emplace x (y ∷ ys) =
      if ltb (key x) (key y)
      then x ∷ y ∷ ys
      else if ltb (key y) (key x)
      then y ∷ emplace x ys
      else y ∷ ys

  unfoldable pub emplace_all : List A → List A → List A
  emplace_all [] set = set
  emplace_all (x ∷ xs) set = emplace_all xs (emplace x set)

-- RunTestFunc: the address of a function. GetTests() is ordered by it.
abbrev pub RunTestFunc : Type 0
RunTestFunc = ℕ

abbrev pub address : RunTestFunc → ℕ
address func = func

-- Test::Register, which TestRegistration and TEST_REGISTER call
abbrev pub register : RunTestFunc → List RunTestFunc → List RunTestFunc
register func tests = emplace address func tests

-- A result: the name of a test and its duration
pub record TestResult : Type 0 where
  pub name : String
  pub duration : ℕ

-- custom_compare looks at the durations only.
abbrev pub custom_compare : TestResult → TestResult → Bool
custom_compare left right = ltb left.duration right.duration

abbrev pub duration_of : TestResult → ℕ
duration_of r = r.duration

-- Test::Run, for tests that report `reports func` each: the results that PrintResults prints
unfoldable pub run :
    (RunTestFunc → List TestResult) → List RunTestFunc → List TestResult → List TestResult
run reports [] results = results
run reports (func ∷ tests) results =
    run reports tests (emplace_all duration_of (reports func) results)
