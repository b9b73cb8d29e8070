-- ===== src/Registry/Tests.antt =====
-- Four tests, of which two take the same time, and the theorems there.
use memory_allocators.Base.{◌≡◌, refl, ◌==◌, if◌then◌else◌, List, [], ◌∷◌}
use memory_allocators.Registry.{RunTestFunc, TestResult, register, emplace, emplace_all, run}

abbrev pool_result : TestResult
pool_result = record { name = "PoolAllocator     "; duration = 70 }

abbrev stack_result : TestResult
stack_result = record { name = "StackAllocator    "; duration = 30 }

abbrev linear_result : TestResult
linear_result = record { name = "LinerAllocator    "; duration = 30 }

abbrev reports : RunTestFunc → List TestResult
reports func =
    if func == 100
    then pool_result ∷ []
    else if func == 200
    then stack_result ∷ []
    else linear_result ∷ []

abbrev tests : List RunTestFunc
tests = register 200 (register 100 (register 300 (register 200 [])))

by_address : tests ≡ 100 ∷ 200 ∷ 300 ∷ []
unfolding emplace
by_address = refl

-- The result of the linear allocator is lost.
printed : run reports tests [] ≡ stack_result ∷ pool_result ∷ []
unfolding run emplace emplace_all
printed = refl
