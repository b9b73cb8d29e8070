-- ===== src/Linear/Workload.antt =====
-- RunTest of src/LinearAllocatorTest.cpp, in a release build, for any answers of `rand`. The test does
-- not call Init.
use memory_allocators.Base.{
  ℕ, zero, suc, ◌*◌, ◌≡◌, refl, ◌∙◌, arith, Bool, true, not, ltb, List, [], ◌∷◌, null, release,
  Outcome, ok, ◌>>=◌,
}
use memory_allocators.Interface.{get_used_size}
use memory_allocators.SystemHeap.{Call}
use memory_allocators.Workload.{max_chunk_size, random_size}
use memory_allocators.Linear.{LinearAllocator, linear_allocator, allocate, reset}
use memory_allocators.Linear.Memory.{allocate_returns}

-- The loop of requests, whose answers are dropped
unfoldable pub requests : (ℕ → ℕ) → ℕ → ℕ → LinearAllocator → Outcome LinearAllocator
requests rand zero k s = ok s
requests rand (suc n) k s = do
  (p, s') ← allocate release (random_size rand k) 8 s
  requests rand n (suc k) s'

-- The result that the test prints, and the calls of the system's heap. The source has `n` = 1000.
unfoldable pub run_test : (ℕ → ℕ) → ℕ → Outcome (Bool × List Call)
run_test rand n = do
  s ← requests rand n 0 (linear_allocator (n * max_chunk_size))
  let (s', calls) = reset s
  ok (not (ltb 0 (get_used_size s'.base)), calls)

requests_return :
    (rand : ℕ → ℕ) (n k : ℕ) (s : LinearAllocator)
    → (s' : LinearAllocator) × (requests rand n k s ≡ ok s') × (s'.start_ptr ≡ s.start_ptr)
unfolding requests
requests_return rand zero k s = (s, refl, refl)
requests_return rand (suc n) k s =
    let (p, s', run, same) = allocate_returns (random_size rand k) 8 s (omega arith) in
    let (s'', run', same') = requests_return rand n (suc k) s' in
    (s'', rw (run, run') refl, same' ∙ same)

-- The test in a release build, for any number of rounds and any answers of `rand`: it runs to its end
-- and passes, though the allocator never asks for memory; its one call of the system's heap is
-- free(nullptr), by Reset.
pub linear_test_passes : (rand : ℕ → ℕ) (n : ℕ) → run_test rand n ≡ ok (true, Call.free null ∷ [])
unfolding run_test reset
linear_test_passes rand n =
    let (s, run, same) = requests_return rand n 0 (linear_allocator (n * max_chunk_size)) in
    rw (run, same) refl
