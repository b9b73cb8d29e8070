-- ===== src/Pools/Workload.antt =====
-- RunTest of src/PoolAllocatorTest.cpp, in a release build, for any answers of `rand`.
pub mod Stock
pub mod Start
use memory_allocators.Base.{
  ℕ, Bool, not, ltb, List, [], ◌++◌, Ptr, to_u32, release, Outcome, ok, ◌>>=◌, length,
}
use memory_allocators.SystemHeap.{Call}
use memory_allocators.Workload
use memory_allocators.Workload.{Client}
use memory_allocators.Pool.{c_pool_alloc_thread_policy}
use memory_allocators.Pools.{Pools, chunk_sizes, construct, init, allocate, free, used_size}

-- The pools, and the calls of the system's heap that Allocate and Free have made
pub record Served : Type 0 where
  pub pools : Pools
  pub calls : List Call

-- `answer` is what `malloc` would answer to the calls behind the pools.
abbrev pub client : (ℕ → Ptr) → Client
client answer = record {
  State = Served;
  allocate = λ size s. do
    (p, pools, calls) ←
        allocate release c_pool_alloc_thread_policy (answer (length s.calls)) (to_u32 size) s.pools
    ok (p, record { pools = pools; calls = s.calls ++ calls });
  free = λ p s. do
    (pools, calls) ← free c_pool_alloc_thread_policy p s.pools
    ok (record { pools = pools; calls = s.calls ++ calls });
}

-- The result that the test prints, and the calls of the system's heap. The source has `n` = 1000.
unfoldable pub run_test :
    (ℕ → ℕ) → ℕ → (ℕ → Ptr) → (ℕ → Ptr) → (ℕ → Ptr) → Outcome (Bool × List Call)
run_test rand n fresh array answer = do
  pools ← construct release n chunk_sizes
  pools' ← init c_pool_alloc_thread_policy fresh array 0 pools
  s ← Workload.run (client answer) rand n (record { pools = pools'; calls = [] })
  ok (not (ltb 0 (used_size s.pools)), s.calls)
