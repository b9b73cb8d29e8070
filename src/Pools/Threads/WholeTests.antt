-- ===== src/Pools/Threads/WholeTests.antt =====
-- RunMultiThreadTest with two rounds, one for each thread, and the theorems there.
use memory_allocators.Base.{
  ℕ, zero, suc, ◌+◌, ◌*◌, ◌≤◌, ◌<◌, ◌≡◌, ◌⊎◌, refl, arith, true, false, List, [], ◌∷◌, ◌++◌, Ptr,
  null, ok, count, update,
}
use memory_allocators.Interface.{enable_spin_lock}
use memory_allocators.Workload.{random_size, random_index}
use memory_allocators.Pool
use memory_allocators.Pool.{PoolAllocator, pool_allocator, reset, fill}
use memory_allocators.Pool.Invariant.{Accounted}
use memory_allocators.Pools
use memory_allocators.Pools.{chunk_sizes, construct, used_size_from}
use memory_allocators.Pools.Workload.Start.{Blocks, all_started}
use memory_allocators.Pools.Threads.{
  allocate_from, free_from, free_element, returns, requests, thread_func, pool_at, runs, finished,
  run_multi_thread_test, run_threads,
}
use memory_allocators.Pools.Threads.Entry.{Within}
use memory_allocators.Pools.Threads.Orderly.{Takes, Stands}
use memory_allocators.Pools.Threads.Ownership.{Foreign, Owns, thread_func-Owns}
use memory_allocators.Pools.Threads.Start.{OutOf, OutOf-Within, state_after}
use memory_allocators.Pools.Threads.Exclusion.{never_shared, never_fails}
use memory_allocators.Sharing.PoolMethods.{pool_methods}
use memory_allocators.Sharing.Several.{System, Turn, step, run}

abbrev fresh : ℕ → Ptr
fresh i = 65536 + i * 65536

abbrev array : ℕ → Ptr
array i = 4096 + i * 256

blocks : Blocks 2 fresh array 0 chunk_sizes
blocks = omega arith

-- `rand` answers 0, so each thread requests one byte, and `malloc` answers null.
abbrev zeros : ℕ → ℕ → ℕ
zeros t k = 0

abbrev nulls : ℕ → ℕ → Ptr
nulls t k = null

out : (t k : ℕ) → OutOf (nulls t k) (all_started 2 fresh array 0 chunk_sizes)
out t k = omega arith

abbrev steps : ℕ → ℕ → List (Turn pool_methods)
steps zero i = []
steps (suc n) i = record { thread = i; seen = false } ∷ steps n i

-- Both threads have a chunk of the first pool.
abbrev both_hold : List (Turn pool_methods)
both_hold = steps 5 0 ++ steps 12 1 ++ steps 6 0 ++ steps 10 1

-- They give them back.
abbrev to_the_end : List (Turn pool_methods)
to_the_end = both_hold ++ steps 30 0 ++ steps 30 1

abbrev state : System pool_methods
state = state_after 2 fresh array zeros nulls both_hold

abbrev at_start : ℕ → PoolAllocator
at_start = pool_at (all_started 2 fresh array 0 chunk_sizes)

nulls-Foreign : (k : ℕ) → Foreign (Takes 9 2 at_start) 9 (nulls 0 k)
nulls-Foreign k i below =
    OutOf-Within null (all_started 2 fresh array 0 chunk_sizes) i (out 0 k) below

ends_well :
    run_multi_thread_test enable_spin_lock 2 fresh array zeros nulls to_the_end ≡ ok (finished true)
unfolding run step returns requests allocate_from free_from free_element random_size random_index
    fill update run_multi_thread_test run_threads construct pool_allocator Pools.init Pool.init
    reset used_size_from
ends_well = refl

never_shared_example :
    (held : ℕ → List Ptr) × ((t : ℕ) → Stands 9 2 at_start state.shared (state.stand t) (held t))
    × ((i : ℕ)
        → i < 9
        → (p : Ptr) → Within (at_start i) p
        → count p (held 0) + count p (held 1) ≤ 1)
    × ((i : ℕ)
        → i < 9
        → state.flag i ≡ false
        → (k : ℕ) × (lent : List Ptr) × Accounted (state.shared i) k lent
          × ((p : Ptr)
              → Within (at_start i) p
              → count p (held 0) + count p (held 1) ≡ count p lent))
never_shared_example = never_shared zeros 2 fresh array nulls (omega arith) blocks out both_hold

never_fails_example :
    (run_multi_thread_test enable_spin_lock 2 fresh array zeros nulls to_the_end ≡ ok runs)
    ⊎ (run_multi_thread_test enable_spin_lock 2 fresh array zeros nulls to_the_end
        ≡ ok (finished true))
never_fails_example = never_fails zeros 2 fresh array nulls (omega arith) blocks out to_the_end

thread_func-Owns_example :
    Owns (Takes 9 2 at_start) 9 (thread_func (zeros 0) (nulls 0) chunk_sizes 1) []
thread_func-Owns_example =
    thread_func-Owns (Takes 9 2 at_start) (zeros 0) (nulls 0) chunk_sizes nulls-Foreign 1
