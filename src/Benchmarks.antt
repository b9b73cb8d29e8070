-- ===== src/Benchmarks.antt =====
-- The loops of the benchmarks BM_FreeListAlloc, BM_StackAlloc, BM_LinerAlloc, BM_PoolAlloc and
-- BM_MallocAlloc, in the files src/*AllocatorTest.cpp, in a release build. How often a loop runs is up to
-- the benchmark library, and an argument here.
pub mod Rounds
pub mod Others
mod Tests
use memory_allocators.Base.{
  ℕ, zero, suc, ◌*◌, ◌≡◌, refl, Ptr, List, [], release, Outcome, ok, ◌>>=◌,
}
use memory_allocators.Workload.{Client, max_chunk_size}
use memory_allocators.FreeList.{Memory, FreeListAllocator, free_list_allocator}
use memory_allocators.FreeList
use memory_allocators.Stack
use memory_allocators.Linear
use memory_allocators.Linear.{LinearAllocator, linear_allocator}
use memory_allocators.Pool.{c_pool_alloc_thread_policy}
use memory_allocators.Pools
use memory_allocators.MallocTest
use memory_allocators.MallocTest.{Heap}

module _ (c : Client) where
  open c use {State, allocate, free}

  -- `n` rounds: one byte, and back
  unfoldable pub repeat : ℕ → State → Outcome State
  repeat zero s = ok s
  repeat (suc n) s = do (p, s') ← allocate 1 s; s'' ← free p s'; repeat n s''

  -- A round that returns and keeps a property
  abbrev pub Round : (State → Type 0) → State → Type 0
  Round Keeps s =
      (p : Ptr) × (s' : State) × (s'' : State) × (allocate 1 s ≡ ok (p, s'))
      × (free p s' ≡ ok s'')
      × Keeps s''

  pub repeat_keeps :
      (Keeps : State → Type 0)
      → ((s : State) → Keeps s → Round Keeps s)
      → (n : ℕ) (s : State) → Keeps s
      → (s' : State) × (repeat n s ≡ ok s') × Keeps s'
  unfolding repeat
  repeat_keeps Keeps round zero s k = (s, refl, k)
  repeat_keeps Keeps round (suc n) s k =
      let (p, t, u, first, second, k') = round s k in
      let (s', run, k'') = repeat_keeps Keeps round n u k' in
      (s', rw (first, second, run) refl, k'')

-- The source has `n` = 1000 in each.
unfoldable pub bm_free_list_alloc : ℕ → Ptr → Memory → ℕ → Outcome FreeListAllocator
bm_free_list_alloc n fresh memory rounds =
    repeat FreeList.Workload.client rounds
      (FreeList.init fresh (free_list_allocator (n * max_chunk_size) memory)).0

unfoldable pub bm_stack_alloc : ℕ → Ptr → ℕ → Outcome Stack.StackAllocator
bm_stack_alloc n fresh rounds =
    repeat Stack.Workload.client rounds
      (Stack.init fresh (Stack.stack_allocator (n * max_chunk_size))).0

unfoldable pub bm_pool_alloc :
    ℕ → (ℕ → Ptr) → (ℕ → Ptr) → (ℕ → Ptr) → ℕ → Outcome Pools.Workload.Served
bm_pool_alloc n fresh array answer rounds = do
  pools ← Pools.construct release n Pools.chunk_sizes
  pools' ← Pools.init c_pool_alloc_thread_policy fresh array 0 pools
  repeat (Pools.Workload.client answer) rounds (record { pools = pools'; calls = [] })

unfoldable pub bm_malloc_alloc : (ℕ → Ptr) → ℕ → Outcome Heap
bm_malloc_alloc answer rounds =
    repeat (MallocTest.client answer) rounds (record { owned = []; calls = 0 })

-- The requests of BM_LinerAlloc, which never calls Init and gives nothing back
unfoldable pub requests : ℕ → LinearAllocator → Outcome LinearAllocator
requests zero s = ok s
requests (suc n) s = do (p, s') ← Linear.allocate release 1 8 s; requests n s'

unfoldable pub bm_liner_alloc : ℕ → ℕ → Outcome LinearAllocator
bm_liner_alloc n rounds = requests rounds (linear_allocator (n * max_chunk_size))
