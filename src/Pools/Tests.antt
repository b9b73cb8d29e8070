-- ===== src/Pools/Tests.antt =====
-- PoolAllocators with two pools of two chunks, and the theorems there.
use memory_allocators.Base.{
  ℕ, ◌+◌, ◌*◌, ◌≡◌, inl, inr, arith, List, [], ◌∷◌, Ptr, release, ok, same, update,
}
use memory_allocators.Pool.{c_pool_alloc_thread_policy, PoolAllocator, fill}
use memory_allocators.Pool.Invariant.{Accounted}
use memory_allocators.Pool.Chunks.{started, lends, lends-Accounted}
use memory_allocators.Pools.{Pools, allocate, free}
use memory_allocators.Pools.Holdings.{Holding, Holds, Apart, SamePlaces}
use memory_allocators.Pools.Serving.{Served, Without, allocate-Served, free-Holds}
use memory_allocators.Pools.Workload.Start.{
  made, Blocks, all_started, all_free, init-Holds, Apart-started,
}

abbrev fresh : ℕ → Ptr
fresh i = 65536 + i * 65536

abbrev array : ℕ → Ptr
array i = 4096 + i * 256

abbrev sizes : List ℕ
sizes = 64 ∷ 128 ∷ []

blocks : Blocks 2 fresh array 0 sizes
blocks = omega arith

abbrev ready : Pools
ready = all_started 2 fresh array 0 sizes

abbrev unlent : List Holding
unlent = all_free 2 fresh array sizes

ready-Holds : Holds ready unlent
ready-Holds = (init-Holds 2 fresh array (omega arith) 0 sizes blocks).1

ready-Apart : Apart ready
ready-Apart = Apart-started 2 fresh array 0 sizes blocks

allocate-Served_example :
    (p : Ptr) × (pools : Pools) × (hs : List Holding) × (allocate release c_pool_alloc_thread_policy
        16 100 ready
      ≡ ok (p, pools, []))
    × Served ready pools unlent hs p
allocate-Served_example =
    allocate-Served 16 100 ready unlent ready-Holds ready-Apart
      (inr (omega arith, inl (omega arith, omega arith)))

-- The first pool, with a chunk lent
abbrev first : PoolAllocator
first = started 65536 4096 (made 2 64)

abbrev second : PoolAllocator
second = started 131072 4352 (made 2 128)

abbrev one_lent : Pools
one_lent = lends 1 first ∷ second ∷ []

abbrev lent_one : List Holding
lent_one = record { left = 1; lent = 65600 ∷ [] } ∷ record { left = 2; lent = [] } ∷ []

first-Accounted : Accounted (lends 1 first) 1 (65600 ∷ [])
unfolding fill update
first-Accounted = lends-Accounted first 1 [] ready-Holds.0

free-Holds_example :
    (pools : Pools) × (hs : List Holding) × (free c_pool_alloc_thread_policy 65600 one_lent
      ≡ ok (pools, []))
    × Holds pools hs
    × SamePlaces one_lent pools
    × Without 65600 lent_one hs
unfolding same
free-Holds_example =
    free-Holds one_lent lent_one 65600 (first-Accounted, ready-Holds.1) ready-Apart (omega arith)
