-- ===== src/Benchmarks/Rounds.antt =====
-- The benchmarks of the pools, of the stack and of malloc come back to their start in each round.
use memory_allocators.Base.{
  ℕ, zero, suc, ◌^◌, ◌<◌, ◌≤◌, ◌≡◌, refl, sym, subst, arith, [], ◌∷◌, Ptr, null, ◌≢◌, leb-true,
  ==_false, release, ok,
}
use memory_allocators.Pool.{c_pool_alloc_thread_policy}
use memory_allocators.Pool
use memory_allocators.Pool.{get_chunk_size}
use memory_allocators.Pool.Invariant.{Accounted}
use memory_allocators.Pool.Chunks.{started, lends, lends-Accounted, allocate_any, top_bounds}
use memory_allocators.Pool.Giving.{free-Accounted, takes_back-lends}
use memory_allocators.Pools
use memory_allocators.Pools.{chunk_sizes, first_fit, offer}
use memory_allocators.Pools.Workload.{Served, client}
use memory_allocators.Pools.Workload.Start.{made, Blocks, all_started, construct_lem, init-Holds}
use memory_allocators.Benchmarks.{Round, repeat_keeps, bm_pool_alloc}

-- One chunk of the first pool, there and back
module _ (a : Pool.PoolAllocator) (pools : Pools.Pools) (k size : ℕ) (inv : Accounted a (suc k) [])
    (small : size ≤ a.chunk_size) where
  serves :
      (fallback : Ptr)
      → Pools.allocate release c_pool_alloc_thread_policy fallback size (a ∷ pools)
        ≡ ok (a.free_chunks k, lends k a ∷ pools, [])
  unfolding Pools.allocate first_fit get_chunk_size
  serves fallback =
      let some_address : a.free_chunks k ≢ null = ground (arith, inv.held, top_bounds a k [] inv) in
      rw
        (
          leb-true size a.chunk_size small,
          allocate_any a k [] inv size 8,
          ==_false (a.free_chunks k) null some_address,
        )
        refl

  takes_back :
      Pools.free c_pool_alloc_thread_policy (a.free_chunks k) (lends k a ∷ pools)
      ≡ ok (a ∷ pools, [])
  unfolding Pools.free offer
  takes_back =
      let lent = lends-Accounted a k [] inv in
      rw
        (
          (free-Accounted (lends k a) k [] (a.free_chunks k) [] lent).0,
          takes_back-lends a k inv.index,
        )
        refl

module _ (k : ℕ) (fresh array answer : ℕ → Ptr) (few : suc k < 2 ^ 63)
    (b : Blocks (suc k) fresh array 0 chunk_sizes) where
  abbrev ready : Served
  ready = record { pools = all_started (suc k) fresh array 0 chunk_sizes; calls = [] }

  abbrev first : Pool.PoolAllocator
  first = started (fresh 0) (array 0) (made (suc k) 64)

  first-Accounted : Accounted first (suc k) []
  first-Accounted = (init-Holds (suc k) fresh array few 0 chunk_sizes b).1.0

  pool-Round : Round (client answer) (λ s. s ≡ ready) ready
  pool-Round =
      let inv = first-Accounted in
      let p : Ptr = first.free_chunks k in
      let rest =
        all_started (suc k) fresh array 1
          (128 ∷ 256 ∷ 512 ∷ 1024 ∷ 2048 ∷ 3072 ∷ 4096 ∷ 5120 ∷ []) in
      (
        p,
        record { pools = lends k first ∷ rest; calls = [] },
        ready,
        rw (serves first rest k 1 inv (omega arith) (answer 0)) refl,
        rw (takes_back first rest k 1 inv (omega arith)) refl,
        refl,
      )

-- BM_PoolAlloc, for any number of rounds, of pools of 1 to 2 ^ 63 - 1 chunks (the source has 1000) in
-- blocks from `malloc` with at least a byte between any two: it runs to its end, the pools are as
-- behind their start, and the system's heap is never asked.
pub bm_pool_alloc_keeps :
    (n : ℕ) (fresh array answer : ℕ → Ptr)
    → 0 < n
    → n < 2 ^ 63
    → Blocks n fresh array 0 chunk_sizes
    → (rounds : ℕ)
    → bm_pool_alloc n fresh array answer rounds
      ≡ ok (record { pools = all_started n fresh array 0 chunk_sizes; calls = [] })
unfolding bm_pool_alloc
bm_pool_alloc_keeps zero fresh array answer some_chunks few b rounds = elim some_chunks [ ]
bm_pool_alloc_keeps (suc k) fresh array answer some_chunks few b rounds =
    let start = ready k fresh array answer few b in
    let (s', run, same) =
      repeat_keeps (client answer) (λ s. s ≡ start)
        (λ s e.
          subst (Round (client answer) (λ u. u ≡ start)) (sym e)
            (pool-Round k fresh array answer few b))
        rounds start refl in
    rw
      (
        construct_lem (suc k) fresh array chunk_sizes,
        (init-Holds (suc k) fresh array few 0 chunk_sizes b).0,
        run,
        same,
      )
      refl
