-- ===== src/Pools/Workload/Start.antt =====
-- The start of RunTest of src/PoolAllocatorTest.cpp, and the whole test.
use memory_allocators.Base.{
  ℕ, suc, ◌+◌, ◌*◌, ◌^◌, ◌<◌, ◌≡◌, ◌≢◌, ◌⊎◌, inl, inr, refl, arith, List, [], ◌∷◌, Ptr, null, true,
  false, release, ok, mul64, sub64, to_int64,
}
use memory_allocators.Interface.{interface_of}
use memory_allocators.Workload.Contract.{cost_of}
use memory_allocators.Pool.{c_pool_alloc_thread_policy, PoolAllocator, pool_allocator}
use memory_allocators.Pool.Chunks.{started, init-Accounted}
use memory_allocators.Pools.{Pools, chunk_sizes, construct, init}
use memory_allocators.Pools.Holdings.{Holding, Holds, count_lent, Apart, SeparateFrom}
use memory_allocators.Pools.Workload.{run_test}
use memory_allocators.Pools.Workload.Stock.{AllLeft, Stocks, run-Lends}

-- A pool behind its constructor
abbrev pub made : ℕ → ℕ → PoolAllocator
made n size = record {
  base = interface_of (mul64 n size);
  free_chunks_ptr = null;
  free_chunks = λ _. null;
  start_ptr = null;
  chunks_num = n;
  chunk_size = size;
  curr_free_chunks_idx = to_int64 (sub64 n 1);
  spinlock = false;
}

module _ (n : ℕ) (fresh array : ℕ → Ptr) where
  -- The block at `i` for chunks of one size is apart from those that follow.
  abbrev pub FarFrom : ℕ → ℕ → ℕ → List ℕ → Type 0
  FarFrom i size j [] = Unit {0}
  FarFrom i size j (other ∷ sizes) =
      ((fresh i + n * size < fresh j) ⊎ (fresh j + n * other < fresh i))
      × FarFrom i size (suc j) sizes

  -- What `malloc` gives the pools from `i` on: blocks of the sizes, with a byte between any two.
  abbrev pub Blocks : ℕ → List ℕ → Type 0
  Blocks i [] = Unit {0}
  Blocks i (size ∷ sizes) =
      (0 < size)
      × (0 < fresh i)
      × (array i ≢ null)
      × (fresh i + n * size < 2 ^ 64)
      × FarFrom i size (suc i) sizes
      × Blocks (suc i) sizes

  abbrev pub all_made : List ℕ → Pools
  all_made [] = []
  all_made (size ∷ sizes) = made n size ∷ all_made sizes

  abbrev pub all_started : ℕ → List ℕ → Pools
  all_started i [] = []
  all_started i (size ∷ sizes) =
      started (fresh i) (array i) (made n size) ∷ all_started (suc i) sizes

  abbrev pub all_free : List ℕ → List Holding
  all_free [] = []
  all_free (size ∷ sizes) = record { left = n; lent = [] } ∷ all_free sizes

  pub construct_lem : (sizes : List ℕ) → construct release n sizes ≡ ok (all_made sizes)
  unfolding construct pool_allocator
  construct_lem [] = refl
  construct_lem (size ∷ sizes) = rw (construct_lem sizes) refl

  module _ (few : n < 2 ^ 63) where
    pub init-Holds :
        (i : ℕ) (sizes : List ℕ)
        → Blocks i sizes
        → (init c_pool_alloc_thread_policy fresh array i (all_made sizes)
            ≡ ok (all_started i sizes))
          × Holds (all_started i sizes) (all_free sizes)
    unfolding init
    init-Holds i [] b = (refl, tt)
    init-Holds i (size ∷ sizes) b =
        let sized : n * size ≡ mul64 n size = omega (arith, b.3) in
        let (run, inv) =
          init-Accounted (fresh i) (array i) (made n size) b.1 b.2 sized (omega (arith, b.3)) b.0
            few in
        let (run', h) = init-Holds (suc i) sizes b.5 in (rw (run, run') refl, (inv, h))

  SeparateFrom-started :
      (i size j : ℕ) (sizes : List ℕ)
      → fresh i + n * size < 2 ^ 64
      → Blocks j sizes
      → FarFrom i size j sizes
      → SeparateFrom (started (fresh i) (array i) (made n size)) (all_started j sizes)
  SeparateFrom-started i size j [] fits b far = tt
  SeparateFrom-started i size j (other ∷ sizes) fits b far =
      (ground (arith, b.3), SeparateFrom-started i size (suc j) sizes fits b.5 far.1)

  pub Apart-started : (i : ℕ) (sizes : List ℕ) → Blocks i sizes → Apart (all_started i sizes)
  Apart-started i [] b = tt
  Apart-started i (size ∷ sizes) b =
      (SeparateFrom-started i size (suc i) sizes b.3 b.5 b.4, Apart-started (suc i) sizes b.5)

  count_lent_free : (q : Ptr) (sizes : List ℕ) → 0 ≡ count_lent q (all_free sizes)
  count_lent_free q [] = refl
  count_lent_free q (size ∷ sizes) = omega (arith, count_lent_free q sizes)

  AllLeft-free : (sizes : List ℕ) → AllLeft n (all_free sizes)
  AllLeft-free [] = tt
  AllLeft-free (size ∷ sizes) = (omega arith, AllLeft-free sizes)

  starts :
      n < 2 ^ 63
      → Blocks 0 chunk_sizes
      → (cost : ℕ) → Stocks n cost (record { pools = all_started 0 chunk_sizes; calls = [] }) []
  starts few b cost = record {
    lends = record {
      holdings = all_free chunk_sizes;
      holds = (init-Holds few 0 chunk_sizes b).1;
      apart = Apart-started 0 chunk_sizes b;
      counts = λ q. count_lent_free q chunk_sizes;
      no_calls = refl;
    };
    stock = AllLeft-free chunk_sizes;
    reaches = inr (inr (inr (inr (inr (inr (inr (inr (inl (omega arith)))))))));
  }

-- The test in a release build, for any number of rounds below 2 ^ 63 (the source has 1000), any
-- answers of `rand`, and blocks from `malloc` with at least a byte between any two: it runs to its end
-- without a fault, passes, and the system's heap is never asked.
pub pools_test_passes :
    (rand : ℕ → ℕ) (n : ℕ) (fresh array answer : ℕ → Ptr)
    → n < 2 ^ 63
    → Blocks n fresh array 0 chunk_sizes
    → run_test rand n fresh array answer ≡ ok (true, [])
unfolding run_test
pools_test_passes rand n fresh array answer few b =
    let cost : ℕ = cost_of (λ size. 0) rand n 0 in
    let (s, run, l, unused) =
      run-Lends answer rand n
        (record { pools = all_started n fresh array 0 chunk_sizes; calls = [] })
        (starts n fresh array few b cost) in
    rw
      (
        construct_lem n fresh array chunk_sizes,
        (init-Holds n fresh array few 0 chunk_sizes b).0,
        run,
        unused,
        l.no_calls,
      )
      refl
