-- ===== src/Workload/Tests.antt =====
-- The test drivers at small numbers of rounds, and the theorems there.
use memory_allocators.Base.{
  refl, length, ℕ, ◌+◌, ◌*◌, ◌<◌, ◌≡◌, arith, true, [], Ptr, null, none, ok,
}
use memory_allocators.Workload
use memory_allocators.Workload.{random_size}
use memory_allocators.Workload.Contract.{cost_of, run-Holds}
use memory_allocators.FreeList.{Memory, required_size}
use memory_allocators.FreeList.Table.{max_free_mem_blocks}
use memory_allocators.FreeList.Workload.Returns.{bytes_taken, run_test_passes}
use memory_allocators.FreeList
use memory_allocators.Pools.{chunk_sizes}
use memory_allocators.Pools.Workload.Start.{Blocks, pools_test_passes}
use memory_allocators.MallocTest.{Heap, malloc_test_frees}
use memory_allocators.Pools
use memory_allocators.MallocTest

-- rand() answers 0, 7, 14, …
abbrev sevens : ℕ → ℕ
sevens k = k * 7

abbrev empty_memory : Memory
empty_memory p = none

three_rounds : 3 + 2 < max_free_mem_blocks
unfolding max_free_mem_blocks
three_rounds = omega arith

three_fit : bytes_taken sevens 3 < 3 * 5120
unfolding bytes_taken cost_of required_size random_size
three_fit = omega arith

run_test_passes_example : FreeList.Workload.run_test sevens 3 4096 empty_memory ≡ ok (true, true)
run_test_passes_example =
    run_test_passes sevens 3 4096 empty_memory three_rounds (omega arith) (omega arith) three_fit

abbrev fresh : ℕ → Ptr
fresh i = 65536 + i * 65536

abbrev array : ℕ → Ptr
array i = 4096 + i * 256

blocks : Blocks 3 fresh array 0 chunk_sizes
blocks = omega arith

pools_test_passes_example : Pools.Workload.run_test sevens 3 fresh array (λ k. null) ≡ ok (true, [])
pools_test_passes_example = pools_test_passes sevens 3 fresh array (λ k. null) (omega arith) blocks

run-Holds_example :
    (h : Heap) × (Workload.run
        (MallocTest.client (λ k. k * 16))
        sevens
        3
        (record { owned = []; calls = 0 })
      ≡ ok h)
    × MallocTest.Owns h []
    × (length h.owned ≡ 0)
unfolding MallocTest.contract
run-Holds_example =
    run-Holds (MallocTest.client (λ k. k * 16)) (MallocTest.contract (λ k. k * 16)) sevens 3
      (record { owned = []; calls = 0 }) (refl, λ q away. refl)
