-- ===== src/FreeList/Workload.antt =====
-- RunTest of src/FreeListAllocatorTest.cpp, in a release build, for any answers of `rand`.
pub mod Growth
pub mod Returns
use memory_allocators.Base.{ℕ, ◌*◌, Bool, not, ltb, Ptr, release, Outcome, ok, ◌>>=◌}
use memory_allocators.Interface.{get_used_size}
use memory_allocators.Workload.{Client, max_chunk_size}
use memory_allocators.Workload
use memory_allocators.FreeList.{
  FreeListAllocator, Memory, free_list_allocator, c_merge_policy, c_free_list_thread_policy, init,
  allocate, free, full_merge_mem_blocks, is_fully_merged,
}

abbrev pub client : Client
client = record {
  State = FreeListAllocator;
  allocate = λ size s. allocate release c_free_list_thread_policy size 8 s;
  free = λ p s. do
    (done, s') ← free release c_merge_policy c_free_list_thread_policy p s
    ok s';
}

-- The two results that the test prints: whether nothing counts as used, and whether the full merge
-- has put everything together. The source has `n` = 1000.
unfoldable pub run_test : (ℕ → ℕ) → ℕ → Ptr → Memory → Outcome (Bool × Bool)
run_test rand n fresh memory = do
  s ← Workload.run client rand n (init fresh (free_list_allocator (n * max_chunk_size) memory)).0
  ok (not (ltb 0 (get_used_size s.base)), is_fully_merged (full_merge_mem_blocks s))
