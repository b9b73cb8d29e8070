-- ===== src/Benchmarks/Tests.antt =====
-- The benchmarks for some rounds.
use memory_allocators.Base.{ℕ, ◌≡◌, refl, none, ok, ◌>>=◌, Outcome, update, swap}
use memory_allocators.FreeList.{
  FreeListAllocator, init, reset, allocate, free, required_size, find_free_mem_block_index,
  allocate_found, allocate_at, take_front, free_at, merge_by,
}
use memory_allocators.FreeList.Table.{
  MemBlock, mem_block, search, should_full_merge, max_free_mem_blocks,
}
use memory_allocators.Benchmarks.{bm_free_list_alloc, repeat}

abbrev table : FreeListAllocator → Outcome (ℕ × MemBlock × MemBlock)
table s = ok (s.curr_size, s.block 0, s.block 1)

-- BM_FreeListAlloc, after one round and after two: the second loses all but the 16 bytes.
one_round :
    (bm_free_list_alloc 1 4096 (λ _. none) 1 >>= table) ≡ ok (2, mem_block 16 5104, mem_block 0 16)
unfolding bm_free_list_alloc repeat init reset allocate free required_size find_free_mem_block_index
    allocate_found allocate_at take_front free_at merge_by search should_full_merge
    max_free_mem_blocks swap update
one_round = refl

two_rounds :
    (bm_free_list_alloc 1 4096 (λ _. none) 2 >>= table) ≡ ok (2, mem_block 0 0, mem_block 0 16)
unfolding bm_free_list_alloc repeat init reset allocate free required_size find_free_mem_block_index
    allocate_found allocate_at take_front free_at merge_by search should_full_merge
    max_free_mem_blocks swap update
two_rounds = refl
