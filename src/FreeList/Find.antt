-- ===== src/FreeList/Find.antt =====
-- FindFreeMemBlockIndex of src/FreeListAllocator.h, in an allocator that is valid.
use memory_allocators.Base.{
  ℕ, ◌-◌, ◌^◌, ◌<◌, ◌≡◌, List, none, some, arith, ◌==◌, inl, inr, Bool-cases, le-total,
}
use memory_allocators.FreeList.Table.{MemBlock, search, max_free_mem_blocks, should_full_merge}
use memory_allocators.FreeList.Cover.{size_of}
use memory_allocators.FreeList.Search.{IsBestFit, search-IsBestFit}
use memory_allocators.FreeList.Invariant.{Inv}
use memory_allocators.FreeList.{FreeListAllocator, find_free_mem_block_index}

module _ (size : ℕ) (s : FreeListAllocator) (bs : List MemBlock) (inv : Inv s bs) where
  search_fits :
      IsBestFit s.block size s.curr_size (search s.block size s.curr_size (2 ^ 64 - 1) none)
  search_fits =
      search-IsBestFit s.block size s.curr_size (λ j l. omega (arith, inv.small, inv.entries j l))

  -- The index that is found is that of the best fit.
  pub find_some :
      (i : ℕ)
      → find_free_mem_block_index size s ≡ some i
      → IsBestFit s.block size s.curr_size (some i)
  unfolding find_free_mem_block_index
  find_some i e =
      let found : search s.block size s.curr_size (2 ^ 64 - 1) none ≡ some i = ground arith in
      rw found at search_fits

  -- -1 means that no block is large enough, or that the array is full.
  pub find_none :
      find_free_mem_block_index size s ≡ none
      → s.curr_size < max_free_mem_blocks
      → 0 < size
      → (j : ℕ) → j < s.curr_size
      → (s.block j).block_size < size
  unfolding find_free_mem_block_index should_full_merge
  find_none e h positive j l = elim (Bool-cases (s.used == s.total_size)) [
    | inl full ↦ ground (arith, le-total size_of s.curr_size s.block j l, inv.accounted)
    | inr left ↦
        let found : search s.block size s.curr_size (2 ^ 64 - 1) none ≡ none = ground arith in
        (rw found at search_fits) j l
  ]
