-- ===== src/FreeList/Tests.antt =====
-- The functions of src/FreeListAllocator.h on an allocator of 1024 bytes, and the theorems there.
use memory_allocators.Base.{
  ℕ, ◌>>=◌, add64, ◌+◌, ◌-◌, ◌%◌, ◌^◌, ◌≤◌, ◌<◌, ◌≡◌, refl, [], ◌∷◌, none, some, arith, Ptr, true,
  debug, release, ok, aborted, faulted, update, swap,
}
use memory_allocators.FreeList.Table.{
  MemBlock, mem_block, FreeMemBlocks, search, fast_merge, full_merge, fast_merge_below,
  full_merge_below, absorb, should_full_merge, max_free_mem_blocks,
}
use memory_allocators.FreeList.Cover.{Entries}
use memory_allocators.FreeList.Search.{IsBestFit, search-IsBestFit}
use memory_allocators.FreeList.FullMerge.{Keeps, Separate, full_merge-Keeps}
use memory_allocators.FreeList.Invariant.{Inv}
use memory_allocators.FreeList.Split.{given, front}
use memory_allocators.FreeList.Allocate.{allocate-Inv}
use memory_allocators.FreeList.Free.{free-Inv}
use memory_allocators.FreeList.History.{
  init-Inv, Reach, inits, allocates, frees, Reach-Inv, Reach-IsFullyMerged,
}
use memory_allocators.FreeList.Reuse.{allocate-free}
use memory_allocators.FreeList.Faults.{
  allocate_exact_first, allocate_exact_middle, allocate_misaligns,
}
use memory_allocators.FreeList.{
  FreeListAllocator, free_list_allocator, c_merge_policy, c_free_list_thread_policy, init, reset,
  allocate, free, required_size, find_free_mem_block_index, full_merge_mem_blocks, is_fully_merged,
}

abbrev made : FreeListAllocator
made = free_list_allocator 1024 (λ _. none)

abbrev ready : FreeListAllocator
ready = (init 4096 made).0

ready-Inv : Inv ready []
ready-Inv = init-Inv 4096 made (omega arith) (omega arith) (omega arith) (omega arith)

found_first : find_free_mem_block_index (required_size 24 8) ready ≡ some 0
unfolding init reset required_size find_free_mem_block_index should_full_merge max_free_mem_blocks
    search update
found_first = refl

larger_first : required_size 24 8 < (ready.block 0).block_size
unfolding init reset required_size update
larger_first = omega arith

-- The allocator behind the first request, and its block.
abbrev one_used : FreeListAllocator
one_used = given (required_size 24 8) 0 ready

abbrev used_block : MemBlock
used_block = front (required_size 24 8) 0 ready.free_mem_blocks

abbrev Met : Type 0
Met =
    (allocate release c_free_list_thread_policy 24 8 ready ≡ ok (4104, one_used))
    × Inv one_used (used_block ∷ [])
    × (8 + 24 < required_size 24 8)
    × (required_size 24 8 ≤ 8 + 24 + 8)

met : Met
unfolding init reset update
met = allocate-Inv 24 8 0 ready [] ready-Inv (omega arith) (omega arith) found_first larger_first

allocate-Inv_example : Met
unfolding init reset update
allocate-Inv_example =
    allocate-Inv 24 8 0 ready [] ready-Inv (omega arith) (omega arith) found_first larger_first

one_used-space : one_used.curr_size < max_free_mem_blocks
unfolding init reset max_free_mem_blocks
one_used-space = omega arith

abbrev Returned : Type 0
Returned =
    (s' : FreeListAllocator) × (free release c_merge_policy c_free_list_thread_policy
        (one_used.start_ptr + used_block.mem_block_offset + 8) one_used
      ≡ ok (true, s'))
    × Inv s' []
    × (s'.used + used_block.block_size ≡ one_used.used)
    × (s'.total_size ≡ one_used.total_size)
    × (s'.start_ptr ≡ one_used.start_ptr)
    × (s'.curr_size ≤ one_used.curr_size + 1)

returned : Returned
returned = free-Inv release one_used [] used_block [] met.1 one_used-space

free-Inv_example : Returned
free-Inv_example = free-Inv release one_used [] used_block [] met.1 one_used-space

Reach-one : Reach made 4096 one_used (used_block ∷ [])
Reach-one = allocates 24 8 0 inits (omega arith) (omega arith) found_first larger_first met.0

Reach-Inv_example : Inv one_used (used_block ∷ []) × (one_used.total_size ≡ 1024)
Reach-Inv_example =
    Reach-Inv made 4096 (omega arith) (omega arith) (omega arith) (omega arith) Reach-one

abbrev all_back : FreeListAllocator
all_back = returned.0

Reach-back : Reach made 4096 all_back []
Reach-back = frees [] used_block [] Reach-one refl one_used-space returned.1

Reach-IsFullyMerged_example :
    (all_back.used ≡ 0) × (is_fully_merged (full_merge_mem_blocks all_back) ≡ true)
Reach-IsFullyMerged_example =
    Reach-IsFullyMerged made 4096 (omega arith) (omega arith) (omega arith) (omega arith) Reach-back

-- Three free blocks in no order: the second joins the third, and then the first.
abbrev scattered : FreeMemBlocks
scattered = record {
  curr_size = 3;
  block = update (update (λ _. mem_block 0 8) 1 (mem_block 16 24)) 2 (mem_block 8 8);
}

merges_to_one :
    ((full_merge scattered).curr_size ≡ 1) × ((full_merge scattered).block 0 ≡ mem_block 0 40)
unfolding full_merge full_merge_below fast_merge fast_merge_below absorb update swap
merges_to_one = (refl, refl)

scattered-Entries : Entries 40 scattered
unfolding update
scattered-Entries i l = ground arith

full_merge-Keeps_example :
    Keeps 40 scattered (full_merge scattered) × Separate 0 (full_merge scattered)
full_merge-Keeps_example = full_merge-Keeps 40 (omega arith) scattered scattered-Entries

search-IsBestFit_example :
    IsBestFit scattered.block 8 3 (search scattered.block 8 3 (2 ^ 64 - 1) none)
unfolding update
search-IsBestFit_example = search-IsBestFit scattered.block 8 3 (λ j l. ground arith)

-- One block that a request takes whole
abbrev tight : FreeListAllocator
tight = (init 4096 (free_list_allocator 40 (λ _. none))).0

allocate_exact_first_example : allocate debug c_free_list_thread_policy 24 8 tight ≡ faulted
unfolding init reset required_size find_free_mem_block_index should_full_merge max_free_mem_blocks
    search update
allocate_exact_first_example = allocate_exact_first debug 24 8 tight (omega arith) refl refl

-- The second of three blocks is an exact fit.
abbrev exact_middle : FreeListAllocator
exact_middle = record made {
  start_ptr = 4096;
  free_mem_blocks = record {
    curr_size = 3;
    block = update (update (λ _. mem_block 0 100) 1 (mem_block 200 40)) 2 (mem_block 300 100);
  };
}

allocate_exact_middle_example :
    (s' : FreeListAllocator) × (allocate release c_free_list_thread_policy 24 8 exact_middle
      ≡ ok (add64 (add64 4096 200) 8, s'))
    × (1 < s'.curr_size)
    × (s'.block 1 ≡ mem_block 200 40)
unfolding required_size find_free_mem_block_index should_full_merge max_free_mem_blocks search
    update
allocate_exact_middle_example =
    allocate_exact_middle 24 8 1 exact_middle (omega arith) (omega arith) refl refl (omega arith)
      (omega arith) (omega arith)

allocate_misaligns_example :
    (p : Ptr) × (s' : FreeListAllocator) × (allocate release c_free_list_thread_policy 24 16 ready
      ≡ ok (p, s'))
    × (p % 16 ≡ 8)
    × (allocate debug c_free_list_thread_policy 24 16 ready ≡ aborted)
unfolding init reset required_size find_free_mem_block_index should_full_merge max_free_mem_blocks
    search update
allocate_misaligns_example =
    allocate_misaligns 24 0 ready [] ready-Inv (omega arith) refl (omega arith) refl

allocate-free_example :
    (s' : FreeListAllocator) × ((free release c_merge_policy c_free_list_thread_policy
          (one_used.start_ptr + used_block.mem_block_offset + 8)
          one_used
        >>= λ r. allocate release c_free_list_thread_policy 24 8 r.1)
      ≡ ok (one_used.start_ptr + used_block.mem_block_offset + 8, s'))
    × (s'.used ≡ one_used.used)
    × (s'.curr_size ≡ one_used.curr_size)
    × (s'.block (one_used.curr_size - 1) ≡ one_used.block (one_used.curr_size + 1))
    × ((j : ℕ) → j < one_used.curr_size - 1 → s'.block j ≡ one_used.block j)
unfolding init reset max_free_mem_blocks
allocate-free_example =
    allocate-free 24 one_used [] used_block [] met.1 (omega arith) refl (omega arith)
