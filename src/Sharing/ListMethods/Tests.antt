-- ===== src/Sharing/ListMethods/Tests.antt =====
-- Two threads that share a free list of 1024 bytes, and the theorems there.
use memory_allocators.Base.{
  ℕ, zero, suc, ◌≡◌, refl, false, List, [], ◌∷◌, ◌++◌, none, arith, update, swap,
}
use memory_allocators.FreeList.Table.{MemBlock, search, should_full_merge, max_free_mem_blocks}
use memory_allocators.FreeList.{
  FreeListAllocator, free_list_allocator, init, reset, required_size, find_free_mem_block_index,
  take_front, merge_by,
}
use memory_allocators.FreeList.Invariant.{Inv}
use memory_allocators.FreeList.Split.{front}
use memory_allocators.FreeList.History.{init-Inv}
use memory_allocators.Sharing.{Turn, step, run, new, finish}
use memory_allocators.Sharing.ListMethods.{Call, allocates, frees, list_methods}
use memory_allocators.Sharing.ListMethods.Histories.{Calls, stops, takes, gives_back, run-Inv}

abbrev made : FreeListAllocator
made = free_list_allocator 1024 (λ _. none)

abbrev ready : FreeListAllocator
ready = (init 4096 made).0

ready-Inv : Inv ready []
ready-Inv = init-Inv 4096 made (omega arith) (omega arith) (omega arith) (omega arith)

abbrev steps : ℕ → ℕ → Call → List (Turn list_methods)
steps zero i call = []
steps (suc n) i call = record { thread = i; method = call; seen = false } ∷ steps n i call

-- Thread 0 gets the lock and allocates, while thread 1 waits; then thread 1 frees the block.
abbrev meeting : List (Turn list_methods)
meeting =
    steps 5 0 (allocates 24 8)
    ++ steps 3 1 (frees 4104)
    ++ steps 6 0 (allocates 24 8)
    ++ steps 11 1 (frees 4104)

meeting-clear : (run list_methods meeting (new list_methods ready)).flag ≡ false
unfolding run step init reset required_size find_free_mem_block_index should_full_merge
    max_free_mem_blocks search update swap take_front merge_by
meeting-clear = refl

abbrev block : MemBlock
block = front (required_size 24 8) 0 ready.free_mem_blocks

meeting-Calls : Calls ready [] (run list_methods meeting (new list_methods ready)).entered []
unfolding run step init reset required_size find_free_mem_block_index should_full_merge
    max_free_mem_blocks search update swap take_front merge_by finish
meeting-Calls =
    takes 24 8 0 (omega arith) (omega arith) refl (omega arith)
      (gives_back [] block [] 4104 refl refl (omega arith) stops)

run-Inv_example : Inv (run list_methods meeting (new list_methods ready)).shared []
run-Inv_example = run-Inv ready [] ready-Inv meeting [] meeting-Calls meeting-clear
