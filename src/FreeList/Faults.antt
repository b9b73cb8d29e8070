-- ===== src/FreeList/Faults.antt =====
-- Requests that Allocate and Free of src/FreeListAllocator.h get wrong.
use memory_allocators.Base.{
  ℕ, ◌+◌, ◌-◌, ◌%◌, ◌^◌, ◌≤◌, ◌<◌, ◌≡◌, ◌≢◌, refl, ◌∙◌, List, none, some, arith, Ptr, null, true,
  false, add64, sub64, ltb-true, ==_false, Build, debug, release, ok, aborted, faulted, blocked,
  swap, update, update_ne,
}
use memory_allocators.Interface.{ThreadPolicy, enable_spin_lock}
use memory_allocators.FreeList.Table.{MemBlock, max_free_mem_blocks}
use memory_allocators.FreeList.{
  FreeListAllocator, MergePolicy, c_free_list_thread_policy, take_front, required_size,
  find_free_mem_block_index, allocate_at, allocate_found, allocate, free,
}
use memory_allocators.FreeList.Cover.{end_of}
use memory_allocators.FreeList.Invariant.{Inv}
use memory_allocators.FreeList.Find.{find_some}
use memory_allocators.FreeList.Split.{given, take_front-split}
use memory_allocators.FreeList.Allocate.{allocate_unlocked, allocate-Inv}

required_size-lt : (size alignment : ℕ) → required_size size alignment < 2 ^ 64
unfolding required_size
required_size-lt size alignment = omega arith

-- An exact fit leaves nothing of the block.
nothing_left :
    (n size alignment : ℕ)
    → n ≡ required_size size alignment
    → sub64 n (required_size size alignment) ≡ 0
nothing_left n size alignment e = omega (arith, required_size-lt size alignment)

-- A request, in both builds, whose best fit is the first entry and fits exactly: the swap with the
-- entry in front of it is out of range.
pub allocate_exact_first :
    (b : Build) (size alignment : ℕ) (s : FreeListAllocator)
    → 0 < alignment
    → find_free_mem_block_index (required_size size alignment) s ≡ some 0
    → (s.block 0).block_size ≡ required_size size alignment
    → allocate b c_free_list_thread_policy size alignment s ≡ faulted
unfolding allocate_found allocate_at take_front
allocate_exact_first b size alignment s positive e exact =
    allocate_unlocked b size alignment s positive
    ∙ rw (e, nothing_left (s.block 0).block_size size alignment exact) refl

-- A request of a release build whose best fit is an entry between the first and the last and fits
-- exactly, while the array is not full: the block is handed out, and stays in the table of free
-- blocks.
pub allocate_exact_middle :
    (size alignment i : ℕ) (s : FreeListAllocator)
    → 0 < alignment
    → s.start_ptr ≢ null
    → find_free_mem_block_index (required_size size alignment) s ≡ some i
    → (s.block i).block_size ≡ required_size size alignment
    → 0 < i
    → i + 1 < s.curr_size
    → s.curr_size < max_free_mem_blocks
    → (s' : FreeListAllocator) × (allocate release c_free_list_thread_policy size alignment s
        ≡ ok (add64 (add64 s.start_ptr (s.block i).mem_block_offset) 8, s'))
      × (i < s'.curr_size)
      × (s'.block i ≡ s.block i)
unfolding allocate_found allocate_at take_front swap
allocate_exact_middle size alignment i s positive held e exact first last space = (
  record s {
    base = record (s.base) { used = add64 s.used (required_size size alignment) };
    free_mem_blocks = record {
      curr_size = s.curr_size - 1;
      block = swap s.block (i - 1) s.curr_size;
    };
    memory =
        update s.memory (add64 s.start_ptr (s.block i).mem_block_offset)
          (some (required_size size alignment));
  },
  allocate_unlocked release size alignment s positive
      ∙ rw
          (
            e,
            nothing_left (s.block i).block_size size alignment exact,
            ltb-true 0 i first,
            ltb-true s.curr_size max_free_mem_blocks space,
            ==_false s.start_ptr 0 held,
          )
          refl,
  omega arith,
  update_ne (update s.block (i - 1) (s.block s.curr_size)) s.curr_size (s.block (i - 1)) i
        (omega arith)
      ∙ update_ne s.block (i - 1) (s.block s.curr_size) i (omega arith),
)

required_size_wraps :
    (size : ℕ) → size < 2 ^ 31 → required_size (2 ^ 32 + size) 8 ≡ required_size size 8
unfolding required_size
required_size_wraps size small = omega arith

-- The size is cut to 32 bits before the header is added: for a size below 2 ^ 31 and alignment 8 a
-- request for 2 ^ 32 bytes more ends in the same way, in both builds.
pub allocate_truncates :
    (b : Build) (policy : ThreadPolicy) (size : ℕ) (s : FreeListAllocator)
    → size < 2 ^ 31
    → allocate b policy (2 ^ 32 + size) 8 s ≡ allocate b policy size 8 s
unfolding allocate
allocate_truncates b policy size s small = rw (required_size_wraps size small) refl

-- The header moves the data by one word. Where a request for alignment 16 is met from a larger block
-- that lies at a multiple of 16, a release build answers an address 8 behind a multiple of 16, and a
-- debug build stops at its own assertion. Nothing is said of blocks elsewhere.
pub allocate_misaligns :
    (size i : ℕ) (s : FreeListAllocator) (bs : List MemBlock)
    → Inv s bs
    → size < 2 ^ 30
    → find_free_mem_block_index (required_size size 16) s ≡ some i
    → required_size size 16 < (s.block i).block_size
    → (s.start_ptr + (s.block i).mem_block_offset) % 16 ≡ 0
    → (p : Ptr) × (s' : FreeListAllocator) × (allocate release c_free_list_thread_policy size 16 s
        ≡ ok (p, s'))
      × (p % 16 ≡ 8)
      × (allocate debug c_free_list_thread_policy size 16 s ≡ aborted)
unfolding allocate_found allocate_at
allocate_misaligns size i s bs inv small e larger aligned =
    let met = allocate-Inv size 16 i s bs inv (omega arith) (omega arith) e larger in
    let best = find_some (required_size size 16) s bs inv i e in
    let end : end_of (s.block i) ≤ s.total_size = (inv.entries i best.0).1 in
    let taken =
      take_front-split (required_size size 16) i s bs inv (omega (arith, met.2)) best.0 larger in
    let off : add64 (add64 s.start_ptr (s.block i).mem_block_offset) 8 % 16 ≢ 0 =
      omega (arith, inv.fits) in
    (
      s.start_ptr + (s.block i).mem_block_offset + 8,
      given (required_size size 16) i s,
      met.0,
      omega arith,
      allocate_unlocked debug size 16 s (omega arith)
          ∙ rw
              (
                e,
                taken,
                ==_false (add64 (add64 s.start_ptr (s.block i).mem_block_offset) 8 % 16) 0 off,
              )
              refl,
    )

allocate_locks :
    (size alignment : ℕ) (s : FreeListAllocator)
    → 0 < alignment
    → s.spinlock ≡ false
    → let s' = record s { spinlock = true } in
      allocate release enable_spin_lock size alignment s
      ≡ allocate_found release enable_spin_lock
          (required_size size alignment)
          alignment
          (find_free_mem_block_index (required_size size alignment) s')
          s'
unfolding allocate
allocate_locks size alignment s positive idle = rw (ltb-true 0 alignment positive, idle) refl

-- With ENABLE_SPIN_LOCK a request that finds no block returns with the lock held: whatever is called
-- next waits for ever.
pub allocate_keeps_lock :
    (size alignment n a : ℕ) (b : Build) (m : MergePolicy) (p : Ptr) (s : FreeListAllocator)
    → 0 < alignment
    → 0 < a
    → s.spinlock ≡ false
    → find_free_mem_block_index (required_size size alignment) (record s { spinlock = true }) ≡ none
    → let s' = record s { spinlock = true } in
      (allocate release enable_spin_lock size alignment s ≡ ok (null, s'))
      × (allocate b enable_spin_lock n a s' ≡ blocked)
      × (free b m enable_spin_lock p s' ≡ blocked)
unfolding allocate free allocate_found
allocate_keeps_lock size alignment n a b m p s positive positive' idle e = (
  allocate_locks size alignment s positive idle ∙ rw e refl,
  rw (ltb-true 0 a positive') refl,
  refl,
)
