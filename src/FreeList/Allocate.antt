-- ===== src/FreeList/Allocate.antt =====
-- Allocate of src/FreeListAllocator.h.
use memory_allocators.Base.{
  ℕ, ◌+◌, ◌^◌, ◌≤◌, ◌<◌, ◌≡◌, refl, null, aborted, List, ◌∷◌, none, some, arith, add64, ltb-true,
  ==_false, Build, debug, release, ok,
}
use memory_allocators.FreeList.Table.{MemBlock}
use memory_allocators.FreeList.Find.{find_some}
use memory_allocators.Padding.{padding, padding_bounds}
use memory_allocators.FreeList.Split.{front, given, take_front-split, given-Inv}
use memory_allocators.FreeList.Invariant.{Inv}
use memory_allocators.FreeList.{
  FreeListAllocator, c_free_list_thread_policy, allocation_header_size, required_size, allocate_at,
  allocate_found, allocate, find_free_mem_block_index,
}

-- requiredSize where nothing wraps: the header, the data and the padding.
pub required_size_lem :
    (size alignment : ℕ)
    → 0 < alignment
    → size + alignment < 2 ^ 31
    → required_size size alignment ≡ 8 + size + padding (8 + size) alignment
unfolding required_size padding
required_size_lem size alignment positive small =
    let e : add64 allocation_header_size size ≡ 8 + size = omega arith in
    rw (e, required_size) (omega arith)

module _ (required i : ℕ) (s : FreeListAllocator) (bs : List MemBlock) (inv : Inv s bs)
    (some_room : 8 < required) (inside : i < s.curr_size)
    (larger : required < (s.block i).block_size) where
  allocate_at_lem :
      (alignment : ℕ)
      → allocate_at release c_free_list_thread_policy required alignment i s
        ≡ ok (s.start_ptr + (s.block i).mem_block_offset + 8, given required i s)
  unfolding allocate_at
  allocate_at_lem alignment =
      let header : add64 s.start_ptr (s.block i).mem_block_offset
          ≡ s.start_ptr + (s.block i).mem_block_offset =
        omega (arith, inv.entries i inside, inv.fits) in
      let result : add64 (s.start_ptr + (s.block i).mem_block_offset) 8
          ≡ s.start_ptr + (s.block i).mem_block_offset + 8 =
        omega (arith, inv.entries i inside, inv.fits) in
      let sum : add64 s.used required ≡ s.used + required =
        omega (arith, inv.entries i inside, inv.accounted, inv.small) in
      rw
        (
          take_front-split required i s bs inv some_room inside larger,
          ==_false s.start_ptr 0 (omega (arith, inv.held)),
          header,
          result,
          sum,
        )
        refl

-- Allocate without the lock
pub allocate_unlocked :
    (b : Build) (size alignment : ℕ) (s : FreeListAllocator)
    → 0 < alignment
    → let required = required_size size alignment in
      allocate b c_free_list_thread_policy size alignment s
      ≡ allocate_found b c_free_list_thread_policy required alignment
          (find_free_mem_block_index required s)
          s
unfolding allocate
allocate_unlocked b size alignment s positive = rw (ltb-true 0 alignment positive) refl

-- A request of a release build, with size and alignment below 2 ^ 31 together, that finds a block
-- larger than it needs is met from the front of that block, behind a header that holds the required
-- size, which has room for the data and its header; every byte stays in one free block or one block
-- in use.
pub allocate-Inv :
    (size alignment i : ℕ) (s : FreeListAllocator) (bs : List MemBlock)
    → Inv s bs
    → 0 < alignment
    → size + alignment < 2 ^ 31
    → find_free_mem_block_index (required_size size alignment) s ≡ some i
    → required_size size alignment < (s.block i).block_size
    → let required = required_size size alignment in
      let s' = given required i s in
      (allocate release c_free_list_thread_policy size alignment s
        ≡ ok (s.start_ptr + (s.block i).mem_block_offset + 8, s'))
      × Inv s' (front required i s.free_mem_blocks ∷ bs)
      × (8 + size < required)
      × (required ≤ 8 + size + alignment)
unfolding allocate_found
allocate-Inv size alignment i s bs inv positive small e larger =
    let r : ℕ = required_size size alignment in
    let lem = required_size_lem size alignment positive small in
    let pad = padding_bounds (8 + size) alignment positive (omega arith) in
    let room : 8 < r = omega (arith, lem, pad) in
    let best = find_some r s bs inv i e in
    (
      rw (allocate_unlocked release size alignment s positive, e)
          (allocate_at_lem r i s bs inv room best.0 larger alignment),
      given-Inv r i s bs inv room best.0 larger,
      omega (arith, lem, pad),
      omega (arith, lem, pad),
    )

-- A request that finds no block is answered by null and changes nothing; a debug build stops.
pub allocate_none :
    (size alignment : ℕ) (s : FreeListAllocator)
    → 0 < alignment
    → find_free_mem_block_index (required_size size alignment) s ≡ none
    → (allocate release c_free_list_thread_policy size alignment s ≡ ok (null, s))
      × (allocate debug c_free_list_thread_policy size alignment s ≡ aborted)
unfolding allocate_found
allocate_none size alignment s positive e = (
  rw (allocate_unlocked release size alignment s positive, e) refl,
  rw (allocate_unlocked debug size alignment s positive, e) refl,
)
