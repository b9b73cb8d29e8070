-- ===== src/FreeList/Table.antt =====
-- `m_freeMemBlocks` and `m_currSize` of src/FreeListAllocator.h: search and merging.
use memory_allocators.Base.{
  ℕ, zero, suc, ◌+◌, ◌-◌, ◌*◌, ◌/◌, ◌%◌, ◌^◌, Bool, ◌&&◌, Option, some, add64, sub64, word_size,
  ltb, leb, ◌==◌, if◌then◌else◌, update, swap,
}

pub record MemBlock : Type 0 where
  pub mem_block_offset : ℕ
  pub block_size : ℕ

abbrev pub mem_block : ℕ → ℕ → MemBlock
mem_block offset size = record { mem_block_offset = offset; block_size = size }

-- The length of `m_freeMemBlocks`, for a 64-bit target: `AllocatorInterface` is its virtual table and
-- two words, a `Spinlock` one byte, a `MemBlock` two words.
abbrev pub c_l1_size : ℕ
c_l1_size = 32768

abbrev pub c_free_mem_blocks_size : ℕ
c_free_mem_blocks_size = c_l1_size

unfoldable pub max_free_mem_blocks : ℕ
max_free_mem_blocks =
    (c_free_mem_blocks_size - 3 * word_size - word_size - word_size - 1) / (2 * word_size)

pub record FreeMemBlocks : Type 0 where
  pub curr_size : ℕ
  pub block : ℕ → MemBlock

unfoldable pub should_full_merge : FreeMemBlocks → Bool
should_full_merge t = t.curr_size == max_free_mem_blocks

-- static_cast<int> of a `std::size_t`, and back: a 32-bit pattern from 2 ^ 31 on is negative.
abbrev pub through_int : ℕ → ℕ
through_int a = if ltb (a % 2 ^ 32) (2 ^ 31) then a % 2 ^ 32 else a % 2 ^ 32 + (2 ^ 64 - 2 ^ 32)

-- The test of the loop in FindFreeMemBlockIndex
abbrev pub fits_better : MemBlock → ℕ → ℕ → Bool
fits_better b size smallest_diff =
    leb size b.block_size && ltb (sub64 (through_int b.block_size) size) smallest_diff

-- The loop, over the indices below `n` from the last to the first
unfoldable pub search : (ℕ → MemBlock) → ℕ → ℕ → ℕ → Option ℕ → Option ℕ
search f size zero smallest_diff best = best
search f size (suc i) smallest_diff best =
    let better = fits_better (f i) size smallest_diff in
    search f size i (if better then sub64 (f i).block_size size else smallest_diff)
      (if better then some i else best)

-- `b` becomes entry `i`, and the last entry takes the place of the one at `pivot`.
unfoldable pub absorb : ℕ → ℕ → MemBlock → FreeMemBlocks → FreeMemBlocks
absorb pivot i b t = record {
  curr_size = t.curr_size - 1;
  block = swap (update t.block i b) pivot (t.curr_size - 1);
}

-- The loop of FastMergeMemBlocks, over the indices below `n` from the last to the first
unfoldable pub fast_merge_below : ℕ → ℕ → FreeMemBlocks → FreeMemBlocks
fast_merge_below pivot zero t = t
fast_merge_below pivot (suc i) t =
    let b = t.block i in
    let p = t.block pivot in
    let rest = fast_merge_below pivot i t in
    if add64 b.mem_block_offset b.block_size == p.mem_block_offset
    then absorb pivot i (mem_block b.mem_block_offset (add64 b.block_size p.block_size)) t
    else if b.mem_block_offset == add64 p.mem_block_offset p.block_size
    then absorb pivot i (mem_block p.mem_block_offset (add64 b.block_size p.block_size)) t
    else rest

-- FastMergeMemBlocks
unfoldable pub fast_merge : ℕ → FreeMemBlocks → FreeMemBlocks
fast_merge pivot t = fast_merge_below pivot pivot t

-- The loop of FullMergeMemBlocks, over the indices below `n` from the last to the first
unfoldable pub full_merge_below : ℕ → FreeMemBlocks → FreeMemBlocks
full_merge_below zero t = t
full_merge_below (suc i) t = full_merge_below i (fast_merge i t)

unfoldable pub full_merge : FreeMemBlocks → FreeMemBlocks
full_merge t = full_merge_below t.curr_size t
