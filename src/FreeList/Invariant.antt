-- ===== src/FreeList/Invariant.antt =====
-- The invariant of src/FreeListAllocator.h: every byte of the memory lies in one free block or in one
-- block in use, whose header holds its size.
use memory_allocators.Base.{
  ℕ, ◌+◌, ◌^◌, ◌≤◌, ◌<◌, ◌≡◌, List, [], ◌∷◌, ◌++◌, some, arith, ltb, if◌then◌else◌,
}
use memory_allocators.FreeList.Table.{MemBlock, max_free_mem_blocks}
use memory_allocators.FreeList.Cover.{covers, end_of, covered, free_size, Entries}
use memory_allocators.FreeList.{FreeListAllocator}

-- How many of the blocks in use hold a byte, and the sum of their sizes.
abbrev pub in_use : ℕ → List MemBlock → ℕ
in_use x [] = 0
in_use x (b ∷ bs) = covers x b + in_use x bs

abbrev pub size_in_use : List MemBlock → ℕ
size_in_use [] = 0
size_in_use (b ∷ bs) = b.block_size + size_in_use bs

pub in_use-append :
    (x : ℕ) (bs cs : List MemBlock) → in_use x (bs ++ cs) ≡ in_use x bs + in_use x cs
in_use-append x [] cs = omega arith
in_use-append x (b ∷ bs) cs = omega (arith, in_use-append x bs cs)

pub size_in_use-append :
    (bs cs : List MemBlock) → size_in_use (bs ++ cs) ≡ size_in_use bs + size_in_use cs
size_in_use-append [] cs = omega arith
size_in_use-append (b ∷ bs) cs = omega (arith, size_in_use-append bs cs)

-- A block in use: its header holds its size, and it lies in the memory.
pub record IsUsed (s : FreeListAllocator) (b : MemBlock) : Type 0 where
  pub header : s.memory (s.start_ptr + b.mem_block_offset) ≡ some b.block_size
  pub room : 8 < b.block_size
  pub inside : end_of b ≤ s.total_size

abbrev pub AllUsed : FreeListAllocator → List MemBlock → Type 0
AllUsed s [] = Unit {0}
AllUsed s (b ∷ bs) = IsUsed s b × AllUsed s bs

-- The limit on the size keeps `static_cast<int>` of a block size from going negative.
pub record Inv (s : FreeListAllocator) (used_blocks : List MemBlock) : Type 0 where
  pub held : 0 < s.start_ptr
  pub fits : s.start_ptr + s.total_size < 2 ^ 64
  pub small : s.total_size < 2 ^ 31
  pub room : s.curr_size ≤ max_free_mem_blocks
  pub entries : Entries s.total_size s.free_mem_blocks
  pub once :
      (x : ℕ)
      → covered x s.free_mem_blocks + in_use x used_blocks ≡ (if ltb x s.total_size then 1 else 0)
  pub accounted : free_size s.free_mem_blocks + s.used ≡ s.total_size
  pub counted : s.used ≡ size_in_use used_blocks
  pub all_used : AllUsed s used_blocks
