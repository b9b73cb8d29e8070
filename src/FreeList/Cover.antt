-- ===== src/FreeList/Cover.antt =====
-- Which bytes the blocks of a table cover, and blocks that border on one another.
use memory_allocators.Base.{
  ℕ, ◌+◌, ◌≤◌, ◌<◌, ◌≡◌, ◌⊎◌, inl, inr, ◌&&◌, arith, ltb, leb, if◌then◌else◌, total,
}
use memory_allocators.FreeList.Table.{MemBlock, FreeMemBlocks}

-- 1 for a byte inside the block, 0 for one outside
unfoldable pub covers : ℕ → MemBlock → ℕ
covers x b = if leb b.mem_block_offset x && ltb x (b.mem_block_offset + b.block_size) then 1 else 0

abbrev pub size_of : MemBlock → ℕ
size_of b = b.block_size

abbrev pub end_of : MemBlock → ℕ
end_of b = b.mem_block_offset + b.block_size

-- How many blocks of the table cover a byte, and the sum of their sizes.
abbrev pub covered : ℕ → FreeMemBlocks → ℕ
covered x t = total (covers x) t.curr_size t.block

abbrev pub free_size : FreeMemBlocks → ℕ
free_size t = total size_of t.curr_size t.block

-- One block ends where the other begins.
abbrev pub Adjacent : MemBlock → MemBlock → Type 0
Adjacent a b = (end_of a ≡ b.mem_block_offset) ⊎ (end_of b ≡ a.mem_block_offset)

pub Adjacent-symm : (a b : MemBlock) → Adjacent a b → Adjacent b a
Adjacent-symm a b (inl h) = inr h
Adjacent-symm a b (inr h) = inl h

-- `c` is what two adjacent blocks make up.
abbrev pub Joins : MemBlock → MemBlock → MemBlock → Type 0
Joins a b c =
    (c.block_size ≡ a.block_size + b.block_size)
    × (((end_of a ≡ b.mem_block_offset) × (c.mem_block_offset ≡ a.mem_block_offset))
        ⊎ ((end_of b ≡ a.mem_block_offset) × (c.mem_block_offset ≡ b.mem_block_offset)))

pub covers-Joins : (x : ℕ) (a b c : MemBlock) → Joins a b c → covers x c ≡ covers x a + covers x b
unfolding covers
covers-Joins x a b c j = ground arith

-- What borders on the joined block borders on one of its parts.
pub Adjacent-Joins : (a b c d : MemBlock) → Joins a b c → Adjacent c d → Adjacent a d ⊎ Adjacent b d
Adjacent-Joins a b c d j h = ground arith

pub covers_inside :
    (x : ℕ) (b : MemBlock) → 0 < covers x b → (b.mem_block_offset ≤ x) × (x < end_of b)
unfolding covers
covers_inside x b h = ground arith

pub covers_pos : (x : ℕ) (b : MemBlock) → b.mem_block_offset ≤ x → x < end_of b → covers x b ≡ 1
unfolding covers
covers_pos x b h k = ground arith

-- The blocks in use are not empty and lie below `limit`.
abbrev pub Entries : ℕ → FreeMemBlocks → Type 0
Entries limit t =
    (i : ℕ) → i < t.curr_size → (0 < (t.block i).block_size) × (end_of (t.block i) ≤ limit)
