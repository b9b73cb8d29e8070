-- ===== src/FreeList/Merge.antt =====
-- Merging keeps the covered bytes: src/FreeListAllocator.h, FastMergeMemBlocks and FullMergeMemBlocks.
use native.Mathlib.Decide.{ℕ_discrete}
use memory_allocators.Base.{
  ℕ, zero, suc, ◌+◌, ◌-◌, ◌^◌, ◌≤◌, ◌<◌, ◌≡◌, refl, ap, Bool, ◌∙◌, inl, inr, arith, add64, ◌==◌,
  if◌then◌else◌, Bool-cases, update, swap, update_ne, total, total-update, total-suc, swap_right,
  total-swap,
}
use memory_allocators.FreeList.Table.{MemBlock, mem_block, FreeMemBlocks, absorb, fast_merge_below}
use memory_allocators.FreeList.Cover.{Adjacent, Joins, Entries}

total_absorb :
    (w : MemBlock → ℕ) (f : ℕ → MemBlock) (i p n : ℕ) (b : MemBlock)
    → i < p
    → p < suc n
    → w b ≡ w (f i) + w (f p)
    → total w n (swap (update f i b) p n) ≡ total w (suc n) f
total_absorb w f i p n b h k s =
    let g : ℕ → MemBlock = update f i b in
    omega (
      arith,
      total-suc w n (swap g p n),
      ap w (swap_right g p n ∙ update_ne f i b p (omega arith)),
      total-swap w (suc n) g p n k (omega arith),
      total-update w (suc n) f i b (omega arith),
    )

-- The sum of a weight that the merge of the blocks at `i` and `p` keeps.
pub total-absorb :
    (w : MemBlock → ℕ) (p i : ℕ) (b : MemBlock) (t : FreeMemBlocks)
    → i < p
    → p < t.curr_size
    → w b ≡ w (t.block i) + w (t.block p)
    → total w (absorb p i b t).curr_size (absorb p i b t).block ≡ total w t.curr_size t.block
unfolding absorb
total-absorb w p i b t h k s =
    total_absorb w t.block i p (t.curr_size - 1) b h (omega arith) s
    ∙ ap (λ n. total w n t.block) (omega arith)

pub curr_size-absorb :
    (p i : ℕ) (b : MemBlock) (t : FreeMemBlocks) → (absorb p i b t).curr_size ≡ t.curr_size - 1
unfolding absorb
curr_size-absorb p i b t = refl

-- Entry `j` behind the merge of the blocks at `i` and `p`.
pub absorb-entry :
    (p i : ℕ) (b : MemBlock) (t : FreeMemBlocks) (j : ℕ)
    → i < p
    → j < t.curr_size - 1
    → (absorb p i b t).block j
      ≡ (if j == i then b else if j == p then t.block (t.curr_size - 1) else t.block j)
unfolding absorb swap update
absorb-entry p i b t j h k = ground arith

-- What the loop of FastMergeMemBlocks makes of a table: nothing, if none of the `n` blocks borders
-- on the one at `pivot`; or the two are one block.
pub data Merged (pivot n : ℕ) (t u : FreeMemBlocks) : Type 0 where
  apart : u ≡ t → ((i : ℕ) → i < n → ¬ Adjacent (t.block i) (t.block pivot)) → Merged pivot n t u
  joined :
      (i : ℕ) (b : MemBlock)
      → u ≡ absorb pivot i b t
      → i < n
      → Joins (t.block i) (t.block pivot) b
      → Merged pivot n t u

-- A further block that does not border on the one at `pivot`.
Merged-suc :
    (pivot n : ℕ) (t u : FreeMemBlocks)
    → Merged pivot n t u
    → ¬ Adjacent (t.block n) (t.block pivot)
    → Merged pivot (suc n) t u
Merged-suc pivot n t u (apart e far) here =
    apart e
      λ i l. elim (ℕ_discrete i n) [ yes same ↦ rw same here | no other ↦ far i (omega arith) ]
Merged-suc pivot n t u (joined i b e l j) here = joined i b e (omega arith) j

pub fast_merge_below-Merged :
    (limit pivot n : ℕ) (t : FreeMemBlocks)
    → limit < 2 ^ 63
    → Entries limit t
    → n ≤ pivot
    → pivot < t.curr_size
    → Merged pivot n t (fast_merge_below pivot n t)
unfolding fast_merge_below
fast_merge_below-Merged limit pivot zero t small en h k = apart refl (λ i l. absurd (omega arith))
fast_merge_below-Merged limit pivot (suc n) t small en h k = elim (Bool-cases before) [
  | inl e ↦ rw e (joined n low refl (omega arith) (ground (arith, en n, en pivot)))
  | inr e ↦ rw e (elim (Bool-cases behind) [
    | inl f ↦ rw f (joined n high refl (omega arith) (ground (arith, en n, en pivot)))
    | inr f ↦ rw f (
        Merged-suc pivot n t _ (fast_merge_below-Merged limit pivot n t small en (omega arith) k)
          (ground (arith, en n, en pivot)))
  ])
]
  where
    b : MemBlock
    b = t.block n

    q : MemBlock
    q = t.block pivot

    before : Bool
    before = add64 b.mem_block_offset b.block_size == q.mem_block_offset

    behind : Bool
    behind = b.mem_block_offset == add64 q.mem_block_offset q.block_size

    low : MemBlock
    low = mem_block b.mem_block_offset (add64 b.block_size q.block_size)

    high : MemBlock
    high = mem_block q.mem_block_offset (add64 b.block_size q.block_size)
