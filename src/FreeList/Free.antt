-- ===== src/FreeList/Free.antt =====
-- Free, Reset and FullMergeMemBlocks of src/FreeListAllocator.h.
use memory_allocators.Base.{
  ℕ, ◌+◌, ◌-◌, ◌^◌, ◌≤◌, ◌<◌, ◌≡◌, refl, ap, ap₂, ◌∙◌, List, [], ◌∷◌, ◌++◌, arith, Ptr, sub64,
  to_u32, true, inl, inr, Bool-cases, ==_false, Build, debug, release, ok, update, update_self,
  update_ne, total, total-suc, total-update_above,
}
use native.Mathlib.Numerals.{add-one}
use native.Mathlib.Decide.{ℕ_discrete}
use memory_allocators.FreeList.Table.{
  MemBlock, FreeMemBlocks, should_full_merge, max_free_mem_blocks,
}
use memory_allocators.FreeList.Cover.{covers, size_of, end_of, Entries}
use memory_allocators.FreeList.FullMerge.{Keeps, Keeps-refl, full_merge-Keeps}
use memory_allocators.FreeList.Invariant.{in_use-append, size_in_use-append, IsUsed, AllUsed, Inv}
use memory_allocators.FreeList.{
  FreeListAllocator, c_merge_policy, c_free_list_thread_policy, merge_by, free_at, free,
}

-- The allocator with another table and count, over the same memory.
abbrev pub with_table : FreeListAllocator → ℕ → FreeMemBlocks → FreeListAllocator
with_table s used t = record s { base = record (s.base) { used = used }; free_mem_blocks = t }

AllUsed-with_table :
    (s : FreeListAllocator) (used : ℕ) (t : FreeMemBlocks) (bs : List MemBlock)
    → AllUsed s bs
    → AllUsed (with_table s used t) bs
AllUsed-with_table s used t [] all = tt
AllUsed-with_table s used t (b ∷ bs) all = (
  record { header = all.0.header; room = all.0.room; inside = all.0.inside },
  AllUsed-with_table s used t bs all.1,
)

pub AllUsed-remove :
    (s : FreeListAllocator) (xs : List MemBlock) (b : MemBlock) (ys : List MemBlock)
    → AllUsed s (xs ++ b ∷ ys)
    → IsUsed s b × AllUsed s (xs ++ ys)
AllUsed-remove s [] b ys all = all
AllUsed-remove s (x ∷ xs) b ys all =
    let (here, rest) = AllUsed-remove s xs b ys all.1 in (here, (all.0, rest))

-- A table with the same free bytes serves as well.
pub Inv-Keeps :
    (s : FreeListAllocator) (bs : List MemBlock) (t : FreeMemBlocks)
    → Inv s bs
    → Keeps s.total_size s.free_mem_blocks t
    → Inv (with_table s s.used t) bs
Inv-Keeps s bs t inv k = record {
  held = inv.held;
  fits = inv.fits;
  small = inv.small;
  room = omega (arith, inv.room, k.fewer);
  entries = k.entries;
  once = λ x. omega (arith, inv.once x, k.cover x);
  accounted = omega (arith, inv.accounted, k.sizes);
  counted = inv.counted;
  all_used = AllUsed-with_table s s.used t bs inv.all_used;
}

-- The table behind the block `b` is appended.
abbrev pub extended : MemBlock → FreeMemBlocks → FreeMemBlocks
extended b t = record { curr_size = t.curr_size + 1; block = update t.block t.curr_size b }

total-extended :
    (w : MemBlock → ℕ) (b : MemBlock) (t : FreeMemBlocks)
    → total w (t.curr_size + 1) (extended b t).block ≡ total w t.curr_size t.block + w b
total-extended w b t = rw (add-one t.curr_size) (
    total-suc w t.curr_size (extended b t).block
    ∙ ap₂ ◌+◌ (total-update_above w t.curr_size t.block t.curr_size b (omega arith))
        (ap w (update_self t.block t.curr_size b)))

Entries-extended :
    (limit : ℕ) (b : MemBlock) (t : FreeMemBlocks)
    → Entries limit t
    → 0 < b.block_size
    → end_of b ≤ limit
    → Entries limit (extended b t)
Entries-extended limit b t en positive inside j l = elim (ℕ_discrete j t.curr_size) [
  | yes e ↦ rw (e, update_self t.block t.curr_size b) (positive, inside)
  | no e ↦ rw (update_ne t.block t.curr_size b j e) (en j (omega arith))
]

module _ (s : FreeListAllocator) (xs : List MemBlock) (b : MemBlock) (ys : List MemBlock)
    (inv : Inv s (xs ++ b ∷ ys)) (space : s.curr_size < max_free_mem_blocks) where
  abbrev returned : FreeListAllocator
  returned = with_table s (s.used - b.block_size) (extended b s.free_mem_blocks)

  returned-Inv : Inv returned (xs ++ ys)
  returned-Inv =
      let (used, rest) = AllUsed-remove s xs b ys inv.all_used in
      record {
        held = inv.held;
        fits = inv.fits;
        small = inv.small;
        room = omega arith;
        entries =
            Entries-extended s.total_size b s.free_mem_blocks inv.entries (omega (arith, used.room))
              used.inside;
        once = λ x. omega (
          arith,
          inv.once x,
          total-extended (covers x) b s.free_mem_blocks,
          in_use-append x xs ys,
          in_use-append x xs (b ∷ ys),
        );
        accounted = omega (
          arith,
          inv.accounted,
          inv.counted,
          total-extended size_of b s.free_mem_blocks,
          size_in_use-append xs (b ∷ ys),
        );
        counted =
            omega (arith, inv.counted, size_in_use-append xs ys, size_in_use-append xs (b ∷ ys));
        all_used = AllUsed-with_table s _ _ (xs ++ ys) rest;
      }

-- The merge that the policy asks for keeps the free bytes.
merge_by-Keeps :
    (limit : ℕ) (t : FreeMemBlocks)
    → limit < 2 ^ 63
    → Entries limit t
    → Keeps limit t (merge_by c_merge_policy t)
unfolding merge_by
merge_by-Keeps limit t small en = elim (Bool-cases (should_full_merge t)) [
  | inl e ↦ rw e (full_merge-Keeps limit small t en).0
  | inr e ↦ rw e (Keeps-refl limit t en)
]

pub free_unlocked :
    (b : Build) (p : Ptr) (s : FreeListAllocator)
    → s.curr_size < max_free_mem_blocks
    → free b c_merge_policy c_free_list_thread_policy p s
      ≡ free_at c_merge_policy c_free_list_thread_policy (sub64 p 8) (s.memory (sub64 p 8)) s
unfolding free should_full_merge
free_unlocked debug p s space = rw (==_false s.curr_size max_free_mem_blocks (omega arith)) refl
free_unlocked release p s space = rw (==_false s.curr_size max_free_mem_blocks (omega arith)) refl

-- While the array has room, to free a block in use, wherever it stands among them, returns in both
-- builds: its bytes are free, the other blocks stay in use, `m_used` falls by its size, and the
-- array has at most one entry more.
pub free-Inv :
    (build : Build) (s : FreeListAllocator) (xs : List MemBlock) (b : MemBlock) (ys : List MemBlock)
    → Inv s (xs ++ b ∷ ys)
    → s.curr_size < max_free_mem_blocks
    → (s' : FreeListAllocator) × (free build c_merge_policy c_free_list_thread_policy
          (s.start_ptr + b.mem_block_offset + 8)
          s
        ≡ ok (true, s'))
      × Inv s' (xs ++ ys)
      × (s'.used + b.block_size ≡ s.used)
      × (s'.total_size ≡ s.total_size)
      × (s'.start_ptr ≡ s.start_ptr)
      × (s'.curr_size ≤ s.curr_size + 1)
unfolding free_at
free-Inv build s xs b ys inv space =
    let used = (AllUsed-remove s xs b ys inv.all_used).0 in
    let t = merge_by c_merge_policy (extended b s.free_mem_blocks) in
    let header : sub64 (s.start_ptr + b.mem_block_offset + 8) 8 ≡ s.start_ptr + b.mem_block_offset =
      omega (arith, used.inside, inv.fits) in
    let offset : to_u32 (sub64 (s.start_ptr + b.mem_block_offset) s.start_ptr)
        ≡ b.mem_block_offset =
      omega (arith, used.inside, inv.fits, inv.small) in
    let less : sub64 s.used b.block_size ≡ s.used - b.block_size =
      omega (arith, inv.counted, inv.accounted, inv.small, size_in_use-append xs (b ∷ ys)) in
    (
      with_table s (s.used - b.block_size) t,
      free_unlocked build (s.start_ptr + b.mem_block_offset + 8) s space
          ∙ rw (header, used.header, offset, less) refl,
      Inv-Keeps (returned s xs b ys inv space) (xs ++ ys) t (returned-Inv s xs b ys inv space) (
          merge_by-Keeps s.total_size _ (omega (arith, inv.small))
            (returned-Inv s xs b ys inv space).entries),
      omega (arith, inv.counted, size_in_use-append xs (b ∷ ys)),
      refl,
      refl,
      (merge_by-Keeps s.total_size _ (omega (arith, inv.small))
          (returned-Inv s xs b ys inv space).entries).fewer,
    )
