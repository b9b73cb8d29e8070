-- ===== src/FreeList/History.antt =====
-- The life of an allocator of src/FreeListAllocator.h: Init, then Allocate and Free in any order.
use memory_allocators.Base.{
  ℕ, ◌+◌, ◌^◌, ◌<◌, ◌≡◌, refl, sym, subst, ◌∙◌, List, [], ◌∷◌, ◌++◌, some, arith, Ptr, true,
  release, Outcome, ok, update, total,
}
use memory_allocators.FreeList.Table.{MemBlock, max_free_mem_blocks, full_merge}
use memory_allocators.FreeList.Cover.{covers}
use memory_allocators.FreeList.FullMerge.{full_merge-Keeps}
use memory_allocators.FreeList.Complete.{one_block}
use memory_allocators.FreeList.Invariant.{Inv}
use memory_allocators.FreeList.Split.{front}
use memory_allocators.FreeList.Allocate.{allocate-Inv}
use memory_allocators.FreeList.Free.{free-Inv}
use memory_allocators.FreeList.{
  FreeListAllocator, c_merge_policy, c_free_list_thread_policy, required_size,
  find_free_mem_block_index, allocate, free, init, reset, full_merge_mem_blocks, is_fully_merged,
}

-- `Init` with a block from `malloc`: all of it is free.
pub init-Inv :
    (fresh : Ptr) (s : FreeListAllocator)
    → 0 < fresh
    → fresh + s.total_size < 2 ^ 64
    → 0 < s.total_size
    → s.total_size < 2 ^ 31
    → Inv (init fresh s).0 []
unfolding init reset max_free_mem_blocks covers total update
init-Inv fresh s held fits positive small = record {
  held = held;
  fits = fits;
  small = small;
  room = omega arith;
  entries = λ i l. ground arith;
  once = λ x. ground arith;
  accounted = omega arith;
  counted = refl;
  all_used = tt;
}

-- A full merge of an allocator that has every block back leaves one free block, as before the first
-- request.
pub full_merge-IsFullyMerged :
    (s : FreeListAllocator)
    → Inv s []
    → 0 < s.total_size
    → is_fully_merged (full_merge_mem_blocks s) ≡ true
unfolding is_fully_merged full_merge_mem_blocks
full_merge-IsFullyMerged s inv positive =
    let (keeps, apart) =
      full_merge-Keeps s.total_size (omega (arith, inv.small)) s.free_mem_blocks inv.entries in
    let (one, first, whole) =
      one_block s.total_size (full_merge s.free_mem_blocks) positive keeps.entries
        (λ x. omega (arith, keeps.cover x, inv.once x)) apart in
    ground (arith, one, first, whole)

-- States that calls lead to, with the blocks in use: a request is met from a block larger than it
-- needs, and a block in use is freed while the array has room.
pub data Reach (s₀ : FreeListAllocator) (fresh : Ptr)
    : FreeListAllocator → List MemBlock → Type 0 where
  inits : Reach s₀ fresh (init fresh s₀).0 []
  allocates :
      {s : FreeListAllocator} {bs : List MemBlock} {p : Ptr} {s' : FreeListAllocator}
      (size alignment i : ℕ)
      → Reach s₀ fresh s bs
      → 0 < alignment
      → size + alignment < 2 ^ 31
      → find_free_mem_block_index (required_size size alignment) s ≡ some i
      → required_size size alignment < (s.block i).block_size
      → allocate release c_free_list_thread_policy size alignment s ≡ ok (p, s')
      → Reach s₀ fresh s' (front (required_size size alignment) i s.free_mem_blocks ∷ bs)
  frees :
      {s : FreeListAllocator} {bs : List MemBlock} {s' : FreeListAllocator} (xs : List MemBlock)
      (b : MemBlock) (ys : List MemBlock)
      → Reach s₀ fresh s bs
      → bs ≡ xs ++ b ∷ ys
      → s.curr_size < max_free_mem_blocks
      → free release c_merge_policy c_free_list_thread_policy
          (s.start_ptr + b.mem_block_offset + 8)
          s
        ≡ ok (true, s')
      → Reach s₀ fresh s' (xs ++ ys)

ok_state :
    {A : Type 0} {a b : A} {s t : FreeListAllocator}
    → ◌≡◌ {A = Outcome (A × FreeListAllocator)} (ok (a, s)) (ok (b, t))
    → s ≡ t
ok_state e = cc

module _ (s₀ : FreeListAllocator) (fresh : Ptr) (held : 0 < fresh)
    (fits : fresh + s₀.total_size < 2 ^ 64) (positive : 0 < s₀.total_size)
    (small : s₀.total_size < 2 ^ 31) where
  -- In every state that calls lead to from `Init` with a block from `malloc` of less than 2 ^ 31
  -- bytes, where each request is met in a release build from a block larger than it needs, with size
  -- and alignment below 2 ^ 31 together, and only blocks in use are freed, while the array has room:
  -- each byte lies in one free block or in one block in use, the headers hold the sizes, and `m_used`
  -- is the sum of the sizes in use. States behind a request that a block meets exactly, or that no
  -- block meets, are not among these.
  pub Reach-Inv :
      {s : FreeListAllocator} {bs : List MemBlock}
      → Reach s₀ fresh s bs
      → Inv s bs × (s.total_size ≡ s₀.total_size)
  unfolding init reset
  Reach-Inv inits = (init-Inv fresh s₀ held fits positive small, refl)
  Reach-Inv (allocates {s} {bs} size alignment i r pos few found larger e) =
      let (inv, same) = Reach-Inv r in
      let (run, inv', _, _) = allocate-Inv size alignment i s bs inv pos few found larger in
      subst
        (λ u.
          Inv u (front (required_size size alignment) i s.free_mem_blocks ∷ bs)
          × (u.total_size ≡ s₀.total_size))
        (ok_state (sym run ∙ e)) (inv', same)
  Reach-Inv (frees {s} {bs} xs b ys r parts space e) =
      let (inv, same) = Reach-Inv r in
      let (t, run, inv', _, total, _, _) =
        free-Inv release s xs b ys (subst (Inv s) parts inv) space in
      subst (λ u. Inv u (xs ++ ys) × (u.total_size ≡ s₀.total_size)) (ok_state (sym run ∙ e))
        (inv', total ∙ same)

  -- In every state that calls lead to from `Init` with a block from `malloc` of less than 2 ^ 31
  -- bytes, where each request is met in a release build from a block larger than it needs, never
  -- exactly, with size and alignment below 2 ^ 31 together, and only blocks in use are freed, while
  -- the array has room: if every block is back, `m_used` is 0, and FullMergeMemBlocks restores the one
  -- free block of the start, as IsFullyMerged tells.
  pub Reach-IsFullyMerged :
      {s : FreeListAllocator}
      → Reach s₀ fresh s []
      → (s.used ≡ 0) × (is_fully_merged (full_merge_mem_blocks s) ≡ true)
  Reach-IsFullyMerged {s} r =
      let (inv, same) = Reach-Inv r in
      (inv.counted, full_merge-IsFullyMerged s inv (rw same positive))
