-- ===== src/FreeList/Split.antt =====
-- What Allocate of src/FreeListAllocator.h makes of the table: a block gives its front.
use native.Mathlib.Decide.{ℕ_discrete}
use memory_allocators.Base.{
  ℕ, ◌+◌, ◌-◌, ◌^◌, ◌<◌, ◌≡◌, ◌≢◌, refl, List, [], ◌∷◌, some, arith, add64, sub64, to_u32, ltb-true,
  ok, update, update_self, update_ne, total-update, le-total,
}
use memory_allocators.FreeList.Table.{MemBlock, mem_block, FreeMemBlocks}
use memory_allocators.FreeList.Cover.{covers, size_of, covered, free_size, covers_pos, Entries}
use memory_allocators.FreeList.Invariant.{in_use, AllUsed, Inv}
use memory_allocators.FreeList.{FreeListAllocator, take_front}

-- The table and the allocator behind the block at `i` has given `required` bytes.
abbrev pub split : ℕ → ℕ → FreeMemBlocks → FreeMemBlocks
split required i t = record t {
  block =
      update t.block i
        (mem_block ((t.block i).mem_block_offset + required) ((t.block i).block_size - required));
}

abbrev pub front : ℕ → ℕ → FreeMemBlocks → MemBlock
front required i t = mem_block (t.block i).mem_block_offset required

abbrev pub given : ℕ → ℕ → FreeListAllocator → FreeListAllocator
given required i s = record s {
  base = record (s.base) { used = s.used + required };
  free_mem_blocks = split required i s.free_mem_blocks;
  memory = update s.memory (s.start_ptr + (s.block i).mem_block_offset) (some required);
}

module _ (required i : ℕ) (t : FreeMemBlocks) (inside : i < t.curr_size)
    (larger : required < (t.block i).block_size) where
  free_size-split : free_size (split required i t) + required ≡ free_size t
  free_size-split = omega (
    arith,
    total-update size_of t.curr_size t.block i
        (mem_block ((t.block i).mem_block_offset + required) ((t.block i).block_size - required))
        inside,
  )

  covered-split :
      (x : ℕ) → covered x (split required i t) + covers x (front required i t) ≡ covered x t
  unfolding covers
  covered-split x = ground (
    arith,
    total-update (covers x) t.curr_size t.block i
        (mem_block ((t.block i).mem_block_offset + required) ((t.block i).block_size - required))
        inside,
  )

  Entries-split : (limit : ℕ) → 0 < required → Entries limit t → Entries limit (split required i t)
  Entries-split limit positive en j l = elim (ℕ_discrete j i) [
    | yes e ↦ rw (e, update_self t.block i _) (omega (arith, en i inside))
    | no e ↦ rw (update_ne t.block i _ j e) (en j l)
  ]

-- A word written where no block in use begins leaves their headers alone.
AllUsed-given :
    (required i : ℕ) (s : FreeListAllocator) (bs : List MemBlock)
    → in_use (s.block i).mem_block_offset bs ≡ 0
    → AllUsed s bs
    → AllUsed (given required i s) bs
AllUsed-given required i s [] e all = tt
AllUsed-given required i s (b ∷ bs) e all = (
  record {
    header =
        rw
          (update_ne s.memory (s.start_ptr + (s.block i).mem_block_offset) (some required)
            (s.start_ptr + b.mem_block_offset) (λ q. ne (omega arith)))
          all.0.header;
    room = all.0.room;
    inside = all.0.inside;
  },
  AllUsed-given required i s bs (omega arith) all.1,
)
  where
    ne : b.mem_block_offset ≢ (s.block i).mem_block_offset
    ne q =
        omega (
          arith,
          covers_pos (s.block i).mem_block_offset b (omega arith) (omega (arith, all.0.room)),
        )

module _ (required i : ℕ) (s : FreeListAllocator) (bs : List MemBlock) (inv : Inv s bs)
    (some_room : 8 < required) (inside : i < s.curr_size)
    (larger : required < (s.block i).block_size) where
  pub take_front-split :
      take_front required i s.free_mem_blocks ≡ ok (split required i s.free_mem_blocks)
  unfolding take_front
  take_front-split =
      let small : (s.block i).block_size < 2 ^ 31 =
        omega (arith, inv.entries i inside, inv.small) in
      let rest : sub64 (s.block i).block_size required ≡ (s.block i).block_size - required =
        omega arith in
      let sum : add64 (s.block i).mem_block_offset (to_u32 required)
          ≡ (s.block i).mem_block_offset + required =
        omega (arith, inv.entries i inside, inv.small) in
      let same : to_u32 ((s.block i).block_size - required) ≡ (s.block i).block_size - required =
        omega arith in
      rw (rest, ltb-true 0 ((s.block i).block_size - required) (omega arith), sum, same) refl

  -- No block in use begins where the new one does.
  front_is_free : in_use (s.block i).mem_block_offset bs ≡ 0
  front_is_free =
      let x : ℕ = (s.block i).mem_block_offset in
      ground (
        arith,
        inv.once x,
        le-total (covers x) s.curr_size s.block i inside,
        covers_pos x (s.block i),
      )

  pub given-Inv : Inv (given required i s) (front required i s.free_mem_blocks ∷ bs)
  given-Inv = record {
    held = inv.held;
    fits = inv.fits;
    small = inv.small;
    room = inv.room;
    entries =
        Entries-split required i s.free_mem_blocks inside larger s.total_size (omega arith)
          inv.entries;
    once =
        λ x. omega (arith, inv.once x, covered-split required i s.free_mem_blocks inside larger x);
    accounted =
        omega (arith, inv.accounted, free_size-split required i s.free_mem_blocks inside larger);
    counted = omega (arith, inv.counted);
    all_used = (
      record {
        header = update_self s.memory _ _;
        room = some_room;
        inside = omega (arith, inv.entries i inside);
      },
      AllUsed-given required i s bs front_is_free inv.all_used,
    );
  }
