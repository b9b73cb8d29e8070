-- ===== src/FreeList/Reuse.antt =====
-- Free of src/FreeListAllocator.h, and the next Allocate of the same size: an exact fit at the end of the
-- table.
use native.Mathlib.Numerals.{add-one}
use memory_allocators.Base.{
  ℕ, zero, suc, ◌+◌, ◌-◌, ◌%◌, ◌^◌, ◌<◌, ◌≡◌, refl, sym, ap, ◌∙◌, Bool, true, false, ◌&&◌, List,
  ◌∷◌, ◌++◌, Option, some, arith, null, add64, sub64, to_u32, ltb-true, ltb-false, leb, leb-true,
  ==_false, release, ok, ◌>>=◌, swap, update, update_self, update_ne,
}
use memory_allocators.FreeList.Table.{
  MemBlock, search, fits_better, through_int, should_full_merge, max_free_mem_blocks,
}
use memory_allocators.FreeList.Invariant.{Inv, IsUsed, size_in_use-append}
use memory_allocators.FreeList.{
  FreeListAllocator, c_merge_policy, c_free_list_thread_policy, required_size,
  find_free_mem_block_index, allocate_at, allocate_found, allocate, take_front, free, free_at,
  merge_by,
}
use memory_allocators.FreeList.Allocate.{allocate_unlocked}
use memory_allocators.FreeList.Free.{with_table, extended, free_unlocked, AllUsed-remove}

and-false : (b : Bool) → (b && false) ≡ false
and-false true = refl
and-false false = refl

-- Nothing is better than a difference of 0.
search_stops : (f : ℕ → MemBlock) (size i : ℕ) (best : Option ℕ) → search f size i 0 best ≡ best
unfolding search
search_stops f size zero best = refl
search_stops f size (suc i) best =
    let none_better : fits_better (f i) size 0 ≡ false =
      rw (ltb-false (sub64 (through_int (f i).block_size) size) 0 (omega arith))
        (and-false (leb size (f i).block_size)) in
    rw none_better (search_stops f size i best)

-- An exact fit at the end of the table is found first, and kept.
find_last :
    (size n : ℕ) (s : FreeListAllocator)
    → s.curr_size ≡ suc n
    → suc n < max_free_mem_blocks
    → s.used < s.total_size
    → (s.block n).block_size ≡ size
    → size < 2 ^ 31
    → find_free_mem_block_index size s ≡ some n
unfolding find_free_mem_block_index should_full_merge search
find_last size n s len space left exact small =
    let better : fits_better (s.block n) size (2 ^ 64 - 1) ≡ true =
      let m : size % 2 ^ 32 ≡ size = omega arith in
      rw
        (
          exact,
          m,
          ltb-true size (2 ^ 31) small,
          leb-true size size (omega arith),
          ltb-true (sub64 size size) (2 ^ 64 - 1) (omega arith),
        )
        refl in
    let rest : sub64 (s.block n).block_size size ≡ 0 = omega arith in
    rw
      (
        len,
        ==_false (suc n) 0 (omega arith),
        ==_false (suc n) max_free_mem_blocks (omega arith),
        ==_false s.used s.total_size (omega arith),
        better,
        rest,
      )
      (search_stops s.block size n (some n))

-- The allocator behind both calls
abbrev pub swapped : FreeListAllocator → MemBlock → FreeListAllocator
swapped s b = record s {
  free_mem_blocks = record {
    curr_size = s.curr_size;
    block = swap (update s.block s.curr_size b) (s.curr_size - 1) (s.curr_size + 1);
  };
  memory = update s.memory (s.start_ptr + b.mem_block_offset) (some b.block_size);
}

module _ (size : ℕ) (s : FreeListAllocator) (xs : List MemBlock) (b : MemBlock) (ys : List MemBlock)
    (inv : Inv s (xs ++ b ∷ ys)) (space : s.curr_size + 1 < max_free_mem_blocks)
    (same_size : b.block_size ≡ required_size size 8) where
  block : IsUsed s b
  block = (AllUsed-remove s xs b ys inv.all_used).0

  abbrev between : FreeListAllocator
  between = with_table s (s.used - b.block_size) (extended b s.free_mem_blocks)

  frees :
      free release c_merge_policy c_free_list_thread_policy (s.start_ptr + b.mem_block_offset + 8) s
      ≡ ok (true, between)
  unfolding free_at merge_by should_full_merge
  frees =
      let used = block in
      let header : sub64 (s.start_ptr + b.mem_block_offset + 8) 8
          ≡ s.start_ptr + b.mem_block_offset =
        omega (arith, used.inside, inv.fits) in
      let offset : to_u32 (sub64 (s.start_ptr + b.mem_block_offset) s.start_ptr)
          ≡ b.mem_block_offset =
        omega (arith, used.inside, inv.fits, inv.small) in
      let less : sub64 s.used b.block_size ≡ s.used - b.block_size =
        omega (arith, inv.counted, inv.accounted, inv.small, size_in_use-append xs (b ∷ ys)) in
      free_unlocked release (s.start_ptr + b.mem_block_offset + 8) s (omega arith)
      ∙ rw
          (
            header,
            used.header,
            offset,
            less,
            ==_false (s.curr_size + 1) max_free_mem_blocks (omega arith),
          )
          refl

  finds : find_free_mem_block_index (required_size size 8) between ≡ some s.curr_size
  finds =
      let used = block in
      find_last (required_size size 8) s.curr_size between (add-one s.curr_size) (omega arith)
        (omega (arith, used.room, inv.counted, inv.accounted, size_in_use-append xs (b ∷ ys)))
        (ap (λ c. c.block_size) (update_self s.block s.curr_size b) ∙ same_size)
        (omega (arith, used.inside, inv.small))

  allocates :
      0 < s.curr_size
      → allocate release c_free_list_thread_policy size 8 between
        ≡ ok (s.start_ptr + b.mem_block_offset + 8, swapped s b)
  unfolding allocate_found allocate_at take_front
  allocates some_free =
      let used = block in
      let header : add64 s.start_ptr b.mem_block_offset ≡ s.start_ptr + b.mem_block_offset =
        omega (arith, used.inside, inv.fits) in
      let result : add64 (s.start_ptr + b.mem_block_offset) 8
          ≡ s.start_ptr + b.mem_block_offset + 8 =
        omega (arith, used.inside, used.room, inv.fits) in
      let nothing : sub64 b.block_size b.block_size ≡ 0 = omega (arith, used.inside, inv.small) in
      let sum : add64 (s.used - b.block_size) b.block_size ≡ s.used =
        omega (arith, inv.counted, inv.accounted, inv.small, size_in_use-append xs (b ∷ ys)) in
      let last : s.curr_size + 1 - 1 ≡ s.curr_size = omega arith in
      allocate_unlocked release size 8 between (omega arith)
      ∙ rw
          (
            finds,
            sym same_size,
            update_self s.block s.curr_size b,
            nothing,
            ltb-true 0 s.curr_size some_free,
            ltb-true (s.curr_size + 1) max_free_mem_blocks space,
            ==_false s.start_ptr null (omega (arith, inv.held)),
            header,
            result,
            sum,
            last,
          )
          refl

  -- Free of a block in use, and then a request of a release build that needs just its size, while
  -- the table has a free block and room for two: the request is given the same block, but the last
  -- free block leaves the table, and its place is taken by what the array holds two entries behind,
  -- which is no free block. The count of used bytes is the one before.
  pub allocate-free :
      0 < s.curr_size
      → (s' : FreeListAllocator) × ((free release c_merge_policy c_free_list_thread_policy
              (s.start_ptr + b.mem_block_offset + 8)
              s
            >>= λ r. allocate release c_free_list_thread_policy size 8 r.1)
          ≡ ok (s.start_ptr + b.mem_block_offset + 8, s'))
        × (s'.used ≡ s.used)
        × (s'.curr_size ≡ s.curr_size)
        × (s'.block (s.curr_size - 1) ≡ s.block (s.curr_size + 1))
        × ((j : ℕ) → j < s.curr_size - 1 → s'.block j ≡ s.block j)
  unfolding swap
  allocate-free some_free =
      let extended_block = update s.block s.curr_size b in
      let replaced = update extended_block (s.curr_size - 1) (extended_block (s.curr_size + 1)) in
      let lost = extended_block (s.curr_size - 1) in
      (
        swapped s b,
        rw (frees, allocates some_free) refl,
        refl,
        refl,
        update_ne replaced (s.curr_size + 1) lost (s.curr_size - 1) (omega arith)
            ∙ update_self extended_block (s.curr_size - 1) (extended_block (s.curr_size + 1))
            ∙ update_ne s.block s.curr_size b (s.curr_size + 1) (omega arith),
        λ j below.
            update_ne replaced (s.curr_size + 1) lost j (omega arith)
            ∙ update_ne extended_block (s.curr_size - 1) (extended_block (s.curr_size + 1)) j
                (omega arith)
            ∙ update_ne s.block s.curr_size b j (omega arith),
      )
