-- ===== src/FreeList/Workload/Growth.antt =====
-- The loop of requests of src/FreeListAllocatorTest.cpp: one free block gives the front each time.
use memory_allocators.Base.{
  ℕ, suc, ◌+◌, ◌-◌, ◌^◌, ◌<◌, ◌≡◌, refl, arith, List, [], ◌∷◌, ◌++◌, some, Ptr, ==_false, ltb-true,
  leb-true, sub64, release, ok, length, length-append, total, update_self,
}
use memory_allocators.FreeList.Table.{
  MemBlock, mem_block, search, should_full_merge, max_free_mem_blocks, through_int,
}
use memory_allocators.FreeList.Cover.{free_size}
use memory_allocators.FreeList.Invariant.{in_use-append, size_in_use-append, AllUsed, IsUsed, Inv}
use memory_allocators.FreeList.Split.{front, given}
use memory_allocators.FreeList.Allocate.{allocate-Inv}
use memory_allocators.FreeList.{
  FreeListAllocator, c_free_list_thread_policy, required_size, allocate, find_free_mem_block_index,
}

-- The pointers `ps` are those of the blocks `bs`, in the same order.
abbrev pub PointersOf : Ptr → List Ptr → List MemBlock → Type 0
PointersOf start [] [] = Unit {0}
PointersOf start (p ∷ ps) (b ∷ bs) = (p ≡ start + b.mem_block_offset + 8) × PointersOf start ps bs
PointersOf start _ _ = ⊥

pub PointersOf-append :
    (start : Ptr) (ps : List Ptr) (bs : List MemBlock) (p : Ptr) (b : MemBlock)
    → PointersOf start ps bs
    → p ≡ start + b.mem_block_offset + 8
    → PointersOf start (ps ++ p ∷ []) (bs ++ b ∷ [])
PointersOf-append start [] [] p b h e = (e, tt)
PointersOf-append start [] (c ∷ bs) p b h e = absurd h
PointersOf-append start (q ∷ ps) [] p b h e = absurd h
PointersOf-append start (q ∷ ps) (c ∷ bs) p b h e = (h.0, PointersOf-append start ps bs p b h.1 e)

AllUsed-append :
    (s : FreeListAllocator) (bs : List MemBlock) (b : MemBlock)
    → AllUsed s bs
    → IsUsed s b
    → AllUsed s (bs ++ b ∷ [])
AllUsed-append s [] b all used = (used, tt)
AllUsed-append s (c ∷ bs) b all used = (all.0, AllUsed-append s bs b all.1 used)

-- The order of the blocks in use is of no account.
Inv-rotate :
    (s : FreeListAllocator) (b : MemBlock) (bs : List MemBlock)
    → Inv s (b ∷ bs)
    → Inv s (bs ++ b ∷ [])
Inv-rotate s b bs inv = record {
  held = inv.held;
  fits = inv.fits;
  small = inv.small;
  room = inv.room;
  entries = inv.entries;
  once = λ x. omega (arith, inv.once x, in_use-append x bs (b ∷ []));
  accounted = inv.accounted;
  counted = omega (arith, inv.counted, size_in_use-append bs (b ∷ []));
  all_used = AllUsed-append s bs b inv.all_used.1 inv.all_used.0;
}

-- With one free block, which is large enough, the search finds it.
find_only :
    (required : ℕ) (s : FreeListAllocator)
    → s.curr_size ≡ 1
    → required < (s.block 0).block_size
    → (s.block 0).block_size < 2 ^ 31
    → s.used < s.total_size
    → find_free_mem_block_index required s ≡ some 0
unfolding find_free_mem_block_index should_full_merge max_free_mem_blocks search
find_only required s one larger small left =
    let size : ℕ = (s.block 0).block_size in
    let same : through_int size ≡ size = ground arith in
    rw
      (
        one,
        ==_false s.used s.total_size (omega arith),
        leb-true required size (omega arith),
        same,
        ltb-true (sub64 size required) (2 ^ 64 - 1) (omega arith),
      )
      refl

-- One block is free and has more than `n` bytes left; the pointers `ps` are in use, and the array has
-- room for them and `r` more.
pub record Grows (total_bytes r n : ℕ) (s : FreeListAllocator) (ps : List Ptr) : Type 0 where
  pub blocks : List MemBlock
  pub inv : Inv s blocks
  pub pointers : PointersOf s.start_ptr ps blocks
  pub one : s.curr_size ≡ 1
  pub left : n < (s.block 0).block_size
  pub few : length ps + r + 1 < max_free_mem_blocks
  pub whole : s.total_size ≡ total_bytes

pub allocates-Grows :
    (total_bytes size r n : ℕ) (s : FreeListAllocator) (ps : List Ptr)
    → size < 2 ^ 30
    → Grows total_bytes (suc r) (required_size size 8 + n) s ps
    → (p : Ptr) × (s' : FreeListAllocator) × (allocate release c_free_list_thread_policy size 8 s
        ≡ ok (p, s'))
      × Grows total_bytes r n s' (ps ++ p ∷ [])
unfolding total
allocates-Grows total_bytes size r n s ps small g =
    let required : ℕ = required_size size 8 in
    let inv = g.inv in
    let b : MemBlock = front required 0 s.free_mem_blocks in
    let larger : required < (s.block 0).block_size = omega (arith, g.left) in
    let sum : free_size s.free_mem_blocks ≡ (s.block 0).block_size = rw (g.one) (omega arith) in
    let entry = inv.entries 0 (omega (arith, g.one)) in
    let found =
      find_only required s g.one larger (omega (arith, entry, inv.small))
        (omega (arith, inv.accounted, sum, entry)) in
    let (run, inv', _, _) =
      allocate-Inv size 8 0 s g.blocks inv (omega arith) (omega arith) found larger in
    let rest =
      mem_block ((s.block 0).mem_block_offset + required) ((s.block 0).block_size - required) in
    let p : Ptr = s.start_ptr + b.mem_block_offset + 8 in
    (
      p,
      given required 0 s,
      run,
      record {
        blocks = g.blocks ++ b ∷ [];
        inv = Inv-rotate (given required 0 s) b g.blocks inv';
        pointers = PointersOf-append s.start_ptr ps g.blocks p b g.pointers refl;
        one = g.one;
        left = rw (update_self s.block 0 rest) (omega (arith, g.left));
        few = omega (arith, g.few, length-append ps (p ∷ []));
        whole = g.whole;
      },
    )
