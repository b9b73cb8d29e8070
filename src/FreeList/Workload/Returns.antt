-- ===== src/FreeList/Workload/Returns.antt =====
-- The loop of returns of src/FreeListAllocatorTest.cpp, and the whole test.
use memory_allocators.Base.{
  ℕ, suc, ◌+◌, ◌*◌, ◌^◌, ◌≤◌, ◌<◌, ◌≡◌, refl, ap, subst, ◌∙◌, arith, List, [], ◌∷◌, ◌++◌, Ptr, true,
  release, ok, length, length-append, update,
}
use memory_allocators.Workload.{max_chunk_size, run}
use memory_allocators.Workload.Contract.{Contract, cost_of, run-Holds}
use memory_allocators.FreeList.Table.{MemBlock, max_free_mem_blocks}
use memory_allocators.FreeList.Invariant.{Inv}
use memory_allocators.FreeList.Free.{free-Inv}
use memory_allocators.FreeList.History.{init-Inv, full_merge-IsFullyMerged}
use memory_allocators.FreeList.{
  FreeListAllocator, Memory, free_list_allocator, required_size, init, reset,
}
use memory_allocators.FreeList.Workload.{client, run_test}
use memory_allocators.FreeList.Workload.Growth.{PointersOf, Grows, allocates-Grows}

-- The pointers `ps` are in use, and the array has room for their blocks.
pub record Drains (total_bytes : ℕ) (s : FreeListAllocator) (ps : List Ptr) : Type 0 where
  pub blocks : List MemBlock
  pub inv : Inv s blocks
  pub pointers : PointersOf s.start_ptr ps blocks
  pub few : s.curr_size + length ps < max_free_mem_blocks
  pub whole : s.total_size ≡ total_bytes

Grows-Drains :
    (total_bytes r n : ℕ) (s : FreeListAllocator) (ps : List Ptr)
    → Grows total_bytes r n s ps
    → Drains total_bytes s ps
Grows-Drains total_bytes r n s ps g = record {
  blocks = g.blocks;
  inv = g.inv;
  pointers = g.pointers;
  few = omega (arith, g.one, g.few);
  whole = g.whole;
}

-- The block that a pointer belongs to, between those of the pointers around it
PointersOf-split :
    (start : Ptr) (xs : List Ptr) (p : Ptr) (ys : List Ptr) (bs : List MemBlock)
    → PointersOf start (xs ++ p ∷ ys) bs
    → (before : List MemBlock) × (b : MemBlock) × (cs : List MemBlock) × (bs ≡ before ++ b ∷ cs)
      × (p ≡ start + b.mem_block_offset + 8)
      × PointersOf start (xs ++ ys) (before ++ cs)
PointersOf-split start [] p ys [] h = absurd h
PointersOf-split start [] p ys (b ∷ bs) h = ([], b, bs, refl, h.0, h.1)
PointersOf-split start (x ∷ xs) p ys [] h = absurd h
PointersOf-split start (x ∷ xs) p ys (b ∷ bs) h =
    let (before, c, cs, parts, here, rest) = PointersOf-split start xs p ys bs h.1 in
    (b ∷ before, c, cs, ap (◌∷◌ b) parts, here, (h.0, rest))

frees-Drains :
    (total_bytes : ℕ) (s : FreeListAllocator) (xs : List Ptr) (p : Ptr) (ys : List Ptr)
    → Drains total_bytes s (xs ++ p ∷ ys)
    → (s' : FreeListAllocator) × (client.free p s ≡ ok s') × Drains total_bytes s' (xs ++ ys)
frees-Drains total_bytes s xs p ys d =
    let (before, b, cs, parts, here, rest) =
      PointersOf-split s.start_ptr xs p ys d.blocks d.pointers in
    let counted = length-append xs (p ∷ ys) in
    let (s', run, inv', _, total, start, size) =
      free-Inv release s before b cs (subst (Inv s) parts d.inv) (omega (arith, d.few, counted)) in
    (
      s',
      rw (here, run) refl,
      record {
        blocks = before ++ cs;
        inv = inv';
        pointers = rw start rest;
        few = omega (arith, d.few, counted, length-append xs ys, size);
        whole = total ∙ d.whole;
      },
    )

empty-Drains : (total_bytes : ℕ) (s : FreeListAllocator) → Drains total_bytes s [] → Inv s []
empty-Drains total_bytes s d = go d.blocks d.inv d.pointers
  where
    go : (bs : List MemBlock) → Inv s bs → PointersOf s.start_ptr [] bs → Inv s []
    go [] inv h = inv
    go (b ∷ bs) inv h = absurd h

met-Grows :
    (total_bytes size r n : ℕ) (s : FreeListAllocator) (ps : List Ptr)
    → 0 < size
    → size ≤ max_chunk_size
    → Grows total_bytes (suc r) (required_size size 8 + n) s ps
    → (p : Ptr) × (s' : FreeListAllocator) × (client.allocate size s ≡ ok (p, s'))
      × Grows total_bytes r n s' (ps ++ p ∷ [])
met-Grows total_bytes size r n s ps positive large g =
    allocates-Grows total_bytes size r n s ps (omega arith) g

-- The allocator keeps what the loops of the tests rely on.
pub contract : ℕ → Contract client
contract total_bytes = record {
  cost = λ size. required_size size 8;
  used = λ s. s.used;
  Fills = Grows total_bytes;
  Holds = Drains total_bytes;
  allocates = met-Grows total_bytes;
  filled = Grows-Drains total_bytes;
  frees = frees-Drains total_bytes;
  empty = λ s d. (empty-Drains total_bytes s d).counted;
}

-- What the requests of the test take together, with headers and padding
unfoldable pub bytes_taken : (ℕ → ℕ) → ℕ → ℕ
bytes_taken rand n = cost_of (λ size. required_size size 8) rand n 0

started :
    (n : ℕ) (fresh : Ptr) (memory : Memory) (cost : ℕ)
    → 0 < fresh
    → fresh + n * max_chunk_size < 2 ^ 64
    → n + 2 < max_free_mem_blocks
    → cost < n * max_chunk_size
    → Grows
        (n * max_chunk_size)
        n
        cost
        (init fresh (free_list_allocator (n * max_chunk_size) memory)).0
        []
unfolding init reset max_free_mem_blocks update
started n fresh memory cost held fits rounds enough = record {
  blocks = [];
  inv =
      init-Inv fresh (free_list_allocator (n * max_chunk_size) memory) held fits (omega arith)
        (omega arith);
  pointers = tt;
  one = refl;
  left = omega arith;
  few = omega arith;
  whole = refl;
}

-- The test in a release build, for up to 2042 rounds (the source has 1000), any answers of `rand`, a
-- block from `malloc` and requests that do not take all of it: it runs to its end without a fault,
-- and both of its results are those that it wants.
pub run_test_passes :
    (rand : ℕ → ℕ) (n : ℕ) (fresh : Ptr) (memory : Memory)
    → n + 2 < max_free_mem_blocks
    → 0 < fresh
    → fresh + n * max_chunk_size < 2 ^ 64
    → bytes_taken rand n < n * max_chunk_size
    → run_test rand n fresh memory ≡ ok (true, true)
unfolding run_test contract bytes_taken
run_test_passes rand n fresh memory rounds held fits enough =
    let total_bytes : ℕ = n * max_chunk_size in
    let start = (init fresh (free_list_allocator total_bytes memory)).0 in
    let (s, e, d, none_used) =
      run-Holds client (contract total_bytes) rand n start
        (started n fresh memory (bytes_taken rand n) held fits rounds enough) in
    let merged =
      full_merge-IsFullyMerged s (empty-Drains total_bytes s d) (omega (arith, d.whole)) in
    rw (e, none_used, merged) refl
