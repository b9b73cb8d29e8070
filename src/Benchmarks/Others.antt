-- ===== src/Benchmarks/Others.antt =====
-- The benchmarks of the stack, of malloc and of the linear allocator run to their ends.
use memory_allocators.Base.{
  ℕ, zero, suc, ◌+◌, ◌*◌, ◌^◌, ◌<◌, ◌≤◌, ◌≡◌, refl, sym, subst, ◌∙◌, arith, [], Ptr, null, leb-true,
  release, ok,
}
use memory_allocators.Workload.{max_chunk_size}
use memory_allocators.Padding.{padding, padding_bounds}
use memory_allocators.Stack.{StackAllocator, stack_allocator, init, allocate}
use memory_allocators.Stack.Frames.{IsValid, at_offset, allocate_branches, free_latest}
use memory_allocators.Stack.Workload.{client}
use memory_allocators.MallocTest.{Heap, Owns, allocates-Owns, frees-Owns, empty-Owns}
use memory_allocators.MallocTest
use memory_allocators.Linear.{LinearAllocator, linear_allocator}
use memory_allocators.Linear.Memory.{allocate_returns}
use memory_allocators.Benchmarks.{
  Round, repeat_keeps, bm_stack_alloc, bm_malloc_alloc, bm_liner_alloc, requests,
}

module _ (n : ℕ) (fresh : Ptr) (some_chunks : 0 < n) (few : n < 2 ^ 50) (held : 0 < fresh)
    (fits : fresh + n * max_chunk_size < 2 ^ 64) where
  abbrev ready : StackAllocator
  ready = (init fresh (stack_allocator (n * max_chunk_size))).0

  stack-Round : Round client (λ s. s ≡ ready) ready
  unfolding init
  stack-Round =
      let v : IsValid ready = record {
        held = held;
        fits = fits;
        within = omega arith;
        counted = refl;
      } in
      let pad = padding_bounds 1 8 (omega arith) (omega arith) in
      let next : ℕ = 0 + (padding 1 8 + 1) in
      let room : next ≤ n * max_chunk_size = omega (arith, pad) in
      let run : allocate release 1 8 ready ≡ ok (fresh + 0, at_offset ready next) =
        allocate_branches 1 8 ready v (omega arith) (omega arith)
        ∙ rw (leb-true next (n * max_chunk_size) room) refl in
      let back =
        free_latest ready 1 8 (fresh + 0) (at_offset ready next) v (omega arith) (omega arith)
          (omega arith) run in
      (fresh + 0, at_offset ready next, ready, run, rw back refl, refl)

  -- BM_StackAlloc, for any number of rounds and 1 to 2 ^ 50 - 1 in place of the source's 1000, with a
  -- block from `malloc`: it runs to its end, and the allocator is as behind its start.
  pub bm_stack_alloc_keeps : (rounds : ℕ) → bm_stack_alloc n fresh rounds ≡ ok ready
  unfolding bm_stack_alloc
  bm_stack_alloc_keeps rounds =
      let (s', run, same) =
        repeat_keeps client (λ s. s ≡ ready)
          (λ s e. subst (Round client (λ u. u ≡ ready)) (sym e) stack-Round) rounds ready refl in
      rw (run, same) refl

malloc-Round :
    (answer : ℕ → Ptr) (h : Heap) → Owns h [] → Round (MallocTest.client answer) (λ u. Owns u []) h
malloc-Round answer h own =
    let (p, h', run, one) = allocates-Owns answer 1 0 0 h [] (omega arith) (omega arith) own in
    let (h'', run', none_left) = frees-Owns answer h' [] p [] one in
    (p, h', h'', run, run', none_left)

-- BM_MallocAlloc, for any number of rounds and any answers of `malloc`: it runs to its end and owns
-- nothing there.
pub bm_malloc_alloc_frees :
    (answer : ℕ → Ptr) (rounds : ℕ)
    → (h : Heap) × (bm_malloc_alloc answer rounds ≡ ok h) × (h.owned ≡ [])
unfolding bm_malloc_alloc
bm_malloc_alloc_frees answer rounds =
    let (h, run, own) =
      repeat_keeps (MallocTest.client answer) (λ u. Owns u []) (malloc-Round answer) rounds
        (record { owned = []; calls = 0 }) (refl, λ q away. refl) in
    (h, run, empty-Owns h own)

requests_return :
    (n : ℕ) (s : LinearAllocator)
    → (s' : LinearAllocator) × (requests n s ≡ ok s') × (s'.start_ptr ≡ s.start_ptr)
unfolding requests
requests_return zero s = (s, refl, refl)
requests_return (suc n) s =
    let (p, s', run, same) = allocate_returns 1 8 s (omega arith) in
    let (s'', run', same') = requests_return n s' in (s'', rw (run, run') refl, same' ∙ same)

-- BM_LinerAlloc, for any number of rounds: it runs to its end, and the allocator has no memory there.
pub bm_liner_alloc_returns :
    (n rounds : ℕ) → (s : LinearAllocator) × (bm_liner_alloc n rounds ≡ ok s) × (s.start_ptr ≡ null)
unfolding bm_liner_alloc
bm_liner_alloc_returns n rounds = requests_return rounds (linear_allocator (n * max_chunk_size))
