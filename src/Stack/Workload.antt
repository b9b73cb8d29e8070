-- ===== src/Stack/Workload.antt =====
-- RunTest of src/StackAllocatorTest.cpp, in a release build, for any answers of `rand`.
use memory_allocators.Base.{
  ℕ, zero, suc, ◌+◌, ◌*◌, ◌^◌, ◌<◌, ◌≡◌, refl, ◌∙◌, arith, Bool, true, not, ltb, leb, leb-true,
  List, [], ◌∷◌, ◌++◌, Ptr, release, Outcome, ok, ◌>>=◌,
}
use mathlib.Core.List.{append_assoc, append-nil}
use memory_allocators.Interface.{get_used_size}
use memory_allocators.Padding.{padding, padding_bounds}
use memory_allocators.Linear.Memory.{allocate_returns}
use memory_allocators.Workload.{Client, max_chunk_size, random_size, fill}
use memory_allocators.Stack.{StackAllocator, stack_allocator, init, allocate, free}
use memory_allocators.Stack.Equivalence.{to_linear, of_linear, allocate-to_linear}
use memory_allocators.Stack.Frames.{at_offset, allocate_branches}

abbrev pub client : Client
client = record {
  State = StackAllocator;
  allocate = λ size s. allocate release size 8 s;
  free = λ p s. ok (free p s).1;
}

-- while (!memPointers.empty()): the last pointer is freed first.
unfoldable pub free_from_back : List Ptr → StackAllocator → StackAllocator
free_from_back [] s = s
free_from_back (p ∷ ps) s = (free p (free_from_back ps s)).1

-- The result that the test prints. The source has `n` = 1000.
unfoldable pub run_test : (ℕ → ℕ) → ℕ → Ptr → Outcome Bool
run_test rand n fresh = do
  (ps, k, s) ← fill client rand n 0 [] (init fresh (stack_allocator (n * max_chunk_size))).0
  ok (not (ltb 0 (get_used_size (free_from_back ps s).base)))

-- A request returns, and leaves the memory where it is.
returns :
    (size : ℕ) (s : StackAllocator)
    → (p : Ptr) × (s' : StackAllocator) × (allocate release size 8 s ≡ ok (p, s'))
      × (s'.start_ptr ≡ s.start_ptr)
returns size s =
    let (p, t, run, same) = allocate_returns size 8 (to_linear s) (omega arith) in
    (p, of_linear t, rw (allocate-to_linear release size 8 s, run) refl, same)

fill_returns :
    (rand : ℕ → ℕ) (n k : ℕ) (ps : List Ptr) (s : StackAllocator)
    → (qs : List Ptr) × (k' : ℕ) × (s' : StackAllocator) × (fill client rand n k ps s
        ≡ ok (ps ++ qs, k', s'))
      × (s'.start_ptr ≡ s.start_ptr)
unfolding fill
fill_returns rand zero k ps s = ([], k, s, rw (append-nil ps) refl, refl)
fill_returns rand (suc n) k ps s =
    let (p, s', run, same) = returns (random_size rand k) s in
    let (qs, k', s'', run', same') = fill_returns rand n (suc k) (ps ++ p ∷ []) s' in
    (p ∷ qs, k', s'', rw (run, run', append_assoc ps (p ∷ []) qs) refl, same' ∙ same)

free_from_back-start :
    (ps : List Ptr) (s : StackAllocator) → (free_from_back ps s).start_ptr ≡ s.start_ptr
unfolding free_from_back free
free_from_back-start [] s = refl
free_from_back-start (p ∷ ps) s = free_from_back-start ps s

-- The pointer to the start of the memory is freed last.
used_none :
    (fresh : Ptr) (qs : List Ptr) (s : StackAllocator)
    → fresh < 2 ^ 64
    → s.start_ptr ≡ fresh
    → (free_from_back ((fresh + 0) ∷ qs) s).used ≡ 0
unfolding free_from_back free
used_none fresh qs s fits e =
    let start : (free_from_back qs s).start_ptr ≡ fresh = free_from_back-start qs s ∙ e in
    rw start (omega arith)

-- The test in a release build, for 2 to 2 ^ 50 rounds (the source has 1000), any answers of `rand` and
-- a block from `malloc`: it runs to its end and passes, also where the memory does not suffice for
-- all requests and null is freed.
pub stack_test_passes :
    (rand : ℕ → ℕ) (n : ℕ) (fresh : Ptr)
    → 1 < n
    → n < 2 ^ 50
    → 0 < fresh
    → fresh + n * max_chunk_size < 2 ^ 64
    → run_test rand n fresh ≡ ok true
unfolding run_test fill init random_size
stack_test_passes rand zero fresh some_rounds few held fits = elim some_rounds [ ]
stack_test_passes rand (suc m) fresh some_rounds few held fits =
    let s : StackAllocator = (init fresh (stack_allocator (suc m * max_chunk_size))).0 in
    let size : ℕ = random_size rand 0 in
    let pad = padding_bounds size 8 (omega arith) (omega arith) in
    let first =
      allocate_branches size 8 s
        (record { held = held; fits = fits; within = omega arith; counted = refl }) (omega arith)
        (omega arith) in
    let enough : leb (0 + (padding size 8 + size)) (suc m * max_chunk_size) ≡ true =
      leb-true _ _ (omega arith) in
    let s' = at_offset s (0 + (padding size 8 + size)) in
    let fits' : fresh < 2 ^ 64 = omega arith in
    let (qs, k, s'', run, same) = fill_returns rand m 1 ((fresh + 0) ∷ []) s' in
    rw (first, enough, run, used_none fresh qs s'' fits' same) refl
