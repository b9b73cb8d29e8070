-- ===== src/Stack/Faults.antt =====
-- Free of src/StackAllocator.h does not test its address.
use memory_allocators.Base.{
  ℕ, ◌+◌, ◌-◌, ◌≤◌, ◌<◌, ◌≡◌, refl, arith, Ptr, release, ok, add64, sub64, ltb-true, ltb-false,
}
use memory_allocators.Padding.{padding}
use memory_allocators.Stack.{StackAllocator, allocate, free}
use memory_allocators.Stack.Frames.{IsValid, at_offset}

-- `Free` of an address below the memory wraps the offset around. The next request of a release build
-- that, with its padding, is at least as long as the distance and fits behind the wrap-around is met
-- by that address, which is not in the memory.
pub free_below :
    (size alignment : ℕ) (p : Ptr) (s : StackAllocator)
    → IsValid s
    → 0 < alignment
    → p < s.start_ptr
    → s.start_ptr ≤ p + (padding size alignment + size)
    → p + (padding size alignment + size) ≤ s.start_ptr + s.total_size
    → allocate release size alignment (free p s).1
      ≡ ok (p, at_offset s (p + (padding size alignment + size) - s.start_ptr))
unfolding free allocate
free_below size alignment p s v positive below long fits =
    let pad : ℕ = padding size alignment in
    let offset : ℕ = sub64 p s.start_ptr in
    let end : ℕ = p + (pad + size) - s.start_ptr in
    let required : add64 (add64 offset pad) size ≡ end = omega (arith, v.fits) in
    let moved : add64 offset (add64 pad size) ≡ end = omega (arith, v.fits) in
    let address : add64 s.start_ptr offset ≡ p = omega (arith, v.fits) in
    rw
      (
        ltb-true 0 alignment positive,
        required,
        ltb-false s.total_size end (omega arith),
        address,
        moved,
      )
      refl
