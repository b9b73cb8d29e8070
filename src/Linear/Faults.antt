-- ===== src/Linear/Faults.antt =====
-- Inputs at which LinearAllocator gives a block that it does not have.
use native.Mathlib.Nat.{zero-mod}
use memory_allocators.Base.{ℕ, ◌+◌, ◌%◌, ◌^◌, ◌≤◌, ◌<◌, ◌≡◌, arith, null, Build, debug, release, ok}
use memory_allocators.Padding.{padding, padding_bounds}
use memory_allocators.Linear.{LinearAllocator, allocate, reset}
use memory_allocators.Linear.Layout.{IsValid, moved}

-- The sum of offset, padding and size wraps around: in a release build a request for all but
-- `alignment` of the 2 ^ 64 addresses, a multiple of it, is met, whatever is left, and takes nothing.
pub allocate_wraps :
    (size alignment : ℕ) (s : LinearAllocator)
    → IsValid s
    → 0 < alignment
    → size + alignment ≡ 2 ^ 64
    → size % alignment ≡ 0
    → allocate release size alignment s ≡ ok (s.start_ptr + s.offset, moved s s.offset)
unfolding allocate padding
allocate_wraps size alignment s v positive e d = ground arith

-- After `Reset` there is no memory, and a request that does not wrap around and fits is still met, in
-- both builds: by the null pointer, while `m_used` grows.
pub allocate-reset :
    (b : Build) (size alignment : ℕ) (s : LinearAllocator)
    → 0 < alignment
    → size + alignment < 2 ^ 64
    → padding size alignment + size ≤ s.total_size
    → allocate b size alignment (reset s).0
      ≡ ok (null, moved (reset s).0 (padding size alignment + size))
unfolding allocate reset
allocate-reset debug size alignment s positive small fits =
    ground (arith, padding_bounds size alignment, zero-mod alignment)
allocate-reset release size alignment s positive small fits =
    ground (arith, padding_bounds size alignment)
