-- ===== src/Stack/Equivalence.antt =====
-- Allocate of src/StackAllocator.h is the one of src/LinearAllocator.h.
use memory_allocators.Base.{
  ℕ, ◌≡◌, refl, inl, inr, Bool-cases, add64, leb, ltb, ◌==◌, ◌%◌, Build, debug, release, ok, ◌>>=◌,
}
use memory_allocators.Padding.{padding}
use memory_allocators.Linear.{LinearAllocator}
use memory_allocators.Linear
use memory_allocators.Stack.{StackAllocator, allocate}

abbrev pub to_linear : StackAllocator → LinearAllocator
to_linear s = record { base = s.base; start_ptr = s.start_ptr; offset = s.offset }

abbrev pub of_linear : LinearAllocator → StackAllocator
of_linear s = record { base = s.base; start_ptr = s.start_ptr; offset = s.offset }

-- For every request, in both builds and in every state, Allocate ends as the one of a
-- LinearAllocator with the same fields does, with the same address and the same fields.
pub allocate-to_linear :
    (build : Build) (size alignment : ℕ) (s : StackAllocator)
    → allocate build size alignment s
      ≡ (Linear.allocate build size alignment (to_linear s) >>= λ r. ok (r.0, of_linear r.1))
unfolding allocate Linear.allocate
allocate-to_linear release size alignment s =
    let required : ℕ = add64 (add64 s.offset (padding size alignment)) size in
    elim (Bool-cases (ltb 0 alignment)) [
      | inr zero_alignment ↦ rw zero_alignment refl
      | inl positive ↦ elim (Bool-cases (ltb s.total_size required)) [
        | inl full ↦ rw (positive, full) refl
        | inr fits ↦ rw (positive, fits) refl
      ]
    ]
allocate-to_linear debug size alignment s =
    let required : ℕ = add64 (add64 s.offset (padding size alignment)) size in
    elim (Bool-cases (ltb 0 alignment)) [
      | inr zero_alignment ↦ rw zero_alignment refl
      | inl positive ↦ elim (Bool-cases (leb required s.total_size)) [
        | inr e ↦ rw (positive, e) refl
        | inl e ↦ elim (Bool-cases (ltb s.total_size required)) [
          | inl full ↦ rw (positive, e, full) refl
          | inr fits ↦ elim (Bool-cases (add64 s.start_ptr s.offset % alignment == 0)) [
            | inl a ↦ rw (positive, e, fits, a) refl
            | inr a ↦ rw (positive, e, fits, a) refl
          ]
        ]
      ]
    ]
