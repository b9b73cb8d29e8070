-- ===== src/Stack/Tests.antt =====
-- The functions of src/StackAllocator.h on an allocator of 64 bytes, and the theorems there.
use memory_allocators.Base.{◌≡◌, refl, [], ◌∷◌, arith, release, ok}
use memory_allocators.Padding.{padding}
use memory_allocators.Stack.{StackAllocator, stack_allocator, init, allocate, free}
use memory_allocators.Stack.Frames.{
  IsValid, at_offset, Frame, Reach, inits, allocates, frees, Holds, Reach-Holds,
}

abbrev ready : StackAllocator
ready = record (stack_allocator 64) { start_ptr = 4096 }

ready-IsValid : IsValid ready
ready-IsValid = omega arith

abbrev first : Frame
first = record { address = 4096; size = 5 }

abbrev second : Frame
second = record { address = 4104; size = 8 }

one : allocate release 5 8 ready ≡ ok (4096, at_offset ready 8)
unfolding allocate padding
one = refl

two : allocate release 8 8 (at_offset ready 8) ≡ ok (4104, at_offset ready 24)
unfolding allocate padding
two = refl

ready-Reach : Reach (stack_allocator 64) 4096 ready []
unfolding init
ready-Reach = inits

two-Reach : Reach (stack_allocator 64) 4096 (at_offset ready 24) (second ∷ first ∷ [])
two-Reach =
    allocates 8 8 (allocates 5 8 ready-Reach (omega arith) (omega arith) (omega arith) one)
      (omega arith) (omega arith) (omega arith) two

none-Reach : Reach (stack_allocator 64) 4096 (free 4096 (at_offset ready 24)).1 []
none-Reach = frees (second ∷ []) first [] two-Reach refl

Reach-Holds_example : Holds 64 (free 4096 (at_offset ready 24)).1 []
Reach-Holds_example =
    Reach-Holds (stack_allocator 64) 4096 (omega arith) (omega arith) refl none-Reach
