-- ===== src/Stack.antt =====
-- src/StackAllocator.h: a bump allocator whose Free moves the offset back. A method returns its
-- result and the new object, with the `malloc` and `free` calls that it makes.
pub mod Equivalence
pub mod Faults
pub mod Frames
pub mod Identity
pub mod Workload
mod Tests
use memory_allocators.Base.{
  ℕ, ◌%◌, Bool, true, List, [], ◌∷◌, Ptr, null, add64, sub64, ltb, leb, ◌==◌, if◌then◌else◌, Build,
  Outcome, ok, ◌>>=◌, ◌>>◌, assert, defined,
}
use memory_allocators.Interface.{AllocatorInterface, interface_of, destroy_interface}
use memory_allocators.SystemHeap.{Call}
use memory_allocators.Padding.{padding}

pub record StackAllocator : Type 0 where
  pub base : AllocatorInterface
  pub open base use *
  pub start_ptr : Ptr
  pub offset : ℕ

abbrev pub stack_allocator : ℕ → StackAllocator
stack_allocator total = record { base = interface_of total; start_ptr = null; offset = 0 }

-- Init, with the address that `malloc` answers. `m_used` is not reset.
unfoldable pub init : Ptr → StackAllocator → StackAllocator × List Call
init fresh s =
    let allocated = Call.malloc s.total_size fresh ∷ [] in
    (
      record s { start_ptr = fresh; offset = 0 },
      if s.start_ptr == null then allocated else Call.free s.start_ptr ∷ allocated,
    )

-- ~StackAllocator
unfoldable pub destroy : StackAllocator → StackAllocator × List Call
destroy s =
    (record s { base = destroy_interface s.base; start_ptr = null }, Call.free s.start_ptr ∷ [])

unfoldable pub allocate : Build → ℕ → ℕ → StackAllocator → Outcome (Ptr × StackAllocator)
allocate build size alignment s = do
  defined (ltb 0 alignment)
  let required_size = add64 (add64 s.offset (padding size alignment)) size
  assert build (leb required_size s.total_size)
  if ltb s.total_size required_size then ok (null, s) else do
    let data_address = add64 s.start_ptr s.offset
    let offset = add64 s.offset (add64 (padding size alignment) size)
    assert build (data_address % alignment == 0)
    ok (data_address, record s { base = record (s.base) { used = offset }; offset = offset })

-- Free moves the offset back to the address, whatever it is.
unfoldable pub free : Ptr → StackAllocator → Bool × StackAllocator
free ptr s =
    let offset = sub64 ptr s.start_ptr in
    (true, record s { base = record (s.base) { used = offset }; offset = offset })

unfoldable pub reset : StackAllocator → StackAllocator
reset s = record s { base = record (s.base) { used = 0 }; offset = 0 }
