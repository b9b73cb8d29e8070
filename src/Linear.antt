-- ===== src/Linear.antt =====
-- src/LinearAllocator.h: a bump allocator. A method returns its result and the new object, with
-- the `malloc` and `free` calls that it makes.
pub mod Faults
pub mod Layout
pub mod Memory
mod Tests
pub mod Workload
use memory_allocators.Base.{
  ℕ, ◌%◌, Bool, false, List, [], ◌∷◌, Ptr, null, add64, ltb, leb, ◌==◌, if◌then◌else◌, Build,
  Outcome, ok, ◌>>=◌, ◌>>◌, assert, defined,
}
use memory_allocators.Interface.{AllocatorInterface, interface_of, destroy_interface}
use memory_allocators.SystemHeap.{Call}
use memory_allocators.Padding.{padding}

pub record LinearAllocator : Type 0 where
  pub base : AllocatorInterface
  pub open base use *
  pub start_ptr : Ptr
  pub offset : ℕ

abbrev pub linear_allocator : ℕ → LinearAllocator
linear_allocator total = record { base = interface_of total; start_ptr = null; offset = 0 }

-- Init, with the address that `malloc` answers. `m_used` is not reset.
unfoldable pub init : Ptr → LinearAllocator → LinearAllocator × List Call
init fresh s =
    let allocated = Call.malloc s.total_size fresh ∷ [] in
    (
      record s { start_ptr = fresh; offset = 0 },
      if s.start_ptr == null then allocated else Call.free s.start_ptr ∷ allocated,
    )

-- ~LinearAllocator
unfoldable pub destroy : LinearAllocator → LinearAllocator × List Call
destroy s =
    (record s { base = destroy_interface s.base; start_ptr = null }, Call.free s.start_ptr ∷ [])

unfoldable pub allocate : Build → ℕ → ℕ → LinearAllocator → Outcome (Ptr × LinearAllocator)
allocate build size alignment s = do
  defined (ltb 0 alignment)
  let required_size = add64 (add64 s.offset (padding size alignment)) size
  assert build (leb required_size s.total_size)
  if ltb s.total_size required_size then ok (null, s) else do
    let data_address = add64 s.start_ptr s.offset
    let offset = add64 s.offset (add64 (padding size alignment) size)
    assert build (data_address % alignment == 0)
    ok (data_address, record s { base = record (s.base) { used = offset }; offset = offset })

-- Allocate(n, alignment) for each `n` of a list, and the blocks that were given.
pub record Block : Type 0 where
  pub address : Ptr
  pub size : ℕ

unfoldable pub allocate_all :
    Build → ℕ → List ℕ → LinearAllocator → Outcome (List Block × LinearAllocator)
allocate_all build alignment [] s = ok ([], s)
allocate_all build alignment (n ∷ ns) s = do
  (p, s') ← allocate build n alignment s
  (bs, s'') ← allocate_all build alignment ns s'
  ok (if p == null then bs else record { address = p; size = n } ∷ bs, s'')

-- Free: `assert(false)`, then `false`.
unfoldable pub free : Build → Ptr → LinearAllocator → Outcome (Bool × LinearAllocator)
free build ptr s = do assert build false; ok (false, s)

unfoldable pub reset : LinearAllocator → LinearAllocator × List Call
reset s = (
  record s { base = record (s.base) { used = 0 }; start_ptr = null; offset = 0 },
  Call.free s.start_ptr ∷ [],
)
