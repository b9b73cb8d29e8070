-- ===== src/FreeList.antt =====
-- src/FreeListAllocator.h: a free-list allocator with best fit. The free blocks lie in no order in the
-- first `curr_size` entries of a fixed array; a block in use begins with a header that holds its size.
pub mod Allocate
pub mod Complete
pub mod Cover
pub mod Faults
pub mod Find
pub mod Free
pub mod FullMerge
pub mod History
pub mod Invariant
pub mod Merge
pub mod Reuse
pub mod Search
pub mod Split
pub mod Table
pub mod Workload
mod Tests
use memory_allocators.Base.{
  ℕ, ◌+◌, ◌-◌, ◌^◌, ◌%◌, Bool, true, false, not, List, [], ◌∷◌, Option, none, some, Ptr, null,
  word_size, add64, sub64, to_u32, ltb, ◌==◌, ◌&&◌, if◌then◌else◌, Build, Outcome, ok, faulted,
  ◌>>=◌, ◌>>◌, assert, defined, update, swap,
}
use memory_allocators.Interface.{AllocatorInterface, ThreadPolicy, interface_of, destroy_interface}
use memory_allocators.SystemHeap.{Call}
use memory_allocators.Lock.{enter, leave}
use Table.{
  MemBlock, mem_block, FreeMemBlocks, max_free_mem_blocks, should_full_merge, fast_merge,
  full_merge, search,
}

pub data MergePolicy : Type 0 where
  enable_fast_merge enable_full_merge enable_full_merge_if_no_space : MergePolicy

-- cMergePolicy and cFreeListThreadPolicy
abbrev pub c_merge_policy : MergePolicy
c_merge_policy = enable_full_merge_if_no_space

abbrev pub c_free_list_thread_policy : ThreadPolicy
c_free_list_thread_policy = ThreadPolicy.none

-- cAllocationHeaderSize: an `AllocationHeader` is one word.
abbrev pub allocation_header_size : ℕ
allocation_header_size = word_size

-- The words of memory that can be read: an `AllocationHeader` is one of them.
abbrev pub Memory : Type 0
Memory = Ptr → Option ℕ

pub record FreeListAllocator : Type 0 where
  pub base : AllocatorInterface
  pub open base use *
  pub start_ptr : Ptr
  pub free_mem_blocks : FreeMemBlocks
  pub open free_mem_blocks use *
  pub spinlock : Bool
  pub memory : Memory

-- FreeListAllocator(totalSize), in a process with the given memory
abbrev pub free_list_allocator : ℕ → Memory → FreeListAllocator
free_list_allocator total memory = record {
  base = interface_of total;
  start_ptr = null;
  free_mem_blocks = record { curr_size = 0; block = λ _. mem_block 0 0 };
  spinlock = false;
  memory = memory;
}

unfoldable pub reset : FreeListAllocator → FreeListAllocator
reset s = record s {
  base = record (s.base) { used = 0 };
  free_mem_blocks = record {
    curr_size = 1;
    block = update s.block 0 (mem_block 0 (to_u32 s.total_size));
  };
}

-- Init, with the address that `malloc` answers
unfoldable pub init : Ptr → FreeListAllocator → FreeListAllocator × List Call
init fresh s =
    let allocated = Call.malloc s.total_size fresh ∷ [] in
    (
      reset (record s { start_ptr = fresh }),
      if s.start_ptr == null then allocated else Call.free s.start_ptr ∷ allocated,
    )

-- ~FreeListAllocator
unfoldable pub destroy : FreeListAllocator → FreeListAllocator × List Call
destroy s =
    (record s { base = destroy_interface s.base; start_ptr = null }, Call.free s.start_ptr ∷ [])

-- FindFreeMemBlockIndex; `none` is -1.
unfoldable pub find_free_mem_block_index : ℕ → FreeListAllocator → Option ℕ
find_free_mem_block_index size s =
    if s.curr_size == 0
    then none
    else if should_full_merge s.free_mem_blocks
    then none
    else if s.used == s.total_size
    then none
    else search s.block size s.curr_size (2 ^ 64 - 1) none

-- The block at `i` gives `required` bytes from its front. A block that is used up is to leave the
-- array: the source swaps the entry in front of it, which for the first one is out of range, with the
-- one behind the last.
unfoldable pub take_front : ℕ → ℕ → FreeMemBlocks → Outcome FreeMemBlocks
take_front required i t =
    let rest_size = sub64 (t.block i).block_size required in
    if ltb 0 rest_size
    then ok (record t {
      block =
          update t.block i
            (mem_block (add64 (t.block i).mem_block_offset (to_u32 required)) (to_u32 rest_size));
    })
    else do
      defined (ltb 0 i && ltb t.curr_size max_free_mem_blocks)
      ok (record { curr_size = t.curr_size - 1; block = swap t.block (i - 1) t.curr_size })

-- padding and requiredSize of Allocate
unfoldable pub required_size : ℕ → ℕ → ℕ
required_size size alignment =
    let padding = sub64 alignment (add64 allocation_header_size size % alignment) in
    add64 (add64 allocation_header_size (to_u32 size)) padding

-- Allocate, once a block is found
unfoldable pub allocate_at :
    Build → ThreadPolicy → ℕ → ℕ → ℕ → FreeListAllocator → Outcome (Ptr × FreeListAllocator)
allocate_at build policy required alignment i s = do
  let header = add64 s.start_ptr (s.block i).mem_block_offset
  t ← take_front required i s.free_mem_blocks
  let result = add64 header allocation_header_size
  assert build (result % alignment == 0)
  defined (not (s.start_ptr == null))
  ok (
    result,
    record s {
      base = record (s.base) { used = add64 s.used required };
      free_mem_blocks = t;
      spinlock = leave policy s.spinlock;
      memory = update s.memory header (some required);
    },
  )

-- Allocate behind the search
unfoldable pub allocate_found :
    Build → ThreadPolicy → ℕ → ℕ → Option ℕ → FreeListAllocator → Outcome (Ptr × FreeListAllocator)
allocate_found build policy required alignment none s = do assert build false; ok (null, s)
allocate_found build policy required alignment (some i) s =
    allocate_at build policy required alignment i s

unfoldable pub allocate :
    Build → ThreadPolicy → ℕ → ℕ → FreeListAllocator → Outcome (Ptr × FreeListAllocator)
allocate build policy size alignment s = do
  defined (ltb 0 alignment)
  flag ← enter policy s.spinlock
  let s' = record s { spinlock = flag }
  let required = required_size size alignment
  allocate_found build policy required alignment (find_free_mem_block_index required s') s'

unfoldable pub merge_by : MergePolicy → FreeMemBlocks → FreeMemBlocks
merge_by enable_fast_merge t = fast_merge (t.curr_size - 1) t
merge_by enable_full_merge t = full_merge t
merge_by enable_full_merge_if_no_space t = if should_full_merge t then full_merge t else t

-- Free, once there is room, with what the header's address holds. The header is read behind the write
-- of the new entry.
unfoldable pub free_at :
    MergePolicy
    → ThreadPolicy
    → Ptr
    → Option ℕ
    → FreeListAllocator
    → Outcome (Bool × FreeListAllocator)
free_at merging policy header none s = faulted
free_at merging policy header (some size) s = ok (
  true,
  record s {
    base = record (s.base) { used = sub64 s.used size };
    free_mem_blocks = merge_by merging (record {
      curr_size = s.curr_size + 1;
      block = update s.block s.curr_size (mem_block (to_u32 (sub64 header s.start_ptr)) size);
    });
    spinlock = leave policy s.spinlock;
  },
)

unfoldable pub free :
    Build
    → MergePolicy
    → ThreadPolicy
    → Ptr
    → FreeListAllocator
    → Outcome (Bool × FreeListAllocator)
free build merging policy ptr s = do
  flag ← enter policy s.spinlock
  let s' = record s { spinlock = flag }
  let header = sub64 ptr allocation_header_size
  assert build (not (should_full_merge s'.free_mem_blocks))
  if should_full_merge s'.free_mem_blocks
      then ok (false, s')
      else free_at merging policy header (s'.memory header) s'

-- FullMergeMemBlocks
unfoldable pub full_merge_mem_blocks : FreeListAllocator → FreeListAllocator
full_merge_mem_blocks s = record s { free_mem_blocks = full_merge s.free_mem_blocks }

unfoldable pub is_fully_merged : FreeListAllocator → Bool
is_fully_merged s =
    s.curr_size == 1 && (s.block 0).mem_block_offset == 0 && (s.block 0).block_size == s.total_size
