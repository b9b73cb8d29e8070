-- ===== src/Sharing/ListMethods.antt =====
-- Allocate and Free of src/FreeListAllocator.h in a release build with ENABLE_SPIN_LOCK, one statement
-- at a time, as methods that threads share. The search of FindFreeMemBlockIndex and the merging are one
-- action each.
pub mod Agreement
pub mod Histories
mod Tests
use memory_allocators.Base.{
  ℕ, ◌+◌, ◌-◌, Bool, true, false, not, List, [], ◌∷◌, Option, none, some, Ptr, null, add64, sub64,
  to_u32, ◌==◌, ◌||◌, if◌then◌else◌, Outcome, ok, aborted, faulted, blocked, update,
}
use memory_allocators.FreeList.Table.{FreeMemBlocks, MemBlock, mem_block, should_full_merge}
use memory_allocators.FreeList.{
  FreeListAllocator, c_merge_policy, allocation_header_size, required_size,
  find_free_mem_block_index, take_front, merge_by,
}
use memory_allocators.Sharing.{Methods}

pub data Call : Type 0 where
  allocates : ℕ → ℕ → Call
  frees : Ptr → Call

-- The local variables: freeMemBlockIndex, the header's address and what it holds, the result, the
-- value of m_used that was read; whether the method has returned in front of its `unlock`, and whether it
-- has done something undefined.
pub record Local : Type 0 where
  pub index : Option ℕ
  pub header : Ptr
  pub block_size : ℕ
  pub address : Ptr
  pub used_before : ℕ
  pub early : Bool
  pub fault : Bool

abbrev pub nothing_read : Local
nothing_read = record {
  index = none;
  header = null;
  block_size = 0;
  address = null;
  used_before = 0;
  early = false;
  fault = false;
}

abbrev pub Statement : Type 0
Statement = Local → FreeListAllocator → Local × FreeListAllocator

abbrev pub unless : Bool → Statement → Statement
unless true a l s = (l, s)
unless false a l s = a l s

-- Behind an early return, and behind something undefined, nothing is done.
abbrev pub going_on : Statement → Statement
going_on a l s = unless (l.early || l.fault) a l s

abbrev pub is_none : Option ℕ → Bool
is_none none = true
is_none (some i) = false

-- freeMemBlockIndex = FindFreeMemBlockIndex(requiredSize), and the test of it
abbrev pub find : ℕ → Statement
find required l s = (
  record l {
    index = find_free_mem_block_index required s;
    early = is_none (find_free_mem_block_index required s);
  },
  s,
)

-- freeMemBlock, of an index that was found
abbrev pub header_at : Option ℕ → FreeListAllocator → Ptr
header_at none s = null
header_at (some i) s = add64 s.start_ptr (s.block i).mem_block_offset

abbrev pub load_header : Statement
load_header l s = (record l { header = header_at l.index s }, s)

-- The block that was found gives its front, or leaves the table.
abbrev pub taken : ℕ → Option ℕ → FreeMemBlocks → Outcome FreeMemBlocks
taken required none t = faulted
taken required (some i) t = take_front required i t

abbrev pub store_table : Outcome FreeMemBlocks → Statement
store_table (ok t) l s = (l, record s { free_mem_blocks = t })
store_table _ l s = (record l { fault = true }, s)

abbrev pub take : ℕ → Statement
take required l s = store_table (taken required l.index s.free_mem_blocks) l s

abbrev pub set_result : Statement
set_result l s = (record l { address = add64 l.header allocation_header_size }, s)

abbrev pub load_used : Statement
load_used l s = (record l { used_before = s.used }, s)

abbrev pub add_used : ℕ → Statement
add_used required l s =
    (l, record s { base = record (s.base) { used = add64 l.used_before required } })

-- allocationHeader->blockSize = requiredSize
abbrev pub store_header : ℕ → Statement
store_header required l s = (
  record l { fault = s.start_ptr == null },
  record s { memory = update s.memory l.header (some required) },
)

-- if (ShouldFullMerge()) return false;
abbrev pub test_room : Statement
test_room l s = (record l { early = should_full_merge s.free_mem_blocks }, s)

-- m_freeMemBlocks[m_currSize] = freeMemBlock; ++m_currSize;
abbrev pub append : Ptr → Statement
append header l s = (
  l,
  record s {
    free_mem_blocks = record {
      curr_size = s.curr_size + 1;
      block = update s.block s.curr_size (mem_block (to_u32 (sub64 header s.start_ptr)) 0);
    };
  },
)

abbrev pub read_size : Option ℕ → Statement
read_size none l s = (record l { fault = true }, s)
read_size (some size) l s = (record l { block_size = size }, s)

abbrev pub load_size : Ptr → Statement
load_size header l s = read_size (s.memory header) l s

-- m_freeMemBlocks[m_currSize - 1].blockSize = ...
abbrev pub store_size : Statement
store_size l s = (
  l,
  record s {
    free_mem_blocks = record (s.free_mem_blocks) {
      block =
          update s.block (s.curr_size - 1)
            (record (s.block (s.curr_size - 1)) { block_size = l.block_size });
    };
  },
)

-- m_used -= m_freeMemBlocks[m_currSize - 1].blockSize
abbrev pub subtract_used : Statement
subtract_used l s = (
  l,
  record s {
    base = record (s.base) { used = sub64 l.used_before (s.block (s.curr_size - 1)).block_size };
  },
)

abbrev pub merge : Statement
merge l s = (l, record s { free_mem_blocks = merge_by c_merge_policy s.free_mem_blocks })

-- Allocate behind the search
abbrev pub gives : ℕ → List Statement
gives required =
    going_on load_header
    ∷ going_on (take required)
    ∷ going_on set_result
    ∷ going_on load_used
    ∷ going_on (add_used required)
    ∷ going_on (store_header required)
    ∷ []

-- Free behind the test
abbrev pub takes_back : Ptr → List Statement
takes_back header =
    going_on (append header)
    ∷ going_on (load_size header)
    ∷ going_on store_size
    ∷ going_on load_used
    ∷ going_on subtract_used
    ∷ going_on merge
    ∷ []

abbrev pub statements : Call → List Statement
statements (allocates size alignment) =
    find (required_size size alignment) ∷ gives (required_size size alignment)
statements (frees ptr) = test_room ∷ takes_back (sub64 ptr allocation_header_size)

abbrev pub list_methods : Methods
list_methods = record {
  Shared = FreeListAllocator;
  Local = Local;
  Method = Call;
  locals = nothing_read;
  actions = statements;
  returned_early = λ l. l.early;
}
