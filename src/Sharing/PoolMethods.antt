-- ===== src/Sharing/PoolMethods.antt =====
-- Allocate and Free of src/PoolAllocator.h in a release build with ENABLE_SPIN_LOCK, one access to the
-- pool at a time, as methods that threads share. The members that neither writes, m_start_ptr,
-- m_totalSize and m_chunkSize, are read where they are needed.
pub mod Agreement
pub mod Histories
use memory_allocators.Base.{
  ℕ, Bool, true, false, not, List, [], ◌∷◌, Ptr, null, add64, sub64, ltb, ◌||◌, if◌then◌else◌, ℤ,
  pos, negsuc, update,
}
use memory_allocators.Pool.{PoolAllocator, up, down, is_nonneg}
use memory_allocators.Sharing.{Methods}

pub data Call : Type 0 where
  allocates : Call
  frees : Ptr → Call

-- The local variables: dataAddress, the values that were read, and whether the method has returned in
-- front of its `unlock`.
pub record Local : Type 0 where
  pub address : Ptr
  pub index : ℤ
  pub used_before : ℕ
  pub early : Bool

abbrev pub nothing_read : Local
nothing_read = record { address = null; index = negsuc 0; used_before = 0; early = false }

abbrev pub Access : Type 0
Access = Local → PoolAllocator → Local × PoolAllocator

-- Behind an early return nothing is done.
abbrev pub unless_early : Bool → Access → Access
unless_early true a l s = (l, s)
unless_early false a l s = a l s

abbrev pub then_if_there : Access → Access
then_if_there a l s = unless_early l.early a l s

-- if (m_currFreeChunksIdx < 0) return nullptr;
abbrev pub test_index : Access
test_index l s = (record l { early = not (is_nonneg s.curr_free_chunks_idx) }, s)

-- if (ptr < m_start_ptr || ptr > m_start_ptr + m_totalSize) return false;
abbrev pub test_range : Ptr → Access
test_range ptr l s =
    (record l { early = ltb ptr s.start_ptr || ltb (add64 s.start_ptr s.total_size) ptr }, s)

abbrev pub load_index : Access
load_index l s = (record l { index = s.curr_free_chunks_idx }, s)

abbrev pub store_index : (ℤ → ℤ) → Access
store_index f l s = (record l { index = f l.index }, record s { curr_free_chunks_idx = f l.index })

-- m_freeChunks[i], of an index that is not negative
abbrev pub chunk_of : ℤ → PoolAllocator → Ptr
chunk_of (pos i) s = s.free_chunks i
chunk_of (negsuc i) s = null

-- m_freeChunks[i] = ptr. Where `i` is not in the array, the source is undefined; here the function is
-- changed outside the array, or not at all.
abbrev pub store_chunk_at : ℤ → Ptr → PoolAllocator → PoolAllocator
store_chunk_at (pos i) ptr s = record s { free_chunks = update s.free_chunks i ptr }
store_chunk_at (negsuc i) ptr s = s

abbrev pub load_chunk : Access
load_chunk l s = (record l { address = chunk_of l.index s }, s)

abbrev pub store_chunk : Ptr → Access
store_chunk ptr l s = (l, store_chunk_at l.index ptr s)

abbrev pub load_used : Access
load_used l s = (record l { used_before = s.used }, s)

abbrev pub store_used : (ℕ → ℕ → ℕ) → Access
store_used f l s = (l, record s { base = record (s.base) { used = f l.used_before s.chunk_size } })

-- Free behind the test of the pointer
abbrev pub gives : Ptr → List Access
gives ptr =
    then_if_there load_used
    ∷ then_if_there (store_used sub64)
    ∷ then_if_there load_index
    ∷ then_if_there (store_index up)
    ∷ then_if_there (store_chunk ptr)
    ∷ []

abbrev pub accesses : Call → List Access
accesses allocates =
    test_index
    ∷ then_if_there load_index
    ∷ then_if_there load_chunk
    ∷ then_if_there (store_index down)
    ∷ then_if_there load_used
    ∷ then_if_there (store_used add64)
    ∷ []
accesses (frees ptr) = test_range ptr ∷ gives ptr

abbrev pub pool_methods : Methods
pool_methods = record {
  Shared = PoolAllocator;
  Local = Local;
  Method = Call;
  locals = nothing_read;
  actions = accesses;
  returned_early = λ l. l.early;
}
