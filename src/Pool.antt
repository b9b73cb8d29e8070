-- ===== src/Pool.antt =====
-- src/PoolAllocator.h: a pool of chunks of one size, with an array of the free chunks as a stack.
pub mod Chunks
pub mod Contents
pub mod Faults
pub mod Giving
pub mod History
pub mod Invariant
mod Tests
use memory_allocators.Base.{
  ℕ, zero, suc, ◌%◌, Bool, true, false, not, List, [], ◌∷◌, Ptr, null, word_size, add64, sub64,
  mul64, ltb, leb, ◌==◌, ◌&&◌, ◌||◌, if◌then◌else◌, Build, debug, release, Outcome, ok, faulted,
  ◌>>=◌, ◌>>◌, assert, defined, ℤ, pos, negsuc, to_int64, update,
}
use memory_allocators.Interface.{AllocatorInterface, ThreadPolicy, interface_of, copy_interface}
use memory_allocators.SystemHeap.{Call}
use memory_allocators.Lock.{enter, leave}

-- cPoolAllocThreadPolicy
abbrev pub c_pool_alloc_thread_policy : ThreadPolicy
c_pool_alloc_thread_policy = ThreadPolicy.none

-- `free_chunks` is what the array at `free_chunks_ptr` holds.
pub record PoolAllocator : Type 0 where
  pub base : AllocatorInterface
  pub open base use *
  pub free_chunks_ptr : Ptr
  pub free_chunks : ℕ → Ptr
  pub start_ptr : Ptr
  pub chunks_num : ℕ
  pub chunk_size : ℕ
  pub curr_free_chunks_idx : ℤ
  pub spinlock : Bool

-- assert(a % n == 0): `% 0` is undefined, where the assertion is compiled in.
abbrev pub assert_divides : Build → ℕ → ℕ → Outcome (Unit {0})
assert_divides release n a = ok tt
assert_divides debug n a = do defined (ltb 0 n); assert debug (a % n == 0)

-- PoolAllocator(chunksNum, chunkSize)
unfoldable pub pool_allocator : Build → ℕ → ℕ → Outcome PoolAllocator
pool_allocator build chunks_num chunk_size = do
  assert build (chunk_size % word_size == 0)
  assert_divides build chunk_size (mul64 chunks_num chunk_size)
  ok (record {
    base = interface_of (mul64 chunks_num chunk_size);
    free_chunks_ptr = null;
    free_chunks = λ _. null;
    start_ptr = null;
    chunks_num = chunks_num;
    chunk_size = chunk_size;
    curr_free_chunks_idx = to_int64 (sub64 chunks_num 1);
    spinlock = false;
  })

-- PoolAllocator(const PoolAllocator&): the pointers are copied, the lock is a new one.
unfoldable pub copy : PoolAllocator → PoolAllocator
copy s = record s { base = copy_interface s.base; spinlock = false }

-- ~PoolAllocator
unfoldable pub destroy : PoolAllocator → List Call
destroy s = Call.free s.start_ptr ∷ Call.free s.free_chunks_ptr ∷ []

-- ++idx and --idx
abbrev pub up : ℤ → ℤ
up (pos i) = pos (suc i)
up (negsuc zero) = pos 0
up (negsuc (suc i)) = negsuc i

abbrev pub down : ℤ → ℤ
down (pos zero) = negsuc 0
down (pos (suc i)) = pos i
down (negsuc i) = negsuc (suc i)

-- An index into the array that Init allocated
abbrev pub in_array : ℕ → PoolAllocator → Bool
in_array i s = not (s.free_chunks_ptr == null) && ltb i s.chunks_num

-- The loop of Reset, for the chunks below `n`
unfoldable pub fill : ℕ → ℕ → ℕ → (ℕ → Ptr) → ℕ → Ptr
fill start size zero f = f
fill start size (suc i) f = update (fill start size i f) i (add64 start (mul64 i size))

unfoldable pub reset : ThreadPolicy → PoolAllocator → Outcome PoolAllocator
reset policy s = do
  flag ← enter policy s.spinlock
  defined (s.chunks_num == 0 || not (s.free_chunks_ptr == null))
  ok (record s {
    base = record (s.base) { used = 0 };
    free_chunks = fill s.start_ptr s.chunk_size s.chunks_num s.free_chunks;
    curr_free_chunks_idx = down (to_int64 s.chunks_num);
    spinlock = leave policy flag;
  })

-- Init, with the addresses that `malloc` answers for the chunks and for the array
unfoldable pub init_calls : Ptr → Ptr → PoolAllocator → List Call
init_calls fresh array s =
    Call.malloc s.total_size fresh ∷ Call.malloc (mul64 s.chunks_num word_size) array ∷ []

unfoldable pub init : ThreadPolicy → Ptr → Ptr → PoolAllocator → Outcome PoolAllocator
init policy fresh array s = reset policy (record s { start_ptr = fresh; free_chunks_ptr = array })

-- Allocate behind the test of the index
unfoldable pub take_chunk :
    Build → ThreadPolicy → ℕ → ℤ → PoolAllocator → Outcome (Ptr × PoolAllocator)
take_chunk build policy alignment (negsuc i) s = ok (null, s)
take_chunk build policy alignment (pos i) s = do
  defined (in_array i s)
  assert_divides build alignment (s.free_chunks i)
  ok (
    s.free_chunks i,
    record s {
      base = record (s.base) { used = add64 s.used s.chunk_size };
      curr_free_chunks_idx = down (pos i);
      spinlock = leave policy s.spinlock;
    },
  )

abbrev pub is_nonneg : ℤ → Bool
is_nonneg (pos i) = true
is_nonneg (negsuc i) = false

unfoldable pub allocate :
    Build → ThreadPolicy → ℕ → ℕ → PoolAllocator → Outcome (Ptr × PoolAllocator)
allocate build policy size alignment s = do
  assert build (leb size s.chunk_size)
  flag ← enter policy s.spinlock
  assert build (is_nonneg s.curr_free_chunks_idx)
  take_chunk build policy alignment s.curr_free_chunks_idx (record s { spinlock = flag })

-- Free behind the test of the pointer, with the index that `++` gives
unfoldable pub give_back : ThreadPolicy → Ptr → ℤ → PoolAllocator → Outcome (Bool × PoolAllocator)
give_back policy ptr (negsuc i) s = faulted
give_back policy ptr (pos i) s = do
  defined (in_array i s)
  ok (
    true,
    record s {
      base = record (s.base) { used = sub64 s.used s.chunk_size };
      free_chunks = update s.free_chunks i ptr;
      curr_free_chunks_idx = pos i;
      spinlock = leave policy s.spinlock;
    },
  )

unfoldable pub free : ThreadPolicy → Ptr → PoolAllocator → Outcome (Bool × PoolAllocator)
free policy ptr s = do
  flag ← enter policy s.spinlock
  let s' = record s { spinlock = flag }
  if ltb ptr s.start_ptr || ltb (add64 s.start_ptr s.total_size) ptr
      then ok (false, s')
      else give_back policy ptr (up s.curr_free_chunks_idx) s'

unfoldable pub get_chunk_size : PoolAllocator → ℕ
get_chunk_size s = s.chunk_size
