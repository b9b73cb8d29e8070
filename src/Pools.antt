-- ===== src/Pools.antt =====
-- PoolAllocators of src/PoolAllocatorTest.cpp: nine pools with chunks of rising size, and the system's
-- heap behind them. `mAllocators` is the list of the pools.
pub mod Fallback
pub mod Holdings
pub mod Locked
pub mod Serving
mod Tests
pub mod Threads
pub mod Workload
use memory_allocators.Base.{
  ℕ, zero, suc, ◌+◌, Bool, true, false, List, [], ◌∷◌, Ptr, null, leb, ◌==◌, if◌then◌else◌, to_u32,
  Build, Outcome, ok, ◌>>=◌,
}
use memory_allocators.Interface.{ThreadPolicy, get_total_size, get_used_size}
use memory_allocators.SystemHeap.{Call}
use memory_allocators.Pool
use memory_allocators.Pool.{PoolAllocator, pool_allocator, get_chunk_size}

abbrev pub Pools : Type 0
Pools = List PoolAllocator

-- The sizes of the chunks
abbrev pub chunk_sizes : List ℕ
chunk_sizes = 64 ∷ 128 ∷ 256 ∷ 512 ∷ 1024 ∷ 2048 ∷ 3072 ∷ 4096 ∷ 5120 ∷ []

-- The initialiser of mAllocators, with sMaxChunksNum
unfoldable pub construct : Build → ℕ → List ℕ → Outcome Pools
construct build chunks_num [] = ok []
construct build chunks_num (size ∷ sizes) = do
  a ← pool_allocator build chunks_num size
  pools ← construct build chunks_num sizes
  ok (a ∷ pools)

-- PoolAllocators(), with the addresses that `malloc` answers from the i-th allocator on
unfoldable pub init : ThreadPolicy → (ℕ → Ptr) → (ℕ → Ptr) → ℕ → Pools → Outcome Pools
init policy fresh array i [] = ok []
init policy fresh array i (a ∷ pools) = do
  a' ← Pool.init policy (fresh i) (array i) a
  pools' ← init policy fresh array (suc i) pools
  ok (a' ∷ pools')

-- The loop of Allocate: the first pool whose chunks are large enough is asked, and no other.
unfoldable pub first_fit : Build → ThreadPolicy → ℕ → Pools → Outcome (Ptr × Pools)
first_fit build policy size [] = ok (null, [])
first_fit build policy size (a ∷ pools) =
    if leb size (get_chunk_size a)
    then Pool.allocate build policy size 8 a >>= (λ r. ok (r.0, r.1 ∷ pools))
    else first_fit build policy size pools >>= (λ r. ok (r.0, a ∷ r.1))

-- Allocate, with what `malloc` would answer, and its calls
unfoldable pub allocate : Build → ThreadPolicy → Ptr → ℕ → Pools → Outcome (Ptr × Pools × List Call)
allocate build policy fallback size pools = do
  (result, pools') ← first_fit build policy size pools
  ok (
      if result == null
      then (fallback, pools', Call.malloc size fallback ∷ [])
      else (result, pools', []))

-- The loop of Free: the first pool that accepts the address
unfoldable pub offer : ThreadPolicy → Ptr → Pools → Outcome (Bool × Pools)
offer policy p [] = ok (false, [])
offer policy p (a ∷ pools) = do
  (found, a') ← Pool.free policy p a
  (found', pools') ← (if found then ok (true, pools) else offer policy p pools)
  ok (found', a' ∷ pools')

unfoldable pub free : ThreadPolicy → Ptr → Pools → Outcome (Pools × List Call)
free policy p pools = do
  (found, pools') ← offer policy p pools
  ok (if found then (pools', []) else (pools', Call.free p ∷ []))

-- The loops of GetTotalSize and GetUsedSize, with the sum so far in a `uint32_t`
unfoldable pub total_size_from : ℕ → Pools → ℕ
total_size_from sum [] = sum
total_size_from sum (a ∷ pools) = total_size_from (to_u32 (sum + get_total_size a.base)) pools

unfoldable pub used_size_from : ℕ → Pools → ℕ
used_size_from sum [] = sum
used_size_from sum (a ∷ pools) = used_size_from (to_u32 (sum + get_used_size a.base)) pools

abbrev pub total_size : Pools → ℕ
total_size pools = total_size_from 0 pools

abbrev pub used_size : Pools → ℕ
used_size pools = used_size_from 0 pools
