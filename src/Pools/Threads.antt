-- ===== src/Pools/Threads.antt =====
-- RunMultiThreadTest of src/PoolAllocatorTest.cpp, in a release build: two threads that share
-- PoolAllocators, whose pools have the policy with a spin lock. A call of a pool is a call of the object
-- with the pool's number.
pub mod Shares
pub mod Ownership
pub mod Entry
pub mod Orderly
pub mod Entering
pub mod Steps
pub mod Start
pub mod Exclusion
mod Tests
mod WholeTests
use memory_allocators.Base.{
  ℕ, zero, suc, ◌/◌, Bool, true, false, not, ltb, leb, ◌==◌, if◌then◌else◌, ◌&&◌, ◌||◌, List, [],
  ◌∷◌, ◌++◌, Option, none, some, Ptr, null, to_u32, release, Outcome, ok, ◌>>=◌, length, get_elem?,
  erase_idx, negsuc,
}
use memory_allocators.Interface.{ThreadPolicy, enable_spin_lock, interface_of}
use memory_allocators.SystemHeap
use memory_allocators.Workload.{random_size, random_index, calls_after}
use memory_allocators.Pool.{PoolAllocator}
use memory_allocators.Pools.{Pools, chunk_sizes, construct, init, used_size}
use memory_allocators.Sharing.PoolMethods.{Call, allocates, frees, Local, pool_methods}
use memory_allocators.Sharing.Several.{
  Process, ends, undefined, asks, calls, Stand, between, System, Turn, run, start,
}

abbrev pub PoolProcess : Type 0
PoolProcess = Process pool_methods

-- Allocate of PoolAllocators, from the pool `i` on, whose chunks have the sizes `sizes`; `fallback` is
-- what `malloc` would answer. `then` is what follows with the address.
unfoldable pub allocate_from : List ℕ → ℕ → Ptr → ℕ → (Ptr → PoolProcess) → PoolProcess
allocate_from [] i fallback size continue =
    asks (SystemHeap.Call.malloc size fallback) (continue fallback)
allocate_from (chunk_size ∷ sizes) i fallback size continue =
    if leb size chunk_size
    then calls i allocates (λ l.
      if l.address == null
      then asks (SystemHeap.Call.malloc size fallback) (continue fallback)
      else continue l.address)
    else allocate_from sizes (suc i) fallback size continue

-- Free of PoolAllocators, for `n` pools from `i` on
unfoldable pub free_from : ℕ → ℕ → Ptr → PoolProcess → PoolProcess
free_from zero i p continue = asks (SystemHeap.Call.free p) continue
free_from (suc n) i p continue =
    calls i (frees p) (λ l. if l.early then free_from n (suc i) p continue else continue)

-- memPointers[idx] is freed.
unfoldable pub free_element : List ℕ → Option Ptr → PoolProcess → PoolProcess
free_element sizes none continue = undefined
free_element sizes (some p) continue = free_from (length sizes) 0 p continue

-- threadFunc. `rand` answers a thread's k-th call of it, and `answer` what `malloc` would in its k-th
-- round.
module _ (rand : ℕ → ℕ) (answer : ℕ → Ptr) (sizes : List ℕ) where
  -- The loop of returns, from the index `i - 1` down to 0
  unfoldable pub returns : ℕ → ℕ → List Ptr → PoolProcess
  returns zero k ps = ends
  returns (suc i) k ps =
      free_element sizes (get_elem? ps (random_index rand k i))
        (returns i (calls_after k i) (erase_idx ps (random_index rand k i)))

  -- The loop of requests, and then the one of returns
  unfoldable pub requests : ℕ → ℕ → List Ptr → PoolProcess
  requests zero k ps = returns (length ps) k ps
  requests (suc n) k ps =
      allocate_from sizes 0 (answer k) (to_u32 (random_size rand k))
        (λ p. requests n (suc k) (ps ++ p ∷ []))

  abbrev pub thread_func : ℕ → PoolProcess
  thread_func n = requests n 0 []

-- A pool that is not there
abbrev pub no_pool : PoolAllocator
no_pool = record {
  base = interface_of 0;
  free_chunks_ptr = null;
  free_chunks = λ _. null;
  start_ptr = null;
  chunks_num = 0;
  chunk_size = 0;
  curr_free_chunks_idx = negsuc 0;
  spinlock = false;
}

abbrev pub pool_at : Pools → ℕ → PoolAllocator
pool_at [] i = no_pool
pool_at (a ∷ pools) zero = a
pool_at (a ∷ pools) (suc i) = pool_at pools i

-- The pools of a list of sizes, from the number `i` on
abbrev pub pools_from : List ℕ → ℕ → (ℕ → PoolAllocator) → Pools
pools_from [] i f = []
pools_from (size ∷ sizes) i f = f i ∷ pools_from sizes (suc i) f

abbrev pub is_over : Stand pool_methods → Bool
is_over (between ends) = true
is_over _ = false

-- thread1 and thread2 are the threads 0 and 1; there is no other.
abbrev pub both : PoolProcess → PoolProcess → ℕ → PoolProcess
both first second zero = first
both first second (suc zero) = second
both first second i = ends

abbrev pub is_undefined : Stand pool_methods → Bool
is_undefined (between undefined) = true
is_undefined _ = false

-- How the test stands: it does nothing at all, a thread still goes on, one has done something undefined,
-- or both are at their ends, and whether it passes
pub data TestEnd : Type 0 where
  skipped runs broken : TestEnd
  finished : Bool → TestEnd

abbrev pub result : System pool_methods → TestEnd
result s =
    if is_over (s.stand 0) && is_over (s.stand 1)
    then finished (not (ltb 0 (used_size (pools_from chunk_sizes 0 s.shared))))
    else if is_undefined (s.stand 0) || is_undefined (s.stand 1)
    then broken
    else runs

-- The pools and the two threads, after some steps of the threads
unfoldable pub run_threads :
    ℕ
    → (ℕ → Ptr)
    → (ℕ → Ptr)
    → (ℕ → ℕ → ℕ)
    → (ℕ → ℕ → Ptr)
    → List (Turn pool_methods)
    → Outcome (System pool_methods)
run_threads n fresh array rand answer turns = do
  pools ← construct release n chunk_sizes
  pools' ← init enable_spin_lock fresh array 0 pools
  let first = thread_func (rand 0) (answer 0) chunk_sizes (n / 2)
  let second = thread_func (rand 1) (answer 1) chunk_sizes (n / 2)
  ok (run pool_methods turns (start pool_methods (pool_at pools') (both first second)))

-- RunMultiThreadTest, after some steps of the threads. The source has `n` = 1000.
unfoldable pub run_multi_thread_test :
    ThreadPolicy
    → ℕ
    → (ℕ → Ptr)
    → (ℕ → Ptr)
    → (ℕ → ℕ → ℕ)
    → (ℕ → ℕ → Ptr)
    → List (Turn pool_methods)
    → Outcome TestEnd
run_multi_thread_test ThreadPolicy.none n fresh array rand answer turns = ok skipped
run_multi_thread_test enable_spin_lock n fresh array rand answer turns = do
  s ← run_threads n fresh array rand answer turns
  ok (result s)

-- The calls of the system's heap that the threads have made
unfoldable pub calls_of_threads :
    ThreadPolicy
    → ℕ
    → (ℕ → Ptr)
    → (ℕ → Ptr)
    → (ℕ → ℕ → ℕ)
    → (ℕ → ℕ → Ptr)
    → List (Turn pool_methods)
    → Outcome (List SystemHeap.Call)
calls_of_threads ThreadPolicy.none n fresh array rand answer turns = ok []
calls_of_threads enable_spin_lock n fresh array rand answer turns = do
  s ← run_threads n fresh array rand answer turns
  ok s.heap_calls
