-- ===== src/Pool/Faults.antt =====
-- The limits of src/PoolAllocator.h: a pool with no free chunk, addresses that are not lent, and
-- copies.
use memory_allocators.Base.{
  Bool, ℕ, ◌+◌, ◌≤◌, ◌<◌, ◌≡◌, ◌≢◌, refl, ◌⊎◌, inl, inr, Bool-cases, List, [], ◌∷◌, ◌++◌, none,
  arith, Ptr, null, false, leb, ltb-true, ltb-false, ==_refl, ==_false, update, update_self, add64,
  sub64, debug, release, ok, aborted, faulted, blocked, ◌>>=◌,
}
use mathlib.Core.Option
use memory_allocators.Interface.{ThreadPolicy, enable_spin_lock}
use memory_allocators.Lock.{enter}
use memory_allocators.SystemHeap.{owned, owns_after}
use memory_allocators.Pool.{
  PoolAllocator, c_pool_alloc_thread_policy, copy, destroy, take_chunk, allocate, give_back, free,
}
use memory_allocators.Pool.Invariant.{Accounted, top_of}
use memory_allocators.Pool.Chunks.{up_top, down_pos}

-- `Allocate` with no free chunk: null in a release build, where nothing changes, and a failed
-- assertion in a debug build.
pub allocate_full :
    (s : PoolAllocator) (lent : List Ptr) (size alignment : ℕ)
    → Accounted s 0 lent
    → (allocate release c_pool_alloc_thread_policy size alignment s ≡ ok (null, s))
      × (allocate debug c_pool_alloc_thread_policy size alignment s ≡ aborted)
unfolding allocate take_chunk
allocate_full s lent size alignment inv = (
  rw (inv.index) refl,
  elim (Bool-cases (leb size s.chunk_size)) [ inl e ↦ rw (e, inv.index) refl | inr e ↦ rw e refl ],
)

-- `Free` of an address below the pool, or above the address one past its end: it is refused under
-- either policy, and the lock stays as it is behind `lock`.
pub free_refuses :
    (s : PoolAllocator) (k : ℕ) (lent : List Ptr) (p : Ptr)
    → Accounted s k lent
    → (p < s.start_ptr) ⊎ (s.start_ptr + s.total_size < p)
    → (policy : ThreadPolicy) (flag : Bool) → enter policy s.spinlock ≡ ok flag
    → free policy p s ≡ ok (false, record s { spinlock = flag })
unfolding free
free_refuses s k lent p inv (inl h) policy flag enters = rw (enters, ltb-true p s.start_ptr h) refl
free_refuses s k lent p inv (inr h) policy flag enters =
    let top : add64 s.start_ptr s.total_size ≡ s.start_ptr + s.total_size =
      omega (arith, inv.fits) in
    rw
      (
        enters,
        ltb-false p s.start_ptr (omega arith),
        top,
        ltb-true (s.start_ptr + s.total_size) p h,
      )
      refl

-- Without a lock nothing changes.
pub free_foreign :
    (s : PoolAllocator) (k : ℕ) (lent : List Ptr) (p : Ptr)
    → Accounted s k lent
    → (p < s.start_ptr) ⊎ (s.start_ptr + s.total_size < p)
    → free c_pool_alloc_thread_policy p s ≡ ok (false, s)
free_foreign s k lent p inv out =
    free_refuses s k lent p inv out c_pool_alloc_thread_policy s.spinlock refl

-- `Free` while every chunk is free, as by a second `Free` of the only chunk that was lent: for every
-- address in the pool it is not refused, but writes behind the end of the array of free chunks.
pub free_twice :
    (s : PoolAllocator) (p : Ptr)
    → Accounted s s.chunks_num []
    → s.start_ptr ≤ p
    → p ≤ s.start_ptr + s.total_size
    → free c_pool_alloc_thread_policy p s ≡ faulted
unfolding free give_back
free_twice s p inv lo hi =
    let top : add64 s.start_ptr s.total_size ≡ s.start_ptr + s.total_size =
      omega (arith, inv.fits) in
    rw
      (
        ltb-false p s.start_ptr lo,
        top,
        ltb-false (s.start_ptr + s.total_size) p hi,
        inv.index,
        up_top s.chunks_num,
        ==_false s.free_chunks_ptr null inv.array,
        ltb-false s.chunks_num s.chunks_num (omega arith),
      )
      refl

-- The pool behind `Free` of its end and the next `Allocate`
abbrev pub with_end : ℕ → PoolAllocator → PoolAllocator
with_end k s = record s {
  base = record (s.base) { used = add64 (sub64 s.used s.chunk_size) s.chunk_size };
  free_chunks = update s.free_chunks k (s.start_ptr + s.total_size);
  curr_free_chunks_idx = top_of k;
}

-- `Free` of the address one past the last byte of the pool, while some chunk is lent: it is accepted,
-- and the next `Allocate` of a release build answers that address, which is not in the pool.
pub free_end :
    (s : PoolAllocator) (k : ℕ) (lent : List Ptr) (size alignment : ℕ)
    → Accounted s k lent
    → k < s.chunks_num
    → (free c_pool_alloc_thread_policy (s.start_ptr + s.total_size) s >>= λ r.
        allocate release c_pool_alloc_thread_policy size alignment r.1)
      ≡ ok (s.start_ptr + s.total_size, with_end k s)
unfolding free give_back allocate take_chunk
free_end s k lent size alignment inv l =
    let p : Ptr = s.start_ptr + s.total_size in
    let top : add64 s.start_ptr s.total_size ≡ p = omega (arith, inv.fits) in
    rw
      (
        ltb-false p s.start_ptr (omega arith),
        top,
        ltb-false p p (omega arith),
        inv.index,
        up_top k,
        ==_false s.free_chunks_ptr null inv.array,
        ltb-true k s.chunks_num l,
        ==_false s.free_chunks_ptr null inv.array,
        ltb-true k s.chunks_num l,
        update_self s.free_chunks k p,
        down_pos k,
      )
      refl

-- Under the policy with a spin lock, `Free` of an address below the pool returns with the lock held:
-- the thread's next `Free` waits without end.
pub free_keeps_lock :
    (s : PoolAllocator) (p q : Ptr)
    → p < s.start_ptr
    → s.spinlock ≡ false
    → (free enable_spin_lock p s >>= λ r. free enable_spin_lock q r.1) ≡ blocked
unfolding free
free_keeps_lock s p q l e = rw (e, ltb-true p s.start_ptr l) refl

-- Under the policy with a spin lock, `Allocate` of a release build with no free chunk returns with
-- the lock held: the thread's next `Allocate` waits without end.
pub full_keeps_lock :
    (s : PoolAllocator) (lent : List Ptr) (size alignment other : ℕ)
    → Accounted s 0 lent
    → s.spinlock ≡ false
    → (allocate release enable_spin_lock size alignment s >>= λ r.
        allocate release enable_spin_lock other alignment r.1)
      ≡ blocked
unfolding allocate take_chunk
full_keeps_lock s lent size alignment other inv e = rw (e, inv.index) refl

-- A pool that owns its two blocks, and a copy of it, both destroyed: the second destructor frees what
-- the first has freed.
pub destroy-copy :
    (s : PoolAllocator)
    → s.start_ptr ≢ null
    → s.free_chunks_ptr ≢ null
    → s.start_ptr ≢ s.free_chunks_ptr
    → owned (s.start_ptr ∷ s.free_chunks_ptr ∷ []) (destroy s ++ destroy (copy s)) ≡ none
unfolding owned owns_after Option.bind destroy copy
destroy-copy s held there apart =
    rw
      (
        ==_false s.start_ptr null held,
        ==_refl s.start_ptr,
        ==_false s.free_chunks_ptr null there,
        ==_refl s.free_chunks_ptr,
      )
      refl
