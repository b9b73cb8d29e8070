-- ===== src/Sharing/PoolMethods/Agreement.antt =====
-- The accesses of a method, with no other thread between them, are the method of the pool.
use memory_allocators.Base.{
  ℕ, zero, suc, ◌+◌, ◌<◌, ◌≡◌, refl, arith, Bool, true, false, not, List, Ptr, null, add64, ltb,
  ltb-true, ==_false, ◌||◌, release, ok,
}
use memory_allocators.Interface.{enable_spin_lock}
use memory_allocators.Pool.{PoolAllocator, in_array, allocate, free, take_chunk, give_back}
use memory_allocators.Pool.Invariant.{Accounted, top_of}
use memory_allocators.Pool.Chunks.{lends, room, in_array-top, up_top, down_pos}
use memory_allocators.Sharing.{finish, perform}
use memory_allocators.Sharing.PoolMethods.{
  Call, allocates, frees, Local, nothing_read, accesses, pool_methods,
}

abbrev pub outcome : Call → PoolAllocator → Local × PoolAllocator
outcome call s = finish pool_methods (accesses call) nothing_read s

-- Allocate with a free chunk
pub allocates-lends :
    (s : PoolAllocator) (k : ℕ) (lent : List Ptr)
    → Accounted s (suc k) lent
    → perform pool_methods allocates s ≡ lends k s
unfolding finish
allocates-lends s k lent inv =
    let sum : add64 s.used s.chunk_size ≡ s.used + s.chunk_size =
      omega (arith, room s k lent inv, inv.fits) in
    rw (inv.index, sum, down_pos k) refl

-- The pool behind a method, which has left the lock held where it has returned early
abbrev pub returned : Local × PoolAllocator → PoolAllocator
returned r = record (r.1) { spinlock = r.0.early }

module _ (s : PoolAllocator) (clear : s.spinlock ≡ false) where
  -- `Allocate` in a release build under `ENABLE_SPIN_LOCK`, of a pool that holds its invariant and has
  -- its lock free, whether a chunk is free or not: its accesses, done one by one, give the same address,
  -- the same pool, and the same lock, which stays held where no chunk is free.
  pub allocate-accesses :
      (k : ℕ) (lent : List Ptr)
      → Accounted s k lent
      → (size alignment : ℕ)
      → allocate release enable_spin_lock size alignment s
        ≡ ok ((outcome allocates s).0.address, returned (outcome allocates s))
  unfolding finish allocate take_chunk
  allocate-accesses zero lent inv size alignment = rw (clear, inv.index) refl
  allocate-accesses (suc k) lent inv size alignment =
      rw (clear, inv.index, in_array-top s k lent inv) refl

  free_one :
      (k : ℕ) (p : Ptr)
      → s.curr_free_chunks_idx ≡ top_of k
      → in_array k s ≡ true
      → (b : Bool) → (ltb p s.start_ptr || ltb (add64 s.start_ptr s.total_size) p) ≡ b
      → free enable_spin_lock p s
        ≡ ok (not (outcome (frees p) s).0.early, returned (outcome (frees p) s))
  unfolding finish free give_back
  free_one k p index within true out = rw (clear, out) refl
  free_one k p index within false out = rw (clear, out, index, up_top k, within) refl

  -- `Free` under `ENABLE_SPIN_LOCK` of any address, of a pool that holds its invariant, has its lock free
  -- and has lent a chunk: its accesses, done one by one, give the same answer, the same pool, and the
  -- same lock, which stays held where the address is refused.
  pub free-accesses :
      (k : ℕ) (lent : List Ptr)
      → Accounted s k lent
      → k < s.chunks_num
      → (p : Ptr)
      → free enable_spin_lock p s
        ≡ ok (not (outcome (frees p) s).0.early, returned (outcome (frees p) s))
  free-accesses k lent inv some_lent p =
      let within : in_array k s ≡ true =
        rw (==_false s.free_chunks_ptr null inv.array, ltb-true k s.chunks_num some_lent) refl in
      free_one k p inv.index within (ltb p s.start_ptr || ltb (add64 s.start_ptr s.total_size) p)
        refl
