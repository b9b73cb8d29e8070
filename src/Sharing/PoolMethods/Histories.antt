-- ===== src/Sharing/PoolMethods/Histories.antt =====
-- What threads that share a pool of src/PoolAllocator.h do to it, one method after the other.
use memory_allocators.Base.{
  ℕ, suc, ◌+◌, ◌-◌, ◌≡◌, refl, sym, subst, false, List, [], ◌∷◌, ◌++◌, arith, Ptr, add64, sub64,
  ltb, ltb-false, ◌||◌,
}
use memory_allocators.Pool.{PoolAllocator}
use memory_allocators.Pool.Invariant.{Accounted}
use memory_allocators.Pool.Chunks.{lends, lends-Accounted, up_top}
use memory_allocators.Pool.Giving.{takes_back, bounded, enough, used_fits, takes_back-Accounted}
use memory_allocators.Sharing.{Turn, finish, in_turn, perform, run, new}
use memory_allocators.Sharing.Serial.{Serial-resting, run-Serial}
use memory_allocators.Sharing.PoolMethods.{
  Call, allocates, frees, pool_methods, gives, nothing_read,
}
use memory_allocators.Sharing.PoolMethods.Agreement.{allocates-lends}

-- Free of a lent address
pub free-takes_back :
    (s : PoolAllocator) (k : ℕ) (xs : List Ptr) (p : Ptr) (ys : List Ptr)
    → Accounted s k (xs ++ p ∷ ys)
    → perform pool_methods (frees p) s ≡ takes_back p k s
unfolding finish
free-takes_back s k xs p ys inv =
    let top : add64 s.start_ptr s.total_size ≡ s.start_ptr + s.total_size =
      omega (arith, inv.fits) in
    let less : sub64 s.used s.chunk_size ≡ s.used - s.chunk_size =
      omega (arith, enough s k xs p ys inv, used_fits s k xs p ys inv) in
    let within = bounded s k xs p ys inv in
    let inside : (ltb p s.start_ptr || ltb (add64 s.start_ptr s.total_size) p) ≡ false =
      rw
        (
          ltb-false p s.start_ptr within.0,
          top,
          ltb-false (s.start_ptr + s.total_size) p (omega (arith, within)),
        )
        refl in
    subst
      (λ b.
        (finish pool_methods (gives p) (record nothing_read { early = b }) s).1 ≡ takes_back p k s)
      (sym inside) (rw (inv.index, up_top k, less) refl)

-- Calls on a pool, one after the other, which give back only what is lent, from `k` free chunks and
-- the lent ones to those that there are behind the calls. `Allocate` without a free chunk does nothing.
pub data Calls : PoolAllocator → ℕ → List Ptr → List Call → ℕ → List Ptr → Type 0 where
  stops : {s : PoolAllocator} {k : ℕ} {lent : List Ptr} → Calls s k lent [] k lent
  finds_none :
      {s : PoolAllocator} {lent lent' : List Ptr} {calls : List Call} {k' : ℕ}
      → Calls s 0 lent calls k' lent'
      → Calls s 0 lent (allocates ∷ calls) k' lent'
  takes :
      {s : PoolAllocator} {k k' : ℕ} {lent lent' : List Ptr} {calls : List Call}
      → Calls (lends k s) k (s.free_chunks k ∷ lent) calls k' lent'
      → Calls s (suc k) lent (allocates ∷ calls) k' lent'
  gives_back :
      {s : PoolAllocator} {k k' : ℕ} {lent lent' : List Ptr} {calls : List Call} (xs : List Ptr)
      (p : Ptr) (ys : List Ptr)
      → lent ≡ xs ++ p ∷ ys
      → Calls (takes_back p k s) (suc k) (xs ++ ys) calls k' lent'
      → Calls s k lent (frees p ∷ calls) k' lent'

-- Allocate without a free chunk
pub allocates-none :
    (s : PoolAllocator) (lent : List Ptr)
    → Accounted s 0 lent
    → perform pool_methods allocates s ≡ s
unfolding finish
allocates-none s lent inv = rw (inv.index) refl

pub in_turn-Accounted :
    {s : PoolAllocator} {k k' : ℕ} {lent lent' : List Ptr} {calls : List Call}
    → Calls s k lent calls k' lent'
    → Accounted s k lent
    → Accounted (in_turn pool_methods calls s) k' lent'
unfolding in_turn
in_turn-Accounted stops inv = inv
in_turn-Accounted (finds_none {s} {lent} {lent'} {calls} {k'} rest) inv =
    subst (λ u. Accounted (in_turn pool_methods calls u) k' lent') (sym (allocates-none s lent inv))
      (in_turn-Accounted rest inv)
in_turn-Accounted (takes {s} {k} {k'} {lent} {lent'} {calls} rest) inv =
    subst (λ u. Accounted (in_turn pool_methods calls u) k' lent')
      (sym (allocates-lends s k lent inv)) (in_turn-Accounted rest (lends-Accounted s k lent inv))
in_turn-Accounted (gives_back {s} {k} {k'} {lent} {lent'} {calls} xs p ys parts rest) inv =
    let here : Accounted s k (xs ++ p ∷ ys) = subst (Accounted s k) parts inv in
    subst (λ u. Accounted (in_turn pool_methods calls u) k' lent')
      (sym (free-takes_back s k xs p ys here))
      (in_turn-Accounted rest (takes_back-Accounted s k xs p ys here))

-- Threads that share a pool which holds its invariant, under `ENABLE_SPIN_LOCK` in a release build, for
-- any number of threads, any order of their single accesses and from a new lock on: where the methods
-- that have got the lock, in that order, give back only what is lent, and where the lock is free, the
-- pool holds its invariant, with the free and the lent chunks that those calls leave.
pub run-Accounted :
    (s₀ : PoolAllocator) (k : ℕ) (lent : List Ptr)
    → Accounted s₀ k lent
    → (turns : List (Turn pool_methods)) (k' : ℕ) (lent' : List Ptr)
    → Calls s₀ k lent (run pool_methods turns (new pool_methods s₀)).entered k' lent'
    → (run pool_methods turns (new pool_methods s₀)).flag ≡ false
    → Accounted (run pool_methods turns (new pool_methods s₀)).shared k' lent'
run-Accounted s₀ k lent inv turns k' lent' calls clear =
    let t = run pool_methods turns (new pool_methods s₀) in
    subst (λ u. Accounted u k' lent')
      (sym (Serial-resting pool_methods s₀ t (run-Serial pool_methods s₀ turns) clear))
      (in_turn-Accounted calls inv)
