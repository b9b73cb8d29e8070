-- ===== src/Pools/Locked.antt =====
-- PoolAllocators of src/PoolAllocatorTest.cpp where the pools have the policy with a spin lock.
use native.Mathlib.Decide.{dec_lt}
use memory_allocators.Base.{
  ℕ, ◌≤◌, ◌<◌, ◌≡◌, refl, subst, true, false, arith, List, [], ◌∷◌, Ptr, leb-true, count,
  count-split, release, ok, blocked,
}
use memory_allocators.Interface.{enable_spin_lock}
use memory_allocators.Lock.{enter}
use memory_allocators.Pool
use memory_allocators.Pool.{PoolAllocator, get_chunk_size}
use memory_allocators.Pool.Invariant.{Accounted}
use memory_allocators.Pool.Giving.{free_lent, takes_back}
use memory_allocators.Pool.Faults.{free_refuses}
use memory_allocators.Pools.{Pools, first_fit, allocate, offer, free}
use memory_allocators.Pools.Holdings.{Holding, Holds, Apart, count_lent, lent_outside}

-- All locks are free.
abbrev pub Unlocked : Pools → Type 0
Unlocked [] = Unit {0}
Unlocked (a ∷ pools) = (a.spinlock ≡ false) × Unlocked pools

enters : (a : PoolAllocator) → a.spinlock ≡ false → enter enable_spin_lock a.spinlock ≡ ok true
enters a clear = rw clear refl

-- `offer` of an address that is lent finds its pool.
offer_finds :
    (pools : Pools) (hs : List Holding) (p : Ptr)
    → Holds pools hs
    → Apart pools
    → Unlocked pools
    → 0 < count_lent p hs
    → (pools' : Pools) × (offer enable_spin_lock p pools ≡ ok (true, pools'))
unfolding offer
offer_finds [] [] p h s u pos = absurd (omega arith)
offer_finds [] (i ∷ hs) p h s u pos = absurd h
offer_finds (a ∷ pools) [] p h s u pos = absurd h
offer_finds (a ∷ pools) (i ∷ hs) p h s u pos = elim (dec_lt 0 (count p i.lent)) [
  | yes here ↦
      let (xs, ys, parts) = count-split p i.lent here in
      let inv = subst (Accounted a i.left) parts h.0 in
      (
        record (takes_back p i.left a) { spinlock = false } ∷ pools,
        rw (free_lent a i.left xs p ys inv enable_spin_lock true (enters a u.0)) refl,
      )
  | no none ↦
      let later : 0 < count_lent p hs = omega arith in
      let out = lent_outside a pools hs p s.0 h.1 later in
      let refused = free_refuses a i.left i.lent p h.0 out enable_spin_lock true (enters a u.0) in
      let (pools', run) = offer_finds pools hs p h.1 s.1 u.1 later in
      (record a { spinlock = true } ∷ pools', rw (refused, run) refl)
]

-- Under the policy with a spin lock, in a release build, of pools in memories apart whose locks are free:
-- Free of an address that a pool behind the first one has lent returns, but it leaves the lock of the
-- first pool held. Each later Free, and each later Allocate that the first pool is large enough for,
-- waits without end.
pub free_hangs :
    (a : PoolAllocator) (i : Holding) (pools : Pools) (hs : List Holding) (p : Ptr)
    → Holds (a ∷ pools) (i ∷ hs)
    → Apart (a ∷ pools)
    → Unlocked (a ∷ pools)
    → 0 < count_lent p hs
    → (q fallback : Ptr) (size : ℕ) → size ≤ a.chunk_size
    → (pools' : Pools) × (free enable_spin_lock p (a ∷ pools) ≡ ok (pools', []))
      × (free enable_spin_lock q pools' ≡ blocked)
      × (allocate release enable_spin_lock fallback size pools' ≡ blocked)
unfolding free offer Pool.free allocate first_fit Pool.allocate get_chunk_size
free_hangs a i pools hs p h s u lent q fallback size small =
    let out = lent_outside a pools hs p s.0 h.1 lent in
    let refused = free_refuses a i.left i.lent p h.0 out enable_spin_lock true (enters a u.0) in
    let (pools', run) = offer_finds pools hs p h.1 s.1 u.1 lent in
    (
      record a { spinlock = true } ∷ pools',
      rw (refused, run) refl,
      refl,
      rw (leb-true size a.chunk_size small) refl,
    )
