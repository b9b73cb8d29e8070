-- ===== src/Pools/Holdings.antt =====
-- What the pools of PoolAllocators hold: the addresses that each has lent, in memories apart.
use memory_allocators.Base.{
  ℕ, suc, ◌+◌, ◌≤◌, ◌<◌, ◌≡◌, ◌⊎◌, refl, subst, ap, arith, List, [], ◌∷◌, ◌++◌, Ptr, true, ok, same,
  count, count-append, count-split, total,
}
use native.Mathlib.Decide.{dec_lt}
use memory_allocators.Pool.{c_pool_alloc_thread_policy, PoolAllocator}
use memory_allocators.Pool.Invariant.{Accounted, chunk_bounds}
use memory_allocators.Pool.Giving.{free-Accounted, takes_back}
use memory_allocators.Pool.Faults.{free_foreign}
use memory_allocators.Pools.{Pools, offer}

-- How many chunks of a pool are free, and which addresses it has lent
pub record Holding : Type 0 where
  pub left : ℕ
  pub lent : List Ptr

abbrev pub Holds : Pools → List Holding → Type 0
Holds [] [] = Unit {0}
Holds (a ∷ pools) (h ∷ hs) = Accounted a h.left h.lent × Holds pools hs
Holds _ _ = ⊥

-- How often an address is lent
abbrev pub count_lent : Ptr → List Holding → ℕ
count_lent p [] = 0
count_lent p (h ∷ hs) = count p h.lent + count_lent p hs

-- At least one byte lies between the memories of two pools.
abbrev pub Separate : PoolAllocator → PoolAllocator → Type 0
Separate a b =
    (a.start_ptr + a.total_size < b.start_ptr) ⊎ (b.start_ptr + b.total_size < a.start_ptr)

abbrev pub SeparateFrom : PoolAllocator → Pools → Type 0
SeparateFrom a [] = Unit {0}
SeparateFrom a (b ∷ pools) = Separate a b × SeparateFrom a pools

abbrev pub Apart : Pools → Type 0
Apart [] = Unit {0}
Apart (a ∷ pools) = SeparateFrom a pools × Apart pools

-- The memories of the pools stay where they are.
abbrev pub SamePlaces : Pools → Pools → Type 0
SamePlaces [] [] = Unit {0}
SamePlaces (a ∷ pools) (b ∷ others) =
    (a.start_ptr ≡ b.start_ptr)
    × (a.total_size ≡ b.total_size)
    × (a.chunk_size ≡ b.chunk_size)
    × SamePlaces pools others
SamePlaces _ _ = ⊥

pub SamePlaces-refl : (pools : Pools) → SamePlaces pools pools
SamePlaces-refl [] = tt
SamePlaces-refl (a ∷ pools) = (refl, refl, refl, SamePlaces-refl pools)

pub SeparateFrom-SamePlaces :
    (a b : PoolAllocator) (pools others : Pools)
    → a.start_ptr ≡ b.start_ptr
    → a.total_size ≡ b.total_size
    → SamePlaces pools others
    → SeparateFrom a pools
    → SeparateFrom b others
SeparateFrom-SamePlaces a b [] [] start total h s = tt
SeparateFrom-SamePlaces a b [] (d ∷ others) start total h s = absurd h
SeparateFrom-SamePlaces a b (c ∷ pools) [] start total h s = absurd h
SeparateFrom-SamePlaces a b (c ∷ pools) (d ∷ others) start total h s =
    (ground arith, SeparateFrom-SamePlaces a b pools others start total h.3 s.1)

pub Apart-SamePlaces : (pools others : Pools) → SamePlaces pools others → Apart pools → Apart others
Apart-SamePlaces [] [] h s = tt
Apart-SamePlaces [] (b ∷ others) h s = absurd h
Apart-SamePlaces (a ∷ pools) [] h s = absurd h
Apart-SamePlaces (a ∷ pools) (b ∷ others) h s = (
  SeparateFrom-SamePlaces a b pools others h.0 h.1 h.3 s.0,
  Apart-SamePlaces pools others h.3 s.1,
)

-- An address that a pool has lent lies in its memory.
pub lent_bounds :
    (a : PoolAllocator) (left : ℕ) (lent : List Ptr) (p : Ptr)
    → Accounted a left lent
    → 0 < count p lent
    → (a.start_ptr ≤ p) × (p < a.start_ptr + a.total_size)
lent_bounds a left lent p inv h =
    let within = chunk_bounds a p inv.positive (omega (arith, inv.once p)) in
    (within.0, omega (arith, within.1, inv.sized, inv.positive))

-- An address that other pools have lent lies outside.
pub lent_outside :
    (a : PoolAllocator) (pools : Pools) (hs : List Holding) (p : Ptr)
    → SeparateFrom a pools
    → Holds pools hs
    → 0 < count_lent p hs
    → (p < a.start_ptr) ⊎ (a.start_ptr + a.total_size < p)
lent_outside a [] [] p s h pos = absurd (omega arith)
lent_outside a [] (i ∷ hs) p s h pos = absurd h
lent_outside a (b ∷ pools) [] p s h pos = absurd h
lent_outside a (b ∷ pools) (i ∷ hs) p s h pos = elim (dec_lt 0 (count p i.lent)) [
  | yes here ↦ ground (arith, lent_bounds b i.left i.lent p h.0 here)
  | no none ↦ lent_outside a pools hs p s.1 h.1 (omega arith)
]

-- `offer` of an address that is lent: the pool that has lent it takes it back.
pub offer-Holds :
    (pools : Pools) (hs : List Holding) (p : Ptr)
    → Holds pools hs
    → Apart pools
    → 0 < count_lent p hs
    → (pools' : Pools) × (hs' : List Holding) × (offer c_pool_alloc_thread_policy p pools
        ≡ ok (true, pools'))
      × Holds pools' hs'
      × SamePlaces pools pools'
      × ((q : Ptr) → count_lent q hs' + same q p ≡ count_lent q hs)
unfolding offer
offer-Holds [] [] p h s pos = absurd (omega arith)
offer-Holds [] (i ∷ hs) p h s pos = absurd h
offer-Holds (a ∷ pools) [] p h s pos = absurd h
offer-Holds (a ∷ pools) (i ∷ hs) p h s pos = elim (dec_lt 0 (count p i.lent)) [
  | yes here ↦
      let (xs, ys, parts) = count-split p i.lent here in
      let (run, inv) = free-Accounted a i.left xs p ys (subst (Accounted a i.left) parts h.0) in
      (
        takes_back p i.left a ∷ pools,
        record { left = suc i.left; lent = xs ++ ys } ∷ hs,
        rw run refl,
        (inv, h.1),
        (refl, refl, refl, SamePlaces-refl pools),
        λ q. omega (arith, ap (count q) parts, count-append q xs ys, count-append q xs (p ∷ ys)),
      )
  | no none ↦
      let later : 0 < count_lent p hs = omega arith in
      let refused = free_foreign a i.left i.lent p h.0 (lent_outside a pools hs p s.0 h.1 later) in
      let (pools', hs', run, h', places, counts) = offer-Holds pools hs p h.1 s.1 later in
      (
        a ∷ pools',
        i ∷ hs',
        rw (refused, run) refl,
        (h.0, h'),
        (refl, refl, refl, places),
        λ q. omega (arith, counts q),
      )
]
