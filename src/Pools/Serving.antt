-- ===== src/Pools/Serving.antt =====
-- Allocate and Free of PoolAllocators: which pool serves a request, and who takes an address back.
use memory_allocators.Base.{
  ℕ, zero, suc, ◌+◌, ◌≤◌, ◌<◌, ◌≡◌, ◌≢◌, ◌⊎◌, inl, inr, refl, arith, List, [], ◌∷◌, Ptr, null,
  leb-true, leb-false, ==_false, release, ok, same, same_self, count,
}
use native.Mathlib.Decide.{dec_lt}
use memory_allocators.Pool.{c_pool_alloc_thread_policy, PoolAllocator, get_chunk_size}
use memory_allocators.Pool.Chunks.{lends, lends-Accounted, allocate_any, top_bounds}
use memory_allocators.Pools.{Pools, first_fit, allocate, free}
use memory_allocators.Pools.Holdings.{
  Holding, Holds, count_lent, Apart, SeparateFrom, SamePlaces, SamePlaces-refl, lent_bounds,
  lent_outside, SeparateFrom-SamePlaces, offer-Holds,
}

-- The first pool whose chunks are large enough has a free one.
abbrev pub Serves : ℕ → Pools → List Holding → Type 0
Serves size (a ∷ pools) (h ∷ hs) =
    ((size ≤ a.chunk_size) × (0 < h.left)) ⊎ ((a.chunk_size < size) × Serves size pools hs)
Serves size _ _ = ⊥

-- No pool has lost more than one free chunk.
abbrev pub OneLess : List Holding → List Holding → Type 0
OneLess [] [] = Unit {0}
OneLess (h ∷ hs) (i ∷ is) = (h.left ≤ suc i.left) × OneLess hs is
OneLess _ _ = ⊥

OneLess-refl : (hs : List Holding) → OneLess hs hs
OneLess-refl [] = tt
OneLess-refl (h ∷ hs) = (omega arith, OneLess-refl hs)

-- What a request that is met has done: `p` was not lent, and is lent now.
pub record Served (pools pools' : Pools) (hs hs' : List Holding) (p : Ptr) : Type 0 where
  pub some_address : p ≢ null
  pub new : count_lent p hs ≡ 0
  pub holds : Holds pools' hs'
  pub places : SamePlaces pools pools'
  pub counts : (q : Ptr) → count_lent q hs' ≡ same q p + count_lent q hs
  pub fewer : OneLess hs hs'

-- The pool in front serves it.
Served_here :
    (a : PoolAllocator) (pools : Pools) (k : ℕ) (lent : List Ptr) (hs : List Holding)
    → Holds (a ∷ pools) (record { left = suc k; lent = lent } ∷ hs)
    → SeparateFrom a pools
    → Served
        (a ∷ pools)
        (lends k a ∷ pools)
        (record { left = suc k; lent = lent } ∷ hs)
        (record { left = k; lent = a.free_chunks k ∷ lent } ∷ hs)
        (a.free_chunks k)
Served_here a pools k lent hs h s =
    let p : Ptr = a.free_chunks k in
    let (lo, hi, new) = top_bounds a k lent h.0 in
    record {
      some_address = λ e. omega (arith, e, lo, h.0.held);
      new = elim (dec_lt 0 (count_lent p hs)) [
        | yes other ↦ absurd (omega (arith, lent_outside a pools hs p s h.1 other, h.0.positive))
        | no none ↦ omega (arith, new)
      ];
      holds = (lends-Accounted a k lent h.0, h.1);
      places = (refl, refl, refl, SamePlaces-refl pools);
      counts = λ q. omega arith;
      fewer = (omega arith, OneLess-refl hs);
    }

-- A pool behind the one in front serves it.
Served_later :
    (a : PoolAllocator) (h : Holding) (pools pools' : Pools) (hs hs' : List Holding) (p : Ptr)
    → Holds (a ∷ pools) (h ∷ hs)
    → SeparateFrom a pools
    → Served pools pools' hs hs' p
    → Served (a ∷ pools) (a ∷ pools') (h ∷ hs) (h ∷ hs') p
Served_later a h pools pools' hs hs' p holds s r =
    let lent_now : 0 < count_lent p hs' = omega (arith, r.counts p, same_self p) in
    let away =
      lent_outside a pools' hs' p (SeparateFrom-SamePlaces a a pools pools' refl refl r.places s)
        r.holds lent_now in
    record {
      some_address = r.some_address;
      new = elim (dec_lt 0 (count p h.lent)) [
        | yes here ↦ absurd (omega (arith, away, lent_bounds a h.left h.lent p holds.0 here))
        | no none ↦ omega (arith, none, r.new)
      ];
      holds = (holds.0, r.holds);
      places = (refl, refl, refl, r.places);
      counts = λ q. omega (arith, r.counts q);
      fewer = (omega arith, r.fewer);
    }

pub first_fit-Served :
    (size : ℕ) (pools : Pools) (hs : List Holding)
    → Holds pools hs
    → Apart pools
    → Serves size pools hs
    → (p : Ptr) × (pools' : Pools) × (hs' : List Holding) × (first_fit release
          c_pool_alloc_thread_policy size pools
        ≡ ok (p, pools'))
      × Served pools pools' hs hs' p
unfolding first_fit get_chunk_size
first_fit-Served size [] [] h s serves = absurd serves
first_fit-Served size [] (i ∷ hs) h s serves = absurd h
first_fit-Served size (a ∷ pools) [] h s serves = absurd h
first_fit-Served size (a ∷ pools) (i ∷ hs) h s (inr (small, serves)) =
    let (p, pools', hs', run, r) = first_fit-Served size pools hs h.1 s.1 serves in
    (
      p,
      a ∷ pools',
      i ∷ hs',
      rw (leb-false size a.chunk_size small, run) refl,
      Served_later a i pools pools' hs hs' p h s.0 r,
    )
first_fit-Served size (a ∷ pools) (i ∷ hs) h s (inl (large, some_left)) =
    serve i.left i.lent (h.0, h.1) some_left
  where
    serve :
        (left : ℕ) (lent : List Ptr)
        → Holds (a ∷ pools) (record { left = left; lent = lent } ∷ hs)
        → 0 < left
        → (p : Ptr) × (pools' : Pools) × (hs' : List Holding) × (first_fit release
              c_pool_alloc_thread_policy size
              (a ∷ pools)
            ≡ ok (p, pools'))
          × Served (a ∷ pools) pools' (record { left = left; lent = lent } ∷ hs) hs' p
    serve zero lent h' pos = absurd (omega arith)
    serve (suc k) lent h' pos = (
      a.free_chunks k,
      lends k a ∷ pools,
      record { left = k; lent = a.free_chunks k ∷ lent } ∷ hs,
      rw (leb-true size a.chunk_size large, allocate_any a k lent h'.0 size 8) refl,
      Served_here a pools k lent hs h' s.0,
    )

-- Allocate in a release build, of pools that hold what they have lent in memories apart, where the
-- first pool whose chunks are large enough has a free one: the pools serve the request without the
-- system's heap, by an address that no pool has lent, and hold what they held and that address.
pub allocate-Served :
    (fallback : Ptr) (size : ℕ) (pools : Pools) (hs : List Holding)
    → Holds pools hs
    → Apart pools
    → Serves size pools hs
    → (p : Ptr) × (pools' : Pools) × (hs' : List Holding) × (allocate release
          c_pool_alloc_thread_policy fallback size pools
        ≡ ok (p, pools', []))
      × Served pools pools' hs hs' p
unfolding allocate
allocate-Served fallback size pools hs h s serves =
    let (p, pools', hs', run, r) = first_fit-Served size pools hs h s serves in
    (p, pools', hs', rw (run, ==_false p null r.some_address) refl, r)

-- The same addresses are lent, but for `p`.
abbrev pub Without : Ptr → List Holding → List Holding → Type 0
Without p hs hs' = (q : Ptr) → count_lent q hs' + same q p ≡ count_lent q hs

-- Free of an address that some pool has lent, for pools in memories apart: that pool takes it back,
-- the others refuse it, and the system's heap is not called. The pools hold what they held without
-- that address, in the same places.
pub free-Holds :
    (pools : Pools) (hs : List Holding) (p : Ptr)
    → Holds pools hs
    → Apart pools
    → 0 < count_lent p hs
    → (pools' : Pools) × (hs' : List Holding) × (free c_pool_alloc_thread_policy p pools
        ≡ ok (pools', []))
      × Holds pools' hs'
      × SamePlaces pools pools'
      × Without p hs hs'
unfolding free
free-Holds pools hs p h s lent =
    let (pools', hs', run, h', places, counts) = offer-Holds pools hs p h s lent in
    (pools', hs', rw run refl, h', places, counts)
