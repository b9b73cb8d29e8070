-- ===== src/Pools/Fallback.antt =====
-- PoolAllocators where the pools do not serve a request, and where their memories touch.
use memory_allocators.Base.{
  ℕ, ◌+◌, ◌≤◌, ◌<◌, ◌≡◌, subst, ◌⊎◌, inl, inr, refl, ap, ◌∙◌, arith, List, [], ◌∷◌, Ptr, null,
  false, leb-true, leb-false, ltb-true, ltb-false, ==_false, release, ok, add64, sub64, update, pos,
}
use memory_allocators.SystemHeap.{Call}
use memory_allocators.Pool
use memory_allocators.Pool.{
  PoolAllocator, c_pool_alloc_thread_policy, in_array, give_back, get_chunk_size,
}
use memory_allocators.Pool.Invariant.{Accounted}
use memory_allocators.Pool.Chunks.{up_top}
use memory_allocators.Pool.Faults.{allocate_full, free_foreign}
use memory_allocators.Pools.{Pools, first_fit, allocate, offer, free}
use memory_allocators.Pools.Holdings.{Holding, Holds}

-- The first pool whose chunks are large enough has no free one, or there is no such pool.
abbrev pub Lacks : ℕ → Pools → List Holding → Type 0
Lacks size (a ∷ pools) (h ∷ hs) =
    ((size ≤ a.chunk_size) × (h.left ≡ 0)) ⊎ ((a.chunk_size < size) × Lacks size pools hs)
Lacks size _ _ = Unit {0}

-- The address lies in the memory of no pool, and not at its end.
abbrev pub Outside : Ptr → Pools → Type 0
Outside p [] = Unit {0}
Outside p (a ∷ pools) = ((p < a.start_ptr) ⊎ (a.start_ptr + a.total_size < p)) × Outside p pools

first_fit-Lacks :
    (size : ℕ) (pools : Pools) (hs : List Holding)
    → Holds pools hs
    → Lacks size pools hs
    → first_fit release c_pool_alloc_thread_policy size pools ≡ ok (null, pools)
unfolding first_fit get_chunk_size
first_fit-Lacks size [] [] h l = refl
first_fit-Lacks size [] (i ∷ hs) h l = absurd h
first_fit-Lacks size (a ∷ pools) [] h l = absurd h
first_fit-Lacks size (a ∷ pools) (i ∷ hs) h (inl (large, none_left)) =
    let inv = subst (λ k. Accounted a k i.lent) none_left h.0 in
    rw (leb-true size a.chunk_size large, (allocate_full a i.lent size 8 inv).0) refl
first_fit-Lacks size (a ∷ pools) (i ∷ hs) h (inr (small, l)) =
    rw (leb-false size a.chunk_size small, first_fit-Lacks size pools hs h.1 l) refl

offer-Outside :
    (p : Ptr) (pools : Pools) (hs : List Holding)
    → Holds pools hs
    → Outside p pools
    → offer c_pool_alloc_thread_policy p pools ≡ ok (false, pools)
unfolding offer
offer-Outside p [] [] h o = refl
offer-Outside p [] (i ∷ hs) h o = absurd h
offer-Outside p (a ∷ pools) [] h o = absurd h
offer-Outside p (a ∷ pools) (i ∷ hs) h o =
    rw (free_foreign a i.left i.lent p h.0 o.0, offer-Outside p pools hs h.1 o.1) refl

-- Allocate in a release build where the first pool whose chunks are large enough is full (larger
-- chunks are not tried), or no chunks are large enough: the system's heap is asked, and Free of its
-- answer, which lies outside the pools, goes back there. The pools are as before.
pub free-allocate_fallback :
    (fallback : Ptr) (size : ℕ) (pools : Pools) (hs : List Holding)
    → Holds pools hs
    → Lacks size pools hs
    → Outside fallback pools
    → (allocate release c_pool_alloc_thread_policy fallback size pools
        ≡ ok (fallback, pools, Call.malloc size fallback ∷ []))
      × (free c_pool_alloc_thread_policy fallback pools ≡ ok (pools, Call.free fallback ∷ []))
unfolding allocate free
free-allocate_fallback fallback size pools hs h l o =
    (rw (first_fit-Lacks size pools hs h l) refl, rw (offer-Outside fallback pools hs h o) refl)

-- The pool that has taken the address of its neighbour's first chunk
abbrev pub takes_end : ℕ → PoolAllocator → PoolAllocator
takes_end k a = record a {
  base = record (a.base) { used = sub64 a.used a.chunk_size };
  free_chunks = update a.free_chunks k (a.start_ptr + a.total_size);
  curr_free_chunks_idx = pos k;
}

-- Where the memory of a pool begins at the end of another one that has lent something, Free of the
-- first chunk of the former gives it to the latter, and the former does not learn of it.
pub free_neighbour :
    (a b : PoolAllocator) (k : ℕ) (lent : List Ptr) (pools : Pools)
    → Accounted a k lent
    → k < a.chunks_num
    → b.start_ptr ≡ a.start_ptr + a.total_size
    → free c_pool_alloc_thread_policy b.start_ptr (a ∷ b ∷ pools)
      ≡ ok (takes_end k a ∷ b ∷ pools, [])
unfolding free offer Pool.free give_back
free_neighbour a b k lent pools inv some_lent touch =
    let p : Ptr = a.start_ptr + a.total_size in
    let top : add64 a.start_ptr a.total_size ≡ p = omega (arith, inv.fits) in
    ap (λ q. free c_pool_alloc_thread_policy q (a ∷ b ∷ pools)) touch
    ∙ rw
        (
          ltb-false p a.start_ptr (omega arith),
          top,
          ltb-false p p (omega arith),
          inv.index,
          up_top k,
          ==_false a.free_chunks_ptr null inv.array,
          ltb-true k a.chunks_num some_lent,
        )
        refl
