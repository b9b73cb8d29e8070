-- ===== src/Pool/History.antt =====
-- The life of a pool of src/PoolAllocator.h: Init, then Allocate and Free in any order.
use memory_allocators.Base.{
  same, count, length, ℕ, ◌+◌, ◌*◌, ◌^◌, ◌≤◌, ◌<◌, ◌≡◌, ◌≢◌, refl, sym, ap, subst, ◌∙◌, List, [],
  ◌∷◌, ◌++◌, arith, Ptr, null, true, release, Outcome, ok, total, ==_refl, suc, ◌%◌,
}
use memory_allocators.Pool.{PoolAllocator, c_pool_alloc_thread_policy, init, allocate, free}
use memory_allocators.Pool.Invariant.{chunk_bounds, Accounted}
use memory_allocators.Pool.Chunks.{init-Accounted, allocate-Accounted}
use memory_allocators.Pool.Giving.{free-Accounted, lent_once}

-- States that calls of a release build lead to, with the number of free chunks and the addresses
-- that are lent. Only a lent address is freed.
pub data Reach (s₀ : PoolAllocator) (fresh array : Ptr)
    : PoolAllocator → ℕ → List Ptr → Type 0 where
  inits :
      {s : PoolAllocator}
      → init c_pool_alloc_thread_policy fresh array s₀ ≡ ok s
      → Reach s₀ fresh array s s₀.chunks_num []
  allocates :
      {s : PoolAllocator} {k : ℕ} {lent : List Ptr} {p : Ptr} {s' : PoolAllocator}
      (size alignment : ℕ)
      → Reach s₀ fresh array s (suc k) lent
      → size ≤ s.chunk_size
      → 0 < alignment
      → s.free_chunks k % alignment ≡ 0
      → allocate release c_pool_alloc_thread_policy size alignment s ≡ ok (p, s')
      → Reach s₀ fresh array s' k (p ∷ lent)
  frees :
      {s : PoolAllocator} {k : ℕ} {lent : List Ptr} {s' : PoolAllocator} (xs : List Ptr) (p : Ptr)
      (ys : List Ptr)
      → Reach s₀ fresh array s k lent
      → lent ≡ xs ++ p ∷ ys
      → free c_pool_alloc_thread_policy p s ≡ ok (true, s')
      → Reach s₀ fresh array s' (suc k) (xs ++ ys)

ok_state : {s t : PoolAllocator} → ◌≡◌ {A = Outcome PoolAllocator} (ok s) (ok t) → s ≡ t
ok_state e = cc

ok_result :
    {A : Type 0} {a b : A} {s t : PoolAllocator}
    → ◌≡◌ {A = Outcome (A × PoolAllocator)} (ok (a, s)) (ok (b, t))
    → (a ≡ b) × (s ≡ t)
ok_result e = (cc, cc)

module _ (s₀ : PoolAllocator) (fresh array : Ptr) (held : 0 < fresh) (there : array ≢ null)
    (sized : s₀.chunks_num * s₀.chunk_size ≡ s₀.total_size) (fits : fresh + s₀.total_size < 2 ^ 64)
    (positive : 0 < s₀.chunk_size) (few : s₀.chunks_num < 2 ^ 63) where
  -- In every state that calls of a release build lead to from `Init` with two blocks from `malloc`, for
  -- sizes that do not wrap around, where requests are not larger than a chunk, the chunks that they
  -- are given are aligned, and only lent addresses are freed: the index stands at the last of `k` free chunks, every address occurs as often among the
  -- free and the lent ones together as among the chunks, and `m_used` is the size of the lent ones.
  pub Reach-Accounted :
      {s : PoolAllocator} {k : ℕ} {lent : List Ptr}
      → Reach s₀ fresh array s k lent
      → Accounted s k lent
  Reach-Accounted (inits {s} e) =
      let (run, inv) = init-Accounted fresh array s₀ held there sized fits positive few in
      subst (λ u. Accounted u s₀.chunks_num []) (ok_state (sym run ∙ e)) inv
  Reach-Accounted (allocates {s} {k} {lent} {p} {s'} size alignment r small pos aligned e) =
      let (run, inv, _, _, _) =
        allocate-Accounted s k lent (Reach-Accounted r) release size alignment small pos aligned in
      let (same_ptr, same_state) = ok_result (sym run ∙ e) in
      subst (λ q. Accounted s' k (q ∷ lent)) same_ptr
        (subst (λ u. Accounted u k (s.free_chunks k ∷ lent)) same_state inv)
  Reach-Accounted (frees {s} {k} {lent} {s'} xs p ys r parts e) =
      let (run, inv) =
        free-Accounted s k xs p ys (subst (Accounted s k) parts (Reach-Accounted r)) in
      subst (λ u. Accounted u (suc k) (xs ++ ys)) (ok_result (sym run ∙ e)).1 inv

  -- An address that is lent in such a state is lent only once, is not free, and its chunk lies in the
  -- memory of the pool; `m_used` and the free chunks make up the total size.
  pub Reach-lent :
      {s : PoolAllocator} {k : ℕ} {p : Ptr} {lent : List Ptr}
      → Reach s₀ fresh array s k (p ∷ lent)
      → (count p lent ≡ 0)
        × (total (same p) k s.free_chunks ≡ 0)
        × (s.start_ptr ≤ p)
        × (p + s.chunk_size ≤ s.start_ptr + s.total_size)
        × (s.used ≡ suc (length lent) * s.chunk_size)
        × (s.used + k * s.chunk_size ≡ s.total_size)
  unfolding same
  Reach-lent {s} {k} {p} {lent} r =
      let inv = Reach-Accounted r in
      let here : same p p ≡ 1 = rw (==_refl p) refl in
      let least = lent_once s k (p ∷ lent) p inv in
      let within = chunk_bounds s p inv.positive (omega (arith, inv.once p, here)) in
      (
        omega (arith, here, least),
        omega (arith, here, least),
        within.0,
        omega (arith, within.1, inv.sized),
        inv.used_lent,
        omega (arith, inv.used_lent, inv.sized, ap (λ n. n * s.chunk_size) inv.counted),
      )
