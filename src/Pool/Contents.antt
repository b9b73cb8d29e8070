-- ===== src/Pool/Contents.antt =====
-- The free chunks of src/PoolAllocator.h up to the order in which they came back.
use mathlib.Core.Quot
use mathlib.Core.Quot.{Quot, Quot-set}
use memory_allocators.Base.{
  same, count, count-append, ℕ, zero, suc, ◌≡◌, refl, List, [], ◌∷◌, ◌++◌, arith, Ptr, ok, total,
}
use memory_allocators.Pool.{PoolAllocator, c_pool_alloc_thread_policy, init, reset}
use memory_allocators.Pool.Invariant.{Accounted}
use memory_allocators.Pool.Chunks.{started, init-Accounted}

-- Two lists with the same addresses, each as often
abbrev pub SameItems : List Ptr → List Ptr → Type 0
SameItems xs ys = (p : Ptr) → count p xs ≡ count p ys

abbrev pub Bag : Type 0
Bag = Quot SameItems

abbrev pub bag : List Ptr → Bag
bag = Quot.mk

pub put : List Ptr → Bag → Bag
put ps =
    Quot.lift Quot-set (λ xs. bag (ps ++ xs)) λ xs ys h. Quot.sound λ p. simp (count-append, h p)

-- The first `k` entries of an array
abbrev pub entries : ℕ → (ℕ → Ptr) → List Ptr
entries zero f = []
entries (suc k) f = f k ∷ entries k f

count-entries : (p : Ptr) (k : ℕ) (f : ℕ → Ptr) → count p (entries k f) ≡ total (same p) k f
unfolding total
count-entries p zero f = refl
count-entries p (suc k) f = omega (arith, count-entries p k f)

-- What a pool with `k` free chunks holds
unfoldable pub contents : ℕ → PoolAllocator → Bag
contents k s = bag (entries k s.free_chunks)

-- The free chunks and the lent ones together are, as a bag, the chunks that Reset makes free, whatever
-- was lent and came back in which order: Reset of a pool that holds its invariant succeeds, with all
-- chunks free and nothing counted as used.
pub reset-contents :
    (s : PoolAllocator) (k : ℕ) (lent : List Ptr)
    → Accounted s k lent
    → (s' : PoolAllocator) × (reset c_pool_alloc_thread_policy s ≡ ok s')
      × (contents s.chunks_num s' ≡ put lent (contents k s))
      × (s'.used ≡ 0)
      × Accounted s' s.chunks_num []
unfolding init contents put
reset-contents s k lent inv =
    let s' : PoolAllocator = started s.start_ptr s.free_chunks_ptr s in
    let (run, inv') =
      init-Accounted s.start_ptr s.free_chunks_ptr s inv.held inv.array inv.sized inv.fits
        inv.positive inv.few in
    (
      s',
      run,
      Quot.sound (λ p. omega (
        arith,
        inv.once p,
        inv'.once p,
        count-entries p s.chunks_num s'.free_chunks,
        count-entries p k s.free_chunks,
        count-append p lent (entries k s.free_chunks),
      )),
      refl,
      inv',
    )
