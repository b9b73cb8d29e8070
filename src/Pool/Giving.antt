-- ===== src/Pool/Giving.antt =====
-- Free of src/PoolAllocator.h gives a lent chunk back, and undoes an Allocate.
use native.Mathlib.Nat.{mul-le-mul_right}
use native.Mathlib.Decide.{ℕ_discrete}
use memory_allocators.Base.{
  Bool, same, count, count-append, length, length-append, ℕ, suc, ◌+◌, ◌-◌, ◌*◌, ◌%◌, ◌^◌, ◌≤◌, ◌<◌,
  ◌≡◌, refl, sym, ap, ◌∙◌, fun_ext, List, [], ◌∷◌, ◌++◌, arith, Ptr, null, true, pos, ltb-true,
  ltb-false, ==_refl, ==_false, Build, ok, total, total-suc, total-update_above, update,
  update_self, update_ne, add64, sub64, ◌>>=◌,
}
use memory_allocators.Interface.{ThreadPolicy}
use memory_allocators.Lock.{enter, leave}
use memory_allocators.Pool.{
  PoolAllocator, c_pool_alloc_thread_policy, in_array, allocate, give_back, free,
}
use memory_allocators.Pool.Invariant.{Accounted, chunk_bounds, chunk_once}
use memory_allocators.Pool.Chunks.{up_top, lends, allocate-Accounted}

-- The pool with `k` free chunks behind the return of `p`
abbrev pub takes_back : Ptr → ℕ → PoolAllocator → PoolAllocator
takes_back p k s = record s {
  base = record (s.base) { used = s.used - s.chunk_size };
  free_chunks = update s.free_chunks k p;
  curr_free_chunks_idx = pos k;
}

-- No address is lent twice.
pub lent_once :
    (s : PoolAllocator) (k : ℕ) (lent : List Ptr) (p : Ptr)
    → Accounted s k lent
    → total (same p) k s.free_chunks + count p lent ≤ 1
lent_once s k lent p inv = omega (arith, inv.once p, chunk_once s p s.chunks_num inv.positive)

-- One of the lent addresses, `p`
module _ (s : PoolAllocator) (k : ℕ) (xs : List Ptr) (p : Ptr) (ys : List Ptr)
    (inv : Accounted s k (xs ++ p ∷ ys)) where
  lengths : length (xs ++ p ∷ ys) ≡ suc (length (xs ++ ys))
  lengths = omega (arith, length-append xs (p ∷ ys), length-append xs ys)

  times : (q : Ptr) → count q (xs ++ p ∷ ys) ≡ same q p + count q (xs ++ ys)
  times q = omega (arith, count-append q xs (p ∷ ys), count-append q xs ys)

  below : k < s.chunks_num
  below = omega (arith, inv.counted, lengths)

  pub enough : s.used ≡ s.chunk_size + length (xs ++ ys) * s.chunk_size
  enough = inv.used_lent ∙ ap (λ n. n * s.chunk_size) lengths ∙ omega arith

  pub bounded : (s.start_ptr ≤ p) × (p + s.chunk_size ≤ s.start_ptr + s.total_size)
  unfolding same
  bounded =
      let here : same p p ≡ 1 = rw (==_refl p) refl in
      let within = chunk_bounds s p inv.positive (omega (arith, inv.once p, times p, here)) in
      (within.0, omega (arith, within.1, inv.sized))

  pub used_fits : s.used < 2 ^ 64
  used_fits =
      let r : length (xs ++ p ∷ ys) * s.chunk_size ≤ s.chunks_num * s.chunk_size =
        mul-le-mul_right s.chunk_size (omega (arith, inv.counted)) in
      omega (arith, inv.used_lent, inv.sized, inv.fits)

  pub takes_back-Accounted : Accounted (takes_back p k s) (suc k) (xs ++ ys)
  takes_back-Accounted = record {
    held = inv.held;
    array = inv.array;
    sized = inv.sized;
    fits = inv.fits;
    positive = inv.positive;
    few = inv.few;
    index = refl;
    counted = omega (arith, inv.counted, lengths);
    used_lent = omega (arith, enough);
    once = λ q. omega (
      arith,
      inv.once q,
      times q,
      total-suc (same q) k (update s.free_chunks k p),
      total-update_above (same q) k s.free_chunks k p (omega arith),
      ap (same q) (update_self s.free_chunks k p),
    );
  }

  -- Under either policy, with the lock's flag behind `lock`
  pub free_lent :
      (policy : ThreadPolicy) (flag : Bool)
      → enter policy s.spinlock ≡ ok flag
      → free policy p s ≡ ok (true, record (takes_back p k s) { spinlock = leave policy flag })
  unfolding free give_back
  free_lent policy flag enters =
      let there : in_array k s ≡ true =
        rw (==_false s.free_chunks_ptr null inv.array, ltb-true k s.chunks_num below) refl in
      let top : add64 s.start_ptr s.total_size ≡ s.start_ptr + s.total_size =
        omega (arith, inv.fits) in
      let less : sub64 s.used s.chunk_size ≡ s.used - s.chunk_size =
        omega (arith, enough, used_fits) in
      rw
        (
          enters,
          ltb-false p s.start_ptr bounded.0,
          top,
          ltb-false (s.start_ptr + s.total_size) p (omega (arith, bounded)),
          inv.index,
          up_top k,
          there,
          less,
        )
        refl

  -- `Free` of an address that is lent, wherever it stands among the lent ones: it is accepted, the
  -- address is the next one to be lent, and the invariant holds without it.
  pub free-Accounted :
      (free c_pool_alloc_thread_policy p s ≡ ok (true, takes_back p k s))
      × Accounted (takes_back p k s) (suc k) (xs ++ ys)
  free-Accounted = (free_lent c_pool_alloc_thread_policy s.spinlock refl, takes_back-Accounted)

-- What was lent last is given back: the pool is the one before.
pub takes_back-lends :
    (s : PoolAllocator) (k : ℕ)
    → s.curr_free_chunks_idx ≡ pos k
    → takes_back (s.free_chunks k) k (lends k s) ≡ s
takes_back-lends s k e =
    let used : s.used + s.chunk_size - s.chunk_size ≡ s.used = omega arith in
    let chunks : update s.free_chunks k (s.free_chunks k) ≡ s.free_chunks = fun_ext (λ j.
      elim (ℕ_discrete j k) [
        | yes d ↦ rw d (update_self s.free_chunks k (s.free_chunks k))
        | no d ↦ update_ne s.free_chunks k (s.free_chunks k) j d
      ]) in
    λ i. record s {
      base = record (s.base) { used = used i };
      free_chunks = chunks i;
      curr_free_chunks_idx = sym e i;
    }

-- `Free` of the chunk that `Allocate` has just lent, in both builds: the pool is the one before, the
-- whole state.
pub free-allocate :
    (s : PoolAllocator) (k : ℕ) (lent : List Ptr)
    → Accounted s (suc k) lent
    → (build : Build) (size alignment : ℕ) → size ≤ s.chunk_size
    → 0 < alignment
    → s.free_chunks k % alignment ≡ 0
    → (allocate build c_pool_alloc_thread_policy size alignment s >>= λ r.
        free c_pool_alloc_thread_policy r.0 r.1)
      ≡ ok (true, s)
free-allocate s k lent inv build size alignment h positive d =
    let lent_now = allocate-Accounted s k lent inv build size alignment h positive d in
    rw (lent_now.0) (
      (free-Accounted (lends k s) k [] (s.free_chunks k) lent lent_now.1).0
      ∙ ap (λ t. ok (true, t)) (takes_back-lends s k inv.index))
