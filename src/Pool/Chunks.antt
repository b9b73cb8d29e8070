-- ===== src/Pool/Chunks.antt =====
-- Init, Allocate and Free of src/PoolAllocator.h keep the chunks.
use native.Mathlib.Nat.{mul-le-mul_right}
use memory_allocators.Base.{
  same_self, leb, same, count, length, ℕ, zero, suc, ◌+◌, ◌*◌, ◌%◌, ◌^◌, ◌≤◌, ◌<◌, ◌≡◌, ◌≢◌, refl,
  List, [], ◌∷◌, arith, Ptr, null, Bool, true, false, ◌==◌, ◌||◌, pos, to_int64, ltb-true, leb-true,
  ==_false, assert, Build, debug, release, ok, total-suc, add64,
}
use memory_allocators.Pool.{
  PoolAllocator, c_pool_alloc_thread_policy, assert_divides, up, down, in_array, fill, reset, init,
  take_chunk, allocate,
}
use memory_allocators.Pool.Invariant.{top_of, Accounted, chunk_bounds, chunk_once, fill-chunk}

pub down_int64 : (n : ℕ) → n < 2 ^ 63 → down (to_int64 n) ≡ top_of n
down_int64 zero h = refl
down_int64 (suc n) h =
    let e : suc n % 2 ^ 64 ≡ suc n = omega arith in rw (e, ltb-true (suc n) (2 ^ 63) h) refl

pub down_pos : (k : ℕ) → down (pos k) ≡ top_of k
down_pos zero = refl
down_pos (suc k) = refl

pub up_top : (k : ℕ) → up (top_of k) ≡ pos k
up_top zero = refl
up_top (suc k) = refl

pub or-true : (b : Bool) → (b || true) ≡ true
or-true true = refl
or-true false = refl

-- The pool behind `Init`
abbrev pub started : Ptr → Ptr → PoolAllocator → PoolAllocator
started fresh array s = record s {
  base = record (s.base) { used = 0 };
  start_ptr = fresh;
  free_chunks_ptr = array;
  free_chunks = fill fresh s.chunk_size s.chunks_num s.free_chunks;
  curr_free_chunks_idx = top_of s.chunks_num;
}

-- `Init` with two blocks from `malloc`, of a pool whose sizes do not wrap around: it succeeds, every
-- chunk is free and none is lent.
pub init-Accounted :
    (fresh array : Ptr) (s : PoolAllocator)
    → 0 < fresh
    → array ≢ null
    → s.chunks_num * s.chunk_size ≡ s.total_size
    → fresh + s.total_size < 2 ^ 64
    → 0 < s.chunk_size
    → s.chunks_num < 2 ^ 63
    → (init c_pool_alloc_thread_policy fresh array s ≡ ok (started fresh array s))
      × Accounted (started fresh array s) s.chunks_num []
unfolding init reset
init-Accounted fresh array s held there sized fits positive few = (
  rw (==_false array null there, down_int64 s.chunks_num few, or-true (s.chunks_num == 0)) refl,
  record {
    held = held;
    array = there;
    sized = sized;
    fits = fits;
    positive = positive;
    few = few;
    index = refl;
    counted = omega arith;
    used_lent = omega arith;
    once = λ p.
        omega
          (arith, fill-chunk (started fresh array s) p s.chunks_num s.free_chunks (omega arith));
  },
)

assert-true : (build : Build) → assert build true ≡ ok tt
assert-true debug = refl
assert-true release = refl

assert_divides_lem :
    (build : Build) (n a : ℕ) → 0 < n → a % n ≡ 0 → assert_divides build n a ≡ ok tt
assert_divides_lem release n a h d = refl
assert_divides_lem debug n a h d = rw (ltb-true 0 n h, d) refl

-- The pool behind the top one of `k + 1` free chunks is lent
abbrev pub lends : ℕ → PoolAllocator → PoolAllocator
lends k s = record s {
  base = record (s.base) { used = s.used + s.chunk_size };
  curr_free_chunks_idx = top_of k;
}

module _ (s : PoolAllocator) (k : ℕ) (lent : List Ptr) (inv : Accounted s (suc k) lent) where
  pub in_array-top : in_array k s ≡ true
  in_array-top =
      rw
        (
          ==_false s.free_chunks_ptr null inv.array,
          ltb-true k s.chunks_num (omega (arith, inv.counted)),
        )
        refl

  pub room : s.used + s.chunk_size ≤ s.total_size
  room =
      let r : suc (length lent) * s.chunk_size ≤ s.chunks_num * s.chunk_size =
        mul-le-mul_right s.chunk_size (omega (arith, inv.counted)) in
      omega (arith, inv.used_lent, inv.sized)

  pub lends-Accounted : Accounted (lends k s) k (s.free_chunks k ∷ lent)
  lends-Accounted = record {
    held = inv.held;
    array = inv.array;
    sized = inv.sized;
    fits = inv.fits;
    positive = inv.positive;
    few = inv.few;
    index = refl;
    counted = omega (arith, inv.counted);
    used_lent = omega (arith, inv.used_lent);
    once = λ p. omega (arith, inv.once p, total-suc (same p) k s.free_chunks);
  }

  allocate-lends :
      (build : Build) (size alignment : ℕ)
      → assert build (leb size s.chunk_size) ≡ ok tt
      → assert_divides build alignment (s.free_chunks k) ≡ ok tt
      → allocate build c_pool_alloc_thread_policy size alignment s ≡ ok (s.free_chunks k, lends k s)
  unfolding allocate take_chunk
  allocate-lends build size alignment small aligned =
      let sum : add64 s.used s.chunk_size ≡ s.used + s.chunk_size = omega (arith, room, inv.fits) in
      rw (small, inv.index, assert-true build, in_array-top, aligned, sum, down_pos k) refl

  -- The chunk on top is in the memory of the pool, and is not lent.
  pub top_bounds :
      (s.start_ptr ≤ s.free_chunks k)
      × (s.free_chunks k + s.chunk_size ≤ s.start_ptr + s.total_size)
      × (count (s.free_chunks k) lent ≡ 0)
  top_bounds =
      let p : Ptr = s.free_chunks k in
      let here = same_self p in
      let all = inv.once p in
      let more = total-suc (same p) k s.free_chunks in
      let within = chunk_bounds s p inv.positive (omega (arith, all, more, here)) in
      (
        within.0,
        omega (arith, within.1, inv.sized),
        omega (arith, here, all, more, chunk_once s p s.chunks_num inv.positive),
      )

  -- `Allocate` in both builds where a chunk is free, the request is not larger than a chunk, and the
  -- chunk on top is aligned: it lends that chunk, which lies in the memory of the pool and is not lent
  -- already, and the invariant holds behind it.
  pub allocate-Accounted :
      (build : Build) (size alignment : ℕ)
      → size ≤ s.chunk_size
      → 0 < alignment
      → s.free_chunks k % alignment ≡ 0
      → (allocate build c_pool_alloc_thread_policy size alignment s
          ≡ ok (s.free_chunks k, lends k s))
        × Accounted (lends k s) k (s.free_chunks k ∷ lent)
        × (s.start_ptr ≤ s.free_chunks k)
        × (s.free_chunks k + s.chunk_size ≤ s.start_ptr + s.total_size)
        × (count (s.free_chunks k) lent ≡ 0)
  allocate-Accounted build size alignment h positive d =
      let (lo, hi, new) = top_bounds in
      let small : assert build (leb size s.chunk_size) ≡ ok tt =
        rw (leb-true size s.chunk_size h) (assert-true build) in
      (
        allocate-lends build size alignment small
            (assert_divides_lem build alignment (s.free_chunks k) positive d),
        lends-Accounted,
        lo,
        hi,
        new,
      )

  -- A release build asks neither for the size nor for the alignment.
  pub allocate_any :
      (size alignment : ℕ)
      → allocate release c_pool_alloc_thread_policy size alignment s
        ≡ ok (s.free_chunks k, lends k s)
  allocate_any size alignment = allocate-lends release size alignment refl refl
