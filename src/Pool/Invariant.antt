-- ===== src/Pool/Invariant.antt =====
-- The invariant of src/PoolAllocator.h: each chunk is free once or lent once.
use native.Mathlib.Nat.{mul-le-mul_right}
use native.Mathlib.Decide.{ℕ_discrete}
use memory_allocators.Base.{
  same, count, length, ℕ, zero, suc, ◌+◌, ◌*◌, ◌^◌, ◌≤◌, ◌<◌, ◌≡◌, ◌≢◌, refl, ap, ◌∙◌, List, arith,
  Ptr, null, ℤ, pos, negsuc, total, total_pos, total_zero, update_self, total-update_above, add64,
  mul64,
}
use memory_allocators.Pool.{PoolAllocator, fill}

-- The chunk at an index
abbrev pub chunk_at : PoolAllocator → ℕ → Ptr
chunk_at s i = s.start_ptr + i * s.chunk_size

-- The index of the last of `k` free chunks
abbrev pub top_of : ℕ → ℤ
top_of zero = negsuc 0
top_of (suc k) = pos k

-- `k` chunks are free, the addresses `lent` are not.
pub record Accounted (s : PoolAllocator) (k : ℕ) (lent : List Ptr) : Type 0 where
  pub held : 0 < s.start_ptr
  pub array : s.free_chunks_ptr ≢ null
  pub sized : s.chunks_num * s.chunk_size ≡ s.total_size
  pub fits : s.start_ptr + s.total_size < 2 ^ 64
  pub positive : 0 < s.chunk_size
  pub few : s.chunks_num < 2 ^ 63
  pub index : s.curr_free_chunks_idx ≡ top_of k
  pub counted : k + length lent ≡ s.chunks_num
  pub used_lent : s.used ≡ length lent * s.chunk_size
  pub once :
      (p : Ptr)
      → total (same p) k s.free_chunks + count p lent ≡ total (same p) s.chunks_num (chunk_at s)

-- An address that occurs is a chunk, and lies in the memory of the pool.
pub chunk_bounds :
    (s : PoolAllocator) (p : Ptr)
    → 0 < s.chunk_size
    → 0 < total (same p) s.chunks_num (chunk_at s)
    → (s.start_ptr ≤ p) × (p + s.chunk_size ≤ s.start_ptr + s.chunks_num * s.chunk_size)
unfolding same
chunk_bounds s p positive h =
    let (i, l, e) = total_pos (same p) s.chunks_num (chunk_at s) h in
    let here : chunk_at s i ≡ p = ground (arith, e) in
    let room = mul-le-mul_right s.chunk_size l in omega arith

chunk_before :
    (s : PoolAllocator) (i n : ℕ) → 0 < s.chunk_size → i < n → chunk_at s i < chunk_at s n
chunk_before s i n positive l =
    let room : suc i * s.chunk_size ≤ n * s.chunk_size = mul-le-mul_right s.chunk_size l in
    omega arith

-- The chunks are distinct.
pub chunk_once :
    (s : PoolAllocator) (p : Ptr) (n : ℕ) → 0 < s.chunk_size → total (same p) n (chunk_at s) ≤ 1
unfolding same total
chunk_once s p zero positive = omega arith
chunk_once s p (suc n) positive = elim (ℕ_discrete (chunk_at s n) p) [
  | yes e ↦
      let none_before : total (same p) n (chunk_at s) ≡ 0 =
        total_zero (same p) n (chunk_at s) (λ i l. ground (arith, chunk_before s i n positive l)) in
      ground arith
  | no e ↦ ground (arith, chunk_once s p n positive)
]

-- Reset writes the chunks in order.
pub fill-chunk :
    (s : PoolAllocator) (p : Ptr) (n : ℕ) (f : ℕ → Ptr)
    → n * s.chunk_size + s.start_ptr < 2 ^ 64
    → total (same p) n (fill s.start_ptr s.chunk_size n f) ≡ total (same p) n (chunk_at s)
unfolding fill total
fill-chunk s p zero f h = refl
fill-chunk s p (suc n) f h =
    let g : ℕ → Ptr = fill s.start_ptr s.chunk_size n f in
    let v : ℕ = add64 s.start_ptr (mul64 n s.chunk_size) in
    let here : v ≡ chunk_at s n = omega arith in
    omega (
      arith,
      fill-chunk s p n f (omega arith),
      total-update_above (same p) n g n v (omega arith),
      ap (same p) (update_self g n v ∙ here),
    )
