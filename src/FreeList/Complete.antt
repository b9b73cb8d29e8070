-- ===== src/FreeList/Complete.antt =====
-- A table that covers every byte below a limit once, in blocks that do not border on one another, is
-- one block: the state that `IsFullyMerged` of src/FreeListAllocator.h looks for.
use native.Mathlib.Decide.{dec_lt}
use memory_allocators.Base.{
  ℕ, ◌≤◌, ◌<◌, ◌≡◌, ap, ◌-◌, ◌≢◌, inl, arith, ltb, if◌then◌else◌, pair-le-total, total_pos,
}
use memory_allocators.FreeList.Table.{FreeMemBlocks}
use memory_allocators.FreeList.Cover.{covers, end_of, covered, covers_inside, covers_pos, Entries}
use memory_allocators.FreeList.FullMerge.{Separate}

module _ (limit : ℕ) (t : FreeMemBlocks) (positive : 0 < limit) (en : Entries limit t)
    (once : (x : ℕ) → covered x t ≡ (if ltb x limit then 1 else 0)) (apart : Separate 0 t) where
  -- The block that covers a byte
  holder :
      (x : ℕ)
      → x < limit
      → (i : ℕ) × (i < t.curr_size) × ((t.block i).mem_block_offset ≤ x) × (x < end_of (t.block i))
  holder x h =
      let (i, l, c) = total_pos (covers x) t.curr_size t.block (ground (arith, once x)) in
      let (low, high) = covers_inside x (t.block i) c in (i, l, low, high)

  covered_twice :
      (x i j : ℕ)
      → i < j
      → j < t.curr_size
      → covers x (t.block i) ≡ 1
      → covers x (t.block j) ≡ 1
      → ⊥
  covered_twice x i j h l p q =
      ground (arith, pair-le-total (covers x) t.curr_size t.block i j h l, once x)

  -- Two blocks that share a byte are one entry.
  same_holder :
      (x i j : ℕ)
      → i < t.curr_size
      → j < t.curr_size
      → covers x (t.block i) ≡ 1
      → covers x (t.block j) ≡ 1
      → i ≡ j
  same_holder x i j li lj p q = elim (dec_lt i j) [
    | yes h ↦ absurd (covered_twice x i j h lj p q)
    | no h ↦ elim (dec_lt j i) [
      | yes k ↦ absurd (covered_twice x j i k li q p)
      | no k ↦ omega arith
    ]
  ]

  own_start : (j : ℕ) → j < t.curr_size → covers (t.block j).mem_block_offset (t.block j) ≡ 1
  own_start j l = covers_pos _ (t.block j) (omega arith) (omega (arith, en j l))

  -- The block that holds the byte behind block `i` would overlap it or border on it.
  no_gap :
      (i j : ℕ)
      → i < t.curr_size
      → j < t.curr_size
      → (t.block i).mem_block_offset ≡ 0
      → (t.block j).mem_block_offset ≤ end_of (t.block i)
      → end_of (t.block i) < end_of (t.block j)
      → ⊥
  no_gap i j li lj e low high = elim (dec_lt (t.block j).mem_block_offset (end_of (t.block i))) [
    | yes inside ↦
        ne
          (same_holder _ i j li lj (covers_pos _ (t.block i) (omega arith) inside) (own_start j lj))
    | no outside ↦ apart i j li lj (omega arith) ne (inl (omega arith))
  ]
    where
      ne : i ≢ j
      ne q = omega (arith, ap (λ k. end_of (t.block k)) q)

  first_spans :
      (i : ℕ) → i < t.curr_size → (t.block i).mem_block_offset ≡ 0 → end_of (t.block i) ≡ limit
  first_spans i l e = elim (dec_lt (end_of (t.block i)) limit) [
    | yes short ↦
        let (j, lj, low, high) = holder (end_of (t.block i)) short in
        absurd (no_gap i j l lj e low high)
    | no full ↦ omega (arith, en i l)
  ]

  -- Every entry is the one that begins at 0.
  only_entry :
      (i j : ℕ) → i < t.curr_size → (t.block i).mem_block_offset ≡ 0 → j < t.curr_size → i ≡ j
  only_entry i j li e lj =
      same_holder (t.block j).mem_block_offset i j li lj
        (covers_pos _ (t.block i) (omega arith) (omega (arith, first_spans i li e, en j lj)))
        (own_start j lj)

  pub one_block :
      (t.curr_size ≡ 1) × ((t.block 0).mem_block_offset ≡ 0) × ((t.block 0).block_size ≡ limit)
  one_block =
      let (i, l, low, high) = holder 0 positive in
      let e : (t.block i).mem_block_offset ≡ 0 = omega arith in
      let first : i ≡ 0 = only_entry i 0 l e (omega arith) in
      let e' : (t.block 0).mem_block_offset ≡ 0 = rw first at e in
      (
        omega (arith, first, only_entry i (t.curr_size - 1) l e (omega arith)),
        e',
        omega (arith, first_spans 0 (omega arith) e', e'),
      )
