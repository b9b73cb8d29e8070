-- ===== src/FreeList/FullMerge.antt =====
-- The table behind FastMergeMemBlocks and FullMergeMemBlocks of src/FreeListAllocator.h: the same bytes
-- are free, and behind a full merge no two free blocks border on one another.
use native.Mathlib.Decide.{dec_lt, ℕ_discrete}
use memory_allocators.Base.{
  ℕ, zero, suc, ◌+◌, ◌-◌, ◌^◌, ◌≤◌, ◌<◌, ◌≡◌, refl, sym, ◌≢◌, ◌∙◌, inl, inr, arith, ◌==◌,
  if◌then◌else◌, Bool-cases, ==_refl, ==_false,
}
use memory_allocators.FreeList.Table.{
  MemBlock, FreeMemBlocks, absorb, fast_merge, full_merge_below, full_merge,
}
use memory_allocators.FreeList.Cover.{
  covers, size_of, covered, free_size, Adjacent, Adjacent-symm, Joins, covers-Joins, Adjacent-Joins,
  Entries,
}
use memory_allocators.FreeList.Merge.{
  total-absorb, curr_size-absorb, absorb-entry, Merged, apart, joined, fast_merge_below-Merged,
}

-- `u` has the free bytes of `t`, in no more blocks.
pub record Keeps (limit : ℕ) (t u : FreeMemBlocks) : Type 0 where
  pub sizes : free_size u ≡ free_size t
  pub cover : (x : ℕ) → covered x u ≡ covered x t
  pub entries : Entries limit u
  pub fewer : u.curr_size ≤ t.curr_size
  pub some_left : 0 < t.curr_size → 0 < u.curr_size

pub Keeps-refl : (limit : ℕ) (t : FreeMemBlocks) → Entries limit t → Keeps limit t t
Keeps-refl limit t en = record {
  sizes = refl;
  cover = λ x. refl;
  entries = en;
  fewer = omega arith;
  some_left = λ h. h;
}

Keeps-trans :
    (limit : ℕ) (t u v : FreeMemBlocks) → Keeps limit t u → Keeps limit u v → Keeps limit t v
Keeps-trans limit t u v k l = record {
  sizes = l.sizes ∙ k.sizes;
  cover = λ x. l.cover x ∙ k.cover x;
  entries = l.entries;
  fewer = omega (arith, k.fewer, l.fewer);
  some_left = λ h. l.some_left (k.some_left h);
}

module _ (limit pivot : ℕ) (t : FreeMemBlocks) (en : Entries limit t)
    (inside : pivot < t.curr_size) where
  absorb-Entries :
      (i : ℕ) (b : MemBlock)
      → i < pivot
      → Joins (t.block i) (t.block pivot) b
      → Entries limit (absorb pivot i b t)
  unfolding absorb
  absorb-Entries i b h js j k =
      ground (arith, absorb-entry pivot i b t j h k, en i, en pivot, en j, en (t.curr_size - 1))

  Merged-Keeps :
      (n : ℕ) (u : FreeMemBlocks)
      → n ≤ pivot
      → Merged pivot n t u
      → Keeps limit t u × (t.curr_size ≤ u.curr_size + 1)
  Merged-Keeps n u h (apart e far) = rw e (Keeps-refl limit t en, omega arith)
  Merged-Keeps n u h (joined i b e l j) = rw e (
    record {
      sizes = total-absorb size_of pivot i b t (omega arith) inside j.0;
      cover =
          λ x. total-absorb (covers x) pivot i b t (omega arith) inside (covers-Joins x _ _ b j);
      entries = absorb-Entries i b (omega arith) j;
      fewer = omega (arith, curr_size-absorb pivot i b t);
      some_left = omega (arith, curr_size-absorb pivot i b t);
    },
    omega (arith, curr_size-absorb pivot i b t),
  )

-- No block from index `from` on borders on another one.
abbrev pub Separate : ℕ → FreeMemBlocks → Type 0
Separate from t =
    (j k : ℕ)
    → j < t.curr_size
    → k < t.curr_size
    → from ≤ k
    → j ≢ k
    → ¬ Adjacent (t.block j) (t.block k)

-- The loop of FullMergeMemBlocks comes to `i` when the later blocks are done.
module _ (i : ℕ) (t : FreeMemBlocks) (inside : i < t.curr_size) (done : Separate (suc i) t) where
  Separate-apart : ((j : ℕ) → j < i → ¬ Adjacent (t.block j) (t.block i)) → Separate i t
  Separate-apart far j k lj lk h ne a = elim (dec_lt i k) [
    | yes later ↦ done j k lj lk later ne a
    | no now ↦
        let e : k ≡ i = omega arith in
        elim (dec_lt j i) [
          | yes earlier ↦ far j earlier (rw e at a)
          | no later ↦
              done k j lk lj (omega arith) (λ q. ne (sym q))
                (Adjacent-symm (t.block j) (t.block k) a)
        ]
  ]

  -- Where entry `k` of the merged table comes from.
  origin : ℕ → ℕ
  origin k = if k == i then t.curr_size - 1 else k

  absorb-origin :
      (l : ℕ) (b : MemBlock) (k : ℕ)
      → l < i
      → k < t.curr_size - 1
      → k ≢ l
      → (absorb i l b t).block k ≡ t.block (origin k)
  unfolding origin
  absorb-origin l b k h lk ne = elim (Bool-cases (k == i)) [
    | inl e ↦ rw (absorb-entry i l b t k h lk, ==_false k l ne, e) refl
    | inr e ↦ rw (absorb-entry i l b t k h lk, ==_false k l ne, e) refl
  ]

  origin_late : (k : ℕ) → i ≤ k → k < t.curr_size - 1 → (i < origin k) × (origin k < t.curr_size)
  unfolding origin
  origin_late k h lk = ground arith

  origin_early : (j : ℕ) → j < t.curr_size - 1 → origin j < t.curr_size
  unfolding origin
  origin_early j lj = ground arith

  origin-ne : (j k : ℕ) → j < t.curr_size - 1 → k < t.curr_size - 1 → j ≢ k → origin j ≢ origin k
  unfolding origin
  origin-ne j k lj lk ne = ground arith

  module _ (l : ℕ) (b : MemBlock) (h : l < i) (js : Joins (t.block l) (t.block i) b) where
    absorb_joined : l < t.curr_size - 1 → (absorb i l b t).block l ≡ b
    absorb_joined ll = rw (absorb-entry i l b t l h ll, ==_refl l) refl

    not-Adjacent_joined : (k : ℕ) → i < k → k < t.curr_size → ¬ Adjacent b (t.block k)
    not-Adjacent_joined k ik lk a = elim (Adjacent-Joins _ _ b (t.block k) js a) [
      | inl p ↦ done l k (omega arith) lk ik (omega arith) p
      | inr p ↦ done i k inside lk ik (omega arith) p
    ]

    not-Adjacent-absorb :
        (j k : ℕ)
        → j < t.curr_size - 1
        → k < t.curr_size - 1
        → i ≤ k
        → j ≢ k
        → ¬ Adjacent ((absorb i l b t).block j) ((absorb i l b t).block k)
    not-Adjacent-absorb j k lj lk ik ne = rw (absorb-origin l b k h lk (omega arith)) (
        let late = origin_late k ik lk in
        elim (ℕ_discrete j l) [
          | yes e ↦
              rw (e, absorb_joined (omega arith)) (not-Adjacent_joined (origin k) late.0 late.1)
          | no e ↦ rw (absorb-origin l b j h lj e) (
              done (origin j) (origin k) (origin_early j lj) late.1 late.0 (origin-ne j k lj lk ne))
        ])

    Separate-joined : Separate i (absorb i l b t)
    unfolding absorb
    Separate-joined j k lj lk ik ne a = not-Adjacent-absorb j k lj lk ik ne a

  Merged-Separate : (u : FreeMemBlocks) → Merged i i t u → Separate i u
  Merged-Separate u (apart e far) = rw e (Separate-apart far)
  Merged-Separate u (joined l b e h js) = rw e (Separate-joined l b h js)

module _ (limit : ℕ) (small : limit < 2 ^ 63) where
  pub fast_merge-Keeps :
      (i : ℕ) (t : FreeMemBlocks)
      → Entries limit t
      → i < t.curr_size
      → Keeps limit t (fast_merge i t)
  unfolding fast_merge
  fast_merge-Keeps i t en h =
      (Merged-Keeps limit i t en h i _ (omega arith)
        (fast_merge_below-Merged limit i i t small en (omega arith) h)).0

  full_merge_below-Keeps :
      (n : ℕ) (t : FreeMemBlocks)
      → Entries limit t
      → n ≤ t.curr_size
      → Separate n t
      → Keeps limit t (full_merge_below n t) × Separate 0 (full_merge_below n t)
  unfolding full_merge_below fast_merge
  full_merge_below-Keeps zero t en h s = (Keeps-refl limit t en, s)
  full_merge_below-Keeps (suc i) t en h s =
      let merged = fast_merge_below-Merged limit i i t small en (omega arith) h in
      let (keeps, shorter) = Merged-Keeps limit i t en h i _ (omega arith) merged in
      let (rest, separate) =
        full_merge_below-Keeps i (fast_merge i t) keeps.entries (omega arith)
          (Merged-Separate i t h s _ merged) in
      (Keeps-trans limit t _ _ keeps rest, separate)

  -- FullMergeMemBlocks, for blocks that lie below a limit: the same bytes are free behind it, in blocks
  -- of which none borders on another.
  pub full_merge-Keeps :
      (t : FreeMemBlocks)
      → Entries limit t
      → Keeps limit t (full_merge t) × Separate 0 (full_merge t)
  unfolding full_merge
  full_merge-Keeps t en =
      full_merge_below-Keeps t.curr_size t en (omega arith) (λ j k lj lk h. absurd (omega arith))
