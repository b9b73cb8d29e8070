-- ===== src/FreeList/Search.antt =====
-- The search of src/FreeListAllocator.h, FindFreeMemBlockIndex, finds the best fit.
use native.Mathlib.Decide.{ℕ_discrete}
use memory_allocators.Base.{
  ℕ, zero, suc, ◌+◌, ◌-◌, ◌^◌, ◌≤◌, ◌<◌, ◌≡◌, refl, inl, inr, true, false, Option, none, some,
  arith, sub64, Bool-cases,
}
use memory_allocators.FreeList.Table.{MemBlock, fits_better, search}

-- What is known of `best` once the indices from `lo` below `hi` are seen. `diff` is what the best
-- block has to spare, or the largest word while there is none.
data Best (f : ℕ → MemBlock) (size lo hi diff : ℕ) (best : Option ℕ) : Type 0 where
  missing :
      best ≡ none
      → diff ≡ 2 ^ 64 - 1
      → ((j : ℕ) → lo ≤ j → j < hi → (f j).block_size < size)
      → Best f size lo hi diff best
  found :
      (k : ℕ)
      → best ≡ some k
      → k < hi
      → size + diff ≡ (f k).block_size
      → ((j : ℕ) → lo ≤ j → j < hi → size ≤ (f j).block_size → (f k).block_size ≤ (f j).block_size)
      → Best f size lo hi diff best

from_next :
    (i hi : ℕ) (P : ℕ → Type 0)
    → P i
    → ((j : ℕ) → suc i ≤ j → j < hi → P j)
    → (j : ℕ) → i ≤ j
    → j < hi
    → P j
from_next i hi P here next j h l = elim (ℕ_discrete j i) [
  | yes e ↦ rw e here
  | no e ↦ next j (omega arith) l
]

module _ (f : ℕ → MemBlock) (size hi : ℕ)
    (small : (j : ℕ) → j < hi → (f j).block_size < 2 ^ 31) where
  -- The test of the loop, without its casts
  better_true :
      (i diff : ℕ)
      → i < hi
      → fits_better (f i) size diff ≡ true
      → (size ≤ (f i).block_size) × ((f i).block_size < size + diff)
  better_true i diff h e = ground (arith, small i)

  better_false :
      (i diff : ℕ)
      → i < hi
      → fits_better (f i) size diff ≡ false
      → size ≤ (f i).block_size
      → size + diff ≤ (f i).block_size
  better_false i diff h e l = ground (arith, small i)

  Best-better :
      (i diff : ℕ) (best : Option ℕ)
      → i < hi
      → Best f size (suc i) hi diff best
      → fits_better (f i) size diff ≡ true
      → Best f size i hi (sub64 (f i).block_size size) (some i)
  Best-better i diff best h (missing n d none_fits) e =
      found i refl h (omega (arith, better_true i diff h e, small i h)) (
        from_next i hi (λ j. size ≤ (f j).block_size → (f i).block_size ≤ (f j).block_size)
          (λ l. omega arith) (λ j a l m. absurd (omega (arith, none_fits j a l))))
  Best-better i diff best h (found k s l d least) e =
      found i refl h (omega (arith, better_true i diff h e, small i h)) (
        from_next i hi (λ j. size ≤ (f j).block_size → (f i).block_size ≤ (f j).block_size)
          (λ l. omega arith) (λ j a l m. omega (arith, least j a l m, better_true i diff h e)))

  Best-worse :
      (i diff : ℕ) (best : Option ℕ)
      → i < hi
      → Best f size (suc i) hi diff best
      → fits_better (f i) size diff ≡ false
      → Best f size i hi diff best
  Best-worse i diff best h (missing n d none_fits) e = missing n d (
      from_next i hi (λ j. (f j).block_size < size)
        (grind (arith, better_false i diff h e, small i h)) none_fits)
  Best-worse i diff best h (found k s l d least) e = found k s l d (
      from_next i hi (λ j. size ≤ (f j).block_size → (f k).block_size ≤ (f j).block_size)
        (λ m. omega (arith, better_false i diff h e m)) least)

  search-Best :
      (i diff : ℕ) (best : Option ℕ)
      → i ≤ hi
      → Best f size i hi diff best
      → (d : ℕ) × Best f size 0 hi d (search f size i diff best)
  unfolding search
  search-Best zero diff best h b = (diff, b)
  search-Best (suc i) diff best h b = elim (Bool-cases (fits_better (f i) size diff)) [
    | inl e ↦ rw e (search-Best i _ _ (omega arith) (Best-better i diff best h b e))
    | inr e ↦ rw e (search-Best i _ _ (omega arith) (Best-worse i diff best h b e))
  ]

-- `none` if every block is too small; else a block that is large enough, and no larger than any other
-- that is.
abbrev pub IsBestFit : (ℕ → MemBlock) → ℕ → ℕ → Option ℕ → Type 0
IsBestFit f size hi none = (j : ℕ) → j < hi → (f j).block_size < size
IsBestFit f size hi (some k) =
    (k < hi)
    × (size ≤ (f k).block_size)
    × ((j : ℕ) → j < hi → size ≤ (f j).block_size → (f k).block_size ≤ (f j).block_size)

-- For blocks below 2 ^ 31 bytes the loop finds no block if every block is too small, and else one that
-- is large enough and no larger than any other that is.
pub search-IsBestFit :
    (f : ℕ → MemBlock) (size hi : ℕ)
    → ((j : ℕ) → j < hi → (f j).block_size < 2 ^ 31)
    → IsBestFit f size hi (search f size hi (2 ^ 64 - 1) none)
search-IsBestFit f size hi small =
    elim (search-Best f size hi small hi (2 ^ 64 - 1) none (omega arith)
      (missing refl refl (λ j a l. absurd (omega arith)))).1 [
        | missing n d none_fits ↦ rw n (λ j l. none_fits j (omega arith) l)
        | found k s l d least ↦ rw s (l, omega arith, λ j b m. least j (omega arith) b m)
      ]
