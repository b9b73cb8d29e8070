-- ===== src/Linear/Layout.antt =====
-- Where the blocks of a LinearAllocator lie.
use native.Mathlib.Nat.{le_refl}
use memory_allocators.Base.{
  ℕ, ◌+◌, ◌%◌, ◌^◌, ◌≤◌, ◌<◌, ◌≡◌, refl, inl, inr, List, [], ◌∷◌, arith, null, add64, leb, add64,
  ltb-true, ltb-true, Bool-cases, ◌==◌, if◌then◌else◌, ==_false, debug, release, ok, aborted,
}
use memory_allocators.Padding.{padding, padded-mod, padding_bounds, add_units}
use memory_allocators.Linear.{LinearAllocator, Block, allocate, allocate_all}

-- The state after `Init` and any allocations, for a block that `malloc` gave.
pub record IsValid (s : LinearAllocator) : Type 0 where
  pub held : 0 < s.start_ptr
  pub fits : s.start_ptr + s.total_size < 2 ^ 64
  pub within : s.offset ≤ s.total_size

-- The offset behind a block of `size` bytes.
abbrev pub next_offset : ℕ → ℕ → LinearAllocator → ℕ
next_offset size alignment s = s.offset + (padding size alignment + size)

abbrev pub moved : LinearAllocator → ℕ → LinearAllocator
moved s offset = record s { base = record (s.base) { used = offset }; offset = offset }

module _ (size alignment : ℕ) (s : LinearAllocator) (v : IsValid s) (positive : 0 < alignment)
    (small : size + alignment + s.total_size < 2 ^ 64) where
  allocate_fits :
      next_offset size alignment s ≤ s.total_size
      → allocate release size alignment s
        ≡ ok (s.start_ptr + s.offset, moved s (next_offset size alignment s))
  unfolding allocate
  allocate_fits h = ground (arith, padding_bounds size alignment)

  allocate_fits_debug :
      next_offset size alignment s ≤ s.total_size
      → allocate debug size alignment s ≡ (
          if (s.start_ptr + s.offset) % alignment == 0
          then ok (s.start_ptr + s.offset, moved s (next_offset size alignment s))
          else aborted)
  unfolding allocate
  allocate_fits_debug h =
      let e : add64 s.start_ptr s.offset ≡ s.start_ptr + s.offset = omega arith in
      rw (ltb-true 0 alignment positive, e) (ground (arith, padding_bounds size alignment))

  -- A request that does not fit is answered by null, and nothing changes.
  allocate_full :
      s.total_size < next_offset size alignment s → allocate release size alignment s ≡ ok (null, s)
  unfolding allocate
  allocate_full h = ground (arith, padding_bounds size alignment)

  allocate_full_debug :
      s.total_size < next_offset size alignment s → allocate debug size alignment s ≡ aborted
  unfolding allocate
  allocate_full_debug h = ground (arith, padding_bounds size alignment)

-- Every branch of a request whose sizes cannot wrap around: if block and padding fit it is met by
-- the next address, and the offset moves behind them; if not it is answered by null and nothing
-- changes. A debug build stops where they do not fit and where the next address is not aligned.
pub allocate_lem :
    (size alignment : ℕ) (s : LinearAllocator)
    → IsValid s
    → 0 < alignment
    → size + alignment + s.total_size < 2 ^ 64
    → let next = next_offset size alignment s in
      let address = s.start_ptr + s.offset in
      (allocate release size alignment s
        ≡ (if leb next s.total_size then ok (address, moved s next) else ok (null, s)))
      × (allocate debug size alignment s ≡ (
          if leb next s.total_size
          then (if address % alignment == 0 then ok (address, moved s next) else aborted)
          else aborted))
allocate_lem size alignment s v positive small =
    elim (Bool-cases (leb (next_offset size alignment s) s.total_size)) [
      | inl fits ↦ rw fits (
        allocate_fits size alignment s v positive small (ground arith),
        allocate_fits_debug size alignment s v positive small (ground arith),
      )
      | inr full ↦ rw full (
        allocate_full size alignment s v positive small (ground arith),
        allocate_full_debug size alignment s v positive small (ground arith),
      )
    ]

-- The blocks lie in order between `lo` and `hi`, apart, each at a multiple of the alignment.
abbrev pub Layout : ℕ → ℕ → ℕ → List Block → Type 0
Layout alignment lo hi [] = lo ≤ hi
Layout alignment lo hi (b ∷ bs) =
    (lo ≤ b.address) × (b.address % alignment ≡ 0) × Layout alignment (b.address + b.size) hi bs

Layout-mono :
    (alignment lo lo' hi : ℕ) (bs : List Block)
    → lo ≤ lo'
    → Layout alignment lo' hi bs
    → Layout alignment lo hi bs
Layout-mono alignment lo lo' hi [] h l = omega arith
Layout-mono alignment lo lo' hi (b ∷ bs) h l = (omega arith, l.1, l.2)

-- No sum of the sizes wraps around.
abbrev pub Small : ℕ → ℕ → List ℕ → Type 0
Small alignment total [] = Unit {0}
Small alignment total (n ∷ ns) = (n + alignment + total < 2 ^ 64) × Small alignment total ns

abbrev pub Laid : ℕ → LinearAllocator → List ℕ → Type 0
Laid alignment s ns =
    (bs : List Block) × (s' : LinearAllocator) × (allocate_all release alignment ns s ≡ ok (bs, s'))
    × Layout alignment (s.start_ptr + s.offset) (s'.start_ptr + s'.offset) bs
    × (s'.start_ptr ≡ s.start_ptr)
    × (s'.offset ≤ s.total_size)

module _ (alignment n : ℕ) (ns : List ℕ) (s : LinearAllocator) where
  -- A request that is met puts its block in front of those that follow.
  Laid-cons :
      allocate release n alignment s
        ≡ ok (s.start_ptr + s.offset, moved s (next_offset n alignment s))
      → 0 < s.start_ptr
      → next_offset n alignment s ≤ s.total_size
      → (s.start_ptr + s.offset) % alignment ≡ 0
      → Laid alignment (moved s (next_offset n alignment s)) ns
      → Laid alignment s (n ∷ ns)
  unfolding allocate_all
  Laid-cons e held fits a (bs, s', run, laid, start, within) = (
    record { address = s.start_ptr + s.offset; size = n } ∷ bs,
    s',
    rw (e, run, ==_false (s.start_ptr + s.offset) 0 (omega arith)) refl,
    (omega arith, a, Layout-mono alignment _ _ _ bs (omega arith) laid),
    start,
    within,
  )

  Laid-skip :
      allocate release n alignment s ≡ ok (null, s)
      → Laid alignment s ns
      → Laid alignment s (n ∷ ns)
  unfolding allocate_all
  Laid-skip e (bs, s', run, laid, start, within) = (bs, s', rw (e, run) refl, laid, start, within)

pub allocate_all-Layout :
    (alignment : ℕ) (ns : List ℕ) (s : LinearAllocator)
    → IsValid s
    → 0 < alignment
    → s.start_ptr % alignment ≡ 0
    → s.offset % alignment ≡ 0
    → Small alignment s.total_size ns
    → Laid alignment s ns
unfolding allocate_all
allocate_all-Layout alignment [] s v positive a o small = ([], s, refl, le_refl _, refl, v.within)
allocate_all-Layout alignment (n ∷ ns) s v positive a o small =
    elim (Bool-cases (leb (next_offset n alignment s) s.total_size)) [
      | inl fits ↦
          let h : next_offset n alignment s ≤ s.total_size = ground arith in
          let at : (s.start_ptr + s.offset) % alignment ≡ 0 = add_units _ _ alignment a o in
          Laid-cons alignment n ns s (allocate_fits n alignment s v positive small.0 h) v.held h at
            (allocate_all-Layout alignment ns (moved s (next_offset n alignment s))
              (record { held = v.held; fits = v.fits; within = h }) positive a
              (add_units s.offset _ alignment o (padded-mod n alignment positive (omega arith)))
              small.1)
      | inr full ↦
          Laid-skip alignment n ns s (allocate_full n alignment s v positive small.0 (ground arith))
            (allocate_all-Layout alignment ns s v positive a o small.1)
    ]
