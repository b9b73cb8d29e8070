-- ===== src/Stack/Frames.antt =====
-- The blocks in use of src/StackAllocator.h are a stack: Free gives up a block and those above it.
use memory_allocators.Base.{
  ℕ, ◌+◌, ◌^◌, ◌≤◌, ◌<◌, ◌≡◌, ◌≢◌, refl, sym, subst, ◌∙◌, arith, inl, inr, Bool-cases, Bool, true,
  Ptr, null, sub64, leb, List, [], ◌∷◌, ◌++◌, if◌then◌else◌, release, Outcome, ok,
}
use memory_allocators.Padding.{padding}
use memory_allocators.Linear.Layout.{allocate_lem}
use memory_allocators.Stack.{StackAllocator, init, allocate, free}
use memory_allocators.Stack.Equivalence.{to_linear, allocate-to_linear}

-- The state after `Init` and any calls that free blocks in use only.
pub record IsValid (s : StackAllocator) : Type 0 where
  pub held : 0 < s.start_ptr
  pub fits : s.start_ptr + s.total_size < 2 ^ 64
  pub within : s.offset ≤ s.total_size
  pub counted : s.used ≡ s.offset

abbrev pub at_offset : StackAllocator → ℕ → StackAllocator
at_offset s offset = record s { base = record (s.base) { used = offset }; offset = offset }

abbrev pub next_offset : ℕ → ℕ → StackAllocator → ℕ
next_offset size alignment s = s.offset + (padding size alignment + size)

-- A request whose sizes cannot wrap around
pub allocate_branches :
    (size alignment : ℕ) (s : StackAllocator)
    → IsValid s
    → 0 < alignment
    → size + alignment + s.total_size < 2 ^ 64
    → let next = next_offset size alignment s in
      allocate release size alignment s ≡ (
        if leb next s.total_size
        then ok (s.start_ptr + s.offset, at_offset s next)
        else ok (null, s))
allocate_branches size alignment s v positive small =
    let linear =
      allocate_lem size alignment (to_linear s)
        (record { held = v.held; fits = v.fits; within = v.within }) positive small in
    let next = next_offset size alignment s in
    rw (allocate-to_linear release size alignment s, linear.0)
      (elim (Bool-cases (leb next s.total_size)) [ inl e ↦ rw e refl | inr e ↦ rw e refl ])

-- A block in use
pub record Frame : Type 0 where
  pub address : Ptr
  pub size : ℕ

-- The frames lie between `lo` and `hi`, each below the ones in front of it.
abbrev pub Stacked : ℕ → ℕ → List Frame → Type 0
Stacked lo hi [] = lo ≤ hi
Stacked lo hi (f ∷ fs) = (f.address + f.size ≤ hi) × Stacked lo f.address fs

Stacked-le : (lo hi : ℕ) (fs : List Frame) → Stacked lo hi fs → lo ≤ hi
Stacked-le lo hi [] h = h
Stacked-le lo hi (f ∷ fs) h = omega (arith, h.0, Stacked-le lo f.address fs h.1)

-- What lies below a frame
Stacked-below :
    (lo hi : ℕ) (xs : List Frame) (f : Frame) (ys : List Frame)
    → Stacked lo hi (xs ++ f ∷ ys)
    → (f.address ≤ hi) × Stacked lo f.address ys
Stacked-below lo hi [] f ys h = (omega (arith, h.0), h.1)
Stacked-below lo hi (x ∷ xs) f ys h =
    let (le, rest) = Stacked-below lo x.address xs f ys h.1 in (omega (arith, h.0, le), rest)

-- States that calls of a release build lead to, with the blocks in use, the last one in front.
pub data Reach (s₀ : StackAllocator) (fresh : Ptr) : StackAllocator → List Frame → Type 0 where
  inits : Reach s₀ fresh (init fresh s₀).0 []
  allocates :
      {s : StackAllocator} {fs : List Frame} {p : Ptr} {s' : StackAllocator} (size alignment : ℕ)
      → Reach s₀ fresh s fs
      → 0 < alignment
      → size + alignment + s.total_size < 2 ^ 64
      → p ≢ null
      → allocate release size alignment s ≡ ok (p, s')
      → Reach s₀ fresh s' (record { address = p; size = size } ∷ fs)
  frees :
      {s : StackAllocator} {fs : List Frame} (xs : List Frame) (f : Frame) (ys : List Frame)
      → Reach s₀ fresh s fs
      → fs ≡ xs ++ f ∷ ys
      → Reach s₀ fresh (free f.address s).1 ys

-- Which states a stack of frames belongs to
pub record Holds (total : ℕ) (s : StackAllocator) (fs : List Frame) : Type 0 where
  pub valid : IsValid s
  pub same_total : s.total_size ≡ total
  pub stacked : Stacked s.start_ptr (s.start_ptr + s.offset) fs

ok_result :
    {s t : StackAllocator} {p q : Ptr}
    → ◌≡◌ {A = Outcome (Ptr × StackAllocator)} (ok (p, s)) (ok (q, t))
    → (p ≡ q) × (s ≡ t)
ok_result e = (cc, cc)

-- A request that was met moved the offset, and its block fits.
met :
    (size alignment : ℕ) (s : StackAllocator) (p : Ptr) (s' : StackAllocator)
    → IsValid s
    → 0 < alignment
    → size + alignment + s.total_size < 2 ^ 64
    → p ≢ null
    → allocate release size alignment s ≡ ok (p, s')
    → (s.start_ptr + s.offset ≡ p)
      × (at_offset s (next_offset size alignment s) ≡ s')
      × (next_offset size alignment s ≤ s.total_size)
met size alignment s p s' v positive small given e =
    let next = next_offset size alignment s in
    let branch : Bool → Outcome (Ptr × StackAllocator) =
      λ b. if b then ok (s.start_ptr + s.offset, at_offset s next) else ok (null, s) in
    let all : branch (leb next s.total_size) ≡ ok (p, s') =
      sym (allocate_branches size alignment s v positive small) ∙ e in
    elim (Bool-cases (leb next s.total_size)) [
      | inr full ↦ absurd (given (sym (ok_result (subst (λ b. branch b ≡ ok (p, s')) full all)).0))
      | inl fits ↦
          let (same_ptr, same_state) = ok_result (subst (λ b. branch b ≡ ok (p, s')) fits all) in
          (same_ptr, same_state, ground arith)
    ]

allocates-Holds :
    (total : ℕ) (s : StackAllocator) (fs : List Frame) (p : Ptr) (s' : StackAllocator)
    (size alignment : ℕ)
    → Holds total s fs
    → 0 < alignment
    → size + alignment + s.total_size < 2 ^ 64
    → p ≢ null
    → allocate release size alignment s ≡ ok (p, s')
    → Holds total s' (record { address = p; size = size } ∷ fs)
allocates-Holds total s fs p s' size alignment h positive small given e =
    let (same_ptr, same_state, fits) = met size alignment s p s' h.valid positive small given e in
    subst (λ q. Holds total s' (record { address = q; size = size } ∷ fs)) same_ptr
      (subst (λ u. Holds total u (record { address = s.start_ptr + s.offset; size = size } ∷ fs))
        same_state
        (record {
          valid = record {
            held = h.valid.held;
            fits = h.valid.fits;
            within = fits;
            counted = refl;
          };
          same_total = h.same_total;
          stacked = (omega arith, h.stacked);
        }))

frees-Holds :
    (total : ℕ) (s : StackAllocator) (xs : List Frame) (f : Frame) (ys : List Frame)
    → Holds total s (xs ++ f ∷ ys)
    → Holds total (free f.address s).1 ys
unfolding free
frees-Holds total s xs f ys h =
    let (hi, below) = Stacked-below s.start_ptr (s.start_ptr + s.offset) xs f ys h.stacked in
    let lo = Stacked-le s.start_ptr f.address ys below in
    let e : s.start_ptr + sub64 f.address s.start_ptr ≡ f.address =
      omega (arith, h.valid.fits, h.valid.within) in
    record {
      valid = record {
        held = h.valid.held;
        fits = h.valid.fits;
        within = omega (arith, e, h.valid.within);
        counted = refl;
      };
      same_total = h.same_total;
      stacked = subst (λ hi'. Stacked s.start_ptr hi' ys) (sym e) below;
    }

pub Reach-Holds :
    (s₀ : StackAllocator) (fresh : Ptr)
    → 0 < fresh
    → fresh + s₀.total_size < 2 ^ 64
    → s₀.used ≡ 0
    → {s : StackAllocator} {fs : List Frame} → Reach s₀ fresh s fs
    → Holds s₀.total_size s fs
unfolding init
Reach-Holds s₀ fresh held fits unused inits = record {
  valid = record { held = held; fits = fits; within = omega arith; counted = unused };
  same_total = refl;
  stacked = omega arith;
}
Reach-Holds s₀ fresh held fits unused
      (allocates {s} {fs} {p} {s'} size alignment r pos small given e) =
    allocates-Holds s₀.total_size s fs p s' size alignment (Reach-Holds s₀ fresh held fits unused r)
      pos small given e
Reach-Holds s₀ fresh held fits unused (frees {s} {fs} xs f ys r parts) =
    frees-Holds s₀.total_size s xs f ys
      (subst (Holds s₀.total_size s) parts (Reach-Holds s₀ fresh held fits unused r))

-- `Free` of the block that a request was given, the last one: the allocator is the one before the
-- request, the whole state.
pub free_latest :
    (s : StackAllocator) (size alignment : ℕ) (p : Ptr) (s' : StackAllocator)
    → IsValid s
    → 0 < alignment
    → size + alignment + s.total_size < 2 ^ 64
    → p ≢ null
    → allocate release size alignment s ≡ ok (p, s')
    → free p s' ≡ (true, s)
unfolding free
free_latest s size alignment p s' v positive small given e =
    let (same_ptr, same_state, fits) = met size alignment s p s' v positive small given e in
    let back : sub64 (s.start_ptr + s.offset) s.start_ptr ≡ s.offset =
      omega (arith, v.fits, v.within) in
    subst (λ u. free p u ≡ (true, s)) same_state
      (subst (λ q. free q (at_offset s (next_offset size alignment s)) ≡ (true, s)) same_ptr
        (rw back (λ i. (true, record s { base = record (s.base) { used = sym v.counted i } }))))
