-- ===== src/Linear/Memory.antt =====
-- What a LinearAllocator owns of the system's heap, over any sequence of its calls.
use memory_allocators.Base.{
  ℕ, ◌<◌, ◌≡◌, refl, ◌∙◌, add64, ltb-true, inl, inr, List, [], ◌∷◌, ◌++◌, some, Ptr, null, ltb,
  Bool-cases, release, Outcome, ok, ◌>>=◌,
}
use memory_allocators.Padding.{padding}
use memory_allocators.SystemHeap.{Call, owned, only, owned-append, owned-free, owned_renew}
use memory_allocators.Linear.{
  LinearAllocator, linear_allocator, init, destroy, allocate, free, reset,
}

pub data Request : Type 0 where
  inits : Ptr → Request
  allocates : ℕ → ℕ → Request
  frees : Ptr → Request
  resets : Request

-- A call of a method, in a release build, with its calls of the system's heap.
unfoldable pub serve : Request → LinearAllocator → Outcome (LinearAllocator × List Call)
serve (inits fresh) s = ok (init fresh s)
serve (allocates size alignment) s = do (p, s') ← allocate release size alignment s; ok (s', [])
serve (frees p) s = do (b, s') ← free release p s; ok (s', [])
serve resets s = ok (reset s)

unfoldable pub run : List Request → LinearAllocator → Outcome (LinearAllocator × List Call)
run [] s = ok (s, [])
run (r ∷ rs) s = do (s', cs) ← serve r s; (s'', ds) ← run rs s'; ok (s'', cs ++ ds)

-- `alignment` 0 is undefined: it divides.
abbrev pub Defined : Request → Type 0
Defined (allocates size alignment) = 0 < alignment
Defined _ = Unit {0}

abbrev pub AllDefined : List Request → Type 0
AllDefined [] = Unit {0}
AllDefined (r ∷ rs) = Defined r × AllDefined rs

-- The call returns, frees nothing that is not owned, and then the one block owned is `m_start_ptr`.
abbrev pub Keeps : LinearAllocator → Outcome (LinearAllocator × List Call) → Type 0
Keeps s r =
    (s' : LinearAllocator) × (cs : List Call) × (r ≡ ok (s', cs))
    × (owned (only s.start_ptr) cs ≡ some (only s'.start_ptr))

-- A request for memory is answered, and leaves `m_start_ptr` alone.
pub allocate_returns :
    (size alignment : ℕ) (s : LinearAllocator)
    → 0 < alignment
    → (p : Ptr) × (s' : LinearAllocator) × (allocate release size alignment s ≡ ok (p, s'))
      × (s'.start_ptr ≡ s.start_ptr)
unfolding allocate
allocate_returns size alignment s positive =
    rw (ltb-true 0 alignment positive)
      (elim (Bool-cases (ltb s.total_size (add64 (add64 s.offset (padding size alignment)) size))) [
        | inl e ↦ (null, s, rw e refl, refl)
        | inr e ↦
            let end : ℕ = add64 s.offset (add64 (padding size alignment) size) in
            (
              add64 s.start_ptr s.offset,
              record s { base = record (s.base) { used = end }; offset = end },
              rw e refl,
              refl,
            )
      ])

serve-Keeps : (r : Request) (s : LinearAllocator) → Defined r → Keeps s (serve r s)
unfolding serve init free reset owned
serve-Keeps (inits fresh) s d =
    ((init fresh s).0, (init fresh s).1, refl, owned_renew s.start_ptr s.total_size fresh)
serve-Keeps (allocates size alignment) s d =
    let (p, s', e, same) = allocate_returns size alignment s d in (s', [], rw e refl, rw same refl)
serve-Keeps (frees p) s d = (s, [], refl, refl)
serve-Keeps resets s d = ((reset s).0, (reset s).1, refl, owned-free s.start_ptr)

keeps : (rs : List Request) (s : LinearAllocator) → AllDefined rs → Keeps s (run rs s)
unfolding run owned
keeps [] s d = (s, [], refl, refl)
keeps (r ∷ rs) s d =
    let (s', cs, e, own) = serve-Keeps r s d.0 in
    let (s'', ds, f, own') = keeps rs s' d.1 in
    (s'', cs ++ ds, rw (e, f) refl, owned-append cs ds _ own ∙ own')

-- Over any sequence of calls of a release build with no alignment 0, `Init` and `Reset` at any time included, nothing leaks and nothing is
-- freed twice: what is owned is the block at `m_start_ptr`, and after the destructor nothing.
pub run-Keeps :
    (rs : List Request) (total : ℕ)
    → AllDefined rs
    → (s : LinearAllocator) × (cs : List Call) × (run rs (linear_allocator total) ≡ ok (s, cs))
      × (owned [] cs ≡ some (only s.start_ptr))
      × (owned [] (cs ++ (destroy s).1) ≡ some [])
unfolding destroy
run-Keeps rs total d =
    let (s, cs, e, own) = keeps rs (linear_allocator total) d in
    (s, cs, e, own, owned-append cs _ [] own ∙ owned-free s.start_ptr)
