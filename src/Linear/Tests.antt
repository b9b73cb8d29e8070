-- ===== src/Linear/Tests.antt =====
-- The functions of src/LinearAllocator.h on an allocator of 64 bytes, and the theorems there.
use memory_allocators.Base.{◌≡◌, refl, List, [], ◌∷◌, ◌++◌, some, arith, release, ok}
use memory_allocators.SystemHeap.{Call, owned, only}
use memory_allocators.Padding.{padding}
use memory_allocators.Linear.{LinearAllocator, linear_allocator, destroy, allocate, allocate_all}
use memory_allocators.Linear.Layout.{IsValid, moved, Laid, allocate_all-Layout}
use memory_allocators.Linear.Memory.{Request, inits, allocates, resets, run, run-Keeps}

abbrev ready : LinearAllocator
ready = record (linear_allocator 64) { start_ptr = 4096 }

ready-IsValid : IsValid ready
ready-IsValid = omega arith

-- 5 bytes take 8, 8 bytes take 16, and 48 do not fit any more.
blocks :
    allocate_all release 8 (5 ∷ 8 ∷ 48 ∷ 1 ∷ []) ready
    ≡ ok (
      record { address = 4096; size = 5 }
          ∷ record { address = 4104; size = 8 }
          ∷ record { address = 4120; size = 1 }
          ∷ [],
      moved ready 32,
    )
unfolding allocate_all allocate padding
blocks = refl

allocate_all-Layout_example : Laid 8 ready (5 ∷ 8 ∷ 48 ∷ [])
allocate_all-Layout_example =
    allocate_all-Layout 8 (5 ∷ 8 ∷ 48 ∷ []) ready ready-IsValid (omega arith) refl refl
      (omega arith)

abbrev requests : List Request
requests = inits 4096 ∷ allocates 5 8 ∷ resets ∷ allocates 5 8 ∷ inits 8192 ∷ inits 0 ∷ []

run-Keeps_example :
    (s : LinearAllocator) × (cs : List Call) × (run requests (linear_allocator 64) ≡ ok (s, cs))
    × (owned [] cs ≡ some (only s.start_ptr))
    × (owned [] (cs ++ (destroy s).1) ≡ some [])
run-Keeps_example = run-Keeps requests 64 (omega arith)
