-- ===== src/Sharing/Tests.antt =====
-- Two threads that share a pool of 4 chunks of 16 bytes, and the theorems there.
use memory_allocators.Base.{
  ℕ, zero, suc, ◌≡◌, refl, false, List, [], ◌∷◌, ◌++◌, arith, null, pos, update,
}
use memory_allocators.Interface.{interface_of}
use memory_allocators.Pool.{PoolAllocator, fill}
use memory_allocators.Pool.Invariant.{Accounted}
use memory_allocators.Pool.Chunks.{started, init-Accounted, lends, lends-Accounted}
use memory_allocators.Sharing.{Methods, Turn, step, run, new}
use memory_allocators.Sharing.Guard.{guarded, HeldInside, run-HeldInside}
use memory_allocators.Sharing.Serial.{Serial, run-Serial}
use memory_allocators.Sharing.PoolMethods.{allocates, frees, pool_methods}
use memory_allocators.Sharing.PoolMethods.Histories.{Calls, stops, takes, gives_back, run-Accounted}

abbrev fresh_pool : PoolAllocator
fresh_pool = record {
  base = interface_of 64;
  free_chunks_ptr = null;
  free_chunks = λ _. null;
  start_ptr = null;
  chunks_num = 4;
  chunk_size = 16;
  curr_free_chunks_idx = pos 3;
  spinlock = false;
}

abbrev ready : PoolAllocator
ready = started 4096 8192 fresh_pool

ready-Accounted : Accounted ready 4 []
ready-Accounted =
    (init-Accounted 4096 8192 fresh_pool (omega arith) (omega arith) refl (omega arith)
      (omega arith) (omega arith)).1

-- `n` steps of one thread, whose loads see a clear flag
abbrev steps : (m : Methods) → ℕ → ℕ → m.Method → List (Turn m)
steps m zero i method = []
steps m (suc n) i method = record { thread = i; method = method; seen = false } ∷ steps m n i method

-- Thread 0 gets the lock and allocates, while thread 1 tries to free; then thread 1 gets it.
abbrev meeting : List (Turn pool_methods)
meeting =
    steps pool_methods 5 0 allocates
    ++ steps pool_methods 3 1 (frees 4144)
    ++ steps pool_methods 5 0 allocates
    ++ steps pool_methods 10 1 (frees 4144)

meeting_order :
    (run pool_methods meeting (new pool_methods ready)).entered ≡ allocates ∷ frees 4144 ∷ []
unfolding run update step
meeting_order = refl

run-Serial_example : Serial pool_methods ready (run pool_methods meeting (new pool_methods ready))
run-Serial_example = run-Serial pool_methods ready meeting

meeting_clear : (run pool_methods meeting (new pool_methods ready)).flag ≡ false
unfolding run update step
meeting_clear = refl

meeting-Calls : Calls ready 4 [] (run pool_methods meeting (new pool_methods ready)).entered 4 []
unfolding run update step fill
meeting-Calls = takes (gives_back [] 4144 [] refl stops)

run-Accounted_example : Accounted (run pool_methods meeting (new pool_methods ready)).shared 4 []
run-Accounted_example =
    run-Accounted ready 4 [] ready-Accounted meeting 4 [] meeting-Calls meeting_clear

abbrev one_lent : PoolAllocator
one_lent = lends 3 ready

one_lent-Accounted : Accounted one_lent 3 (4144 ∷ [])
unfolding fill update
one_lent-Accounted = lends-Accounted ready 3 [] ready-Accounted

-- Thread 0 frees an address behind the pool, then thread 1 allocates.
abbrev refusal : (m : Methods) → m.Method → m.Method → List (Turn m)
refusal m first second = steps m 10 0 first ++ steps m 10 1 second

-- Without the guard thread 1 does not get the lock.
refusal_waits :
    ((run pool_methods
        (refusal pool_methods (frees 5000) allocates)
        (new pool_methods ready)).entered
      ≡ frees 5000 ∷ [])
    × ((run
          (guarded pool_methods)
          (refusal (guarded pool_methods) (frees 5000) allocates)
          (new (guarded pool_methods) ready)).entered
        ≡ frees 5000 ∷ allocates ∷ [])
unfolding run update step
refusal_waits = (refl, refl)

run-HeldInside_example : HeldInside pool_methods (
    run
      (guarded pool_methods)
      (refusal (guarded pool_methods) (frees 5000) allocates)
      (new (guarded pool_methods) ready))
run-HeldInside_example =
    run-HeldInside pool_methods ready (refusal (guarded pool_methods) (frees 5000) allocates)
