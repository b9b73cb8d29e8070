-- ===== src/Pools/Threads/Start.antt =====
-- The start of RunMultiThreadTest of src/PoolAllocatorTest.cpp with ENABLE_SPIN_LOCK, which is in order.
use memory_allocators.Base.{
  ℕ, zero, suc, ◌+◌, ◌/◌, ◌^◌, ◌≤◌, ◌<◌, ◌≡◌, ◌≢◌, ◌⊎◌, refl, ap, arith, List, [], ◌∷◌, Ptr, null,
  length, ok, count, total_zero, ◌==◌, ==_false,
}
use memory_allocators.Interface.{enable_spin_lock}
use memory_allocators.Pool
use memory_allocators.Pool.{PoolAllocator, reset}
use memory_allocators.Pool.Chunks.{or-true, down_int64}
use memory_allocators.Pool.Invariant.{Accounted}
use memory_allocators.Pools.{Pools, chunk_sizes, init}
use memory_allocators.Pools.Holdings.{Holds, SeparateFrom, Apart}
use memory_allocators.Pools.Workload.Start.{
  Blocks, all_made, all_started, all_free, construct_lem, init-Holds, Apart-started,
}
use memory_allocators.Pools.Threads.{
  PoolProcess, thread_func, pool_at, both, result, run_threads, run_multi_thread_test,
}
use memory_allocators.Pools.Threads.Ownership.{Owns, thread_func-Owns}
use memory_allocators.Pools.Threads.Entry.{Within}
use memory_allocators.Pools.Threads.Orderly.{Takes, Orderly}
use memory_allocators.Pools.Threads.Shares.{shared_start}
use memory_allocators.Pools.Threads.Steps.{run-Orderly}
use memory_allocators.Sharing.{in_turn}
use memory_allocators.Sharing.Serial.{resting}
use memory_allocators.Sharing.PoolMethods.{pool_methods}
use memory_allocators.Sharing.Several.{Stand, ends, between, System, Turn, run, start}

-- No pool would take the address.
abbrev pub OutOf : Ptr → Pools → Type 0
OutOf p [] = Unit {0}
OutOf p (a ∷ pools) = ((p < a.start_ptr) ⊎ (a.start_ptr + a.total_size < p)) × OutOf p pools

pub OutOf-Within :
    (p : Ptr) (pools : Pools) (i : ℕ)
    → OutOf p pools
    → i < length pools
    → ¬ (Within (pool_at pools i) p)
OutOf-Within p [] i out below within = absurd (omega arith)
OutOf-Within p (a ∷ pools) zero out below within = ground (arith, out.0, within)
OutOf-Within p (a ∷ pools) (suc i) out below within =
    OutOf-Within p pools i out.1 (omega arith) within

SeparateFrom-Within :
    (a : PoolAllocator) (pools : Pools) (i : ℕ) (p : Ptr)
    → SeparateFrom a pools
    → i < length pools
    → Within a p
    → ¬ (Within (pool_at pools i) p)
SeparateFrom-Within a [] i p s below mine within = absurd (omega arith)
SeparateFrom-Within a (b ∷ pools) zero p s below mine within = ground (arith, s.0, mine, within)
SeparateFrom-Within a (b ∷ pools) (suc i) p s below mine within =
    SeparateFrom-Within a pools i p s.1 (omega arith) mine within

Apart-Within :
    (pools : Pools) (i j : ℕ) (p : Ptr)
    → Apart pools
    → i < length pools
    → j < length pools
    → i ≢ j
    → Within (pool_at pools i) p
    → ¬ (Within (pool_at pools j) p)
Apart-Within [] i j p s i_below j_below other mine within = absurd (omega arith)
Apart-Within (a ∷ pools) zero zero p s i_below j_below other mine within = other refl
Apart-Within (a ∷ pools) zero (suc j) p s i_below j_below other mine within =
    SeparateFrom-Within a pools j p s.0 (omega arith) mine within
Apart-Within (a ∷ pools) (suc i) zero p s i_below j_below other mine within =
    SeparateFrom-Within a pools i p s.0 (omega arith) within mine
Apart-Within (a ∷ pools) (suc i) (suc j) p s i_below j_below other mine within =
    Apart-Within pools i j p s.1 (omega arith) (omega arith) (λ e. other (ap suc e)) mine within

module _ (n : ℕ) (fresh array : ℕ → Ptr) where
  length-started :
      (i : ℕ) (sizes : List ℕ) → length (all_started n fresh array i sizes) ≡ length sizes
  length-started i [] = refl
  length-started i (size ∷ sizes) = ap suc (length-started (suc i) sizes)

  pool_at-Accounted :
      (i : ℕ) (sizes : List ℕ) (j : ℕ)
      → Holds (all_started n fresh array i sizes) (all_free n fresh array sizes)
      → j < length sizes
      → Accounted (pool_at (all_started n fresh array i sizes) j) n []
  pool_at-Accounted i [] j h below = absurd (omega arith)
  pool_at-Accounted i (size ∷ sizes) zero h below = h.0
  pool_at-Accounted i (size ∷ sizes) (suc j) h below =
      pool_at-Accounted (suc i) sizes j h.1 (omega arith)

  init_locked :
      (i : ℕ) (sizes : List ℕ)
      → n < 2 ^ 63
      → Blocks n fresh array i sizes
      → init enable_spin_lock fresh array i (all_made n fresh array sizes)
        ≡ ok (all_started n fresh array i sizes)
  unfolding init Pool.init reset
  init_locked i [] few b = refl
  init_locked i (size ∷ sizes) few b =
      rw
        (
          ==_false (array i) null b.2,
          down_int64 n few,
          or-true (n == 0),
          init_locked (suc i) sizes few b.5,
        )
        refl

  -- The state of the test after some steps of the two threads
  abbrev pub state_after :
      (ℕ → ℕ → ℕ) → (ℕ → ℕ → Ptr) → List (Turn pool_methods) → System pool_methods
  state_after rand answer turns = run pool_methods turns (
      shared_start (all_started n fresh array 0 chunk_sizes)
        (thread_func (rand 0) (answer 0) chunk_sizes (n / 2))
        (thread_func (rand 1) (answer 1) chunk_sizes (n / 2)))

  pub run_multi_thread_test_lem :
      (rand : ℕ → ℕ → ℕ) (answer : ℕ → ℕ → Ptr) (turns : List (Turn pool_methods))
      → n < 2 ^ 63
      → Blocks n fresh array 0 chunk_sizes
      → run_multi_thread_test enable_spin_lock n fresh array rand answer turns
        ≡ ok (result (state_after rand answer turns))
  unfolding run_multi_thread_test run_threads
  run_multi_thread_test_lem rand answer turns few b =
      rw (construct_lem n fresh array chunk_sizes, init_locked 0 chunk_sizes few b) refl

  module _ (rand : ℕ → ℕ → ℕ) (answer : ℕ → ℕ → Ptr) (few : n < 2 ^ 63)
      (b : Blocks n fresh array 0 chunk_sizes)
      (out : (t k : ℕ) → OutOf (answer t k) (all_started n fresh array 0 chunk_sizes)) where
    abbrev pools : Pools
    pools = all_started n fresh array 0 chunk_sizes

    abbrev pub objects : ℕ → PoolAllocator
    objects = pool_at pools

    starts-Accounted : (i : ℕ) → i < 9 → Accounted (objects i) n []
    starts-Accounted i below =
        pool_at-Accounted 0 chunk_sizes i (init-Holds n fresh array few 0 chunk_sizes b).1 below

    thread-Owns :
        (t : ℕ)
        → Owns (Takes 9 2 objects) 9 (thread_func (rand t) (answer t) chunk_sizes (n / 2)) []
    thread-Owns t =
        thread_func-Owns (Takes 9 2 objects) (rand t) (answer t) chunk_sizes
          (λ k i below. OutOf-Within (answer t k) pools i (out t k) below) (n / 2)

    threads_start : ℕ → PoolProcess
    threads_start =
        both (thread_func (rand 0) (answer 0) chunk_sizes (n / 2))
          (thread_func (rand 1) (answer 1) chunk_sizes (n / 2))

    all-Own : (t : ℕ) → Owns (Takes 9 2 objects) 9 (threads_start t) []
    unfolding Owns threads_start
    all-Own zero = thread-Owns 0
    all-Own (suc zero) = thread-Owns 1
    all-Own (suc (suc t)) = refl

    no_others :
        (t : ℕ) → 2 ≤ t → ◌≡◌ {A = Stand pool_methods} (between (threads_start t)) (between ends)
    unfolding threads_start
    no_others zero h = absurd (omega arith)
    no_others (suc zero) h = absurd (omega arith)
    no_others (suc (suc t)) h = refl

    start-Orderly : Orderly 9 2 objects (start pool_methods objects threads_start)
    unfolding in_turn
    start-Orderly = record {
      held = λ t. [];
      stands = all-Own;
      kept = λ i below. record {
        left = n;
        lent = [];
        accounted = starts-Accounted i below;
        same_start = refl;
        same_size = refl;
        covered = λ p within. total_zero (count p) 2 (λ t. []) (λ t h. refl);
      };
      no_more = no_others;
    }

    pub state-Orderly :
        (turns : List (Turn pool_methods)) → Orderly 9 2 objects (state_after rand answer turns)
    unfolding in_turn threads_start
    state-Orderly turns =
        run-Orderly 9 2 objects
          (λ i j p i_below j_below.
            Apart-Within pools i j p (Apart-started n fresh array 0 chunk_sizes b) i_below j_below)
          turns (start pool_methods objects threads_start) (λ i. resting (λ j. refl) refl)
          start-Orderly
