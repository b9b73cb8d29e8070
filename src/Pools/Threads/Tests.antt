-- ===== src/Pools/Threads/Tests.antt =====
-- Two threads that share two pools of two chunks of 64 and 128 bytes, and the theorems there.
use memory_allocators.Base.{
  ℕ, zero, suc, ◌+◌, ◌*◌, ◌≡◌, ◌≢◌, refl, inl, arith, true, false, List, [], ◌∷◌, ◌++◌, Ptr, update,
  ok,
}
use memory_allocators.Interface.{ThreadPolicy}
use memory_allocators.Workload.{random_size, random_index}
use memory_allocators.Pool.{fill}
use memory_allocators.Pool.Invariant.{Accounted}
use memory_allocators.Pools.{Pools}
use memory_allocators.Pools.Workload.Start.{all_started, init-Holds}
use memory_allocators.Pools.Threads.{
  PoolProcess, allocate_from, free_from, free_element, returns, requests, thread_func, pool_at,
  both, result, finished, skipped, run_multi_thread_test,
}
use memory_allocators.Pools.Threads.Shares.{shared_start, test_hangs}
use memory_allocators.Sharing.{Place, at_load, inside, outside}
use memory_allocators.Sharing.PoolMethods.{Local, nothing_read, frees, pool_methods}
use memory_allocators.Sharing.PoolMethods.Histories.{Calls, stops, takes}
use memory_allocators.Sharing.Several.{Stand, between, calling, System, view, Turn, step, run, ends}
use memory_allocators.Sharing.Serial.{Serial}
use memory_allocators.Sharing.Several.View.{view-Serial}
use memory_allocators.Sharing.Several.Stuck.{left}

abbrev fresh : ℕ → Ptr
fresh i = 65536 + i * 65536

abbrev array : ℕ → Ptr
array i = 4096 + i * 256

abbrev sizes : List ℕ
sizes = 64 ∷ 128 ∷ []

abbrev ready : Pools
ready = all_started 2 fresh array 0 sizes

-- Each thread requests 100 bytes twice, from the second pool, and gives them back.
abbrev worker : PoolProcess
worker = thread_func (λ k. 99) (λ k. 16) sizes 2

abbrev steps : ℕ → ℕ → List (Turn pool_methods)
steps zero i = []
steps (suc n) i = record { thread = i; seen = false } ∷ steps n i

-- Two requests, 10 steps each, and the first pool's refusal up to its last step
abbrev before : List (Turn pool_methods)
before = steps 29 0

abbrev place_of : Stand pool_methods → Place pool_methods
place_of (between q) = outside
place_of (calling j method p next) = p

abbrev next_of : Stand pool_methods → Local → PoolProcess
next_of (between q) l = ends
next_of (calling j method p next) l = next l

abbrev state : System pool_methods
state = run pool_methods before (shared_start ready worker worker)

refused :
    state.stand 0
    ≡ calling 0
        (frees 131200)
        (inside (record nothing_read { early = true }) [])
        (next_of (state.stand 0))
unfolding run step returns requests allocate_from free_from free_element random_size random_index
    fill update
refused = refl

-- The thread gives its chunk to the second pool, 10 steps, and begins with its other one.
abbrev middle : List (Turn pool_methods)
middle = steps 11 0

abbrev later : List (Turn pool_methods) → System pool_methods
later turns = run pool_methods turns (
    run pool_methods middle (left pool_methods (pool_at ready) (both worker worker) before 0 false))

begins : place_of ((later []).stand 0) ≡ at_load (frees 131072) 10
unfolding run step returns requests allocate_from free_from free_element random_size random_index
    fill update
begins = refl

test_hangs_example : result (later (steps 500 1)) ≢ finished true
unfolding run step returns requests allocate_from free_from free_element random_size random_index
    fill update
test_hangs_example =
    test_hangs ready worker worker before 0 0 131200 (record nothing_read { early = true })
      (next_of (state.stand 0)) false refused refl middle 0 (inl refl) (refl, refl) (steps 500 1)
      true

-- Thread 1 comes while thread 0 is inside the second pool, and waits.
abbrev two_at_once : List (Turn pool_methods)
two_at_once = steps 5 0 ++ steps 20 1 ++ steps 15 0

abbrev met : System pool_methods
met = run pool_methods two_at_once (shared_start ready worker worker)

met-clear : met.flag 1 ≡ false
unfolding run step returns requests allocate_from free_from free_element random_size random_index
    fill update
met-clear = refl

second-Accounted : Accounted (pool_at ready 1) 2 []
second-Accounted = (init-Holds 2 fresh array (omega arith) 0 sizes (omega arith)).1.1.0

met-Calls : Calls (pool_at ready 1) 2 [] (met.entered 1) 0 (131072 ∷ 131200 ∷ [])
unfolding run step returns requests allocate_from free_from free_element random_size random_index
    fill update
met-Calls = takes (takes stops)

-- With the policy of the repository's constant the test does nothing.
skips :
    run_multi_thread_test ThreadPolicy.none 1000 fresh array (λ i k. 0) (λ i k. 16) [] ≡ ok skipped
unfolding run_multi_thread_test
skips = refl

view-Serial_example : Serial pool_methods (pool_at ready 1) (view pool_methods 1 met)
view-Serial_example = view-Serial pool_methods (pool_at ready) (both worker worker) two_at_once 1
