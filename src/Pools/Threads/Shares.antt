-- ===== src/Pools/Threads/Shares.antt =====
-- What holds of the pools that the threads of RunMultiThreadTest share, and of the test.
use memory_allocators.Base.{
  ℕ, ◌≡◌, ◌≢◌, ◌&&◌, ◌||◌, refl, sym, subst, ◌⊎◌, inl, inr, Bool, true, false, List, [], Ptr,
  Bool-cases,
}
use memory_allocators.Pool.Invariant.{Accounted}
use memory_allocators.Pools.{Pools}
use memory_allocators.Pools.Threads.{
  PoolProcess, pool_at, both, result, runs, broken, finished, is_over, is_undefined,
}
use memory_allocators.Sharing.{inside}
use memory_allocators.Sharing.PoolMethods.{Local, frees, pool_methods}
use memory_allocators.Sharing.PoolMethods.Histories.{Calls, in_turn-Accounted}
use memory_allocators.Sharing.Serial.{Serial-resting}
use memory_allocators.Sharing.Several.{
  ends, undefined, asks, calls, Stand, between, calling, System, view, Turn, run, start,
}
use memory_allocators.Sharing.Several.View.{view-Serial}
use memory_allocators.Sharing.Several.Stuck.{Needs, left, early_return_hangs}

module _ (pools : Pools) (first second : PoolProcess) where
  abbrev pub shared_start : System pool_methods
  shared_start = start pool_methods (pool_at pools) (both first second)

  -- Two threads that share the pools, each doing anything, in any order of their steps, from new locks
  -- on: a pool that holds its invariant at the start holds it wherever its lock is free, if the
  -- methods of this pool that have got its lock, in that order, give back only what it has lent; with the
  -- free and the lent chunks that these calls leave. What the threads do to the other pools is no
  -- matter.
  pub shared-Accounted :
      (i k : ℕ) (lent : List Ptr)
      → Accounted (pool_at pools i) k lent
      → (turns : List (Turn pool_methods)) (k' : ℕ) (lent' : List Ptr)
      → Calls (pool_at pools i) k lent ((run pool_methods turns shared_start).entered i) k' lent'
      → (run pool_methods turns shared_start).flag i ≡ false
      → Accounted ((run pool_methods turns shared_start).shared i) k' lent'
  shared-Accounted i k lent inv turns k' lent' history clear =
      let t = view pool_methods i (run pool_methods turns shared_start) in
      subst (λ u. Accounted u k' lent')
        (sym (
          Serial-resting pool_methods (pool_at pools i) t
            (view-Serial pool_methods (pool_at pools) (both first second) turns i) clear))
        (in_turn-Accounted history inv)

  Needs-not_over : (i : ℕ) (d : Stand pool_methods) → Needs pool_methods i d → is_over d ≡ false
  Needs-not_over i (between ends) n = absurd n
  Needs-not_over i (between undefined) n = refl
  Needs-not_over i (between (asks call rest)) n = refl
  Needs-not_over i (between (calls j method next)) n = refl
  Needs-not_over i (calling j method p next) n = refl

  unfinished :
      (s : System pool_methods) (passed : Bool)
      → is_over (s.stand 0) && is_over (s.stand 1) ≡ false
      → result s ≢ finished passed
  unfinished s passed over =
      elim (Bool-cases (is_undefined (s.stand 0) || is_undefined (s.stand 1))) [
        | inl d ↦ λ e. let r : result s ≡ broken = rw (over, d) refl in absurd (cc)
        | inr d ↦ λ e. let r : result s ≡ runs = rw (over, d) refl in absurd (cc)
      ]

  not_finished :
      (s : System pool_methods) (t : ℕ) (passed : Bool)
      → (t ≡ 0) ⊎ (t ≡ 1)
      → is_over (s.stand t) ≡ false
      → result s ≢ finished passed
  not_finished s t passed one_of over = elim (Bool-cases (is_over (s.stand 0))) [
    | inl d ↦ elim (Bool-cases (is_over (s.stand 1))) [
      | inl e ↦ absurd (elim one_of [ inl z ↦ cc | inr z ↦ cc ])
      | inr e ↦ unfinished s passed (rw (d, e) refl)
    ]
    | inr d ↦ unfinished s passed (rw d refl)
  ]

  -- A pool has refused an address, and in some later state the call of one of the two threads, now or next,
  -- is one of that pool: then the test never comes to its end, in whatever order the threads go on.
  -- Nothing is said of states without such a call.
  pub test_hangs :
      (before : List (Turn pool_methods)) (i k : ℕ) (p : Ptr) (l : Local)
      (next : Local → PoolProcess) (seen : Bool)
      → (run pool_methods before shared_start).stand k ≡ calling i (frees p) (inside l []) next
      → l.early ≡ true
      → (middle : List (Turn pool_methods)) (t : ℕ) → (t ≡ 0) ⊎ (t ≡ 1)
      → Needs pool_methods i (
          (run pool_methods middle
              (left pool_methods (pool_at pools) (both first second) before k seen)).stand
            t)
      → (after : List (Turn pool_methods)) (passed : Bool)
      → result (
          run pool_methods after (
            run pool_methods middle
              (left pool_methods (pool_at pools) (both first second) before k seen)))
        ≢ finished passed
  test_hangs before i k p l next seen here early middle t one_of needs after passed =
      let stuck =
        early_return_hangs pool_methods (pool_at pools) (both first second) before i k (frees p) l
          next seen here early middle t needs after in
      let s = run pool_methods after (
        run pool_methods middle
          (left pool_methods (pool_at pools) (both first second) before k seen)) in
      not_finished s t passed one_of (Needs-not_over i (s.stand t) stuck.1)
