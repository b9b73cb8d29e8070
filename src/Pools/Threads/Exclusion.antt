-- ===== src/Pools/Threads/Exclusion.antt =====
-- RunMultiThreadTest of src/PoolAllocatorTest.cpp with ENABLE_SPIN_LOCK: no chunk is with both threads,
-- and the test does not fail.
use memory_allocators.Base.{
  ℕ, zero, suc, ◌+◌, ◌*◌, ◌^◌, ◌/◌, ◌≤◌, ◌<◌, ◌≡◌, ◌⊎◌, inl, inr, refl, sym, subst, ap, ◌∙◌, arith,
  true, false, ◌&&◌, List, [], ◌∷◌, Ptr, ok, count, count_none, total, Bool-cases, length,
}
use native.Mathlib.Decide.{dec_lt}
use memory_allocators.Interface.{enable_spin_lock}
use memory_allocators.Pool.{PoolAllocator}
use memory_allocators.Pool.Invariant.{Accounted}
use memory_allocators.Pool.Giving.{lent_once}
use memory_allocators.Pools.{chunk_sizes, used_size_from}
use memory_allocators.Pools.Holdings.{lent_bounds}
use memory_allocators.Pools.Workload.Start.{Blocks, all_started}
use memory_allocators.Pools.Threads.{
  thread_func, both, pool_at, pools_from, is_over, is_undefined, result, runs, finished,
  run_multi_thread_test,
}
use memory_allocators.Pools.Threads.Entry.{Within}
use memory_allocators.Pools.Threads.Ownership.{Owns}
use memory_allocators.Pools.Threads.Orderly.{Stands, Orderly}
use memory_allocators.Pools.Threads.Start.{
  OutOf, state_after, objects, state-Orderly, run_multi_thread_test_lem,
}
use memory_allocators.Sharing.{in_turn}
use memory_allocators.Sharing.Serial.{Serial, is_inside, resting, working, Serial-resting}
use memory_allocators.Sharing.PoolMethods.{pool_methods}
use memory_allocators.Sharing.Several.{
  Stand, System, Turn, between, calling, ends, undefined, asks, calls, view, place_at,
}
use memory_allocators.Sharing.Several.View.{view-Serial}

-- Pools that count nothing as used
used_from_none :
    (sizes : List ℕ) (i : ℕ) (f : ℕ → PoolAllocator)
    → ((j : ℕ) → j < i + length sizes → (f j).used ≡ 0)
    → used_size_from 0 (pools_from sizes i f) ≡ 0
unfolding used_size_from
used_from_none [] i f h = refl
used_from_none (size ∷ sizes) i f h =
    rw (h i (omega arith)) (used_from_none sizes (suc i) f (λ j below. h j (omega (arith, below))))

over-nothing :
    (n threads : ℕ) (objects shared : ℕ → PoolAllocator) (d : Stand pool_methods) (held : List Ptr)
    → is_over d ≡ true
    → Stands n threads objects shared d held
    → held ≡ []
unfolding Owns
over-nothing n threads objects shared (between ends) held over o = o
over-nothing n threads objects shared (between undefined) held over o = absurd (cc)
over-nothing n threads objects shared (between (asks call rest)) held over o = absurd (cc)
over-nothing n threads objects shared (between (calls i call next)) held over o = absurd (cc)
over-nothing n threads objects shared (calling i call p next) held over o = absurd (cc)

not-undefined :
    (n threads : ℕ) (objects shared : ℕ → PoolAllocator) (d : Stand pool_methods) (held : List Ptr)
    → Stands n threads objects shared d held
    → is_undefined d ≡ false
unfolding Owns
not-undefined n threads objects shared (between ends) held o = refl
not-undefined n threads objects shared (between undefined) held o = absurd o
not-undefined n threads objects shared (between (asks call rest)) held o = refl
not-undefined n threads objects shared (between (calls i call next)) held o = refl
not-undefined n threads objects shared (calling i call p next) held o = refl

over-outside :
    (i : ℕ) (d : Stand pool_methods)
    → is_over d ≡ true
    → is_inside pool_methods (place_at pool_methods i d) ≡ false
over-outside i (between q) over = refl
over-outside i (calling j call p next) over = absurd (cc)

-- Where nobody is inside, the calls so far have happened, whether the lock is free or not.
quiet-done :
    (s₀ : PoolAllocator) (i : ℕ) (s : System pool_methods)
    → Serial pool_methods s₀ (view pool_methods i s)
    → ((t : ℕ) → is_inside pool_methods (place_at pool_methods i (s.stand t)) ≡ false)
    → s.shared i ≡ in_turn pool_methods (s.entered i) s₀
quiet-done s₀ i s (resting quiet done) out = done
quiet-done s₀ i s (working t l rest set here quiet left) out = absurd (let e = out t in cc)

module _ (rand : ℕ → ℕ → ℕ) (n : ℕ) (fresh array : ℕ → Ptr) (answer : ℕ → ℕ → Ptr)
    (few : n < 2 ^ 63) (b : Blocks n fresh array 0 chunk_sizes)
    (out : (t k : ℕ) → OutOf (answer t k) (all_started n fresh array 0 chunk_sizes))
    (turns : List (Turn pool_methods)) where
  abbrev state : System pool_methods
  state = state_after n fresh array rand answer turns

  abbrev at_start : ℕ → PoolAllocator
  at_start = pool_at (all_started n fresh array 0 chunk_sizes)

  orderly : Orderly 9 2 at_start state
  orderly = state-Orderly n fresh array rand answer few b out turns

  serial : (i : ℕ) → Serial pool_methods (at_start i) (view pool_methods i state)
  serial i =
      view-Serial pool_methods at_start
        (both (thread_func (rand 0) (answer 0) chunk_sizes (n / 2))
          (thread_func (rand 1) (answer 1) chunk_sizes (n / 2)))
        turns i

  together :
      (i : ℕ) (below : i < 9) (p : Ptr)
      → Within (at_start i) p
      → count p (orderly.held 0) + count p (orderly.held 1) ≡ count p (orderly.kept i below).lent
  unfolding total
  together i below p within = omega (arith, (orderly.kept i below).covered p within)

  -- In a release build with `ENABLE_SPIN_LOCK`, for any number of rounds below 2 ^ 63 (the source has
  -- 1000), any answers of `rand`, blocks for the pools from `malloc` with at least a byte between any
  -- two, and answers of `malloc` in place of chunks that lie neither in these blocks nor at their
  -- ends, after any steps of the two threads in any order: each thread holds some addresses and goes on
  -- in order from there, so it gives back only what it holds and ends with nothing; no address of a
  -- pool is held twice, be it by one thread or by both; and a pool whose lock is free holds its
  -- invariant, with what the threads hold of it lent.
  pub never_shared :
      (held : ℕ → List Ptr) × ((t : ℕ) → Stands 9 2 at_start state.shared (state.stand t) (held t))
      × ((i : ℕ)
          → i < 9
          → (p : Ptr) → Within (at_start i) p
          → count p (held 0) + count p (held 1) ≤ 1)
      × ((i : ℕ)
          → i < 9
          → state.flag i ≡ false
          → (k : ℕ) × (lent : List Ptr) × Accounted (state.shared i) k lent
            × ((p : Ptr)
                → Within (at_start i) p
                → count p (held 0) + count p (held 1) ≡ count p lent))
  never_shared = (
    orderly.held,
    orderly.stands,
    λ i below p within.
        let k = orderly.kept i below in
        omega (
          arith,
          together i below p within,
          lent_once (in_turn pool_methods (state.entered i) (at_start i)) k.left k.lent p
              k.accounted,
        ),
    λ i below clear.
        let k = orderly.kept i below in
        let done =
          Serial-resting pool_methods (at_start i) (view pool_methods i state) (serial i) clear in
        (
          k.left,
          k.lent,
          subst (λ u. Accounted u k.left k.lent) (sym done) k.accounted,
          together i below,
        ),
  )

  module _ (first : is_over (state.stand 0) ≡ true) (second : is_over (state.stand 1) ≡ true) where
    all_outside :
        (i t : ℕ) → is_inside pool_methods (place_at pool_methods i (state.stand t)) ≡ false
    all_outside i zero = over-outside i (state.stand 0) first
    all_outside i (suc zero) = over-outside i (state.stand 1) second
    all_outside i (suc (suc t)) =
        ap (λ d. is_inside pool_methods (place_at pool_methods i d))
          (orderly.no_more (suc (suc t)) (omega arith))

    unused : (i : ℕ) → i < 9 → (state.shared i).used ≡ 0
    unused i below =
        let k = orderly.kept i below in
        let pool = in_turn pool_methods (state.entered i) (at_start i) in
        let none = λ (t : ℕ) (over : is_over (state.stand t) ≡ true).
          over-nothing 9 2 at_start state.shared (state.stand t) (orderly.held t) over
            (orderly.stands t) in
        let empty : k.lent ≡ [] = count_none k.lent (λ p. elim (dec_lt 0 (count p k.lent)) [
          | yes lent ↦
              let within = lent_bounds pool k.left k.lent p k.accounted lent in
              let counts = together i below p (
                omega (arith, within, k.same_start),
                omega (arith, within, k.same_start, k.same_size),
              ) in
              omega (arith, counts, ap (count p) (none 0 first), ap (count p) (none 1 second))
          | no none_lent ↦ omega arith
        ]) in
        let done = quiet-done (at_start i) i state (serial i) (all_outside i) in
        ap (λ u. u.used) done
        ∙ k.accounted.used_lent
        ∙ ap (λ l. length l * pool.chunk_size) empty
        ∙ omega arith

    passes : result state ≡ finished true
    passes = rw (first, second, used_from_none chunk_sizes 0 state.shared unused) refl

  still_runs : is_over (state.stand 0) && is_over (state.stand 1) ≡ false → result state ≡ runs
  still_runs over =
      let defined = λ (t : ℕ).
        not-undefined 9 2 at_start state.shared (state.stand t) (orderly.held t)
          (orderly.stands t) in
      rw (over, defined 0, defined 1) refl

  result_cases : (result state ≡ runs) ⊎ (result state ≡ finished true)
  result_cases = elim (Bool-cases (is_over (state.stand 0))) [
    | inl first ↦ elim (Bool-cases (is_over (state.stand 1))) [
      | inl second ↦ inr (passes first second)
      | inr second ↦ inl (still_runs (rw (first, second) refl))
    ]
    | inr first ↦ inl (still_runs (rw first refl))
  ]

  pub never_fails :
      (run_multi_thread_test enable_spin_lock n fresh array rand answer turns ≡ ok runs)
      ⊎ (run_multi_thread_test enable_spin_lock n fresh array rand answer turns
          ≡ ok (finished true))
  never_fails =
      let lem = run_multi_thread_test_lem n fresh array rand answer turns few b in
      elim result_cases [ inl e ↦ inl (lem ∙ ap ok e) | inr e ↦ inr (lem ∙ ap ok e) ]
