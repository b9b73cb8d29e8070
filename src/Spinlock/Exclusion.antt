-- ===== src/Spinlock/Exclusion.antt =====
-- No two threads are behind `lock` of Spinlock at once, for any order of their operations.
use memory_allocators.Base.{
  ℕ, ◌+◌, ◌≤◌, ◌<◌, ◌≡◌, refl, arith, Bool, true, false, List, [], ◌∷◌, total, total-update,
  le-total, pair-le-total, total_zero, update_self, update_ne,
}
use native.Mathlib.Decide.{ℕ_discrete}
use memory_allocators.Spinlock.{
  Phase, outside, at_load, at_exchange, at_decrement, inside, retry, counter_start, act, Spinlock,
  spinlock, step, Turn, run,
}

abbrev pub within : Phase → ℕ
within inside = 1
within _ = 0

abbrev pub as_number : Bool → ℕ
as_number true = 1
as_number false = 0

abbrev pub AllBelow : ℕ → List Turn → Type 0
AllBelow n [] = Unit {0}
AllBelow n (t ∷ ts) = (t.thread < n) × AllBelow n ts

-- The flag is set just while one of the `n` threads is inside.
abbrev pub Guards : ℕ → Spinlock → Type 0
Guards n s = total within n s.phase ≡ as_number s.flag

act-balance :
    (seen flag : Bool) (p : Phase)
    → within p ≤ as_number flag
    → as_number (act seen flag p).0 + within p ≡ as_number flag + within (act seen flag p).1
act-balance seen flag outside h = refl
act-balance true flag (at_load c) h = refl
act-balance false flag (at_load c) h = refl
act-balance seen true (at_exchange c) h = refl
act-balance seen false (at_exchange c) h = refl
act-balance seen flag (at_decrement c) h = refl
act-balance seen true inside h = refl
act-balance seen false inside h = absurd (omega arith)

step-Guards : (n i : ℕ) (seen : Bool) (s : Spinlock) → i < n → Guards n s → Guards n (step i seen s)
unfolding step
step-Guards n i seen s l g =
    let p = (act seen s.flag (s.phase i)).1 in
    omega (
      arith,
      g,
      total-update within n s.phase i p l,
      act-balance seen s.flag (s.phase i) (omega (arith, g, le-total within n s.phase i l)),
    )

run_from-Guards :
    (n : ℕ) (ts : List Turn) (s : Spinlock) → AllBelow n ts → Guards n s → Guards n (run ts s)
unfolding run
run_from-Guards n [] s b g = g
run_from-Guards n (t ∷ ts) s b g =
    run_from-Guards n ts (step t.thread t.seen s) b.1 (step-Guards n t.thread t.seen s b.0 g)

-- For any number of threads and any order of their operations, from a new lock on, with loads that
-- may answer anything: the flag is set just while one thread is behind `lock`, and two never are.
pub run-Guards :
    (n : ℕ) (ts : List Turn) (i j : ℕ)
    → AllBelow n ts
    → i < j
    → j < n
    → Guards n (run ts spinlock)
      × (within ((run ts spinlock).phase i) + within ((run ts spinlock).phase j) ≤ 1)
run-Guards n ts i j b l h =
    let g = run_from-Guards n ts spinlock b (total_zero within n (λ _. outside) (λ i l. refl)) in
    (g, ground (arith, g, pair-le-total within n (run ts spinlock).phase i j l h))

-- The counter of a thread that waits
abbrev pub InRange : Phase → Type 0
InRange (at_load c) = (0 < c) × (c ≤ counter_start)
InRange (at_exchange c) = (0 < c) × (c ≤ counter_start)
InRange (at_decrement c) = (0 < c) × (c ≤ counter_start)
InRange _ = Unit {0}

retry_bounds : (c : ℕ) → 0 < c → c ≤ counter_start → (0 < retry c) × (retry c ≤ counter_start)
unfolding retry
retry_bounds c h l = ground arith

act-InRange : (seen flag : Bool) (p : Phase) → InRange p → InRange (act seen flag p).1
act-InRange seen flag outside h = omega arith
act-InRange true flag (at_load c) h = h
act-InRange false flag (at_load c) h = h
act-InRange seen true (at_exchange c) h = h
act-InRange seen false (at_exchange c) h = tt
act-InRange seen flag (at_decrement c) h = retry_bounds c h.0 h.1
act-InRange seen flag inside h = tt

step-InRange :
    (i : ℕ) (seen : Bool) (s : Spinlock)
    → ((j : ℕ) → InRange (s.phase j))
    → (j : ℕ) → InRange ((step i seen s).phase j)
unfolding step
step-InRange i seen s h j =
    let p = (act seen s.flag (s.phase i)).1 in
    elim (ℕ_discrete j i) [
      | yes e ↦ rw (e, update_self s.phase i p) (act-InRange seen s.flag (s.phase i) (h i))
      | no e ↦ rw (update_ne s.phase i p j e) (h j)
    ]

run_from-InRange :
    (ts : List Turn) (s : Spinlock)
    → ((j : ℕ) → InRange (s.phase j))
    → (j : ℕ) → InRange ((run ts s).phase j)
unfolding run
run_from-InRange [] s h = h
run_from-InRange (t ∷ ts) s h =
    run_from-InRange ts (step t.thread t.seen s) (step-InRange t.thread t.seen s h)

-- The counter of every thread stays between 1 and 10: the decrement never wraps around.
pub run-InRange : (ts : List Turn) (j : ℕ) → InRange ((run ts spinlock).phase j)
run-InRange ts j = run_from-InRange ts spinlock (λ i. tt) j
