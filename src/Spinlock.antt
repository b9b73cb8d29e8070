-- ===== src/Spinlock.antt =====
-- Spinlock of src/AllocatorInterface.h, for threads that each call lock and unlock again and again.
-- A step is one atomic operation of one thread, or its turn at the counter.
pub mod Exclusion
pub mod Entry
mod Tests
use memory_allocators.Base.{ℕ, Bool, true, false, List, [], ◌∷◌, sub64, ◌==◌, if◌then◌else◌, update}

-- counterToYield at the start, and behind a yield
abbrev pub counter_start : ℕ
counter_start = 10

-- Where a thread stands, with its counterToYield: outside, before the load, before the exchange,
-- before the decrement, or behind `lock`.
pub data Phase : Type 0 where
  outside : Phase
  at_load at_exchange at_decrement : ℕ → Phase
  inside : Phase

-- `if (--counterToYield == 0) counterToYield = 10`
unfoldable pub retry : ℕ → ℕ
retry counter = let counter = sub64 counter 1 in if counter == 0 then counter_start else counter

-- The next operation of a thread: `lock` from its start, the two tests of the loop, the decrement,
-- and `unlock`. A relaxed load may answer an older value, `seen`; an exchange reads the flag itself.
abbrev pub act : Bool → Bool → Phase → Bool × Phase
act seen flag outside = (flag, at_load counter_start)
act true flag (at_load counter) = (flag, at_decrement counter)
act false flag (at_load counter) = (flag, at_exchange counter)
act seen true (at_exchange counter) = (true, at_decrement counter)
act seen false (at_exchange counter) = (true, inside)
act seen flag (at_decrement counter) = (flag, at_load (retry counter))
act seen flag inside = (false, outside)

pub record Spinlock : Type 0 where
  pub flag : Bool
  pub phase : ℕ → Phase

abbrev pub spinlock : Spinlock
spinlock = record { flag = false; phase = λ _. outside }

-- The next operation of thread `i`
unfoldable pub step : ℕ → Bool → Spinlock → Spinlock
step i seen s =
    let result = act seen s.flag (s.phase i) in
    record { flag = result.0; phase = update s.phase i result.1 }

-- A thread, and what a load of it answers
pub record Turn : Type 0 where
  pub thread : ℕ
  pub seen : Bool

unfoldable pub run : List Turn → Spinlock → Spinlock
run [] s = s
run (t ∷ ts) s = run ts (step t.thread t.seen s)
