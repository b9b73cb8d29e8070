-- ===== src/Spinlock/Tests.antt =====
-- Two threads at the Spinlock, and the theorems there.
use memory_allocators.Base.{update, ◌≡◌, refl, true, false, List, [], ◌∷◌}
use memory_allocators.Spinlock.{
  outside, at_load, inside, Spinlock, spinlock, Turn, step, retry, run,
}
use memory_allocators.Spinlock.Entry.{alone, run_enters}

-- Both threads see a clear flag; the exchange lets thread 1 in only.
abbrev race : List Turn
race =
    record { thread = 0; seen = false }
    ∷ record { thread = 1; seen = false }
    ∷ record { thread = 0; seen = false }
    ∷ record { thread = 1; seen = false }
    ∷ record { thread = 1; seen = false }
    ∷ record { thread = 0; seen = false }
    ∷ record { thread = 0; seen = false }
    ∷ []

race_end : ((run race spinlock).phase 0 ≡ at_load 9) × ((run race spinlock).phase 1 ≡ inside)
unfolding run step retry update
race_end = (refl, refl)

abbrev held : Spinlock
held = record { flag = true; phase = λ _. outside }

run_enters_example :
    (((run (alone 0 (true ∷ false ∷ true ∷ [])) spinlock).flag ≡ true)
      × ((run (alone 0 (true ∷ false ∷ true ∷ [])) spinlock).phase 0 ≡ inside))
    × (((run (alone 0 (true ∷ false ∷ true ∷ true ∷ [])) spinlock).flag ≡ false)
        × ((run (alone 0 (true ∷ false ∷ true ∷ true ∷ [])) spinlock).phase 0 ≡ outside))
run_enters_example = run_enters 0 true true spinlock refl refl
