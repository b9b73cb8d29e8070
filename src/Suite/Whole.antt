-- ===== src/Suite/Whole.antt =====
-- The whole program: every registered test runs once, in whatever order the registrations were made,
-- and all pass.
use memory_allocators.Base.{ℕ, ◌<◌, ◌≡◌, ◌↔◌, ap, List, [], ◌++◌, ok}
use memory_allocators.Registry.{TestResult, duration_of, emplace_all}
use memory_allocators.Registry.Order.{Rises, first_of, emplace_all-Rises}
use memory_allocators.Registry.Sets.{occurs, emplace_all_order, emplace_all-occurs}
use memory_allocators.Report.{print_results}
use memory_allocators.Suite.{Test, World, run, main}
use memory_allocators.Suite.Passes.{Ready, passing_output, passing_results, run-passing}

module _ (w : World) (address : Test → ℕ) where
  -- Where the functions of the tests have different addresses: in whatever order, and how often, the static
  -- objects of the files register their tests, the program does and prints the same, whether the tests
  -- pass or not.
  pub main-registrations :
      ((s t : Test) → address s ≡ address t → s ≡ t)
      → (first second : List Test)
      → ((k : ℕ) → (0 < occurs address k first) ↔ (0 < occurs address k second))
      → main w address first ≡ main w address second
  unfolding main
  main-registrations distinct first second h =
      ap (run w) (emplace_all_order address distinct first second h)

  -- Where the tests get what they rely on (`Ready`) and each is registered, in whatever order: the program
  -- runs each of them once, by rising addresses, to its end; each passes; and behind their output
  -- it prints a table of their results, by rising duration, with the first one of each duration.
  pub main_passes :
      Ready w
      → (registrations : List Test) → ((t : Test) → 0 < occurs address (address t) registrations)
      → (tests : List Test) × (table : List TestResult) × (main w address registrations
          ≡ ok (passing_output w tests ++ print_results table))
        × ((t : Test) → occurs address (address t) tests ≡ 1)
        × Rises address tests
        × Rises duration_of table
        × ((k : ℕ)
            → first_of duration_of k table ≡ first_of duration_of k (passing_results w tests))
  unfolding main
  main_passes ready registrations all =
      let tests = emplace_all address registrations [] in
      let table = emplace_all duration_of (passing_results w tests) [] in
      (
        tests,
        table,
        run-passing w ready tests,
        λ t. emplace_all-occurs address (address t) registrations (all t),
        (emplace_all-Rises address registrations 0).0,
        (emplace_all-Rises duration_of (passing_results w tests) 0).0,
        λ k. (emplace_all-Rises duration_of (passing_results w tests) k).1,
      )
