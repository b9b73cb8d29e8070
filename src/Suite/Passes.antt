-- ===== src/Suite/Passes.antt =====
-- The six tests of the program, one by one: each runs to its end and passes.
use memory_allocators.Base.{◌+◌, ◌*◌, ◌^◌, ◌<◌, ◌≡◌, refl, arith, true, List, [], ◌∷◌, ◌++◌, ok}
use memory_allocators.FreeList.Table.{max_free_mem_blocks}
use memory_allocators.FreeList.Workload.Returns.{bytes_taken, run_test_passes}
use memory_allocators.Linear.Workload.{linear_test_passes}
use memory_allocators.MallocTest.{malloc_test_frees}
use memory_allocators.Pools.{chunk_sizes}
use memory_allocators.Pools.Threads.{run_multi_thread_test, calls_of_threads}
use memory_allocators.Pools.Workload.Start.{Blocks, pools_test_passes}
use memory_allocators.Stack.Workload.{stack_test_passes}
use memory_allocators.Workload.{max_chunk_size}
use memory_allocators.Registry.{TestResult, duration_of, emplace_all}
use memory_allocators.Registry.Order.{emplace_all-append}
use memory_allocators.Report.{Output, Report, silent, say, print_results}
use memory_allocators.Suite.{
  Test, free_list, linear, malloc, pool, pool_multi, stack, World, free_list_report, linear_report,
  malloc_report, pool_report, stack_report, run_test, run_tests, run,
}

-- What the tests rely on: 2 to 2042 rounds (the source has 1000), a block from `malloc` for the free list,
-- one for the stack, and blocks with a byte between any two for the pools; and requests that leave
-- a byte of the free list's memory.
pub record Ready (w : World) : Type 0 where
  pub some_rounds : 1 < w.rounds
  pub few_rounds : w.rounds + 2 < max_free_mem_blocks
  pub list_held : 0 < w.list_block
  pub list_fits : w.list_block + w.rounds * max_chunk_size < 2 ^ 64
  pub list_room : bytes_taken (w.rand free_list) w.rounds < w.rounds * max_chunk_size
  pub stack_held : 0 < w.stack_block
  pub stack_fits : w.stack_block + w.rounds * max_chunk_size < 2 ^ 64
  pub pools_held : Blocks w.rounds w.pool_blocks w.pool_arrays 0 chunk_sizes

module _ (w : World) where
  -- What a test prints and reports when it passes. RunMultiThreadTest does nothing.
  abbrev pub passing : Test → Report
  passing free_list = free_list_report w (true, true)
  passing linear = linear_report w true
  passing malloc = malloc_report w
  passing pool = pool_report w (true, [])
  passing pool_multi = silent
  passing stack = stack_report w true

  pub run_test-passing : Ready w → (test : Test) → run_test w test ≡ ok (passing test)
  unfolding run_test run_multi_thread_test calls_of_threads max_free_mem_blocks
  run_test-passing r free_list =
      rw
        (run_test_passes (w.rand free_list) w.rounds w.list_block w.list_memory r.few_rounds
          r.list_held r.list_fits r.list_room)
        refl
  run_test-passing r linear = rw (linear_test_passes (w.rand linear) w.rounds) refl
  run_test-passing r malloc =
      let (h, e, none) = malloc_test_frees (w.rand malloc) w.rounds w.malloc_answer in rw e refl
  run_test-passing r pool =
      rw
        (pools_test_passes (w.rand pool) w.rounds w.pool_blocks w.pool_arrays w.pool_answer
          (omega (arith, r.few_rounds)) r.pools_held)
        refl
  run_test-passing r pool_multi = refl
  run_test-passing r stack =
      rw
        (stack_test_passes (w.rand stack) w.rounds w.stack_block r.some_rounds
          (omega (arith, r.few_rounds)) r.stack_held r.stack_fits)
        refl

  -- What Test::Run prints in front of the table, and the results in the order of the tests
  abbrev pub passing_output : List Test → Output
  passing_output [] = []
  passing_output (test ∷ tests) = (passing test).output ++ (say "\n" ++ passing_output tests)

  abbrev pub passing_results : List Test → List TestResult
  passing_results [] = []
  passing_results (test ∷ tests) = (passing test).results ++ passing_results tests

  run_tests-passing :
      Ready w
      → (tests : List Test) (results : List TestResult)
      → run_tests w tests results
        ≡ ok (passing_output tests, emplace_all duration_of (passing_results tests) results)
  unfolding run_tests emplace_all
  run_tests-passing r [] results = refl
  run_tests-passing r (test ∷ tests) results =
      rw
        (
          run_test-passing r test,
          run_tests-passing r tests (emplace_all duration_of (passing test).results results),
          emplace_all-append duration_of (passing test).results (passing_results tests) results,
        )
        refl

  pub run-passing :
      Ready w
      → (tests : List Test)
      → run w tests
        ≡ ok (
            passing_output tests
            ++ print_results (emplace_all duration_of (passing_results tests) []))
  unfolding run
  run-passing r tests = rw (run_tests-passing r tests []) refl
