-- ===== src/Suite.antt =====
-- The program of src/main.cpp: the six tests of src/*AllocatorTest.cpp, that register themselves by
-- src/Test.h and are run by src/Test.cpp. Release build.
pub mod Passes
pub mod Whole
pub mod Colours
mod Tests
use memory_allocators.Base.{
  ℕ, Bool, true, false, List, [], ◌∷◌, ◌++◌, ℤ, Ptr, Outcome, ok, faulted, blocked, ◌>>=◌,
}
use memory_allocators.Interface.{ThreadPolicy}
use memory_allocators.SystemHeap.{Call}
use memory_allocators.FreeList.{Memory}
use memory_allocators.Pool.{c_pool_alloc_thread_policy}
use memory_allocators.FreeList
use memory_allocators.Linear
use memory_allocators.Stack
use memory_allocators.Pools
use memory_allocators.Pools.Threads.{
  TestEnd, skipped, runs, broken, finished, run_multi_thread_test, calls_of_threads,
}
use memory_allocators.MallocTest
use memory_allocators.Registry.{TestResult, duration_of, emplace_all}
use memory_allocators.Report.{
  Terminal, Output, Report, silent, report_of, verdict, in_colour, green, say, print_results,
  warnings,
}
use memory_allocators.Sharing.PoolMethods.{pool_methods}
use memory_allocators.Sharing.Several.{Turn}

-- The functions that TEST_REGISTER registers
pub data Test : Type 0 where
  free_list linear malloc pool pool_multi stack : Test

-- What the tests ask the world outside for: the terminal; sMaxChunksNum (`rounds`); the durations that the
-- clock measures; the answers of `rand`; the blocks that `malloc` gives; and the order of the steps of the
-- two threads.
pub record World : Type 0 where
  pub terminal : Terminal
  pub rounds : ℕ
  pub took : Test → ℤ
  pub rand : Test → ℕ → ℕ
  pub list_block : Ptr
  pub list_memory : Memory
  pub stack_block : Ptr
  pub malloc_answer : ℕ → Ptr
  pub pool_blocks : ℕ → Ptr
  pub pool_arrays : ℕ → Ptr
  pub pool_answer : ℕ → Ptr
  pub multi_blocks : ℕ → Ptr
  pub multi_arrays : ℕ → Ptr
  pub thread_rand : ℕ → ℕ → ℕ
  pub thread_answer : ℕ → ℕ → Ptr
  pub turns : List (Turn pool_methods)

module _ (w : World) where
  -- "Test Passed!", or "Test Failed!" in red
  abbrev pub test_verdict : Bool → Output
  test_verdict passed = verdict w.terminal passed "Test Passed!\n" "Test Failed!\n"

  abbrev pub merge_verdict : Bool → Output
  merge_verdict merged =
      verdict w.terminal merged "FullMerge Test Passed!\n" "FullMerge Test Failed!\n"

  unfoldable pub free_list_report : Bool × Bool → Report
  free_list_report (passed, merged) =
      report_of "StartTest: FreeListAllocator\n"
        "Desc: Allocates chunks(MaxChunksNum) of size = 'rand() % sMaxChunkSize + 1'. Deallocates in random order.\n"
        w.rounds [] (w.took free_list) (test_verdict passed ++ merge_verdict merged)
        "FreeListAllocator "

  unfoldable pub linear_report : Bool → Report
  linear_report passed =
      report_of "StartTest: LinerAllocator\n"
        "Desc: Allocates chunks(MaxChunksNum) of size = 'rand() % sMaxChunkSize + 1'. Deallocates by resetting.\n"
        w.rounds [] (w.took linear) (test_verdict passed) "LinerAllocator    "

  unfoldable pub malloc_report : Report
  unfolding in_colour
  malloc_report =
      report_of "StartTest: MallocAllocator\n"
        "Desc: Allocates chunks(MaxChunksNum) of size = 'rand() % sMaxChunkSize + 1'. Deallocates in random order.\n"
        w.rounds [] (w.took malloc) (in_colour w.terminal (green w.terminal) "Test Passed!\n")
        "MallocAllocator   "

  -- `calls` are the calls of the system's heap in place of the pools.
  unfoldable pub pool_report : Bool × List Call → Report
  pool_report (passed, calls) =
      report_of "StartTest: PoolAllocator\n"
        "Desc: Creates 9 pool allocators of different chunk size. Allocates chunks(MaxChunksNum) of size = 'rand() % sMaxChunkSize + 1'. Deallocates in random order.\n"
        w.rounds (warnings calls) (w.took pool) (test_verdict passed) "PoolAllocator     "

  unfoldable pub pool_multi_report : List Call → Bool → Report
  pool_multi_report calls passed =
      report_of "StartMultiThreadTest: PoolAllocator\n"
        "Desc: Creates 9 pool allocators of different chunk size. Create 2 threads. Each thread allocates chunks(MaxChunksNum) of size = 'rand() % sMaxChunkSize + 1'. Deallocates in random order.\n"
        w.rounds (warnings calls) (w.took pool_multi) (test_verdict passed) "PoolAlloc2Threads "

  unfoldable pub stack_report : Bool → Report
  stack_report passed =
      report_of "StartTest: StackAllocator\n"
        "Desc: Allocates chunks(MaxChunksNum) of size = 'rand() % sMaxChunkSize + 1'. Deallocates in LIFO order.\n"
        w.rounds [] (w.took stack) (test_verdict passed) "StackAllocator    "

  -- Behind `thread1.join(); thread2.join();`, which waits as long as a thread runs
  abbrev pub joined : List Call → TestEnd → Outcome Report
  joined calls skipped = ok silent
  joined calls runs = blocked
  joined calls broken = faulted
  joined calls (finished passed) = ok (pool_multi_report calls passed)

  -- RunTest of the six files, and RunMultiThreadTest
  unfoldable pub run_test : Test → Outcome Report
  run_test free_list = do
    verdicts ← FreeList.Workload.run_test (w.rand free_list) w.rounds w.list_block w.list_memory
    ok (free_list_report verdicts)
  run_test linear = do
    (passed, calls) ← Linear.Workload.run_test (w.rand linear) w.rounds
    ok (linear_report passed)
  run_test malloc = do
    h ← MallocTest.run_test (w.rand malloc) w.rounds w.malloc_answer
    ok malloc_report
  run_test pool = do
    ended ← Pools.Workload.run_test (w.rand pool) w.rounds w.pool_blocks w.pool_arrays w.pool_answer
    ok (pool_report ended)
  run_test pool_multi = do
    end ←
        run_multi_thread_test c_pool_alloc_thread_policy w.rounds w.multi_blocks w.multi_arrays
          w.thread_rand w.thread_answer w.turns
    calls ←
        calls_of_threads c_pool_alloc_thread_policy w.rounds w.multi_blocks w.multi_arrays
          w.thread_rand w.thread_answer w.turns
    joined calls end
  run_test stack = do
    passed ← Stack.Workload.run_test (w.rand stack) w.rounds w.stack_block
    ok (stack_report passed)

  -- Test::Run, its loop: what the tests print, and the table of results behind them
  unfoldable pub run_tests : List Test → List TestResult → Outcome (Output × List TestResult)
  run_tests [] results = ok ([], results)
  run_tests (test ∷ tests) results = do
    report ← run_test test
    (output, results') ← run_tests tests (emplace_all duration_of report.results results)
    ok (report.output ++ (say "\n" ++ output), results')

  -- Test::Run
  unfoldable pub run : List Test → Outcome Output
  run tests = do (output, results) ← run_tests tests []; ok (output ++ print_results results)

  -- The whole program, of the benchmark library apart: the registrations, in some order, and Test::Run.
  -- A set of functions is ordered by their addresses.
  unfoldable pub main : (Test → ℕ) → List Test → Outcome Output
  main address registrations = run (emplace_all address registrations [])
