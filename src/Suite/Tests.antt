-- ===== src/Suite/Tests.antt =====
-- The program with three rounds in a test, and the theorems there.
use memory_allocators.Base.{
  ℕ, ◌+◌, ◌*◌, ◌<◌, ◌≡◌, ◌↔◌, refl, sym, ap, ◌∙◌, ◌==◌, ◌-◌, ◌^◌, if◌then◌else◌, arith, true, List,
  [], ◌∷◌, ◌++◌, map, ℤ, pos, negsuc, null, none, ok, same,
}
use memory_allocators.FreeList.{Memory, required_size}
use memory_allocators.FreeList.Table.{max_free_mem_blocks}
use memory_allocators.FreeList.Workload.Returns.{bytes_taken}
use memory_allocators.Workload.{random_size}
use memory_allocators.Workload.Contract.{cost_of}
use memory_allocators.Registry.{TestResult, duration_of, emplace_all}
use memory_allocators.Registry.Order.{Rises, first_of}
use memory_allocators.Registry.Sets.{occurs}
use memory_allocators.Report.{Terminal, Output, codes, result_lines, print_results, to_size}
use memory_allocators.Report.Colours.{Tidy, Uncoloured}
use memory_allocators.Report.Verdicts.{verdicts_in}
use memory_allocators.Report.Decimal.{decimal, digits}
use memory_allocators.Report.Table.{
  characters, read_table, entry, AllPrintable, read_table-print_results,
}
use memory_allocators.Suite.{
  Test, free_list, linear, malloc, pool, pool_multi, stack, World, run, main,
}
use memory_allocators.Suite.Colours.{all_found, run-Tidy}
use memory_allocators.Suite.Passes.{Ready, passing_output, passing_results, run-passing}
use memory_allocators.Suite.Whole.{main-registrations, main_passes}

abbrev windows : Terminal
windows = record {
  win32 = true;
  foreground_red = 4;
  foreground_green = 2;
  foreground_blue = 1;
  foreground_intensity = 8;
}

abbrev durations : Test → ℤ
durations free_list = pos 700
durations linear = pos 30
durations malloc = pos 250
durations pool = pos 410
durations pool_multi = pos 0
durations stack = pos 95

abbrev sevens : ℕ → ℕ
sevens k = k * 7

abbrev empty_memory : Memory
empty_memory p = none

abbrev world : World
world = record {
  terminal = windows;
  rounds = 3;
  took = durations;
  rand = λ test. sevens;
  list_block = 4096;
  list_memory = empty_memory;
  stack_block = 4096;
  malloc_answer = λ k. null;
  pool_blocks = λ i. 65536 + i * 65536;
  pool_arrays = λ i. 4096 + i * 256;
  pool_answer = λ k. null;
  multi_blocks = λ i. 65536 + i * 65536;
  multi_arrays = λ i. 4096 + i * 256;
  thread_rand = λ t. sevens;
  thread_answer = λ t k. null;
  turns = [];
}

world-Ready : Ready world
unfolding max_free_mem_blocks bytes_taken cost_of required_size random_size
world-Ready = record {
  some_rounds = omega arith;
  few_rounds = omega arith;
  list_held = omega arith;
  list_fits = omega arith;
  list_room = omega arith;
  stack_held = omega arith;
  stack_fits = omega arith;
  pools_held = omega arith;
}

abbrev address : Test → ℕ
address free_list = 6000
address linear = 5000
address malloc = 4000
address pool = 3000
address pool_multi = 2000
address stack = 1000

abbrev registrations : List Test
registrations = free_list ∷ linear ∷ malloc ∷ pool ∷ pool_multi ∷ stack ∷ []

registered : (t : Test) → 0 < occurs address (address t) registrations
unfolding same
registered free_list = omega arith
registered linear = omega arith
registered malloc = omega arith
registered pool = omega arith
registered pool_multi = omega arith
registered stack = omega arith

main_passes_example :
    (tests : List Test) × (table : List TestResult) × (main world address registrations
      ≡ ok (passing_output world tests ++ print_results table))
    × ((t : Test) → occurs address (address t) tests ≡ 1)
    × Rises address tests
    × Rises duration_of table
    × ((k : ℕ)
        → first_of duration_of k table ≡ first_of duration_of k (passing_results world tests))
main_passes_example = main_passes world address world-Ready registrations registered

-- Two of the tests, registered in two orders, one of them twice
abbrev few : List Test
few = stack ∷ linear ∷ []

abbrev few_reversed : List Test
few_reversed = linear ∷ stack ∷ linear ∷ []

abbrev at_address : ℕ → Test
at_address a =
    if a == 6000
    then free_list
    else if a == 5000
    then linear
    else if a == 4000
    then malloc
    else if a == 3000
    then pool
    else if a == 2000
    then pool_multi
    else stack

at_address-address : (t : Test) → at_address (address t) ≡ t
at_address-address free_list = refl
at_address-address linear = refl
at_address-address malloc = refl
at_address-address pool = refl
at_address-address pool_multi = refl
at_address-address stack = refl

distinct : (s t : Test) → address s ≡ address t → s ≡ t
distinct s t e = sym (at_address-address s) ∙ ap at_address e ∙ at_address-address t

same_few : (k : ℕ) → (0 < occurs address k few) ↔ (0 < occurs address k few_reversed)
same_few k = ((λ h. omega arith), λ h. omega arith)

main-registrations_example : main world address few ≡ main world address few_reversed
main-registrations_example = main-registrations world address distinct few few_reversed same_few

abbrev results : List TestResult
results =
    record { name = "LinerAllocator    "; duration = 30 }
    ∷ record { name = "PoolAllocator     "; duration = 410 }
    ∷ []

printed :
    characters (print_results results)
    ≡ codes "Test results:\nLinerAllocator    : 30 ns\nPoolAllocator     : 410 ns\n\n"
unfolding print_results result_lines decimal digits
printed = refl

-- A duration that the clock measures as negative
to_size-negative : to_size (negsuc 4) ≡ 2 ^ 64 - 5
to_size-negative = refl

results-AllPrintable : AllPrintable results
results-AllPrintable = omega arith

read_table-print_results_example :
    read_table (characters (print_results results)) ≡ map entry results
read_table-print_results_example = read_table-print_results results results-AllPrintable

ran :
    run world (stack ∷ [])
    ≡ ok (
        passing_output world (stack ∷ [])
        ++ print_results (emplace_all duration_of (passing_results world (stack ∷ [])) []))
ran = run-passing world world-Ready (stack ∷ [])

abbrev printed_by_stack : Output
printed_by_stack =
    passing_output world (stack ∷ [])
    ++ print_results (emplace_all duration_of (passing_results world (stack ∷ [])) [])

run-Tidy_example :
    (front : Output) × (table : List TestResult) × (printed_by_stack ≡ front ++ print_results table)
    × (all_found world (stack ∷ []) ≡ ok (verdicts_in front))
    × Tidy windows front
    × Uncoloured (print_results table)
run-Tidy_example = run-Tidy world (stack ∷ []) printed_by_stack ran
