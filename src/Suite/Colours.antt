-- ===== src/Suite/Colours.antt =====
-- The verdicts that the tests print, and the colours of the console on Windows: src/Test.h, as the
-- tests of src/*AllocatorTest.cpp use them.
use memory_allocators.Base.{
  ℕ, ℤ, ◌≡◌, refl, sym, subst, ap, ◌∙◌, Bool, true, none, List, [], ◌∷◌, ◌++◌, Outcome, ok, aborted,
  faulted, blocked, ◌>>=◌,
}
use memory_allocators.Registry.{TestResult, duration_of, emplace_all}
use memory_allocators.SystemHeap.{Call}
use memory_allocators.Pool.{c_pool_alloc_thread_policy}
use memory_allocators.FreeList
use memory_allocators.Linear
use memory_allocators.Stack
use memory_allocators.Pools
use memory_allocators.Pools.Threads.{
  TestEnd, skipped, runs, broken, finished, run_multi_thread_test,
}
use memory_allocators.MallocTest
use Prim.Native.String.{String}
use memory_allocators.Report.{
  Output, Report, codes, say, verdict, warnings, report_of, print_results,
}
use memory_allocators.Suite.{
  Test, free_list, linear, malloc, pool, pool_multi, stack, World, test_verdict, merge_verdict,
  free_list_report, linear_report, malloc_report, pool_report, pool_multi_report, stack_report,
  joined, run_test, run_tests, run,
}
use memory_allocators.Report.Verdicts.{
  read_verdict, verdicts_in, verdicts_in-append, verdicts_in-verdict, verdicts_in-report_of,
  warnings-Plain,
}
use memory_allocators.Report.Colours.{
  Tidy, Tidy-append, Plain-Tidy, Tidy-verdict, Tidy-warnings, Tidy-report_of, Uncoloured,
  print_results-Uncoloured,
}

-- A bind that ends well: what it binds has, too.
bound :
    {A B : Type 0} (o : Outcome A) (f : A → Outcome B) (b : B)
    → (o >>= f) ≡ ok b
    → (a : A) × (o ≡ ok a) × (f a ≡ ok b)
bound (ok a) f b e = (a, refl, e)
bound aborted f b e = absurd (cc)
bound faulted f b e = absurd (cc)
bound blocked f b e = absurd (cc)

ok_inj : {A : Type 0} {s r : A} → ◌≡◌ {A = Outcome A} (ok s) (ok r) → s ≡ r
ok_inj e = cc e

module _ (w : World) where
  -- What RunMultiThreadTest has found, behind its end
  abbrev found_at : TestEnd → Outcome (List Bool)
  found_at skipped = ok []
  found_at runs = blocked
  found_at broken = faulted
  found_at (finished passed) = ok (passed ∷ [])

  -- What a test has found, apart from what it prints: whether it has passed, and for the free list also
  -- whether the memory was merged again. The test of malloc looks at nothing, and passes when it
  -- comes to its end.
  abbrev found : Test → Outcome (List Bool)
  found free_list = do
    v ← FreeList.Workload.run_test (w.rand free_list) w.rounds w.list_block w.list_memory
    ok (v.0 ∷ v.1 ∷ [])
  found linear = do v ← Linear.Workload.run_test (w.rand linear) w.rounds; ok (v.0 ∷ [])
  found malloc = do h ← MallocTest.run_test (w.rand malloc) w.rounds w.malloc_answer; ok (true ∷ [])
  found pool = do
    v ← Pools.Workload.run_test (w.rand pool) w.rounds w.pool_blocks w.pool_arrays w.pool_answer
    ok (v.0 ∷ [])
  found pool_multi = do
    end ←
        run_multi_thread_test c_pool_alloc_thread_policy w.rounds w.multi_blocks w.multi_arrays
          w.thread_rand w.thread_answer w.turns
    found_at end
  found stack = do v ← Stack.Workload.run_test (w.rand stack) w.rounds w.stack_block; ok (v ∷ [])

  abbrev pub all_found : List Test → Outcome (List Bool)
  all_found [] = ok []
  all_found (test ∷ tests) = do vs ← found test; ws ← all_found tests; ok (vs ++ ws)

  -- An output in its colours, with just the verdicts `vs`
  abbrev Tells : List Bool → Output → Type 0
  Tells vs out = Tidy w.terminal out × (verdicts_in out ≡ vs)

  Tells-append :
      (vs ws : List Bool) (xs ys : Output) → Tells vs xs → Tells ws ys → Tells (vs ++ ws) (xs ++ ys)
  Tells-append vs ws xs ys h k =
      (Tidy-append w.terminal xs ys h.0 k.0, verdicts_in-append xs ys ∙ rw (h.1, k.1) refl)

  Tells-test_verdict : (passed : Bool) → Tells (passed ∷ []) (test_verdict w passed)
  Tells-test_verdict passed = (
    Tidy-verdict w.terminal passed "Test Passed!\n" "Test Failed!\n" refl refl,
    verdicts_in-verdict w.terminal passed "Test Passed!\n" "Test Failed!\n" refl refl,
  )

  Tells-merge_verdict : (merged : Bool) → Tells (merged ∷ []) (merge_verdict w merged)
  Tells-merge_verdict merged = (
    Tidy-verdict w.terminal merged "FullMerge Test Passed!\n" "FullMerge Test Failed!\n" refl refl,
    verdicts_in-verdict w.terminal merged "FullMerge Test Passed!\n" "FullMerge Test Failed!\n" refl
        refl,
  )

  -- A test that ends: what it has found, and its report, which tells that
  abbrev Reports : Outcome (List Bool) → Report → Type 0
  Reports o r = (vs : List Bool) × (o ≡ ok vs) × Tells vs r.output

  -- Both go on with what the code under test has given.
  Reports-bind :
      {A : Type 0} (o : Outcome A) (f : A → Outcome Report) (g : A → Outcome (List Bool))
      → ((a : A) (r : Report) → f a ≡ ok r → Reports (g a) r)
      → (r : Report) → (o >>= f) ≡ ok r
      → Reports (o >>= g) r
  Reports-bind o f g h r e =
      let (a, here, then_ok) = bound o f r e in
      let (vs, found_here, tells) = h a r then_ok in (vs, rw here found_here, tells)

  Reports-ok :
      (vs : List Bool) (s r : Report)
      → Tells vs s.output
      → ◌≡◌ {A = Outcome Report} (ok s) (ok r)
      → Reports (ok vs) r
  Reports-ok vs s r h e = (vs, refl, subst (λ x. Tells vs x.output) (ok_inj e) h)

  -- A report tells what its verdicts tell.
  Tells-report_of :
      (title description : String) (n : ℕ) (calls : List Call) (took : ℤ) (vs : List Bool)
      (verdicts : Output) (name : String)
      → read_verdict (codes title) ≡ none
      → read_verdict (codes description) ≡ none
      → Tells vs verdicts
      → Tells vs (report_of title description n (warnings calls) took verdicts name).output
  Tells-report_of title description n calls took vs verdicts name t d h = (
    Tidy-report_of w.terminal title description n (warnings calls) took verdicts name t d
        (Tidy-warnings w.terminal calls) h.0,
    verdicts_in-report_of title description n (warnings calls) took verdicts name t d
          (warnings-Plain calls)
        ∙ h.1,
  )

  Tells-pool_multi_report :
      (calls : List Call) (passed : Bool)
      → Tells (passed ∷ []) (pool_multi_report w calls passed).output
  unfolding pool_multi_report
  Tells-pool_multi_report calls passed =
      Tells-report_of _ _ _ calls _ (passed ∷ []) _ _ refl refl (Tells-test_verdict passed)

  Reports-joined :
      (calls : List Call) (end : TestEnd) (r : Report)
      → joined w calls end ≡ ok r
      → Reports (found_at end) r
  Reports-joined calls skipped r e = Reports-ok [] _ r ((tt, refl), refl) e
  Reports-joined calls runs r e = absurd (cc)
  Reports-joined calls broken r e = absurd (cc)
  Reports-joined calls (finished passed) r e =
      Reports-ok (passed ∷ []) (pool_multi_report w calls passed) r
        (Tells-pool_multi_report calls passed) e

  run_test-Reports : (test : Test) (r : Report) → run_test w test ≡ ok r → Reports (found test) r
  unfolding run_test free_list_report linear_report malloc_report pool_report stack_report verdict
      warnings
  run_test-Reports free_list = Reports-bind _ _ _ λ (v : Bool × Bool) (r : Report).
      Reports-ok (v.0 ∷ v.1 ∷ []) (free_list_report w v) r (
        Tells-report_of _ _ _ [] _ (v.0 ∷ v.1 ∷ []) _ _ refl refl (
          Tells-append (v.0 ∷ []) (v.1 ∷ []) (test_verdict w v.0) (merge_verdict w v.1)
            (Tells-test_verdict v.0) (Tells-merge_verdict v.1)))
  run_test-Reports linear = Reports-bind _ _ _ λ (v : Bool × List Call) (r : Report).
      Reports-ok (v.0 ∷ []) (linear_report w v.0) r
        (Tells-report_of _ _ _ [] _ (v.0 ∷ []) _ _ refl refl (Tells-test_verdict v.0))
  run_test-Reports malloc = Reports-bind _ _ _ λ h r.
      Reports-ok (true ∷ []) (malloc_report w) r
        (Tells-report_of _ _ _ [] _ (true ∷ []) _ _ refl refl (Tells-test_verdict true))
  run_test-Reports pool = Reports-bind _ _ _ λ (v : Bool × List Call) (r : Report).
      Reports-ok (v.0 ∷ []) (pool_report w v) r
        (Tells-report_of _ _ _ v.1 _ (v.0 ∷ []) _ _ refl refl (Tells-test_verdict v.0))
  run_test-Reports pool_multi = Reports-bind _ _ _ λ (end : TestEnd) (r : Report) e.
      let (calls, here, e') = bound _ (λ calls. joined w calls end) r e in
      Reports-joined calls end r e'
  run_test-Reports stack = Reports-bind _ _ _ λ (v : Bool) (r : Report).
      Reports-ok (v ∷ []) (stack_report w v) r
        (Tells-report_of _ _ _ [] _ (v ∷ []) _ _ refl refl (Tells-test_verdict v))

  run_tests-Tells :
      (tests : List Test) (results : List TestResult) (out : Output) (results' : List TestResult)
      → run_tests w tests results ≡ ok (out, results')
      → (vs : List Bool) × (all_found tests ≡ ok vs) × Tells vs out
  unfolding run_tests
  run_tests-Tells [] results out results' e =
      ([], refl, subst (λ r. Tells [] r.0) (ok_inj e) ((tt, refl), refl))
  run_tests-Tells (test ∷ tests) results out results' e =
      let (r, here, e') = bound (run_test w test) _ (out, results') e in
      let table = emplace_all duration_of r.results results in
      let (rest, later, e'') = bound (run_tests w tests table) _ (out, results') e' in
      let (vs, found_here, tells) = run_test-Reports test r here in
      let (ws, found_later, tell) = run_tests-Tells tests table rest.0 rest.1 later in
      (
        vs ++ ws,
        rw (found_here, found_later) refl,
        subst (λ x. Tells (vs ++ ws) x.0) (ok_inj e'')
            (Tells-append vs ws r.output (say "\n" ++ rest.0) tells (
              Tells-append [] ws (say "\n") rest.0 (Plain-Tidy w.terminal (say "\n") tt refl, refl)
                tell)),
      )

  pub run-Tidy :
      (tests : List Test) (out : Output)
      → run w tests ≡ ok out
      → (front : Output) × (table : List TestResult) × (out ≡ front ++ print_results table)
        × (all_found tests ≡ ok (verdicts_in front))
        × Tidy w.terminal front
        × Uncoloured (print_results table)
  unfolding run
  run-Tidy tests out e =
      let (r, here, e') = bound (run_tests w tests []) _ out e in
      let (vs, all, tells) = run_tests-Tells tests [] r.0 r.1 here in
      (r.0, r.1, sym (ok_inj e'), all ∙ ap ok (sym tells.1), tells.0, print_results-Uncoloured r.1)
