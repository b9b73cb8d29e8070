-- ===== src/MallocTest.antt =====
-- RunTest of src/MallocAllocatorTest.cpp, for any answers of `rand` and `malloc`.
use memory_allocators.Base.{
  ℕ, suc, ◌≤◌, ◌<◌, ◌≡◌, ◌≢◌, refl, sym, ap, ◌∙◌, arith, List, [], ◌∷◌, ◌++◌, Option, none, some,
  Ptr, null, ==_false, Outcome, ok, faulted, ◌>>=◌, same_self, same_ne, count, length, count-append,
  count_none,
}
use native.Mathlib.Decide.{ℕ_discrete}
use memory_allocators.SystemHeap.{Call, owns_after, count-disown}
use memory_allocators.Workload
use memory_allocators.Workload.{Client, max_chunk_size}
use memory_allocators.Workload.Contract.{Contract, run-Holds}

-- The blocks that the test owns, and the number of calls of malloc
pub record Heap : Type 0 where
  pub owned : List Ptr
  pub calls : ℕ

-- A call after which nothing can be owned is undefined.
abbrev pub after : Option (List Ptr) → ℕ → Outcome Heap
after none calls = faulted
after (some owned) calls = ok (record { owned = owned; calls = calls })

abbrev pub client : (ℕ → Ptr) → Client
client answer = record {
  State = Heap;
  allocate = λ size h. do
    h' ← after (owns_after h.owned (Call.malloc size (answer h.calls))) (suc h.calls)
    ok (answer h.calls, h');
  free = λ p h. after (owns_after h.owned (Call.free p)) h.calls;
}

-- The test prints no result of its own: it ends in the state of the heap. The source has `n` = 1000.
unfoldable pub run_test : (ℕ → ℕ) → ℕ → (ℕ → Ptr) → Outcome Heap
run_test rand n answer = Workload.run (client answer) rand n (record { owned = []; calls = 0 })

-- The pointers are what is owned, and null pointers.
abbrev pub Owns : Heap → List Ptr → Type 0
Owns h ps = (count null h.owned ≡ 0) × ((q : Ptr) → q ≢ null → count q h.owned ≡ count q ps)

pub allocates-Owns :
    (answer : ℕ → Ptr) (size r n : ℕ) (h : Heap) (ps : List Ptr)
    → 0 < size
    → size ≤ max_chunk_size
    → Owns h ps
    → (p : Ptr) × (h' : Heap) × ((client answer).allocate size h ≡ ok (p, h'))
      × Owns h' (ps ++ p ∷ [])
unfolding owns_after
allocates-Owns answer size r n h ps positive small own =
    let p : Ptr = answer h.calls in
    elim (ℕ_discrete p null) [
      | yes e ↦ (
        p,
        record { owned = h.owned; calls = suc h.calls },
        rw e refl,
        (
          own.0,
          λ q away.
              omega
                (arith, own.1 q away, count-append q ps (p ∷ []), same_ne q p (λ d. away (d ∙ e))),
        ),
      )
      | no e ↦ (
        p,
        record { owned = p ∷ h.owned; calls = suc h.calls },
        rw (==_false p null e) refl,
        (
          omega (arith, own.0, same_ne null p (λ d. e (sym d))),
          λ q away. omega (arith, own.1 q away, count-append q ps (p ∷ [])),
        ),
      )
    ]

pub frees-Owns :
    (answer : ℕ → Ptr) (h : Heap) (xs : List Ptr) (p : Ptr) (ys : List Ptr)
    → Owns h (xs ++ p ∷ ys)
    → (h' : Heap) × ((client answer).free p h ≡ ok h') × Owns h' (xs ++ ys)
unfolding owns_after
frees-Owns answer h xs p ys own = elim (ℕ_discrete p null) [
  | yes e ↦ (
    h,
    rw e refl,
    (
      own.0,
      λ q away. omega (
        arith,
        own.1 q away,
        count-append q xs ys,
        count-append q xs (p ∷ ys),
        same_ne q p (λ d. away (d ∙ e)),
      ),
    ),
  )
  | no e ↦
      let (rest, run, counts) =
        count-disown p h.owned
          (omega (arith, own.1 p e, count-append p xs (p ∷ ys), same_self p)) in
      (
        record { owned = rest; calls = h.calls },
        rw (==_false p null e, run) refl,
        (
          omega (arith, own.0, counts null),
          λ q away.
              omega
                (arith, own.1 q away, counts q, count-append q xs ys, count-append q xs (p ∷ ys)),
        ),
      )
]

pub empty-Owns : (h : Heap) → Owns h [] → h.owned ≡ []
empty-Owns h own =
    count_none h.owned (λ q. elim (ℕ_discrete q null) [ yes e ↦ rw e (own.0) | no e ↦ own.1 q e ])

unfoldable pub contract : (answer : ℕ → Ptr) → Contract (client answer)
contract answer = record {
  cost = λ size. 0;
  used = λ h. length h.owned;
  Fills = λ r n h ps. Owns h ps;
  Holds = Owns;
  allocates = allocates-Owns answer;
  filled = λ r n h ps own. own;
  frees = frees-Owns answer;
  empty = λ h own. ap length (empty-Owns h own);
}

-- For any number of rounds, any answers of `rand` and any answers of `malloc`, null included: the test
-- runs to its end, frees nothing that it does not own, and owns nothing at the end.
pub malloc_test_frees :
    (rand : ℕ → ℕ) (n : ℕ) (answer : ℕ → Ptr)
    → (h : Heap) × (run_test rand n answer ≡ ok h) × (h.owned ≡ [])
unfolding run_test contract
malloc_test_frees rand n answer =
    let (h, run, own, _) =
      run-Holds (client answer) (contract answer) rand n (record { owned = []; calls = 0 })
        (refl, λ q away. refl) in
    (h, run, empty-Owns h own)
