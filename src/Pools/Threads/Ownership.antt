-- ===== src/Pools/Threads/Ownership.antt =====
-- Which addresses a thread of RunMultiThreadTest holds, and what it may do with them.
use memory_allocators.Base.{
  ℕ, zero, suc, ◌+◌, ◌<◌, ◌≡◌, refl, sym, subst, ap, ◌∙◌, arith, true, leb, ◌==◌, if◌then◌else◌,
  List, [], ◌∷◌, ◌++◌, Ptr, null, Bool-cases, length, length-append, erase_idx, split_at, inl, inr,
}
use native.Mathlib.Decide.{ℕ_discrete}
use memory_allocators.SystemHeap
use memory_allocators.Workload.{random_index, calls_after}
use memory_allocators.Workload.Contract.{random_index-le}
use memory_allocators.Pools.Threads.{
  PoolProcess, allocate_from, free_from, free_element, returns, requests, thread_func,
}
use memory_allocators.Sharing.PoolMethods.{allocates, frees, Local}
use memory_allocators.Sharing.Several.{ends, undefined, asks, calls}

-- `Takes i p`: the pool `i` does not refuse the address `p`.
module _ (Takes : ℕ → Ptr → Type 0) where
  -- None of `n` pools would take it.
  abbrev pub Foreign : ℕ → Ptr → Type 0
  Foreign n p = (i : ℕ) → i < n → ¬ (Takes i p)

  -- What a process does is in order where there are `n` pools and it holds these addresses: it calls
  -- only pools that are there; gives back only what it holds, to the system's heap only what no pool
  -- would take; holds nothing at its end; and never does anything undefined, whatever the pools
  -- answer. What `malloc` answers is foreign to the pools. An address that a pool refuses, which it
  -- does only with one that it does not take, is still held, and a null pointer of a pool is not.
  unfoldable pub Owns : ℕ → PoolProcess → List Ptr → Type 0
  Owns n ends held = held ≡ []
  Owns n undefined held = ⊥
  Owns n (asks (SystemHeap.Call.malloc size p) rest) held =
      Foreign n p × Owns n rest (held ++ p ∷ [])
  Owns n (asks (SystemHeap.Call.free p) rest) held =
      Foreign n p
      × (xs : List Ptr) × (ys : List Ptr) × (held ≡ xs ++ p ∷ ys)
      × Owns n rest (xs ++ ys)
  Owns n (calls i allocates next) held =
      (i < n)
      × ((l : Local) → Owns n (next l) (if l.address == null then held else held ++ l.address ∷ []))
  Owns n (calls i (frees p) next) held =
      (i < n)
      × (xs : List Ptr) × (ys : List Ptr) × (held ≡ xs ++ p ∷ ys)
      × ((l : Local)
          → (l.early ≡ true → ¬ (Takes i p))
          → Owns n (next l) (if l.early then held else xs ++ ys))

  module _ (n : ℕ) where
    -- Allocate from the pool `i` on
    allocate_from-Owns :
        (sizes : List ℕ) (i : ℕ) (fallback : Ptr) (size : ℕ) (continue : Ptr → PoolProcess)
        (held : List Ptr)
        → i + length sizes ≡ n
        → Foreign n fallback
        → ((p : Ptr) → Owns n (continue p) (held ++ p ∷ []))
        → Owns n (allocate_from sizes i fallback size continue) held
    unfolding Owns allocate_from
    allocate_from-Owns [] i fallback size continue held count foreign then_owns =
        (foreign, then_owns fallback)
    allocate_from-Owns (chunk_size ∷ sizes) i fallback size continue held count foreign then_owns =
        let later =
          allocate_from-Owns sizes (suc i) fallback size continue held (omega (arith, count))
            foreign then_owns in
        elim (Bool-cases (leb size chunk_size)) [
          | inl e ↦ rw e (
            omega (arith, count),
            λ l. elim (Bool-cases (l.address == null)) [
              | inl d ↦ rw d (foreign, then_owns fallback)
              | inr d ↦ rw d (then_owns l.address)
            ],
          )
          | inr e ↦ rw e later
        ]

    -- Free for the last pools from `i` on, when those before have refused the address
    free_from-Owns :
        (m i : ℕ) (held xs : List Ptr) (p : Ptr) (ys : List Ptr) (continue : PoolProcess)
        → i + m ≡ n
        → Foreign i p
        → held ≡ xs ++ p ∷ ys
        → Owns n continue (xs ++ ys)
        → Owns n (free_from m i p continue) held
    unfolding Owns free_from
    free_from-Owns zero i held xs p ys continue all refused parts then_owns =
        (λ j below. refused j (omega (arith, all)), xs, ys, parts, then_owns)
    free_from-Owns (suc m) i held xs p ys continue all refused parts then_owns =
        let later = λ (none : ¬ (Takes i p)).
          free_from-Owns m (suc i) held xs p ys continue (omega (arith, all))
            (λ j below takes. elim (ℕ_discrete j i) [
              | yes e ↦ none (subst (λ k. Takes k p) e takes)
              | no e ↦ refused j (omega (arith, e)) takes
            ])
            parts then_owns in
        (
          omega (arith, all),
          xs,
          ys,
          parts,
          λ l none. elim (Bool-cases l.early) [
            | inl e ↦ rw e (later (none e))
            | inr e ↦ rw e then_owns
          ],
        )

  module _ (rand : ℕ → ℕ) (answer : ℕ → Ptr) (sizes : List ℕ)
      (foreign : (k : ℕ) → Foreign (length sizes) (answer k)) where
    returns-Owns :
        (i k : ℕ) (ps : List Ptr)
        → length ps ≡ i
        → Owns (length sizes) (returns rand answer sizes i k ps) ps
    unfolding Owns returns free_element
    returns-Owns zero k [] count = refl
    returns-Owns zero k (p ∷ ps) count = absurd (omega (arith, count))
    returns-Owns (suc i) k ps count =
        let j = random_index rand k i in
        let (xs, p, ys, parts, here, rest) =
          split_at ps j (omega (arith, count, random_index-le rand k i)) in
        let fewer : length (erase_idx ps j) ≡ i =
          ap length rest
          ∙ omega (arith, count, length-append xs ys, ap length parts, length-append xs (p ∷ ys)) in
        let later = returns-Owns i (calls_after k i) (erase_idx ps j) fewer in
        rw here (
          free_from-Owns (length sizes) (length sizes) 0 ps xs p ys _ (omega arith)
            (λ j below. absurd (omega arith)) parts (rw (sym rest) later))

    requests-Owns :
        (n k : ℕ) (ps : List Ptr) → Owns (length sizes) (requests rand answer sizes n k ps) ps
    unfolding Owns requests
    requests-Owns zero k ps = returns-Owns (length ps) k ps refl
    requests-Owns (suc n) k ps =
        allocate_from-Owns (length sizes) sizes 0 (answer k) _ _ ps (omega arith) (foreign k)
          (λ p. requests-Owns n (suc k) (ps ++ p ∷ []))

    -- threadFunc, with any number of rounds, any sizes of the chunks and whatever `rand` answers, where what
    -- `malloc` answers is foreign to the pools: from holding nothing on it calls only pools that are
    -- there, never reads memPointers out of range, gives back only what it holds, once, and to the
    -- system's heap only what no pool would take; and at its end it has given back everything. This is so
    -- whatever the pools answer, if they refuse no address that they take.
    pub thread_func-Owns : (n : ℕ) → Owns (length sizes) (thread_func rand answer sizes n) []
    thread_func-Owns n = requests-Owns n 0 []
