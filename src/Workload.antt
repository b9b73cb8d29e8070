-- ===== src/Workload.antt =====
-- The loops that the test drivers src/FreeListAllocatorTest.cpp, src/MallocAllocatorTest.cpp and
-- src/PoolAllocatorTest.cpp share: allocate blocks of random sizes, then free them in random order.
pub mod Contract
mod Tests
use memory_allocators.Base.{
  ℕ, zero, suc, ◌+◌, ◌%◌, List, [], ◌∷◌, ◌++◌, Option, none, some, Ptr, ◌==◌, if◌then◌else◌,
  Outcome, ok, faulted, ◌>>=◌, get_elem?, erase_idx,
}

-- sMaxChunksNum and sMaxChunkSize
abbrev pub max_chunks_num : ℕ
max_chunks_num = 1000

abbrev pub max_chunk_size : ℕ
max_chunk_size = 5120

-- What the loops call
pub record Client : Type 1 where
  pub State : Type 0
  pub allocate : ℕ → State → Outcome (Ptr × State)
  pub free : Ptr → State → Outcome State

-- `rand` answers its k-th call.
unfoldable pub random_size : (ℕ → ℕ) → ℕ → ℕ
random_size rand k = rand k % max_chunk_size + 1

-- The index that is freed in the round of `i`, and the number of calls of `rand` behind it
unfoldable pub random_index : (ℕ → ℕ) → ℕ → ℕ → ℕ
random_index rand k i = if i == 0 then 0 else rand k % i

abbrev pub calls_after : ℕ → ℕ → ℕ
calls_after k i = if i == 0 then k else suc k

-- memPointers[idx]
abbrev pub element : Option Ptr → Outcome Ptr
element none = faulted
element (some p) = ok p

module _ (c : Client) (rand : ℕ → ℕ) where
  open c use {State, allocate, free}

  -- The loop of requests: `n` rounds, with the pointers and the calls of `rand` so far
  unfoldable pub fill : ℕ → ℕ → List Ptr → State → Outcome (List Ptr × ℕ × State)
  fill zero k ps s = ok (ps, k, s)
  fill (suc n) k ps s = do
    (p, s') ← allocate (random_size rand k) s
    fill n (suc k) (ps ++ p ∷ []) s'

  -- The loop of returns, from the index `i - 1` down to 0
  unfoldable pub drain : ℕ → ℕ → List Ptr → State → Outcome State
  drain zero k ps s = ok s
  drain (suc i) k ps s = do
    p ← element (get_elem? ps (random_index rand k i))
    s' ← free p s
    drain i (calls_after k i) (erase_idx ps (random_index rand k i)) s'

  unfoldable pub run : ℕ → State → Outcome State
  run n s = do (ps, k, s') ← fill n 0 [] s; drain n k ps s'
