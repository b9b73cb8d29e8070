-- ===== src/Workload/Contract.antt =====
-- What an allocator promises to the loops of the test drivers, and what they then do with it.
use memory_allocators.Base.{
  ℕ, zero, suc, ◌+◌, ◌≤◌, ◌<◌, ◌≡◌, refl, ap, subst, ◌∙◌, arith, List, [], ◌∷◌, ◌++◌, Ptr, ok,
  length, length-append, erase_idx, split_at,
}
use memory_allocators.Workload.{
  Client, max_chunk_size, random_size, random_index, calls_after, fill, drain, run,
}

-- `Fills r n s ps`: the pointers `ps` are in use, and `r` requests that cost `n` together will be met.
-- `Holds s ps`: the pointers `ps` are in use, and each may be freed.
pub record Contract (c : Client) : Type 1 where
  pub cost : ℕ → ℕ
  pub used : c.State → ℕ
  pub Fills : ℕ → ℕ → c.State → List Ptr → Type 0
  pub Holds : c.State → List Ptr → Type 0
  pub allocates :
      (size r n : ℕ) (s : c.State) (ps : List Ptr)
      → 0 < size
      → size ≤ max_chunk_size
      → Fills (suc r) (cost size + n) s ps
      → (p : Ptr) × (s' : c.State) × (c.allocate size s ≡ ok (p, s')) × Fills r n s' (ps ++ p ∷ [])
  pub filled : (r n : ℕ) (s : c.State) (ps : List Ptr) → Fills r n s ps → Holds s ps
  pub frees :
      (s : c.State) (xs : List Ptr) (p : Ptr) (ys : List Ptr)
      → Holds s (xs ++ p ∷ ys)
      → (s' : c.State) × (c.free p s ≡ ok s') × Holds s' (xs ++ ys)
  pub empty : (s : c.State) → Holds s [] → used s ≡ 0

random_size_bounds :
    (rand : ℕ → ℕ) (k : ℕ) → (0 < random_size rand k) × (random_size rand k ≤ max_chunk_size)
unfolding random_size
random_size_bounds rand k = omega arith

pub random_index-le : (rand : ℕ → ℕ) (k i : ℕ) → random_index rand k i ≤ i
unfolding random_index
random_index-le rand k i = grind arith

-- What `n` requests from the k-th call of `rand` on cost.
unfoldable pub cost_of : (ℕ → ℕ) → (ℕ → ℕ) → ℕ → ℕ → ℕ
cost_of cost rand zero k = 0
cost_of cost rand (suc n) k = cost (random_size rand k) + cost_of cost rand n (suc k)

module _ (c : Client) (l : Contract c) (rand : ℕ → ℕ) where
  open c use {State}
  open l use {cost, used, Fills, Holds, allocates, filled, frees, empty}

  fill-Fills :
      (n k : ℕ) (ps : List Ptr) (s : State)
      → Fills n (cost_of cost rand n k) s ps
      → (ps' : List Ptr) × (k' : ℕ) × (s' : State) × (fill c rand n k ps s ≡ ok (ps', k', s'))
        × Fills 0 0 s' ps'
        × (length ps' ≡ length ps + n)
  unfolding fill cost_of
  fill-Fills zero k ps s h = (ps, k, s, refl, h, omega arith)
  fill-Fills (suc n) k ps s h =
      let (small, large) = random_size_bounds rand k in
      let (p, s', e, h') =
        allocates (random_size rand k) n (cost_of cost rand n (suc k)) s ps small large h in
      let (ps', k', s'', e', h'', count) = fill-Fills n (suc k) (ps ++ p ∷ []) s' h' in
      (ps', k', s'', rw (e, e') refl, h'', omega (arith, count, length-append ps (p ∷ [])))

  pub drain-Holds :
      (n k : ℕ) (ps : List Ptr) (s : State)
      → length ps ≡ n
      → Holds s ps
      → (s' : State) × (drain c rand n k ps s ≡ ok s') × Holds s' []
  unfolding drain
  drain-Holds zero k [] s count h = (s, refl, h)
  drain-Holds zero k (p ∷ ps) s count h = absurd (omega (arith, count))
  drain-Holds (suc i) k ps s count h =
      let j = random_index rand k i in
      let (xs, p, ys, parts, here, rest) =
        split_at ps j (omega (arith, random_index-le rand k i)) in
      let (s', e, h') = frees s xs p ys (subst (Holds s) parts h) in
      let fewer : length (erase_idx ps j) ≡ i =
        ap length rest
        ∙ omega (arith, length-append xs ys, ap length parts, length-append xs (p ∷ ys)) in
      let (s'', e', h'') = drain-Holds i (calls_after k i) (erase_idx ps j) s' fewer (rw rest h') in
      (s'', rw (here, e, e') refl, h'')

  -- From a state in which the requests will be met, the two loops return, whatever `rand` answers:
  -- every pointer has been freed once, and nothing counts as used.
  pub run-Holds :
      (n : ℕ) (s : State)
      → Fills n (cost_of cost rand n 0) s []
      → (s' : State) × (run c rand n s ≡ ok s') × Holds s' [] × (used s' ≡ 0)
  unfolding run
  run-Holds n s h =
      let (ps, k, s', e, h', count) = fill-Fills n 0 [] s h in
      let (s'', e', h'') = drain-Holds n k ps s' (omega (arith, count)) (filled 0 0 s' ps h') in
      (s'', rw (e, e') refl, h'', empty s'' h'')
