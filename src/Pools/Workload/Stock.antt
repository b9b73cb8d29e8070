-- ===== src/Pools/Workload/Stock.antt =====
-- The loops of src/PoolAllocatorTest.cpp keep the pools, and never reach the system's heap.
use memory_allocators.Base.{
  ℕ, suc, ◌+◌, ◌*◌, ◌≤◌, ◌<◌, ◌≡◌, ◌⊎◌, inl, inr, refl, sym, ap, ◌∙◌, arith, List, [], ◌∷◌, ◌++◌,
  Ptr, to_u32, ok, same_self, count, count-append, count_none, length,
}
use native.Mathlib.Decide.{dec_le}
use memory_allocators.Workload
use memory_allocators.Workload.{max_chunk_size}
use memory_allocators.Workload.Contract.{Contract, cost_of, run-Holds}
use memory_allocators.Pools.{Pools, used_size_from, used_size}
use memory_allocators.Pools.Holdings.{
  Holding, Holds, count_lent, Apart, SamePlaces, Apart-SamePlaces,
}
use memory_allocators.Pools.Serving.{Serves, OneLess, allocate-Served, free-Holds}
use memory_allocators.Pools.Workload.{Served, client}

-- Every pool has `r` free chunks.
abbrev pub AllLeft : ℕ → List Holding → Type 0
AllLeft r [] = Unit {0}
AllLeft r (h ∷ hs) = (r ≤ h.left) × AllLeft r hs

-- Some pool has chunks for the largest request.
abbrev pub Reaches : Pools → Type 0
Reaches [] = ⊥
Reaches (a ∷ pools) = (max_chunk_size ≤ a.chunk_size) ⊎ Reaches pools

AllLeft-OneLess : (r : ℕ) (hs is : List Holding) → OneLess hs is → AllLeft (suc r) hs → AllLeft r is
AllLeft-OneLess r [] [] o l = tt
AllLeft-OneLess r [] (i ∷ is) o l = absurd o
AllLeft-OneLess r (h ∷ hs) [] o l = absurd o
AllLeft-OneLess r (h ∷ hs) (i ∷ is) o l = (omega arith, AllLeft-OneLess r hs is o.1 l.1)

Reaches-SamePlaces :
    (pools others : Pools) → SamePlaces pools others → Reaches pools → Reaches others
Reaches-SamePlaces [] [] h r = r
Reaches-SamePlaces [] (b ∷ others) h r = absurd h
Reaches-SamePlaces (a ∷ pools) [] h r = absurd h
Reaches-SamePlaces (a ∷ pools) (b ∷ others) h (inl large) = inl (omega arith)
Reaches-SamePlaces (a ∷ pools) (b ∷ others) h (inr r) = inr (Reaches-SamePlaces pools others h.3 r)

Serves-reached :
    (size r : ℕ) (pools : Pools) (hs : List Holding)
    → size ≤ max_chunk_size
    → Holds pools hs
    → Reaches pools
    → AllLeft (suc r) hs
    → Serves size pools hs
Serves-reached size r [] hs small h reach l = absurd reach
Serves-reached size r (a ∷ pools) [] small h reach l = absurd h
Serves-reached size r (a ∷ pools) (i ∷ hs) small h reach l = elim (dec_le size a.chunk_size) [
  | yes fits ↦ inl (fits, omega arith)
  | no large ↦
      inr (omega arith, later large (λ c. Serves-reached size r pools hs small h.1 c l.1) reach)
]
  where
    later :
        (size ≤ a.chunk_size → ⊥)
        → (Reaches pools → Serves size pools hs)
        → Reaches (a ∷ pools)
        → Serves size pools hs
    later large rest (inl c) = absurd (large (omega arith))
    later large rest (inr c) = rest c

-- The pointers `ps` are those that the pools have lent.
pub record Lends (s : Served) (ps : List Ptr) : Type 0 where
  pub holdings : List Holding
  pub holds : Holds s.pools holdings
  pub apart : Apart s.pools
  pub counts : (q : Ptr) → count q ps ≡ count_lent q holdings
  pub no_calls : s.calls ≡ []

-- And every pool can lend `r` more.
pub record Stocks (r n : ℕ) (s : Served) (ps : List Ptr) : Type 0 where
  pub lends : Lends s ps
  pub stock : AllLeft r lends.holdings
  pub reaches : Reaches s.pools

allocates-Stocks :
    (answer : ℕ → Ptr) (size r n : ℕ) (s : Served) (ps : List Ptr)
    → 0 < size
    → size ≤ max_chunk_size
    → Stocks (suc r) (0 + n) s ps
    → (p : Ptr) × (s' : Served) × ((client answer).allocate size s ≡ ok (p, s'))
      × Stocks r n s' (ps ++ p ∷ [])
allocates-Stocks answer size r n s ps positive small st =
    let l = st.lends in
    let narrow : to_u32 size ≡ size = omega arith in
    let (p, pools, hs, run, served) =
      allocate-Served (answer (length s.calls)) size s.pools l.holdings l.holds l.apart
        (Serves-reached size r s.pools l.holdings small l.holds st.reaches st.stock) in
    (
      p,
      record { pools = pools; calls = s.calls ++ [] },
      rw (narrow, run) refl,
      record {
        lends = record {
          holdings = hs;
          holds = served.holds;
          apart = Apart-SamePlaces s.pools pools served.places l.apart;
          counts = λ q. omega (arith, count-append q ps (p ∷ []), l.counts q, served.counts q);
          no_calls = rw (l.no_calls) refl;
        };
        stock = AllLeft-OneLess r l.holdings hs served.fewer st.stock;
        reaches = Reaches-SamePlaces s.pools pools served.places st.reaches;
      },
    )

frees-Lends :
    (answer : ℕ → Ptr) (s : Served) (xs : List Ptr) (p : Ptr) (ys : List Ptr)
    → Lends s (xs ++ p ∷ ys)
    → (s' : Served) × ((client answer).free p s ≡ ok s') × Lends s' (xs ++ ys)
frees-Lends answer s xs p ys l =
    let here : 0 < count_lent p l.holdings =
      omega (arith, l.counts p, count-append p xs (p ∷ ys), same_self p) in
    let (pools, hs, run, h, places, counts) =
      free-Holds s.pools l.holdings p l.holds l.apart here in
    (
      record { pools = pools; calls = s.calls ++ [] },
      rw run refl,
      record {
        holdings = hs;
        holds = h;
        apart = Apart-SamePlaces s.pools pools places l.apart;
        counts = λ q.
            omega (arith, l.counts q, counts q, count-append q xs (p ∷ ys), count-append q xs ys);
        no_calls = rw (l.no_calls) refl;
      },
    )

-- Pools that have lent nothing count nothing as used.
used_none :
    (pools : Pools) (hs : List Holding)
    → Holds pools hs
    → ((q : Ptr) → count_lent q hs ≡ 0)
    → used_size_from 0 pools ≡ 0
unfolding used_size_from
used_none [] [] h none_lent = refl
used_none [] (i ∷ hs) h none_lent = absurd h
used_none (a ∷ pools) [] h none_lent = absurd h
used_none (a ∷ pools) (i ∷ hs) h none_lent =
    let empty = count_none i.lent (λ q. omega (arith, none_lent q)) in
    let unused : a.used ≡ 0 =
      h.0.used_lent ∙ ap (λ l. length l * a.chunk_size) empty ∙ omega arith in
    rw unused (used_none pools hs h.1 (λ q. omega (arith, none_lent q)))

-- The pools keep what the loops of the tests rely on: `r` free chunks in each are enough for `r`
-- requests.
pub contract : (answer : ℕ → Ptr) → Contract (client answer)
contract answer = record {
  cost = λ size. 0;
  used = λ s. used_size s.pools;
  Fills = Stocks;
  Holds = Lends;
  allocates = allocates-Stocks answer;
  filled = λ r n s ps st. st.lends;
  frees = frees-Lends answer;
  empty = λ s l. used_none s.pools l.holdings l.holds (λ q. sym (l.counts q));
}

-- The two loops, from pools that have enough
pub run-Lends :
    (answer rand : ℕ → ℕ) (n : ℕ) (s : Served)
    → Stocks n (cost_of (λ size. 0) rand n 0) s []
    → (s' : Served) × (Workload.run (client answer) rand n s ≡ ok s')
      × Lends s' []
      × (used_size s'.pools ≡ 0)
unfolding contract
run-Lends answer rand n s st = run-Holds (client answer) (contract answer) rand n s st
