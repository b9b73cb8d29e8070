-- ===== src/Pools/Threads/Steps.antt =====
-- Every step of the threads of RunMultiThreadTest keeps their order.
use memory_allocators.Base.{
  ℕ, ◌<◌, ◌≡◌, ◌≢◌, refl, sym, subst, ap, ◌∙◌, arith, Bool, true, false, if◌then◌else◌, List, [],
  ◌∷◌, ◌++◌, Ptr, count, count-append, same_ne, update, update_self, update_ne, ==_refl,
}
use native.Mathlib.Decide.{ℕ_discrete, dec_lt}
use memory_allocators.SystemHeap
use memory_allocators.Spinlock.{counter_start, retry}
use memory_allocators.Pool.{PoolAllocator}
use memory_allocators.Pools.Threads.{PoolProcess}
use memory_allocators.Pools.Threads.Ownership.{Foreign, Owns}
use memory_allocators.Pools.Threads.Entering.{enters}
use memory_allocators.Pools.Threads.Entry.{Within}
use memory_allocators.Pools.Threads.Orderly.{
  update_same, Takes, Stands, Kept-held, Orderly, changes, asked, waits,
}
use memory_allocators.Sharing.{
  outside, at_load, at_exchange, at_decrement, inside, finish, exchange,
}
use memory_allocators.Sharing.Serial.{is_inside, Serial, resting, working}
use memory_allocators.Sharing.PoolMethods.{Access, Call, Local, pool_methods}
use memory_allocators.Sharing.Several.{
  ends, undefined, asks, calls, Stand, between, calling, System, place_at, view, takes_effect, Turn,
  moves, step, run,
}
use memory_allocators.Sharing.Several.View.{view_from-Serial}

-- Who is inside an object is there alone.
alone :
    (s₀ : PoolAllocator) (s : System pool_methods) (j t : ℕ)
    → Serial pool_methods s₀ (view pool_methods j s)
    → is_inside pool_methods (place_at pool_methods j (s.stand t)) ≡ true
    → (k : ℕ) → k ≢ t
    → is_inside pool_methods (place_at pool_methods j (s.stand k)) ≡ false
alone s₀ s j t (resting quiet done) here k e = quiet k
alone s₀ s j t (working i l rest set there quiet left) here k e = elim (ℕ_discrete t i) [
  | yes d ↦ quiet k (λ c. e (c ∙ sym d))
  | no d ↦ let out = quiet t d in absurd (cc)
]

module _ (n threads : ℕ) (objects : ℕ → PoolAllocator)
    (apart : (i j : ℕ) (p : Ptr)
      → i < n
      → j < n
      → i ≢ j
      → Within (objects i) p
      → ¬ (Within (objects j) p)) where
  module _ (s : System pool_methods) (o : Orderly n threads objects s)
      (serial : (i : ℕ) → Serial pool_methods (objects i) (view pool_methods i s)) (t : ℕ)
      (lt : t < threads) where
    exchange-Orderly :
        (j : ℕ) (first call : Call) (c : ℕ) (next : Local → PoolProcess)
        → Owns (Takes n threads objects) n (calls j call next) (o.held t)
        → (b : Bool) → s.flag j ≡ b
        → Orderly n threads objects (
            takes_effect pool_methods t j first next
              (at_exchange call c)
              (exchange pool_methods call c b (view pool_methods j s))
              s)
    exchange-Orderly j first call c next owned true held =
        waits n threads objects s o t lt j (calling j first (at_decrement call c) next)
          (update s.flag j (s.flag j)) owned
    exchange-Orderly j first call c next owned false clear =
        enters n threads objects apart s o serial t lt j call next owned clear first c

    -- An access of the thread that is inside
    accesses-Orderly :
        (j : ℕ) (first : Call) (l : Local) (a : Access) (rest : List Access)
        (next : Local → PoolProcess)
        → s.stand t ≡ calling j first (inside l (a ∷ rest)) next
        → Stands n threads objects s.shared (calling j first (inside l (a ∷ rest)) next) (o.held t)
        → Orderly n threads objects
            (moves pool_methods t false (calling j first (inside l (a ∷ rest)) next) s)
    unfolding finish
    accesses-Orderly j first l a rest next here owned =
        let r = a l (s.shared j) in
        let shared = update s.shared j r.1 in
        let inside_here : is_inside pool_methods (place_at pool_methods j (s.stand t)) ≡ true =
          rw (here, ==_refl j) refl in
        changes n threads objects s o t lt (calling j first (inside r.0 rest) next) (o.held t)
          (update s.flag j (s.flag j)) shared (update s.entered j (s.entered j)) s.heap_calls
          (subst
            (λ u.
              Owns (Takes n threads objects) n (next (finish pool_methods rest r.0 u).0) (o.held t))
            (sym (update_self s.shared j r.1)) owned)
          (λ k i e h. elim (ℕ_discrete i j) [
            | yes d ↦
                let out = alone (objects j) s j t (serial j) inside_here k e in
                let within =
                  ap (λ x. is_inside pool_methods (place_at pool_methods x (s.stand k))) (sym d)
                  ∙ h in
                absurd (cc)
            | no d ↦ sym (update_ne s.shared j r.1 i d)
          ])
          (λ i below.
            Kept-held n threads objects s.entered (update s.entered j (s.entered j)) o.held i t
              (o.held t) lt (update_same s.entered j i) (λ p within. refl) (o.kept i below))

    malloc-held :
        (p : Ptr) (held : List Ptr) (i : ℕ)
        → Foreign (Takes n threads objects) n p
        → i < n
        → (q : Ptr) → Within (objects i) q
        → count q (held ++ p ∷ []) ≡ count q held
    malloc-held p held i foreign below q within =
        let other : q ≢ p = λ e. foreign i below (subst (Within (objects i)) e within) in
        omega (arith, count-append q held (p ∷ []), same_ne q p other)

    free-held :
        (held xs : List Ptr) (p : Ptr) (ys : List Ptr) (i : ℕ)
        → Foreign (Takes n threads objects) n p
        → held ≡ xs ++ p ∷ ys
        → i < n
        → (q : Ptr) → Within (objects i) q
        → count q (xs ++ ys) ≡ count q held
    free-held held xs p ys i foreign parts below q within =
        let other : q ≢ p = λ e. foreign i below (subst (Within (objects i)) e within) in
        omega (
          arith,
          ap (count q) parts,
          count-append q xs (p ∷ ys),
          count-append q xs ys,
          same_ne q p other,
        )

    moves-Orderly :
        (seen : Bool) (d : Stand pool_methods)
        → s.stand t ≡ d
        → Stands n threads objects s.shared d (o.held t)
        → Orderly n threads objects (moves pool_methods t seen d s)
    unfolding Owns finish
    moves-Orderly seen (between ends) here owned = o
    moves-Orderly seen (between undefined) here owned = absurd owned
    moves-Orderly seen (between (asks (SystemHeap.Call.malloc size p) rest)) here owned =
        asked n threads objects s o t lt (between rest) (o.held t ++ p ∷ [])
          (s.heap_calls ++ SystemHeap.Call.malloc size p ∷ []) owned.1
          (λ i below q within. malloc-held p (o.held t) i owned.0 below q within)
    moves-Orderly seen (between (asks (SystemHeap.Call.free p) rest)) here owned =
        let (foreign, xs, ys, parts, rest_owns) = owned in
        asked n threads objects s o t lt (between rest) (xs ++ ys)
          (s.heap_calls ++ SystemHeap.Call.free p ∷ []) rest_owns
          (λ i below q within. free-held (o.held t) xs p ys i foreign parts below q within)
    moves-Orderly seen (between (calls j call next)) here owned =
        waits n threads objects s o t lt j (calling j call (at_load call counter_start) next)
          (update s.flag j (s.flag j)) owned
    moves-Orderly seen (calling j first outside next) here owned =
        waits n threads objects s o t lt j (calling j first (at_load first counter_start) next)
          (update s.flag j (s.flag j)) owned
    moves-Orderly true (calling j first (at_load call c) next) here owned =
        waits n threads objects s o t lt j (calling j first (at_decrement call c) next)
          (update s.flag j (s.flag j)) owned
    moves-Orderly false (calling j first (at_load call c) next) here owned =
        waits n threads objects s o t lt j (calling j first (at_exchange call c) next)
          (update s.flag j (s.flag j)) owned
    moves-Orderly seen (calling j first (at_exchange call c) next) here owned =
        exchange-Orderly j first call c next owned (s.flag j) refl
    moves-Orderly seen (calling j first (at_decrement call c) next) here owned =
        waits n threads objects s o t lt j (calling j first (at_load call (retry c)) next)
          (update s.flag j (s.flag j)) owned
    moves-Orderly seen (calling j first (inside l (a ∷ rest)) next) here owned =
        accesses-Orderly j first l a rest next here owned
    moves-Orderly seen (calling j first (inside l []) next) here owned =
        waits n threads objects s o t lt j (between (next l))
          (update s.flag j (if l.early then s.flag j else false)) owned

  step-Orderly :
      (s : System pool_methods) (turn : Turn pool_methods)
      → ((i : ℕ) → Serial pool_methods (objects i) (view pool_methods i s))
      → Orderly n threads objects s
      → Orderly n threads objects (step pool_methods turn s)
  unfolding step
  step-Orderly s turn serial o = elim (dec_lt turn.thread threads) [
    | yes lt ↦
        moves-Orderly s o serial turn.thread lt turn.seen (s.stand turn.thread) refl
          (o.stands turn.thread)
    | no above ↦ rw (o.no_more turn.thread (omega arith)) o
  ]

  pub run-Orderly :
      (turns : List (Turn pool_methods)) (s : System pool_methods)
      → ((i : ℕ) → Serial pool_methods (objects i) (view pool_methods i s))
      → Orderly n threads objects s
      → Orderly n threads objects (run pool_methods turns s)
  unfolding run
  run-Orderly [] s serial o = o
  run-Orderly (turn ∷ turns) s serial o =
      run-Orderly turns (step pool_methods turn s)
        (λ i. view_from-Serial pool_methods (objects i) i (turn ∷ []) s (serial i))
        (step-Orderly s turn serial o)
