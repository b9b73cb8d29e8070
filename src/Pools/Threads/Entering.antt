-- ===== src/Pools/Threads/Entering.antt =====
-- A thread of RunMultiThreadTest that gets the lock of a pool: the threads' order stays.
use memory_allocators.Base.{
  ℕ, ◌+◌, ◌<◌, ◌≡◌, ◌≢◌, sym, subst, ap, ◌∙◌, arith, true, false, List, [], ◌∷◌, ◌++◌, Ptr, count,
  total, total-update, update, update_self, update_ne,
}
use native.Mathlib.Decide.{ℕ_discrete}
use memory_allocators.Pool.{PoolAllocator}
use memory_allocators.Pool.Invariant.{Accounted}
use memory_allocators.Pools.Threads.{PoolProcess}
use memory_allocators.Pools.Threads.Ownership.{Owns}
use memory_allocators.Pools.Threads.Entry.{Within, Entered, enters-Owns}
use memory_allocators.Pools.Threads.Orderly.{update_same, Takes, Kept, Kept-held, Orderly, changes}
use memory_allocators.Sharing.{at_exchange, inside, in_turn, exchange}
use memory_allocators.Sharing.Serial.{Serial, Serial-resting, in_turn-append}
use memory_allocators.Sharing.PoolMethods.{
  Call, allocates, frees, Local, nothing_read, accesses, pool_methods,
}
use memory_allocators.Sharing.PoolMethods.Agreement.{outcome}
use memory_allocators.Sharing.Several.{calls, calling, System, view, takes_effect}

Owns-there :
    (F : ℕ → Ptr → Type 0) (n i : ℕ) (call : Call) (next : Local → PoolProcess) (held : List Ptr)
    → Owns F n (calls i call next) held
    → i < n
unfolding Owns
Owns-there F n i allocates next held o = o.0
Owns-there F n i (frees p) next held o = o.0

module _ (n threads : ℕ) (objects : ℕ → PoolAllocator)
    (apart : (i j : ℕ) (p : Ptr)
      → i < n
      → j < n
      → i ≢ j
      → Within (objects i) p
      → ¬ (Within (objects j) p)) where
  module _ (s : System pool_methods) (o : Orderly n threads objects s)
      (serial : (i : ℕ) → Serial pool_methods (objects i) (view pool_methods i s)) (t : ℕ)
      (lt : t < threads) where
    -- The thread gets the lock of the pool `j`.
    module _ (j : ℕ) (call : Call) (next : Local → PoolProcess)
        (owned : Owns (Takes n threads objects) n (calls j call next) (o.held t))
        (clear : s.flag j ≡ false) where
      abbrev pool : PoolAllocator
      pool = in_turn pool_methods (s.entered j) (objects j)

      there : j < n
      there = Owns-there (Takes n threads objects) n j call next (o.held t) owned

      abbrev before : Kept n threads objects s.entered o.held j
      before = o.kept j there

      -- How often the other threads hold an address
      abbrev others : Ptr → ℕ
      others p = total (count p) threads (update o.held t [])

      held_by : (p : Ptr) → others p + count p (o.held t) ≡ total (count p) threads o.held
      held_by p = omega (arith, total-update (count p) threads o.held t [] lt)

      held_then :
          (p : Ptr) (held : List Ptr)
          → total (count p) threads (update o.held t held) ≡ others p + count p held
      held_then p held = omega (arith, held_by p, total-update (count p) threads o.held t held lt)

      entry : Entered (Takes n threads objects) n pool others (o.held t) next (outcome call pool)
      entry =
          enters-Owns (Takes n threads objects) n j pool others (o.held t) next
            (λ p within. (
              omega (arith, before.same_start, within),
              omega (arith, before.same_start, before.same_size, within),
            ))
            before.left before.lent before.accounted
            (λ p within. omega (
              arith,
              held_by p,
              before.covered p (
                omega (arith, before.same_start, within),
                omega (arith, before.same_start, before.same_size, within),
              ),
            ))
            call owned

      pool-append :
          in_turn pool_methods (s.entered j ++ call ∷ []) (objects j) ≡ (outcome call pool).1
      pool-append = in_turn-append pool_methods (s.entered j) call (objects j)

      abbrev entered_then : ℕ → List Call
      entered_then = update s.entered j (s.entered j ++ call ∷ [])

      -- The pool itself
      entered-Kept : Kept n threads objects entered_then (update o.held t entry.holds) j
      entered-Kept =
          let e : in_turn pool_methods (entered_then j) (objects j) ≡ (outcome call pool).1 =
            ap (λ cs. in_turn pool_methods cs (objects j))
              (update_self s.entered j (s.entered j ++ call ∷ []))
            ∙ pool-append in
          record {
            left = entry.left;
            lent = entry.lent;
            accounted = subst (λ u. Accounted u entry.left entry.lent) (sym e) entry.accounted;
            same_start = ap (λ u. u.start_ptr) e ∙ entry.same_start ∙ before.same_start;
            same_size = ap (λ u. u.total_size) e ∙ entry.same_size ∙ before.same_size;
            covered = λ p within. omega (
              arith,
              held_then p entry.holds,
              entry.covered p (
                omega (arith, before.same_start, within),
                omega (arith, before.same_start, before.same_size, within),
              ),
            );
          }

      -- Another pool
      other-Kept :
          (i : ℕ)
          → i < n
          → i ≢ j
          → Kept n threads objects entered_then (update o.held t entry.holds) i
      other-Kept i below other =
          Kept-held n threads objects s.entered entered_then o.held i t entry.holds lt
            (update_ne s.entered j (s.entered j ++ call ∷ []) i other)
            (λ p within. entry.elsewhere p (λ mine. apart i j p below there other within (
              omega (arith, before.same_start, mine),
              omega (arith, before.same_start, before.same_size, mine),
            )))
            (o.kept i below)

      pub enters :
          (first : Call) (c : ℕ)
          → Orderly n threads objects (
              takes_effect pool_methods t j first next
                (at_exchange call c)
                (exchange pool_methods call c false (view pool_methods j s))
                s)
      enters first c =
          let shared = update s.shared j (s.shared j) in
          let same = update_same s.shared j in
          let here : shared j ≡ pool =
            same j
            ∙ Serial-resting pool_methods (objects j) (view pool_methods j s) (serial j) clear in
          changes n threads objects s o t lt
            (calling j first (inside nothing_read (accesses call)) next) entry.holds
            (update s.flag j true) shared entered_then s.heap_calls
            (subst (λ u. Owns (Takes n threads objects) n (next (outcome call u).0) entry.holds)
              (sym here) entry.owns)
            (λ k i e h. sym (same i))
            (λ i below. elim (ℕ_discrete i j) [
              | yes e ↦
                  subst (Kept n threads objects entered_then (update o.held t entry.holds)) (sym e)
                    entered-Kept
              | no e ↦ other-Kept i below e
            ])
