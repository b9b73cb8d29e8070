-- ===== src/Pools/Threads/Orderly.antt =====
-- What the threads of RunMultiThreadTest hold together, and what the pools have lent them, in a state.
use memory_allocators.Base.{
  ℕ, ◌≤◌, ◌<◌, ◌≡◌, ◌≢◌, refl, sym, subst, ap, ◌∙◌, arith, Bool, true, List, Ptr, count, total,
  ==_refl, total-update, update, update_self, update_ne,
}
use native.Mathlib.Decide.{ℕ_discrete}
use memory_allocators.SystemHeap
use memory_allocators.Pool.{PoolAllocator}
use memory_allocators.Pool.Invariant.{Accounted}
use memory_allocators.Pools.Threads.Ownership.{Owns}
use memory_allocators.Pools.Threads.Entry.{Within}
use memory_allocators.Sharing.{outside, at_load, at_exchange, at_decrement, inside, finish, in_turn}
use memory_allocators.Sharing.Serial.{is_inside}
use memory_allocators.Sharing.PoolMethods.{Call, pool_methods}
use memory_allocators.Sharing.Several.{ends, calls, Stand, between, calling, System, place_at}

pub update_same : {A : Type 0} (f : ℕ → A) (i j : ℕ) → update f i (f i) j ≡ f j
update_same f i j = elim (ℕ_discrete j i) [
  | yes e ↦ rw e (update_self f i (f i))
  | no e ↦ update_ne f i (f i) j e
]

-- `n` pools, `threads` threads, and the pools at the start
module _ (n threads : ℕ) (objects : ℕ → PoolAllocator) where
  -- The addresses that a pool does not refuse
  abbrev pub Takes : ℕ → Ptr → Type 0
  Takes i p = Within (objects i) p

  -- A thread holds these addresses, and goes on in order. A thread that is inside a pool holds already
  -- what it will when it comes out.
  abbrev pub Stands : (ℕ → PoolAllocator) → Stand pool_methods → List Ptr → Type 0
  Stands shared (between q) held = Owns Takes n q held
  Stands shared (calling i call (inside l rest) next) held =
      Owns Takes n (next (finish pool_methods rest l (shared i)).0) held
  Stands shared (calling i call outside next) held = Owns Takes n (calls i call next) held
  Stands shared (calling i _ (at_load call c) next) held = Owns Takes n (calls i call next) held
  Stands shared (calling i _ (at_exchange call c) next) held = Owns Takes n (calls i call next) held
  Stands shared (calling i _ (at_decrement call c) next) held =
      Owns Takes n (calls i call next) held

  -- The pool that the calls so far make is in order, and an address of its memory is held by the
  -- threads together as often as it is lent.
  pub record Kept (entered : ℕ → List Call) (held : ℕ → List Ptr) (i : ℕ) : Type 0 where
    pub left : ℕ
    pub lent : List Ptr
    pub accounted : Accounted (in_turn pool_methods (entered i) (objects i)) left lent
    pub same_start :
        (in_turn pool_methods (entered i) (objects i)).start_ptr ≡ (objects i).start_ptr
    pub same_size :
        (in_turn pool_methods (entered i) (objects i)).total_size ≡ (objects i).total_size
    pub covered : (p : Ptr) → Within (objects i) p → total (count p) threads held ≡ count p lent

  pub record Orderly (s : System pool_methods) : Type 0 where
    pub held : ℕ → List Ptr
    pub stands : (t : ℕ) → Stands s.shared (s.stand t) (held t)
    pub kept : (i : ℕ) → i < n → Kept s.entered held i
    pub no_more : (t : ℕ) → threads ≤ t → s.stand t ≡ between ends

  -- Other pools do not matter, nor a pool in which the thread is not inside.
  pub Stands-shared :
      (before after : ℕ → PoolAllocator) (d : Stand pool_methods) (held : List Ptr)
      → ((j : ℕ) → is_inside pool_methods (place_at pool_methods j d) ≡ true → before j ≡ after j)
      → Stands before d held
      → Stands after d held
  Stands-shared before after (between q) held h o = o
  Stands-shared before after (calling i call outside next) held h o = o
  Stands-shared before after (calling i call (at_load c k) next) held h o = o
  Stands-shared before after (calling i call (at_exchange c k) next) held h o = o
  Stands-shared before after (calling i call (at_decrement c k) next) held h o = o
  Stands-shared before after (calling i call (inside l rest) next) held h o =
      subst (λ u. Owns Takes n (next (finish pool_methods rest l u).0) held)
        (h i (rw (==_refl i) refl)) o

  -- One thread holds of a pool what it held before, and the pool has had no call.
  pub Kept-held :
      (entered entered' : ℕ → List Call) (held : ℕ → List Ptr) (i t : ℕ) (other : List Ptr)
      → t < threads
      → entered' i ≡ entered i
      → ((p : Ptr) → Within (objects i) p → count p other ≡ count p (held t))
      → Kept entered held i
      → Kept entered' (update held t other) i
  Kept-held entered entered' held i t other lt e le k =
      let u = λ (calls : List Call). in_turn pool_methods calls (objects i) in
      record {
        left = k.left;
        lent = k.lent;
        accounted = subst (λ x. Accounted (u x) k.left k.lent) (sym e) k.accounted;
        same_start = ap (λ x. (u x).start_ptr) e ∙ k.same_start;
        same_size = ap (λ x. (u x).total_size) e ∙ k.same_size;
        covered = λ p within. omega (
          arith,
          total-update (count p) threads held t other lt,
          le p within,
          k.covered p within,
        );
      }

  module _ (s : System pool_methods) (o : Orderly s) (t : ℕ) (lt : t < threads) where
    -- A step of the thread `t`
    pub changes :
        (d : Stand pool_methods) (held : List Ptr) (flag : ℕ → Bool) (shared : ℕ → PoolAllocator)
        (entered : ℕ → List Call) (heap_calls : List SystemHeap.Call)
        → Stands shared d held
        → ((k j : ℕ)
            → k ≢ t
            → is_inside pool_methods (place_at pool_methods j (s.stand k)) ≡ true
            → s.shared j ≡ shared j)
        → ((i : ℕ) → i < n → Kept entered (update o.held t held) i)
        → Orderly (record {
          flag = flag;
          shared = shared;
          entered = entered;
          stand = update s.stand t d;
          heap_calls = heap_calls;
        })
    changes d held flag shared entered heap_calls own others kept = record {
      held = update o.held t held;
      stands = λ k. elim (ℕ_discrete k t) [
        | yes e ↦ rw (e, update_self s.stand t d, update_self o.held t held) own
        | no e ↦
            rw (update_ne s.stand t d k e, update_ne o.held t held k e)
              (Stands-shared s.shared shared (s.stand k) (o.held k) (λ j. others k j e)
                (o.stands k))
      ];
      kept = kept;
      no_more = λ k above.
          update_ne s.stand t d k (λ e. absurd (omega (arith, above, lt, e))) ∙ o.no_more k above;
    }

    -- The thread asks the system's heap, and holds other addresses behind it.
    pub asked :
        (d : Stand pool_methods) (held : List Ptr) (heap_calls : List SystemHeap.Call)
        → Stands s.shared d held
        → ((i : ℕ) → i < n → (p : Ptr) → Within (objects i) p → count p held ≡ count p (o.held t))
        → Orderly (record s { stand = update s.stand t d; heap_calls = heap_calls })
    asked d held heap_calls own le =
        changes d held s.flag s.shared s.entered heap_calls own (λ k j e h. refl)
          (λ i below.
            Kept-held s.entered s.entered o.held i t held lt refl (le i below) (o.kept i below))

    -- The thread does nothing to the pool `j`.
    pub waits :
        (j : ℕ) (d : Stand pool_methods) (flag : ℕ → Bool)
        → Stands s.shared d (o.held t)
        → Orderly (record {
          flag = flag;
          shared = update s.shared j (s.shared j);
          entered = update s.entered j (s.entered j);
          stand = update s.stand t d;
          heap_calls = s.heap_calls;
        })
    waits j d flag own =
        let same = update_same s.shared j in
        changes d (o.held t) flag (update s.shared j (s.shared j))
          (update s.entered j (s.entered j)) s.heap_calls
          (Stands-shared s.shared (update s.shared j (s.shared j)) d (o.held t)
            (λ i h. sym (same i)) own)
          (λ k i e h. sym (same i))
          (λ i below.
            Kept-held s.entered (update s.entered j (s.entered j)) o.held i t (o.held t) lt
              (update_same s.entered j i) (λ p within. refl) (o.kept i below))
