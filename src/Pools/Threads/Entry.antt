-- ===== src/Pools/Threads/Entry.antt =====
-- What a thread of RunMultiThreadTest holds when it has got the lock of a pool, and what the pool has
-- lent then.
use memory_allocators.Base.{
  ℕ, zero, suc, ◌+◌, ◌≤◌, ◌<◌, ◌≡◌, ◌≢◌, inl, inr, refl, sym, subst, ap, ◌∙◌, arith, Bool, true,
  false, ltb, ◌||◌, ◌==◌, if◌then◌else◌, List, [], ◌∷◌, ◌++◌, Ptr, null, add64, Bool-cases, same,
  same_self, same_ne, ==_false, count, count-append, count-split,
}
use native.Mathlib.Decide.{ℕ_discrete}
use memory_allocators.Pool.{PoolAllocator}
use memory_allocators.Pool.Invariant.{Accounted}
use memory_allocators.Pool.Chunks.{lends, lends-Accounted}
use memory_allocators.Pool.Giving.{takes_back-Accounted}
use memory_allocators.Pools.Holdings.{lent_bounds}
use memory_allocators.Pools.Threads.{PoolProcess}
use memory_allocators.Pools.Threads.Ownership.{Owns}
use memory_allocators.Sharing.{finish}
use memory_allocators.Sharing.PoolMethods.{Call, allocates, frees, Local}
use memory_allocators.Sharing.PoolMethods.Agreement.{outcome, allocates-lends}
use memory_allocators.Sharing.PoolMethods.Histories.{free-takes_back, allocates-none}
use memory_allocators.Sharing.Several.{calls}

-- The addresses that `Free` of a pool does not refuse
abbrev pub Within : PoolAllocator → Ptr → Type 0
Within u p = (u.start_ptr ≤ p) × (p ≤ u.start_ptr + u.total_size)

-- Behind a call of a pool: what the thread holds, with what follows, and what the pool has lent.
-- `others` is how often the other threads hold an address.
pub record Entered (Takes : ℕ → Ptr → Type 0) (n : ℕ) (u : PoolAllocator) (others : Ptr → ℕ)
    (held : List Ptr) (next : Local → PoolProcess) (r : Local × PoolAllocator) : Type 0 where
  pub holds : List Ptr
  pub left : ℕ
  pub lent : List Ptr
  pub owns : Owns Takes n (next r.0) holds
  pub accounted : Accounted r.1 left lent
  pub same_start : r.1.start_ptr ≡ u.start_ptr
  pub same_size : r.1.total_size ≡ u.total_size
  pub covered : (p : Ptr) → Within u p → others p + count p holds ≡ count p lent
  pub elsewhere : (p : Ptr) → ¬ (Within u p) → count p holds ≡ count p held

module _ (Takes : ℕ → Ptr → Type 0) (n i : ℕ) (u : PoolAllocator) (others : Ptr → ℕ)
    (held : List Ptr) (next : Local → PoolProcess)
    (takes : (p : Ptr) → Takes i p → Within u p) where
  count-held :
      (a p : Ptr)
      → a ≢ null
      → count p (if a == null then held else held ++ a ∷ []) ≡ count p held + same p a
  count-held a p there = rw (==_false a null there) (omega (arith, count-append p held (a ∷ [])))

  allocates-Entered :
      (k : ℕ) (lent : List Ptr)
      → Accounted u k lent
      → ((p : Ptr) → Within u p → others p + count p held ≡ count p lent)
      → Owns Takes n (calls i allocates next) held
      → Entered Takes n u others held next (outcome allocates u)
  unfolding Owns finish
  allocates-Entered zero lent inv covers owned =
      let l = (outcome allocates u).0 in
      let none : l.address ≡ null = rw (inv.index) refl in
      let shape : (if l.address == null then held else held ++ l.address ∷ []) ≡ held =
        rw (none) refl in
      let stays = allocates-none u lent inv in
      record {
        holds = held;
        left = 0;
        lent = lent;
        owns = subst (Owns Takes n (next l)) shape (owned.1 l);
        accounted = subst (λ w. Accounted w 0 lent) (sym stays) inv;
        same_start = ap (λ w. w.start_ptr) stays;
        same_size = ap (λ w. w.total_size) stays;
        covered = covers;
        elsewhere = λ p out. omega arith;
      }
  allocates-Entered (suc k) lent inv covers owned =
      let l = (outcome allocates u).0 in
      let a = u.free_chunks k in
      let address : l.address ≡ a = rw (inv.index) refl in
      let gives = allocates-lends u k lent inv in
      let inv' = lends-Accounted u k lent inv in
      let bounds =
        λ (p : Ptr) (h : 0 < count p (a ∷ lent)). lent_bounds (lends k u) k (a ∷ lent) p inv' h in
      let there : a ≢ null =
        λ none. absurd (omega (arith, bounds a (omega (arith, same_self a)), inv.held, none)) in
      let more = λ (p : Ptr).
        ap (λ x. count p (if x == null then held else held ++ x ∷ [])) address
        ∙ count-held a p there in
      record {
        holds = if l.address == null then held else held ++ l.address ∷ [];
        left = k;
        lent = a ∷ lent;
        owns = owned.1 l;
        accounted = subst (λ w. Accounted w k (a ∷ lent)) (sym gives) inv';
        same_start = ap (λ w. w.start_ptr) gives;
        same_size = ap (λ w. w.total_size) gives;
        covered = λ p within. omega (arith, more p, covers p within);
        elsewhere = λ p out. elim (ℕ_discrete p a) [
          | yes e ↦
              let b = bounds p (rw e (omega (arith, same_self a))) in
              absurd (out (omega (arith, b), omega (arith, b)))
          | no e ↦ omega (arith, more p, same_ne p a e)
        ];
      }

  module _ (k : ℕ) (lent : List Ptr) (inv : Accounted u k lent)
      (covers : (p : Ptr) → Within u p → others p + count p held ≡ count p lent) where
    abbrev outside : Ptr → Bool
    outside p = ltb p u.start_ptr || ltb (add64 u.start_ptr u.total_size) p

    outside-Within : (p : Ptr) → outside p ≡ false → Within u p
    outside-Within p e =
        let top : add64 u.start_ptr u.total_size ≡ u.start_ptr + u.total_size =
          omega (arith, inv.fits) in
        ground (arith, top, e)

    outside-not_Within : (p : Ptr) → outside p ≡ true → ¬ (Within u p)
    outside-not_Within p e within =
        let top : add64 u.start_ptr u.total_size ≡ u.start_ptr + u.total_size =
          omega (arith, inv.fits) in
        ground (arith, top, e, within)

    -- A refused address
    refused-Entered :
        (p : Ptr)
        → outside p ≡ true
        → Owns Takes n (calls i (frees p) next) held
        → Entered Takes n u others held next (outcome (frees p) u)
    unfolding Owns finish
    refused-Entered p out owned =
        let (there, xs, ys, parts, next_owns) = owned in
        let l = (outcome (frees p) u).0 in
        let early : l.early ≡ true = rw (out) refl in
        let stays : (outcome (frees p) u).1 ≡ u = rw (out) refl in
        let shape : (if l.early then held else xs ++ ys) ≡ held = rw (early) refl in
        record {
          holds = held;
          left = k;
          lent = lent;
          owns =
              subst (Owns Takes n (next l)) shape
                (next_owns l (λ e q. outside-not_Within p out (takes p q)));
          accounted = subst (λ w. Accounted w k lent) (sym stays) inv;
          same_start = ap (λ w. w.start_ptr) stays;
          same_size = ap (λ w. w.total_size) stays;
          covered = covers;
          elsewhere = λ q far. omega arith;
        }

    -- An address that the pool takes
    taken-Entered :
        (p : Ptr)
        → outside p ≡ false
        → Owns Takes n (calls i (frees p) next) held
        → Entered Takes n u others held next (outcome (frees p) u)
    unfolding Owns finish
    taken-Entered p out owned =
        let (there, xs, ys, parts, next_owns) = owned in
        let counts : (q : Ptr) → count q held ≡ same q p + count q (xs ++ ys) = λ q.
          ap (count q) parts ∙ omega (arith, count-append q xs (p ∷ ys), count-append q xs ys) in
        let (vs, ws, split) =
          count-split p lent
            (omega (arith, covers p (outside-Within p out), counts p, same_self p)) in
        let here : Accounted u k (vs ++ p ∷ ws) = subst (Accounted u k) split inv in
        let lends_counts : (q : Ptr) → count q lent ≡ same q p + count q (vs ++ ws) = λ q.
          ap (count q) split ∙ omega (arith, count-append q vs (p ∷ ws), count-append q vs ws) in
        let l = (outcome (frees p) u).0 in
        let on_time : l.early ≡ false = rw (out) refl in
        let gives = free-takes_back u k vs p ws here in
        let shape : (if l.early then held else xs ++ ys) ≡ xs ++ ys = rw (on_time) refl in
        record {
          holds = xs ++ ys;
          left = suc k;
          lent = vs ++ ws;
          owns = subst (Owns Takes n (next l)) shape (next_owns l (λ e. absurd (cc)));
          accounted =
              subst (λ w. Accounted w (suc k) (vs ++ ws)) (sym gives)
                (takes_back-Accounted u k vs p ws here);
          same_start = ap (λ w. w.start_ptr) gives;
          same_size = ap (λ w. w.total_size) gives;
          covered = λ q within. omega (arith, covers q within, counts q, lends_counts q);
          elsewhere = λ q far.
              let other : q ≢ p = λ e. far (subst (Within u) (sym e) (outside-Within p out)) in
              omega (arith, counts q, same_ne q p other);
        }

    -- A thread that gets the lock of a pool for a call that is in order
    pub enters-Owns :
        (call : Call)
        → Owns Takes n (calls i call next) held
        → Entered Takes n u others held next (outcome call u)
    enters-Owns allocates owned = allocates-Entered k lent inv covers owned
    enters-Owns (frees p) owned = elim (Bool-cases (outside p)) [
      | inl e ↦ refused-Entered p e owned
      | inr e ↦ taken-Entered p e owned
    ]
