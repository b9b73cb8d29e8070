-- ===== src/SystemHeap.antt =====
-- The calls of `malloc` and `free` that an operation makes, in order, and the blocks that the caller
-- then owns. What `malloc` answers is an argument of the operations; null means that it failed.
use memory_allocators.Base.{
  same, count, ==_false, ◌+◌, ◌<◌, ℕ, ◌≡◌, refl, Bool-cases, ==_refl, inl, inr, List, [], ◌∷◌, ◌++◌,
  Option, none, some, Ptr, null, ◌==◌, if◌then◌else◌, Option-cases, arith,
}
use mathlib.Core.Option
use native.Mathlib.Decide.{ℕ_discrete}

pub data Call : Type 0 where
  malloc : ℕ → Ptr → Call
  free : Ptr → Call

-- Gives back `p`; `none` if it is not owned.
pub disown : Ptr → List Ptr → Option (List Ptr)
disown p [] = none
disown p (q ∷ ps) = if p == q then some ps else Option.map (λ rest. q ∷ rest) (disown p ps)

-- What is owned is given back once.
pub count-disown :
    (p : Ptr) (l : List Ptr)
    → 0 < count p l
    → (rest : List Ptr) × (disown p l ≡ some rest)
      × ((q : Ptr) → count q rest + same q p ≡ count q l)
unfolding disown same
count-disown p [] h = absurd (omega arith)
count-disown p (x ∷ l) h = elim (ℕ_discrete p x) [
  | yes e ↦ (l, rw (e, ==_refl x) refl, λ q. rw e (omega arith))
  | no e ↦
      let (rest, run, counts) = count-disown p l (ground arith) in
      (x ∷ rest, rw (==_false p x e, run) refl, λ q. omega (arith, counts q))
]

-- One call. `free(nullptr)` does nothing; to free what is not owned is a fault, `none`.
unfoldable pub owns_after : List Ptr → Call → Option (List Ptr)
unfolding disown
owns_after ps (malloc n p) = if p == null then some ps else some (p ∷ ps)
owns_after ps (free p) = if p == null then some ps else disown p ps

unfoldable pub owned : List Ptr → List Call → Option (List Ptr)
owned ps [] = some ps
owned ps (c ∷ cs) = Option.bind (owns_after ps c) (λ rest. owned rest cs)

-- What an object with the one block `start` owns.
abbrev pub only : Ptr → List Ptr
only start = if start == null then [] else start ∷ []

-- The calls of one operation after those of another.
pub owned-append :
    (cs ds : List Call) (ps : List Ptr) {rest : List Ptr}
    → owned ps cs ≡ some rest
    → owned ps (cs ++ ds) ≡ owned rest ds
unfolding owned Option.bind
owned-append [] ds ps h = ground arith
owned-append (c ∷ cs) ds ps {rest} h = elim (Option-cases (owns_after ps c)) [
  | inl e ↦ absurd (ground (arith, e))
  | inr (qs, e) ↦ rw e (owned-append cs ds qs (ground (arith, e)))
]

-- The calls by which the allocators give up their block, and take another one.
pub owned-free : (p : Ptr) → owned (only p) (free p ∷ []) ≡ some []
unfolding owned owns_after Option.bind
owned-free p = elim (Bool-cases (p == null)) [ inl e ↦ rw e refl | inr e ↦ rw (e, ==_refl p) refl ]

pub owned_malloc : (n : ℕ) (q : Ptr) → owned [] (malloc n q ∷ []) ≡ some (only q)
unfolding owned owns_after Option.bind
owned_malloc n q = elim (Bool-cases (q == null)) [ inl e ↦ rw e refl | inr e ↦ rw e refl ]

pub owned_renew :
    (p : Ptr) (n : ℕ) (q : Ptr)
    → owned (only p) (if p == null then malloc n q ∷ [] else free p ∷ malloc n q ∷ [])
      ≡ some (only q)
unfolding owned owns_after Option.bind
owned_renew p n q = elim (Bool-cases (p == null)) [
  | inl e ↦ rw e (owned_malloc n q)
  | inr e ↦ rw (e, e, ==_refl p) (owned_malloc n q)
]
