-- ===== src/Base/Bags.antt =====
-- Addresses in a list, up to their order: how often each occurs.
use Prim.Native.Nat.{ℕ, ◌+◌, ◌<◌}
use mathlib.Core.Path.{◌≡◌, refl, sym, ap}
use mathlib.Core.Logic.{◌≢◌}
use mathlib.Core.List.{List, [], ◌∷◌, ◌++◌}
use native.Mathlib.Omega.{arith}
use native.Mathlib.Decide.{ℕ_discrete}
use memory_allocators.Base.Words.{Ptr}
use memory_allocators.Base.Tests.{◌==◌, if◌then◌else◌, ==_refl, ==_false}

-- 1 where the two are one address
unfoldable pub same : Ptr → Ptr → ℕ
same p q = if q == p then 1 else 0

pub same_self : (p : Ptr) → same p p ≡ 1
unfolding same
same_self p = rw (==_refl p) refl

pub same_ne : (p q : Ptr) → p ≢ q → same p q ≡ 0
unfolding same
same_ne p q h = rw (==_false q p (λ e. h (sym e))) refl

abbrev pub count : Ptr → List Ptr → ℕ
count p [] = 0
count p (q ∷ qs) = same p q + count p qs

pub count-append : (p : Ptr) (xs ys : List Ptr) → count p (xs ++ ys) ≡ count p xs + count p ys
count-append p [] ys = omega arith
count-append p (x ∷ xs) ys = omega (arith, count-append p xs ys)

-- An address that occurs, and what stands around it
pub count-split :
    (p : Ptr) (l : List Ptr)
    → 0 < count p l
    → (xs : List Ptr) × (ys : List Ptr) × (l ≡ xs ++ p ∷ ys)
unfolding same
count-split p [] h = absurd (omega arith)
count-split p (q ∷ l) h = elim (ℕ_discrete q p) [
  | yes e ↦ ([], l, ap (λ x. x ∷ l) e)
  | no e ↦ let (xs, ys, parts) = count-split p l (ground arith) in (q ∷ xs, ys, ap (◌∷◌ q) parts)
]

-- A list in which nothing occurs
pub count_none : (l : List Ptr) → ((p : Ptr) → count p l ≡ 0) → l ≡ []
count_none [] h = refl
count_none (q ∷ l) h = absurd (omega (arith, h q, same_self q))
