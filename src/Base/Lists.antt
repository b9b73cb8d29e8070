-- ===== src/Base/Lists.antt =====
-- std::vector as a list: its length, and access and removal at an index.
use Prim.Native.Nat.{ℕ, zero, suc, ◌+◌, ◌<◌}
use mathlib.Core.Path.{◌≡◌, refl, ap}
use mathlib.Core.List.{List, [], ◌∷◌, ◌++◌}
use mathlib.Core.Option.{Option, none, some}
use native.Mathlib.Omega.{arith}

module _ {ℓ} {A : Type ℓ} where
  abbrev pub length : List A → ℕ
  length [] = 0
  length (x ∷ xs) = suc (length xs)

  abbrev pub get_elem? : List A → ℕ → Option A
  get_elem? [] i = none
  get_elem? (x ∷ xs) zero = some x
  get_elem? (x ∷ xs) (suc i) = get_elem? xs i

  -- An index out of range changes nothing.
  abbrev pub erase_idx : List A → ℕ → List A
  erase_idx [] i = []
  erase_idx (x ∷ xs) zero = xs
  erase_idx (x ∷ xs) (suc i) = x ∷ erase_idx xs i

  pub length-append : (xs ys : List A) → length (xs ++ ys) ≡ length xs + length ys
  length-append [] ys = omega arith
  length-append (x ∷ xs) ys = omega (arith, length-append xs ys)

  -- The element at an index in range, and the two parts around it
  pub split_at :
      (l : List A) (i : ℕ)
      → i < length l
      → (xs : List A) × (x : A) × (ys : List A) × (l ≡ xs ++ x ∷ ys)
        × (get_elem? l i ≡ some x)
        × (erase_idx l i ≡ xs ++ ys)
  split_at [] i h = absurd (omega arith)
  split_at (x ∷ l) zero h = ([], x, l, refl, refl, refl)
  split_at (x ∷ l) (suc i) h =
      let (xs, y, ys, parts, here, rest) = split_at l i (omega arith) in
      (x ∷ xs, y, ys, ap (◌∷◌ x) parts, here, ap (◌∷◌ x) rest)
