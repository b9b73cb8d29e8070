-- ===== src/Base/Arrays.antt =====
-- Arrays as functions of the index. An access out of range is a fault of the code that makes it.
use Prim.Native.Nat.{ℕ, zero, suc, ◌+◌, ◌≤◌, ◌<◌}
use mathlib.Core.Path.{◌≡◌, refl, ap}
use mathlib.Core.Logic.{◌≢◌, inl, inr}
use native.Mathlib.Decide.{dec_lt}
use native.Mathlib.Omega.{arith}
use memory_allocators.Base.Tests.{◌==◌, if◌then◌else◌, Bool-cases, ==_refl, ==_false}

module _ {ℓ} {A : Type ℓ} where
  -- f[i] = v
  unfoldable pub update : (ℕ → A) → ℕ → A → ℕ → A
  update f i v j = if j == i then v else f j

  -- std::swap(f[i], f[j])
  unfoldable pub swap : (ℕ → A) → ℕ → ℕ → ℕ → A
  swap f i j = update (update f i (f j)) j (f i)

  pub update_self : (f : ℕ → A) (i : ℕ) (v : A) → update f i v i ≡ v
  unfolding update
  update_self f i v = rw (==_refl i) refl

  pub update_ne : (f : ℕ → A) (i : ℕ) (v : A) (j : ℕ) → j ≢ i → update f i v j ≡ f j
  unfolding update
  update_ne f i v j h = rw (==_false j i h) refl

  pub update_eq : (f : ℕ → A) (i j : ℕ) → update f i (f j) j ≡ f j
  unfolding update
  update_eq f i j = elim (Bool-cases (j == i)) [ inl e ↦ rw e refl | inr e ↦ rw e refl ]

  pub swap_right : (f : ℕ → A) (i j : ℕ) → swap f i j j ≡ f i
  unfolding swap
  swap_right f i j = update_self (update f i (f j)) j (f i)

  -- The sum of a weight over the first `n` entries.
  unfoldable pub total : (A → ℕ) → ℕ → (ℕ → A) → ℕ
  total w zero f = 0
  total w (suc n) f = total w n f + w (f n)

module _ {ℓ} {A : Type ℓ} (w : A → ℕ) where
  pub total-suc : (n : ℕ) (f : ℕ → A) → total w (suc n) f ≡ total w n f + w (f n)
  unfolding total
  total-suc n f = refl

  pub total-update_above :
      (n : ℕ) (f : ℕ → A) (i : ℕ) (v : A) → n ≤ i → total w n (update f i v) ≡ total w n f
  unfolding total
  total-update_above zero f i v h = refl
  total-update_above (suc n) f i v h =
      rw (total-update_above n f i v (omega arith), update_ne f i v n (omega arith)) refl

  -- What the write adds is what it takes away less.
  pub total-update :
      (n : ℕ) (f : ℕ → A) (i : ℕ) (v : A)
      → i < n
      → total w n (update f i v) + w (f i) ≡ total w n f + w v
  unfolding total
  total-update zero f i v h = absurd (omega arith)
  total-update (suc n) f i v h = elim (dec_lt i n) [
    | yes below ↦ rw (update_ne f i v n (omega arith)) (omega (arith, total-update n f i v below))
    | no last ↦
        let e : i ≡ n = omega arith in
        rw (e, update_self f n v, total-update_above n f n v (omega arith)) (omega arith)
  ]

  pub total-swap :
      (n : ℕ) (f : ℕ → A) (i j : ℕ) → i < n → j < n → total w n (swap f i j) ≡ total w n f
  unfolding swap
  total-swap n f i j hi hj =
      let g : ℕ → A = update f i (f j) in
      omega
        (arith, total-update n g j (f i) hj, total-update n f i (f j) hi, ap w (update_eq f i j))

  pub le-total : (n : ℕ) (f : ℕ → A) (i : ℕ) → i < n → w (f i) ≤ total w n f
  unfolding total
  le-total zero f i h = absurd (omega arith)
  le-total (suc n) f i h = elim (dec_lt i n) [
    | yes below ↦ omega (arith, le-total n f i below)
    | no last ↦ let e : i ≡ n = omega arith in rw e (omega arith)
  ]

  pub total_zero : (n : ℕ) (f : ℕ → A) → ((i : ℕ) → i < n → w (f i) ≡ 0) → total w n f ≡ 0
  unfolding total
  total_zero zero f h = refl
  total_zero (suc n) f h =
      omega (arith, h n (omega arith), total_zero n f (λ i l. h i (omega arith)))

module _ {ℓ} {A : Type ℓ} (w : A → ℕ) where
  pub pair-le-total :
      (n : ℕ) (f : ℕ → A) (i j : ℕ) → i < j → j < n → w (f i) + w (f j) ≤ total w n f
  unfolding total
  pair-le-total zero f i j h k = absurd (omega arith)
  pair-le-total (suc n) f i j h k = elim (dec_lt j n) [
    | yes below ↦ omega (arith, pair-le-total n f i j h below)
    | no last ↦ let e : j ≡ n = omega arith in rw e (omega (arith, le-total w n f i (omega arith)))
  ]

  -- A sum that is not zero has an entry that is not zero.
  pub total_pos : (n : ℕ) (f : ℕ → A) → 0 < total w n f → (i : ℕ) × (i < n) × (0 < w (f i))
  unfolding total
  total_pos zero f h = absurd (omega arith)
  total_pos (suc n) f h = elim (dec_lt 0 (w (f n))) [
    | yes last ↦ (n, omega arith, last)
    | no none ↦ let (i, below, here) = total_pos n f (omega arith) in (i, omega arith, here)
  ]
