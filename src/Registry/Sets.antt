-- ===== src/Registry/Sets.antt =====
-- A std::set that is filled does not depend on the order: its elements are what was put into it.
use memory_allocators.Base.{
  ℕ, true, subst, ap₂, ◌≤◌, ◌<◌, ◌≡◌, ◌↔◌, refl, sym, ap, ◌∙◌, arith, List, [], ◌∷◌, map, Option,
  none, some, ◌==◌, count, same, same_self, same_ne, ◌≢◌, ==_refl, ==_false,
}
use native.Mathlib.Decide.{ℕ_discrete, dec_lt}
use memory_allocators.Registry.{emplace_all}
use memory_allocators.Registry.Order.{
  first_of, Behind, Behind-lt, Rises, first_of-Behind, emplace_all-Rises,
}

==_true : (a b : ℕ) → a ≡ b → (a == b) ≡ true
==_true a b e = rw e (==_refl b)

some_inj : {A : Type 0} {x y : A} → ◌≡◌ {A = Option A} (some x) (some y) → x ≡ y
some_inj e = cc e

module _ {A : Type 0} (key : A → ℕ) where
  -- How often an element with the key is in a list
  abbrev pub occurs : ℕ → List A → ℕ
  occurs k xs = count k (map key xs)

  first_of-head : (x : A) (xs : List A) → first_of key (key x) (x ∷ xs) ≡ some x
  first_of-head x xs = rw (==_refl (key x)) refl

  first_of-tail :
      (k : ℕ) (x : A) (xs : List A) → key x ≢ k → first_of key k (x ∷ xs) ≡ first_of key k xs
  first_of-tail k x xs e = rw (==_false (key x) k e) refl

  first_of-none : (k : ℕ) (xs : List A) → occurs k xs ≡ 0 → first_of key k xs ≡ none
  first_of-none k [] h = refl
  first_of-none k (x ∷ xs) h = elim (ℕ_discrete (key x) k) [
    | yes e ↦ absurd (omega (arith, h, ap (same k) e, same_self k))
    | no e ↦ first_of-tail k x xs e ∙ first_of-none k xs (omega (arith, h))
  ]

  not_there : (k : ℕ) (xs : List A) → ¬ (0 < occurs k xs) → occurs k xs ≡ 0
  not_there k xs h = elim (dec_lt 0 (occurs k xs)) [
    | yes there ↦ absurd (h there)
    | no g ↦ omega arith
  ]

  first_of-occurs : (k : ℕ) (xs : List A) (x : A) → first_of key k xs ≡ some x → 0 < occurs k xs
  first_of-occurs k xs x found = elim (dec_lt 0 (occurs k xs)) [
    | yes there ↦ there
    | no g ↦ absurd (cc (found, first_of-none k xs (not_there k xs g)))
  ]

  first_of-found :
      (k : ℕ) (xs : List A) → 0 < occurs k xs → (x : A) × (first_of key k xs ≡ some x) × (key x ≡ k)
  first_of-found k [] h = absurd (omega arith)
  first_of-found k (x ∷ xs) h = elim (ℕ_discrete (key x) k) [
    | yes e ↦ (x, rw (==_true (key x) k e) refl, e)
    | no e ↦
        let (y, found, there) =
          first_of-found k xs (omega (arith, h, same_ne k (key x) (λ d. e (sym d)))) in
        (y, first_of-tail k x xs e ∙ found, there)
  ]

  -- The first elements of two sets with the same elements
  head-le :
      (x : A) (xs : List A) (y : A) (ys : List A)
      → Rises key (y ∷ ys)
      → first_of key (key x) (x ∷ xs) ≡ first_of key (key x) (y ∷ ys)
      → key y ≤ key x
  head-le x xs y ys s h = elim (dec_lt (key x) (key y)) [
    | yes l ↦
        let none_there =
          first_of-Behind key (key x) (y ∷ ys) (l, Behind-lt key (key x) (key y) ys l s.0) in
        absurd (cc (h, first_of-head x xs, none_there))
    | no g ↦ omega arith
  ]

  tails :
      (x : A) (xs : List A) (y : A) (ys : List A)
      → Rises key (x ∷ xs)
      → Rises key (y ∷ ys)
      → key y ≡ key x
      → (k : ℕ) → first_of key k (x ∷ xs) ≡ first_of key k (y ∷ ys)
      → first_of key k xs ≡ first_of key k ys
  tails x xs y ys r s e k h = elim (ℕ_discrete (key x) k) [
    | yes d ↦
        first_of-Behind key k xs (subst (λ j. Behind key j xs) d r.0)
        ∙ sym (first_of-Behind key k ys (subst (λ j. Behind key j ys) (e ∙ d) s.0))
    | no d ↦ sym (first_of-tail k x xs d) ∙ h ∙ first_of-tail k y ys (λ c. d (sym e ∙ c))
  ]

  -- Two sets with the same elements are one.
  Rises-ext :
      (xs ys : List A)
      → Rises key xs
      → Rises key ys
      → ((k : ℕ) → first_of key k xs ≡ first_of key k ys)
      → xs ≡ ys
  Rises-ext [] [] r s h = refl
  Rises-ext [] (y ∷ ys) r s h = absurd (cc (h (key y), first_of-head y ys))
  Rises-ext (x ∷ xs) [] r s h = absurd (cc (h (key x), first_of-head x xs))
  Rises-ext (x ∷ xs) (y ∷ ys) r s h =
      let e : key y ≡ key x =
        omega (arith, head-le x xs y ys s (h (key x)), head-le y ys x xs r (sym (h (key y)))) in
      let there : first_of key (key x) (y ∷ ys) ≡ some y = rw (==_true (key y) (key x) e) refl in
      let heads : x ≡ y = some_inj (sym (first_of-head x xs) ∙ h (key x) ∙ there) in
      ap₂ (◌∷◌) heads (Rises-ext xs ys r.1 s.1 (λ k. tails x xs y ys r s e k (h k)))

  module _ (distinct : (x y : A) → key x ≡ key y → x ≡ y) where
    first_of_same :
        (k : ℕ) (xs ys : List A)
        → ((0 < occurs k xs) ↔ (0 < occurs k ys))
        → first_of key k xs ≡ first_of key k ys
    first_of_same k xs ys h = elim (dec_lt 0 (occurs k xs)) [
      | yes there ↦
          let (x, found, own) = first_of-found k xs there in
          let (y, found', own') = first_of-found k ys (h.0 there) in
          found ∙ ap some (distinct x y (own ∙ sym own')) ∙ sym found'
      | no missing ↦
          first_of-none k xs (omega arith)
          ∙ sym (first_of-none k ys (not_there k ys (λ there. missing (h.1 there))))
    ]

    -- A set of elements whose keys tell them apart is the same for every order, and every number, in which
    -- they are put into it.
    pub emplace_all_order :
        (xs ys : List A)
        → ((k : ℕ) → (0 < occurs k xs) ↔ (0 < occurs k ys))
        → emplace_all key xs [] ≡ emplace_all key ys []
    emplace_all_order xs ys h =
        Rises-ext (emplace_all key xs []) (emplace_all key ys []) (emplace_all-Rises key xs 0).0
          (emplace_all-Rises key ys 0).0
          (λ k.
            (emplace_all-Rises key xs k).1
            ∙ first_of_same k xs ys (h k)
            ∙ sym (emplace_all-Rises key ys k).1)

  Behind-occurs : (k : ℕ) (xs : List A) → Behind key k xs → occurs k xs ≡ 0
  Behind-occurs k [] h = refl
  Behind-occurs k (x ∷ xs) h =
      omega (arith, same_ne k (key x) (λ e. absurd (omega (arith, h, e))), Behind-occurs k xs h.1)

  Rises-occurs : (k : ℕ) (xs : List A) → Rises key xs → occurs k xs ≤ 1
  Rises-occurs k [] r = omega arith
  Rises-occurs k (x ∷ xs) r = elim (ℕ_discrete (key x) k) [
    | yes e ↦
        omega (
          arith,
          ap (same k) e,
          same_self k,
          Behind-occurs k xs (subst (λ j. Behind key j xs) e r.0),
        )
    | no e ↦ omega (arith, same_ne k (key x) (λ d. e (sym d)), Rises-occurs k xs r.1)
  ]

  -- What is put into a set is in it once.
  pub emplace_all-occurs :
      (k : ℕ) (xs : List A) → 0 < occurs k xs → occurs k (emplace_all key xs []) ≡ 1
  emplace_all-occurs k xs there =
      let (rises, same_first) = emplace_all-Rises key xs k in
      let (x, found, own) = first_of-found k xs there in
      let inside : 0 < occurs k (emplace_all key xs []) =
        first_of-occurs k (emplace_all key xs []) x (same_first ∙ found) in
      omega (arith, inside, Rises-occurs k (emplace_all key xs []) rises)
