-- ===== src/Registry/Order.antt =====
-- What a set keeps of the elements that it is given: src/Test.h.
use memory_allocators.Base.{
  ℕ, ◌<◌, ◌≡◌, refl, sym, ◌∙◌, ap, arith, inl, inr, Bool-cases, List, [], ◌∷◌, ◌++◌, Option, none,
  some, ltb, ◌==◌, if◌then◌else◌,
}
use mathlib.Core.List.{append-nil}
use memory_allocators.Registry.{emplace, emplace_all, RunTestFunc, TestResult, duration_of, run}

-- The first of two optional values
abbrev pub or_else {ℓ} : {A : Type ℓ} → Option A → Option A → Option A
or_else none b = b
or_else (some a) b = some a

or_else_assoc {ℓ} :
    {A : Type ℓ} (a b c : Option A) → or_else (or_else a b) c ≡ or_else a (or_else b c)
or_else_assoc none b c = refl
or_else_assoc (some a) b c = refl

module _ {A : Type 0} (key : A → ℕ) where
  -- The first element with a key
  abbrev pub first_of : ℕ → List A → Option A
  first_of k [] = none
  first_of k (x ∷ xs) = if key x == k then some x else first_of k xs

  abbrev pub Behind : ℕ → List A → Type 0
  Behind k [] = Unit {0}
  Behind k (x ∷ xs) = (k < key x) × Behind k xs

  -- The keys rise.
  abbrev pub Rises : List A → Type 0
  Rises [] = Unit {0}
  Rises (x ∷ xs) = Behind (key x) xs × Rises xs

  pub Behind-lt : (j k : ℕ) (xs : List A) → j < k → Behind k xs → Behind j xs
  Behind-lt j k [] l h = tt
  Behind-lt j k (x ∷ xs) l h = (omega arith, Behind-lt j k xs l h.1)

  Behind-emplace :
      (k : ℕ) (x : A) (xs : List A) → k < key x → Behind k xs → Behind k (emplace key x xs)
  unfolding emplace
  Behind-emplace k x [] l h = (l, tt)
  Behind-emplace k x (y ∷ ys) l h = elim (Bool-cases (ltb (key x) (key y))) [
    | inl e ↦ rw e (l, h)
    | inr e ↦ elim (Bool-cases (ltb (key y) (key x))) [
      | inl e' ↦ rw (e, e') (h.0, Behind-emplace k x ys l h.1)
      | inr e' ↦ rw (e, e') h
    ]
  ]

  Rises-emplace : (x : A) (xs : List A) → Rises xs → Rises (emplace key x xs)
  unfolding emplace
  Rises-emplace x [] r = (tt, tt)
  Rises-emplace x (y ∷ ys) r = elim (Bool-cases (ltb (key x) (key y))) [
    | inl e ↦
        let l : key x < key y = ground arith in rw e ((l, Behind-lt (key x) (key y) ys l r.0), r)
    | inr e ↦ elim (Bool-cases (ltb (key y) (key x))) [
      | inl e' ↦ rw (e, e') (Behind-emplace (key y) x ys (ground arith) r.0, Rises-emplace x ys r.1)
      | inr e' ↦ rw (e, e') r
    ]
  ]

  pub first_of-Behind : (k : ℕ) (xs : List A) → Behind k xs → first_of k xs ≡ none
  first_of-Behind k [] h = refl
  first_of-Behind k (x ∷ xs) h = ground (arith, first_of-Behind k xs h.1)

  -- What was there first stays.
  first_of-emplace :
      (k : ℕ) (x : A) (xs : List A)
      → Rises xs
      → first_of k (emplace key x xs) ≡ or_else (first_of k xs) (first_of k (x ∷ []))
  unfolding emplace
  first_of-emplace k x [] r = refl
  first_of-emplace k x (y ∷ ys) r =
      ground (arith, first_of-emplace k x ys r.1, first_of-Behind k ys, Behind-lt k (key y) ys)

  first_of-append :
      (k : ℕ) (xs ys : List A) → first_of k (xs ++ ys) ≡ or_else (first_of k xs) (first_of k ys)
  first_of-append k [] ys = refl
  first_of-append k (x ∷ xs) ys = ground (arith, first_of-append k xs ys)

  Rises-emplace_all : (xs set : List A) → Rises set → Rises (emplace_all key xs set)
  unfolding emplace_all
  Rises-emplace_all [] set r = r
  Rises-emplace_all (x ∷ xs) set r =
      Rises-emplace_all xs (emplace key x set) (Rises-emplace x set r)

  first_of-emplace_all :
      (k : ℕ) (xs set : List A)
      → Rises set
      → first_of k (emplace_all key xs set) ≡ first_of k (set ++ xs)
  unfolding emplace_all
  first_of-emplace_all k [] set r = ap (first_of k) (sym (append-nil set))
  first_of-emplace_all k (x ∷ xs) set r =
      first_of-emplace_all k xs (emplace key x set) (Rises-emplace x set r)
      ∙ first_of-append k (emplace key x set) xs
      ∙ ap (λ o. or_else o (first_of k xs)) (first_of-emplace k x set r)
      ∙ or_else_assoc (first_of k set) (first_of k (x ∷ [])) (first_of k xs)
      ∙ ap (or_else (first_of k set)) (sym (first_of-append k (x ∷ []) xs))
      ∙ sym (first_of-append k set (x ∷ xs))

  -- A set that is filled in any order: its keys rise, and for each key it has the element that came
  -- first.
  pub emplace_all-Rises :
      (xs : List A) (k : ℕ)
      → Rises (emplace_all key xs []) × (first_of k (emplace_all key xs []) ≡ first_of k xs)
  emplace_all-Rises xs k = (Rises-emplace_all xs [] tt, first_of-emplace_all k xs [] tt)

-- What the tests report, one after the other
abbrev pub all_reports : (RunTestFunc → List TestResult) → List RunTestFunc → List TestResult
all_reports reports [] = []
all_reports reports (func ∷ tests) = reports func ++ all_reports reports tests

pub emplace_all-append :
    {A : Type 0} (key : A → ℕ) (xs ys set : List A)
    → emplace_all key (xs ++ ys) set ≡ emplace_all key ys (emplace_all key xs set)
unfolding emplace_all
emplace_all-append key [] ys set = refl
emplace_all-append key (x ∷ xs) ys set = emplace_all-append key xs ys (emplace key x set)

run-emplace_all :
    (reports : RunTestFunc → List TestResult) (tests : List RunTestFunc) (results : List TestResult)
    → run reports tests results ≡ emplace_all duration_of (all_reports reports tests) results
unfolding run emplace_all
run-emplace_all reports [] results = refl
run-emplace_all reports (func ∷ tests) results =
    run-emplace_all reports tests (emplace_all duration_of (reports func) results)
    ∙ sym (emplace_all-append duration_of (reports func) (all_reports reports tests) results)

-- Test::Run, for any tests and reports: the results are printed by rising duration, and of those with
-- one duration the first is printed and no other.
pub run-Rises :
    (reports : RunTestFunc → List TestResult) (tests : List RunTestFunc) (k : ℕ)
    → Rises duration_of (run reports tests [])
      × (first_of duration_of k (run reports tests [])
          ≡ first_of duration_of k (all_reports reports tests))
run-Rises reports tests k =
    rw (run-emplace_all reports tests [])
      (emplace_all-Rises duration_of (all_reports reports tests) k)
