-- ===== src/Report/Decimal.antt =====
-- How std::cout prints a number: in decimal. `decimal` makes at most 20 digits, which are enough for
-- every number below 10 ^ 20, so for every std::size_t.
use memory_allocators.Base.{
  ℕ, zero, suc, ◌+◌, ◌/◌, ◌%◌, ◌≡◌, ◌≢◌, ==_false, refl, Bool-cases, inl, inr, ◌==◌, if◌then◌else◌,
  List, [], ◌∷◌, ◌++◌,
}

abbrev pub Text : Type 0
Text = List ℕ

-- The digits of a number in front of a text; the first argument is fuel.
unfoldable pub digits : ℕ → ℕ → Text → Text
digits zero n out = out
digits (suc fuel) n out =
    let rest = digits fuel (n / 10) ((b'0' + n % 10) ∷ out) in if n == 0 then out else rest

unfoldable pub decimal : ℕ → Text
decimal n = if n == 0 then b'0' ∷ [] else digits 20 n []

pub digits_step :
    (fuel n : ℕ) (out : Text)
    → n ≢ 0
    → digits (suc fuel) n out ≡ digits fuel (n / 10) ((b'0' + n % 10) ∷ out)
unfolding digits
digits_step fuel n out h = rw (==_false n 0 h) refl

pub digits_zero : (fuel : ℕ) (out : Text) → digits fuel 0 out ≡ out
unfolding digits
digits_zero zero out = refl
digits_zero (suc fuel) out = refl

-- What comes behind the digits
pub digits-append :
    (fuel n : ℕ) (out rest : Text) → digits fuel n out ++ rest ≡ digits fuel n (out ++ rest)
unfolding digits
digits-append zero n out rest = refl
digits-append (suc fuel) n out rest = elim (Bool-cases (n == 0)) [
  | inl e ↦ rw e refl
  | inr e ↦ rw e (digits-append fuel (n / 10) ((b'0' + n % 10) ∷ out) rest)
]
