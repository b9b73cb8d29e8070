-- ===== src/Base/Words.antt =====
-- The unsigned machine types of the sources on a 64-bit target: `std::size_t` and `char*` as
-- numbers below 2 ^ 64, `uint32_t` below 2 ^ 32. Every operation keeps the wrap-around written out.
use Prim.Native.Nat.{ℕ, ◌+◌, ◌-◌, ◌*◌, ◌%◌, ◌^◌, ◌<◌}
use mathlib.Core.Path.{◌≡◌}
use native.Mathlib.Omega.{arith}

-- An address, as `PTR_TO_INT` shows it.
abbrev pub Ptr : Type 0
Ptr = ℕ

abbrev pub null : Ptr
null = 0

-- sizeof(std::size_t)
abbrev pub word_size : ℕ
word_size = 8

abbrev pub add64 : ℕ → ℕ → ℕ
add64 a b = (a + b) % 2 ^ 64

abbrev pub sub64 : ℕ → ℕ → ℕ
sub64 a b = (a + 2 ^ 64 - b) % 2 ^ 64

abbrev pub mul64 : ℕ → ℕ → ℕ
mul64 a b = a * b % 2 ^ 64

-- static_cast<uint32_t>
abbrev pub to_u32 : ℕ → ℕ
to_u32 a = a % 2 ^ 32

-- `a % n` of the source with the wrap of `n - a % n` that follows it: no borrow happens.
pub sub64_mod : (a n : ℕ) → 0 < n → n < 2 ^ 64 → sub64 n (a % n) + a % n ≡ n
sub64_mod a n h k = omega arith

pub sub64_mod_pos : (a n : ℕ) → 0 < n → n < 2 ^ 64 → 0 < sub64 n (a % n)
sub64_mod_pos a n h k = omega arith
