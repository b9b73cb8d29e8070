-- ===== src/Base/Int.antt =====
-- Signed integers, and the signed readings of bit patterns.
use Prim.Native.Nat.{ℕ, ◌-◌, ◌%◌, ◌^◌}
use memory_allocators.Base.Tests.{ltb, if◌then◌else◌}

-- `negsuc n` is -(n + 1).
pub data ℤ : Type 0 where
  pos : ℕ → ℤ
  negsuc : ℕ → ℤ

-- static_cast<int64_t> of a `std::size_t`
abbrev pub to_int64 : ℕ → ℤ
to_int64 a =
    if ltb (a % 2 ^ 64) (2 ^ 63) then pos (a % 2 ^ 64) else negsuc (2 ^ 64 - 1 - a % 2 ^ 64)

-- static_cast<char> of a `std::size_t`, where `char` is signed
abbrev pub to_char : ℕ → ℤ
to_char a = if ltb (a % 2 ^ 8) (2 ^ 7) then pos (a % 2 ^ 8) else negsuc (2 ^ 8 - 1 - a % 2 ^ 8)
