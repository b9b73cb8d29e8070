-- ===== src/Padding.antt =====
-- `CalculatePadding` of src/AllocatorInterface.h, and the expression `alignment - size % alignment`
-- by which the allocators round a block up.
use native.Mathlib.Nat.{add-mod, zero-mod, mul-mod_left}
use memory_allocators.Base.{
  ℕ, ◌+◌, ◌*◌, ◌/◌, ◌%◌, ◌^◌, ◌≤◌, ◌<◌, ◌≡◌, arith, sub64, ltb, Outcome, ok, ◌>>◌, defined, ℤ, pos,
  negsuc, to_char,
}

-- `alignment - size % alignment`, where the divisor is not zero.
unfoldable pub padding : ℕ → ℕ → ℕ
padding size alignment = sub64 alignment (size % alignment)

-- CalculatePadding: the same, narrowed to a `char`. `% 0` is undefined.
unfoldable pub calculate_padding : ℕ → ℕ → Outcome ℤ
calculate_padding base_address alignment = do
  defined (ltb 0 alignment)
  ok (to_char (sub64 alignment (base_address % alignment)))

module _ (size alignment : ℕ) (positive : 0 < alignment) (small : alignment < 2 ^ 64) where
  pub padding_lem : padding size alignment + size % alignment ≡ alignment
  unfolding padding
  padding_lem = omega arith

  pub padding_bounds : (0 < padding size alignment) × (padding size alignment ≤ alignment)
  unfolding padding
  padding_bounds = omega arith

  -- A block and its padding fill a whole number of units, one more than fit into the block.
  pub padding_units : padding size alignment + size ≡ (size / alignment + 1) * alignment
  padding_units = grind (arith, padding_lem)

  pub padded-mod : (padding size alignment + size) % alignment ≡ 0
  padded-mod = rw padding_units (mul-mod_left (size / alignment + 1) alignment)

pub add_units : (a b n : ℕ) → a % n ≡ 0 → b % n ≡ 0 → (a + b) % n ≡ 0
add_units a b n p q = rw (add-mod a b n, p, q) (zero-mod n)

-- For an alignment that a `char` holds the padding is at least 1 and at most the alignment, and
-- it moves every address to a multiple of the alignment: an aligned address by a whole unit.
pub calculate_padding_aligns :
    (address alignment : ℕ)
    → 0 < alignment
    → alignment < 128
    → (p : ℕ) × (calculate_padding address alignment ≡ ok (pos p))
      × (0 < p)
      × (p ≤ alignment)
      × ((p + address) % alignment ≡ 0)
unfolding calculate_padding padding
calculate_padding_aligns address alignment positive small = (
  padding address alignment,
  ground (arith, padding_bounds address alignment),
  omega (arith, padding_bounds address alignment),
  omega (arith, padding_bounds address alignment),
  padded-mod address alignment positive (omega arith),
)

-- The narrowing loses the padding: an address that is a multiple of 128 is given -128 for it.
pub calculate_padding_wraps :
    (address : ℕ) → address % 128 ≡ 0 → calculate_padding address 128 ≡ ok (negsuc 127)
unfolding calculate_padding
calculate_padding_wraps address h = ground arith
