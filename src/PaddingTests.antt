-- ===== src/PaddingTests.antt =====
-- The theorems of `Padding` at inputs.
use memory_allocators.Base.{ℕ, ◌+◌, ◌%◌, ◌≤◌, ◌<◌, ◌≡◌, arith, ok, pos}
use memory_allocators.Padding.{calculate_padding, calculate_padding_aligns}

calculate_padding_aligns_example :
    (p : ℕ) × (calculate_padding 13 8 ≡ ok (pos p)) × (0 < p) × (p ≤ 8) × ((p + 13) % 8 ≡ 0)
calculate_padding_aligns_example = calculate_padding_aligns 13 8 (omega arith) (omega arith)
