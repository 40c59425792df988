-- ===== src/Bits.antt =====
-- Single bits of a word, as in `w & (1 << i)`.
pub mod Laws
use advanced_synchronization.Base.{ℕ, ◌+◌, ◌-◌, ◌/◌, ◌%◌, ◌^◌, Bool, ◌==◌, if◌then◌else◌}

-- Bit `i` of a word, `w | (1 << i)` and `w & ~(1 << i)`.
unfoldable pub test_bit : ℕ → ℕ → Bool
test_bit w i = (w / 2 ^ i) % 2 == 1

unfoldable pub set_bit : ℕ → ℕ → ℕ
set_bit w i = if test_bit w i then w else w + 2 ^ i

unfoldable pub clear_bit : ℕ → ℕ → ℕ
clear_bit w i = if test_bit w i then w - 2 ^ i else w
