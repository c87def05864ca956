-- ===== src/Base/Bits.antt =====
-- Masks on one byte as arithmetic; each law is a table that is checked by evaluation.
use Prim.Native.Nat.{ℕ, zero, suc, ◌+◌, ◌*◌, ◌/◌, ◌%◌, ◌<◌, bit_and, bit_or}
use mathlib.Core.Path.{◌≡◌, refl}
use mathlib.Core.Bool.{Bool, true, ◌&&◌}
use native.Mathlib.Omega.{arith}
use bungohan.Base.Tests.{◌==◌}

module _ (f g : ℕ → ℕ) where
  unfoldable pub same_below : ℕ → Bool
  same_below zero = true
  same_below (suc n) = f n == g n && same_below n

  pub same_below→eq : (n i : ℕ) → same_below n ≡ true → i < n → f i ≡ g i
  unfolding same_below
  same_below→eq zero i e h = absurd (omega arith)
  same_below→eq (suc n) i e h = ground (arith, same_below→eq n i)

-- `byte & 0x7f`
pub low_bits : (b : ℕ) → b < 256 → bit_and b 0x7f ≡ b % 128
unfolding same_below
low_bits b = same_below→eq (λ x. bit_and x 0x7f) (λ x. x % 128) 256 b refl

-- `byte & 0x80`
pub top_bit : (b : ℕ) → b < 256 → bit_and b 0x80 ≡ b / 128 * 128
unfolding same_below
top_bit b = same_below→eq (λ x. bit_and x 0x80) (λ x. x / 128 * 128) 256 b refl

-- `group | 0x80`
pub set_top_bit : (b : ℕ) → b < 128 → bit_or b 0x80 ≡ b + 128
unfolding same_below
set_top_bit b = same_below→eq (λ x. bit_or x 0x80) (λ x. x + 128) 128 b refl
