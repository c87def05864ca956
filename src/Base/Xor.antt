-- ===== src/Base/Xor.antt =====
-- Exclusive or with no bits and with all bits, and the lowest bit, at every width.
use Prim.Native.Nat.{
  ℕ, zero, suc, ◌-◌, ◌/◌, ◌%◌, ◌^◌, ◌≤◌, ◌<◌, min, digits, differ, bit_and, bit_xor,
  bit_and-bitwise, bit_xor-bitwise,
}
use mathlib.Core.Path.{◌≡◌, refl}
use native.Mathlib.Nat.{pow-suc, one-le-pow, le_refl}
use native.Mathlib.Omega.{arith}

differ-zero : (a : ℕ) → differ a 0 ≡ a
differ-zero zero = refl
differ-zero (suc a) = refl

-- `a ^ 0`
xor_none : (n a : ℕ) → a ≤ n → digits (λ b. b) differ n a 0 ≡ a
xor_none zero a h = omega arith
xor_none (suc n) zero h = refl
xor_none (suc n) (suc a) h =
    omega (arith, xor_none n (suc a / 2) (omega arith), differ-zero (suc a % 2))

pub bit_xor-zero : (a : ℕ) → bit_xor a 0 ≡ a
bit_xor-zero a = simp bit_xor-bitwise (xor_none a a (le_refl a))

differ-one : (d : ℕ) → d < 2 → differ d 1 ≡ 1 - d
differ-one zero h = refl
differ-one (suc zero) h = refl
differ-one (suc (suc d)) h = absurd (omega arith)

-- `a ^ ones`, for an `a` of `k` bits.
xor_all : (n k a : ℕ) → a ≤ n → a < 2 ^ k → digits (λ b. b) differ n a (2 ^ k - 1) ≡ 2 ^ k - 1 - a
xor_all zero k a h f = omega arith
xor_all (suc n) k zero h f = omega arith
xor_all (suc n) zero (suc a) h f = absurd (omega arith)
xor_all (suc n) (suc k) (suc a) h f =
    let ones = 2 ^ suc k - 1 in
    let p = pow-suc 2 k in
    let q = one-le-pow k 2 in
    let half : ones / 2 ≡ 2 ^ k - 1 = omega arith in
    let odd : ones % 2 ≡ 1 = omega arith in
    rw (half, odd)
      (omega (
        arith,
        xor_all n k (suc a / 2) (omega arith) (omega arith),
        differ-one (suc a % 2) (omega arith),
      ))

pub bit_xor-all : (k a : ℕ) → a < 2 ^ k → bit_xor a (2 ^ k - 1) ≡ 2 ^ k - 1 - a
bit_xor-all k a f = simp bit_xor-bitwise (xor_all a k a (le_refl a) f)

and_none : (n a : ℕ) → digits (λ b. 0) min n a 0 ≡ 0
and_none zero a = refl
and_none (suc n) zero = refl
and_none (suc n) (suc a) = omega (arith, and_none n (suc a / 2))

-- `a & 1`
pub bit_and-one : (a : ℕ) → bit_and a 1 ≡ a % 2
bit_and-one zero = refl
bit_and-one (suc a) = simp bit_and-bitwise (omega (arith, and_none a (suc a / 2)))
