-- ===== src/Base/Bits.antt =====
-- `bit_or`, `bit_and` as arithmetic.
mod Step
use Step.{halving, bit_or_step, bit_and_step}
use Prim.Native.Nat.{ℕ, zero, suc, ◌+◌, ◌*◌, ◌/◌, ◌%◌, ◌^◌, ◌<◌, bit_and, bit_or, bit_or-bitwise}
use mathlib.Core.Path.{◌≡◌, refl, ap}
use native.Mathlib.Nat.{pow-suc}
use native.Mathlib.Omega.{arith}

bit_or-zero : (a : ℕ) → bit_or a 0 ≡ a
bit_or-zero = halving (λ a. bit_or a 0 ≡ a) refl λ n ih. omega (arith, bit_or_step (suc n) 0, ih)

zero-bit_or : (a : ℕ) → bit_or 0 a ≡ a
zero-bit_or a = simp bit_or-bitwise refl

mul-two_pow-suc : (q k : ℕ) → q * 2 ^ suc k ≡ 2 * (q * 2 ^ k)
mul-two_pow-suc q k = omega (arith, ap (λ (t : ℕ). q * t) (pow-suc 2 k))

-- Bits below `k` joined with a multiple of `2 ^ k`: the sum.
pub bit_or-shifted : (k a q : ℕ) → a < 2 ^ k → bit_or a (q * 2 ^ k) ≡ a + q * 2 ^ k
bit_or-shifted zero a q fits = ground (arith, zero-bit_or (q * 1))
bit_or-shifted (suc k) a q fits = ground (
  arith,
  bit_or_step a (q * 2 ^ suc k),
  mul-two_pow-suc q k,
  bit_or-shifted k (a / 2) q (omega arith),
)

bit_and-zero : (a : ℕ) → bit_and a 0 ≡ 0
bit_and-zero = halving (λ a. bit_and a 0 ≡ 0) refl λ n ih. omega (arith, bit_and_step (suc n) 0, ih)

-- The masks of the low bits, each from the mask that is a bit shorter.
low_one : (a : ℕ) → bit_and a 1 ≡ a % 2
low_one a = omega (arith, bit_and_step a 1, bit_and-zero (a / 2))

low_two : (a : ℕ) → bit_and a 3 ≡ a % 4
low_two a = omega (arith, bit_and_step a 3, low_one (a / 2))

low_three : (a : ℕ) → bit_and a 7 ≡ a % 8
low_three a = omega (arith, bit_and_step a 7, low_two (a / 2))

low_four : (a : ℕ) → bit_and a 15 ≡ a % 16
low_four a = omega (arith, bit_and_step a 15, low_three (a / 2))

low_five : (a : ℕ) → bit_and a 31 ≡ a % 32
low_five a = omega (arith, bit_and_step a 31, low_four (a / 2))

low_six : (a : ℕ) → bit_and a 63 ≡ a % 64
low_six a = omega (arith, bit_and_step a 63, low_five (a / 2))

pub bit_and_seven_bits : (a : ℕ) → bit_and a 0x7f ≡ a % 128
bit_and_seven_bits a = omega (arith, bit_and_step a 127, low_six (a / 2))

pub bit_or_top_bit : (a : ℕ) → a < 128 → bit_or a 0x80 ≡ a + 128
bit_or_top_bit a h = bit_or-shifted 7 a 1 h
