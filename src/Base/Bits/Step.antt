-- ===== src/Base/Bits/Step.antt =====
-- The native bit operations, one binary digit at a time, and the induction that goes with it.
use Prim.Native.Nat.{
  ℕ, zero, suc, ◌+◌, ◌*◌, ◌/◌, ◌%◌, ◌≤◌, min, max, bit_and, bit_or, digits, bit_and-bitwise,
  bit_or-bitwise,
}
use mathlib.Core.Path.{◌≡◌, refl, ◌∙◌}
use mathlib.Core.Logic.{◌⊎◌, inl, inr}
use native.Mathlib.Omega.{arith}

-- Induction from the half of a number to the number, by a bound on the number.
module _ {ℓ} (P : ℕ → Type ℓ) (start : P 0) (double : (n : ℕ) → P (suc n / 2) → P (suc n)) where
  halving_below : (bound n : ℕ) → n ≤ bound → P n
  halving_below bound zero h = start
  halving_below zero (suc n) h = absurd (omega arith)
  halving_below (suc bound) (suc n) h = double n (halving_below bound (suc n / 2) (omega arith))

  pub halving : (n : ℕ) → P n
  halving n = halving_below n n (omega arith)

last_or_before : (x n : ℕ) → x ≤ suc n → (x ≤ n) ⊎ (x ≡ suc n)
last_or_before x n h = ground arith

-- The definition behind the operations counts rounds; those past the first argument do nothing.
module _ (base : ℕ → ℕ) (mix : ℕ → ℕ → ℕ) where
  one_more_round :
      (rounds x y : ℕ) → x ≤ rounds → digits base mix (suc rounds) x y ≡ digits base mix rounds x y
  one_more_round zero zero y h = refl
  one_more_round zero (suc x) y h = absurd (omega arith)
  one_more_round (suc rounds) zero y h = refl
  one_more_round (suc rounds) (suc x) y h =
      rw (one_more_round rounds (suc x / 2) (y / 2) (omega arith))

  enough_rounds : (rounds x y : ℕ) → x ≤ rounds → digits base mix rounds x y ≡ digits base mix x x y
  enough_rounds zero zero y h = refl
  enough_rounds zero (suc x) y h = absurd (omega arith)
  enough_rounds (suc rounds) x y h = elim (last_or_before x rounds h) [
    | inl before ↦ one_more_round rounds x y before ∙ enough_rounds rounds x y before
    | inr last ↦ rw last refl
  ]

pub bit_or_step : (x y : ℕ) → bit_or x y ≡ max (x % 2) (y % 2) + 2 * bit_or (x / 2) (y / 2)
bit_or_step zero y = simp bit_or-bitwise (omega arith)
bit_or_step (suc x) y =
    let rounds = enough_rounds (λ b. b) max x (suc x / 2) (y / 2) (omega arith) in
    simp bit_or-bitwise (omega (arith, rounds))

pub bit_and_step : (x y : ℕ) → bit_and x y ≡ min (x % 2) (y % 2) + 2 * bit_and (x / 2) (y / 2)
bit_and_step zero y = simp bit_and-bitwise (omega arith)
bit_and_step (suc x) y =
    let rounds = enough_rounds (λ b. 0) min x (suc x / 2) (y / 2) (omega arith) in
    simp bit_and-bitwise (omega (arith, rounds))
