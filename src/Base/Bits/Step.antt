-- ===== src/Base/Bits/Step.antt =====
-- The lowest digit of `&` and `|`. The native operations are specified by `bitwise`, which takes
-- the binary digits of its left argument with that argument as its fuel.
use Prim.Native.Nat.{ℕ, zero, suc, ◌+◌, ◌*◌, ◌/◌, ◌%◌, ◌≤◌, min, max, bit_and, bit_or}
use Prim.Native.Nat.{digits, bitwise, bit_and-bitwise, bit_or-bitwise}
use mathlib.Core.Path.{◌≡◌, refl, sym, ◌∙◌}
use native.Mathlib.Omega.{arith}

abbrev DigitLaw : (ℕ → ℕ → ℕ) → (ℕ → ℕ → ℕ) → ℕ → ℕ → Type 0
DigitLaw whole op a b = whole a b ≡ whole (a / 2) (b / 2) * 2 + op (a % 2) (b % 2)

module _ (right : ℕ → ℕ) (op : ℕ → ℕ → ℕ) where
  digits-zero : (fuel b : ℕ) → digits right op fuel 0 b ≡ right b
  digits-zero zero b = refl
  digits-zero (suc fuel) b = refl

  -- Fuel beyond the left argument changes nothing.
  digits-spare :
      (a least fuel b : ℕ)
      → a ≤ least
      → least ≤ fuel
      → digits right op fuel a b ≡ digits right op least a b
  digits-spare zero least fuel b h k = digits-zero fuel b ∙ sym (digits-zero least b)
  digits-spare (suc a) zero fuel b h k = absurd (omega arith)
  digits-spare (suc a) (suc least) zero b h k = absurd (omega arith)
  digits-spare (suc a) (suc least) (suc fuel) b h k =
      rw (digits-spare (suc a / 2) least fuel (b / 2) (omega arith) (omega arith))

  bitwise-step : (a b : ℕ) → DigitLaw (bitwise right op) op (suc a) b
  bitwise-step a b =
      omega (arith, digits-spare (suc a / 2) (suc a / 2) a (b / 2) (omega arith) (omega arith))

pub bit_and_step : (a b : ℕ) → DigitLaw bit_and min a b
bit_and_step zero b = simp bit_and-bitwise (omega arith)
bit_and_step (suc a) b = simp bit_and-bitwise (bitwise-step _ min a b)

pub bit_or_step : (a b : ℕ) → DigitLaw bit_or max a b
bit_or_step zero b = simp bit_or-bitwise (omega arith)
bit_or_step (suc a) b = simp bit_or-bitwise (bitwise-step _ max a b)
