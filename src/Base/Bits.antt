-- ===== src/Base/Bits.antt =====
-- Words of 64 bits as native numbers: the operators of C++ on `uint64_t`, and their bits.
mod Step
use Step.{bit_or_step, bit_and_step}
use Prim.Native.Nat.{
  ℕ, zero, suc, ◌+◌, ◌-◌, ◌*◌, ◌/◌, ◌%◌, ◌^◌, ◌≤◌, ◌<◌, min, max, bit_and, bit_or,
}
use mathlib.Core.Path.{◌≡◌, refl, sym, ap, ◌∙◌}
use native.Mathlib.Omega.{arith}
use native.Mathlib.Nat.{div-add-mod, mod-lt, mod-eq_of_lt, mul-add-mod_self_left}
use native.Mathlib.Nat.{pow-suc, one-le-pow, div-div-eq-div-mul, mul_comm}
use hyperlogloglog.Base.Tests.{ltb, if◌then◌else◌}

-- Bit `i` of a number, the lowest bit first.
unfoldable pub test_bit : ℕ → ℕ → ℕ
test_bit x zero = x % 2
test_bit x (suc i) = test_bit (x / 2) i

pub test_bit-le : (x i : ℕ) → test_bit x i ≤ 1
unfolding test_bit
test_bit-le x zero = omega arith
test_bit-le x (suc i) = test_bit-le (x / 2) i

pub test_bit-bit_and : (a b i : ℕ) → test_bit (bit_and a b) i ≡ min (test_bit a i) (test_bit b i)
unfolding test_bit
test_bit-bit_and a b zero = omega (arith, bit_and_step a b)
test_bit-bit_and a b (suc i) =
    ap (λ x. test_bit x i) (omega (arith, bit_and_step a b)) ∙ test_bit-bit_and (a / 2) (b / 2) i

pub test_bit-bit_or : (a b i : ℕ) → test_bit (bit_or a b) i ≡ max (test_bit a i) (test_bit b i)
unfolding test_bit
test_bit-bit_or a b zero = omega (arith, bit_or_step a b)
test_bit-bit_or a b (suc i) =
    ap (λ x. test_bit x i) (omega (arith, bit_or_step a b)) ∙ test_bit-bit_or (a / 2) (b / 2) i

pub test_bit-zero : (i : ℕ) → test_bit 0 i ≡ 0
unfolding test_bit
test_bit-zero zero = refl
test_bit-zero (suc i) = test_bit-zero i

-- A shift to the right by `k`.
pub test_bit-shr : (x k i : ℕ) → test_bit (x / 2 ^ k) i ≡ test_bit x (i + k)
unfolding test_bit
test_bit-shr x zero i = ap (test_bit (x / 1)) one ∙ ap (λ y. test_bit y (i + 0)) (omega arith)
  where
    one : i ≡ i + 0
    one = omega arith
test_bit-shr x (suc k) i =
    ap (λ y. test_bit y i) halved ∙ test_bit-shr (x / 2) k i ∙ ap (test_bit x) suc_add
  where
    halved : x / 2 ^ suc k ≡ x / 2 / 2 ^ k
    halved = ap (λ t. x / t) (pow-suc 2 k ∙ mul_comm _ _) ∙ sym (div-div-eq-div-mul x 2 (2 ^ k))

    suc_add : suc (i + k) ≡ i + suc k
    suc_add = omega arith

mul_pow_suc : (x k : ℕ) → x * 2 ^ suc k ≡ 2 * (x * 2 ^ k)
mul_pow_suc x k = omega (arith, ap (λ (t : ℕ). x * t) (pow-suc 2 k))

-- A shift to the left by `k`, with nothing cut off.
pub test_bit-mul :
    (x k i : ℕ) → test_bit (x * 2 ^ k) i ≡ (if ltb i k then 0 else test_bit x (i - k))
unfolding test_bit
test_bit-mul x zero i = ap (λ y. test_bit y i) one ∙ ground (arith, ap (test_bit x) zero)
  where
    one : x * 1 ≡ x
    one = omega arith

    zero : i ≡ i - 0
    zero = omega arith
test_bit-mul x (suc k) zero = ground (arith, mul_pow_suc x k)
test_bit-mul x (suc k) (suc i) =
    ap (λ y. test_bit y i) (omega (arith, mul_pow_suc x k)) ∙ test_bit-mul x k i ∙ ground arith

-- The lowest of the low bits, and the others.
mod_pow_suc : (x w : ℕ) → x % 2 ^ suc w ≡ x / 2 % 2 ^ w * 2 + x % 2
mod_pow_suc x w =
    ap (λ t. t % 2 ^ suc w) parts
    ∙ mul-add-mod_self_left (2 ^ suc w) q low
    ∙ mod-eq_of_lt (omega (arith, pow-suc 2 w, mod-lt (x / 2) (one-le-pow w 2 (omega arith))))
  where
    q : ℕ
    q = x / 2 / 2 ^ w

    low : ℕ
    low = x / 2 % 2 ^ w * 2 + x % 2

    parts : x ≡ 2 ^ suc w * q + low
    parts = omega (
      arith,
      div-add-mod (x / 2) (2 ^ w),
      mul_comm q (2 ^ suc w),
      mul_comm q (2 ^ w),
      mul_pow_suc q w,
    )

-- The low `w` bits.
pub test_bit-mod : (x w i : ℕ) → test_bit (x % 2 ^ w) i ≡ (if ltb i w then test_bit x i else 0)
unfolding test_bit
test_bit-mod x zero i = ap (λ y. test_bit y i) (omega arith) ∙ test_bit-zero i ∙ ground arith
test_bit-mod x (suc w) zero = ground (arith, mod_pow_suc x w)
test_bit-mod x (suc w) (suc i) =
    ap (λ y. test_bit y i) (omega (arith, mod_pow_suc x w))
    ∙ test_bit-mod (x / 2) w i
    ∙ ground arith

-- The complement of `x` in `w` bits.
pub test_bit-complement :
    (w x i : ℕ) → x < 2 ^ w → test_bit (2 ^ w - 1 - x) i ≡ (if ltb i w then 1 - test_bit x i else 0)
unfolding test_bit
test_bit-complement zero x i h =
    ap (λ y. test_bit y i) (omega arith) ∙ test_bit-zero i ∙ ground arith
test_bit-complement (suc w) x zero h = ground (arith, pow-suc 2 w, one-le-pow w 2)
test_bit-complement (suc w) x (suc i) h =
    ap (λ y. test_bit y i) (omega (arith, pow-suc 2 w, one-le-pow w 2))
    ∙ test_bit-complement w (x / 2) i (omega (arith, pow-suc 2 w))
    ∙ ground arith

test_bit_ext_below : (n x y : ℕ) → x ≤ n → y ≤ n → ((i : ℕ) → test_bit x i ≡ test_bit y i) → x ≡ y
unfolding test_bit
test_bit_ext_below zero x y hx hy same = omega arith
test_bit_ext_below (suc n) zero zero hx hy same = refl
test_bit_ext_below (suc n) x y hx hy same = omega (
  arith,
  same 0,
  test_bit_ext_below n (x / 2) (y / 2) (omega arith) (omega arith) (λ i. same (suc i)),
)

-- A number is known from its bits.
pub test_bit_ext : (x y : ℕ) → ((i : ℕ) → test_bit x i ≡ test_bit y i) → x ≡ y
test_bit_ext x y same = test_bit_ext_below (x + y) x y (omega arith) (omega arith) same

-- Bits at or above the width are 0.
pub test_bit-of_lt : (w x i : ℕ) → x < 2 ^ w → w ≤ i → test_bit x i ≡ 0
unfolding test_bit
test_bit-of_lt zero x i h p = ap (λ y. test_bit y i) (omega arith) ∙ test_bit-zero i
test_bit-of_lt (suc w) x zero h p = absurd (omega arith)
test_bit-of_lt (suc w) x (suc i) h p =
    test_bit-of_lt w (x / 2) i (omega (arith, pow-suc 2 w)) (omega arith)

-- A number whose bits from `w` on are 0 is below `2 ^ w`.
pub lt_of_test_bit : (w x : ℕ) → ((i : ℕ) → w ≤ i → test_bit x i ≡ 0) → x < 2 ^ w
lt_of_test_bit w x high = omega (arith, cut, mod-lt x (one-le-pow w 2 (omega arith)))
  where
    cut : x ≡ x % 2 ^ w
    cut = test_bit_ext x (x % 2 ^ w) (λ i. ground (arith, test_bit-mod x w i, high i))
