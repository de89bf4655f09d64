-- ===== src/Base/Words.antt =====
-- The operators of C++ on `uint64_t` (and on `size_t`, which has the same width).
use Prim.Native.Nat.{ℕ, ◌-◌, ◌*◌, ◌/◌, ◌%◌, ◌^◌, ◌<◌, bit_and}
use mathlib.Core.Path.{◌≡◌}
use native.Mathlib.Omega.{arith}
use hyperlogloglog.Base.Tests.{ltb, if◌then◌else◌}
use hyperlogloglog.Base.Bits.{
  test_bit, test_bit-le, test_bit-zero, test_bit-bit_and, test_bit-mul, test_bit-mod,
  test_bit-complement, test_bit_ext,
}

abbrev pub word_bits : ℕ
word_bits = 64

-- What a 64-bit register keeps of a number.
abbrev pub wrap : ℕ → ℕ
wrap x = x % 2 ^ 64

-- `x << k` and `x >> k`.
abbrev pub shl : ℕ → ℕ → ℕ
shl x k = x * 2 ^ k % 2 ^ 64

abbrev pub shr : ℕ → ℕ → ℕ
shr x k = x / 2 ^ k

-- `~x`.
abbrev pub complement : ℕ → ℕ
complement x = 2 ^ 64 - 1 - x

-- `~(~((Word)0) << k)`: `k` ones, for `k` below the width of the word.
unfoldable pub low_ones : ℕ → ℕ
low_ones k = complement (shl (complement 0) k)

pub test_bit-shl :
    (x k i : ℕ)
    → test_bit (shl x k) i ≡ (if ltb i 64 then (if ltb i k then 0 else test_bit x (i - k)) else 0)
test_bit-shl x k i = ground (arith, test_bit-mod (x * 2 ^ k) 64 i, test_bit-mul x k i)

pub test_bit-not :
    (x i : ℕ) → x < 2 ^ 64 → test_bit (complement x) i ≡ (if ltb i 64 then 1 - test_bit x i else 0)
test_bit-not x i h = test_bit-complement 64 x i h

pub test_bit-low_ones : (k i : ℕ) → k < 64 → test_bit (low_ones k) i ≡ (if ltb i k then 1 else 0)
unfolding low_ones
test_bit-low_ones k i h = ground (
  arith,
  test_bit-not (shl (complement 0) k) i,
  test_bit-shl (complement 0) k i,
  test_bit-not 0 (i - k),
  test_bit-zero (i - k),
)

-- A mask of low ones keeps the remainder.
pub bit_and-low_ones : (x k : ℕ) → k < 64 → bit_and x (low_ones k) ≡ x % 2 ^ k
bit_and-low_ones x k h = test_bit_ext _ _ λ i. ground (
  arith,
  test_bit-bit_and x (low_ones k) i,
  test_bit-low_ones k i h,
  test_bit-mod x k i,
  test_bit-le x i,
)

pub low_ones-lt : (k : ℕ) → low_ones k < 2 ^ 64
unfolding low_ones
low_ones-lt k = omega arith

-- A complement of 64 bits fits 64 bits.
pub complement-lt : (x : ℕ) → complement x < 2 ^ 64
complement-lt x = omega arith
