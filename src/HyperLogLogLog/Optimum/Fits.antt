-- ===== src/HyperLogLogLog/Optimum/Fits.antt =====
-- With up to 2 ^ 25 registers no `int` of `minimumBits` overflows.
use native.Mathlib.Decide.{dec_le}
use native.Mathlib.Nat.{mul-le-mul_left, mul-le-mul_right, pow-le-pow_right}
use hyperlogloglog.Base.{ℕ, ◌+◌, ◌-◌, ◌%◌, ◌^◌, ◌≤◌, ◌<◌, ◌≡◌, arith, List, length, get_or, some}
use hyperlogloglog.Common.{log2i}
use hyperlogloglog.Common.Log.{log2i_bounds}
use hyperlogloglog.HyperLogLogLog.Optimum.{best_ns, best_ns-le, least_bits, minimum_bits, bits_with}
use hyperlogloglog.HyperLogLogLog.Optimum.Bases.{least_bits_optimal}

log2i-le : (m : ℕ) → 0 < m → m ≤ 2 ^ 25 → log2i m ≤ 25
log2i-le m pos le = elim (dec_le (log2i m) 25) [
  | yes p ↦ p
  | no p ↦ absurd (
      omega (
        arith,
        log2i_bounds m pos,
        pow-le-pow_right {n = 2} (omega arith) {i = 26} {j = log2i m} (omega arith),
      ))
]

module _ (registers : List ℕ) (m_bits s_bits : ℕ) (pos : 0 < length registers)
    (few : length registers ≤ 2 ^ 25) (narrow : m_bits ≤ 8) (small : s_bits ≤ 6) where
  least_bits-lt : least_bits registers m_bits s_bits < 2 ^ 31
  unfolding least_bits
  least_bits-lt =
      let m = length registers in
      let ns = best_ns ((2 ^ m_bits - 1) % 2 ^ 8) registers registers m in
      let fewer : ns ≤ m = (best_ns-le ((2 ^ m_bits - 1) % 2 ^ 8) registers registers m).0 in
      let width : log2i m + s_bits ≤ 31 = omega (arith, log2i-le m pos few) in
      omega (
        arith,
        mul-le-mul_right (log2i m + s_bits) fewer,
        mul-le-mul_left m width,
        mul-le-mul_left m narrow,
      )

  pub minimum_bits-least_bits :
      minimum_bits registers m_bits s_bits ≡ some (least_bits registers m_bits s_bits)
  unfolding minimum_bits
  minimum_bits-least_bits = ground (arith, least_bits-lt)

  -- Take 1 to 2 ^ 25 registers, offsets of at most 8 bits and ranks of at most 6 bits.
  -- `minimumBits` then returns a number without an overflow; it is at most the size of the
  -- sketch with any number as its base, and is the size with one of the registers.
  pub minimum_bits_optimal :
      (bits : ℕ) × (minimum_bits registers m_bits s_bits ≡ some bits)
      × ((base : ℕ) → bits ≤ bits_with registers m_bits s_bits base)
      × ((i : ℕ) × (i < length registers)
          × (bits ≡ bits_with registers m_bits s_bits (get_or registers i 0)))
  minimum_bits_optimal =
      let (each, attained) = least_bits_optimal registers m_bits s_bits pos in
      (least_bits registers m_bits s_bits, minimum_bits-least_bits, each, attained)
