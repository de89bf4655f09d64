-- ===== src/HyperLogLogLog/Optimum/Bases.antt =====
-- Some register is as good a base as any other number.
use native.Mathlib.Decide.{dec_lt, dec_le}
use native.Mathlib.Nat.{mul-le-mul_right}
use hyperlogloglog.Base.{
  ℕ, zero, suc, ◌+◌, ◌-◌, ◌%◌, ◌^◌, ◌≤◌, ◌<◌, ◌≡◌, refl, ap, arith, List, [], ◌∷◌, length, get_or,
  ◌⊎◌, inl, inr,
}
use hyperlogloglog.Common.{log2i}
use hyperlogloglog.HyperLogLogLog.Counts.{count, count_mono, count_front, count-le, count_all}
use hyperlogloglog.HyperLogLogLog.Shape.{is_exception}
use hyperlogloglog.HyperLogLogLog.Optimum.{exceptions, bits_with, least_bits, least_bits-least}

-- Either all of the first numbers have values below `b`, or one has the least value from `b` on.
least_from :
    (f : ℕ → ℕ) (b n : ℕ)
    → ((i : ℕ) → i < n → f i < b)
      ⊎ ((j : ℕ) × (j < n) × (b ≤ f j) × ((i : ℕ) → i < n → b ≤ f i → f j ≤ f i))
least_from f b zero = inl (λ i p. absurd (omega arith))
least_from f b (suc n) = elim (least_from f b n) [
  | inl low ↦ elim (dec_lt (f n) b) [
    | yes lt ↦ inl (λ i p. ground (arith, low i, lt, ap f {x = i} {y = n}))
    | no ge ↦
        inr (n, omega arith, omega arith, λ i p le. ground (arith, low i, le, ap f {x = i} {y = n}))
  ]
  | inr (j, p, ge, least) ↦ elim (dec_lt (f n) b) [
    | yes lt ↦
        inr (j, omega arith, ge, λ i q le. ground (arith, least i, lt, le, ap f {x = i} {y = n}))
    | no high ↦ elim (dec_le (f j) (f n)) [
      | yes le' ↦
          inr (j, omega arith, ge, λ i q le. ground (arith, least i, le, le', ap f {x = i} {y = n}))
      | no gt ↦ inr (
        n,
        omega arith,
        omega arith,
        λ i q le. ground (arith, least i, le, gt, ap f {x = i} {y = n}),
      )
    ]
  ]
]

-- One of the values has no more exceptions than any base.
pub some_value-le :
    (f : ℕ → ℕ) (max_offset b n : ℕ)
    → 0 < n
    → (j : ℕ) × (j < n)
      × (count (λ i. is_exception max_offset (f j) (f i)) n
          ≤ count (λ i. is_exception max_offset b (f i)) n)
some_value-le f max_offset b n pos = elim (least_from f b n) [
  | inl low ↦ (
    0,
    pos,
    omega (
      arith,
      count-le (λ i. is_exception max_offset (f 0) (f i)) n,
      count_all (λ i. is_exception max_offset b (f i)) n (λ i p. ground (arith, low i p)),
    ),
  )
  | inr (j, p, ge, least) ↦ (j, p, count_mono _ _ n (λ i q e. ground (arith, least i q, ge, e)))
]

pub exceptions-count :
    (max_offset b : ℕ) (rs : List ℕ)
    → exceptions max_offset b rs
      ≡ count (λ i. is_exception max_offset b (get_or rs i 0)) (length rs)
unfolding exceptions count
exceptions-count max_offset b [] = refl
exceptions-count max_offset b (r ∷ rs) = omega (
  arith,
  exceptions-count max_offset b rs,
  count_front (λ i. is_exception max_offset b (get_or (r ∷ rs) i 0)) (length rs),
)

-- From one register on, the number is at most the size of the sketch with any number as its base,
-- and is the size with one of the registers.
pub least_bits_optimal :
    (registers : List ℕ) (m_bits s_bits : ℕ)
    → 0 < length registers
    → ((base : ℕ) → least_bits registers m_bits s_bits ≤ bits_with registers m_bits s_bits base)
      × ((i : ℕ) × (i < length registers)
          × (least_bits registers m_bits s_bits
              ≡ bits_with registers m_bits s_bits (get_or registers i 0)))
unfolding bits_with
least_bits_optimal registers m_bits s_bits pos =
    let (each, attained) = least_bits-least registers m_bits s_bits pos in
    (λ base. any each base, attained)
  where
    any :
        ((i : ℕ)
          → i < length registers
          → least_bits registers m_bits s_bits
            ≤ bits_with registers m_bits s_bits (get_or registers i 0))
        → (base : ℕ) → least_bits registers m_bits s_bits ≤ bits_with registers m_bits s_bits base
    any each base =
        let max_offset = (2 ^ m_bits - 1) % 2 ^ 8 in
        let (j, p, le) =
          some_value-le (λ i. get_or registers i 0) max_offset base (length registers) pos in
        let fewer : exceptions max_offset (get_or registers j 0) registers
            ≤ exceptions max_offset base registers =
          omega (
            arith,
            exceptions-count max_offset base registers,
            exceptions-count max_offset (get_or registers j 0) registers,
            le,
          ) in
        omega (arith, each j p, mul-le-mul_right (log2i (length registers) + s_bits) fewer)
