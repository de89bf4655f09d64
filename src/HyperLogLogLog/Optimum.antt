-- ===== src/HyperLogLogLog/Optimum.antt =====
-- `minimumBits`: the size of a sketch with the best split of its registers. The set of bases is
-- the list of the registers here, as an order and repetitions do not change a minimum.
pub mod Bases
pub mod Fits
use native.Mathlib.Nat.{mul-le-mul_right}
use hyperlogloglog.Base.{
  ℕ, zero, suc, ◌+◌, ◌-◌, ◌*◌, ◌%◌, ◌^◌, ◌≤◌, ◌<◌, ◌≡◌, refl, ap, arith, List, [], ◌∷◌, min, ltb,
  ◌||◌, ◌&&◌, Option, some, none, if◌then◌else◌, length, get_or, ◌⊎◌, inl, inr,
}
use hyperlogloglog.Common.{log2i}

-- The registers that are no offset from `base`.
unfoldable pub exceptions : ℕ → ℕ → List ℕ → ℕ
exceptions max_offset base [] = 0
exceptions max_offset base (r ∷ rs) =
    (if ltb r base || ltb (base + max_offset) r then 1 else 0) + exceptions max_offset base rs

-- The loop over the bases.
unfoldable pub best_ns : ℕ → List ℕ → List ℕ → ℕ → ℕ
best_ns max_offset registers [] best = best
best_ns max_offset registers (b ∷ bs) best =
    best_ns max_offset registers bs (min best (exceptions max_offset b registers))

-- The number that is returned, where no `int` overflows.
unfoldable pub least_bits : List ℕ → ℕ → ℕ → ℕ
least_bits registers m_bits s_bits =
    let m = length registers in
    let ns = best_ns ((2 ^ m_bits - 1) % 2 ^ 8) registers registers m in
    ns * (log2i m + s_bits) + m * m_bits

-- The arithmetic is on `int`s; where one of them overflows, which is undefined, this gives none.
unfoldable pub minimum_bits : List ℕ → ℕ → ℕ → Option ℕ
unfolding least_bits
minimum_bits registers m_bits s_bits =
    let bits = least_bits registers m_bits s_bits in
    if ltb m_bits 31 && ltb (length registers) (2 ^ 31) && ltb bits (2 ^ 31)
    then some bits
    else none

-- The size of the sketch with this base.
unfoldable pub bits_with : List ℕ → ℕ → ℕ → ℕ → ℕ
bits_with registers m_bits s_bits base =
    exceptions ((2 ^ m_bits - 1) % 2 ^ 8) base registers * (log2i (length registers) + s_bits)
    + length registers * m_bits

exceptions-le : (max_offset base : ℕ) (rs : List ℕ) → exceptions max_offset base rs ≤ length rs
unfolding exceptions
exceptions-le max_offset base [] = omega arith
exceptions-le max_offset base (r ∷ rs) = ground (arith, exceptions-le max_offset base rs)

pub best_ns-le :
    (max_offset : ℕ) (rs bs : List ℕ) (best : ℕ)
    → (best_ns max_offset rs bs best ≤ best)
      × ((i : ℕ)
          → i < length bs
          → best_ns max_offset rs bs best ≤ exceptions max_offset (get_or bs i 0) rs)
unfolding best_ns
best_ns-le max_offset rs [] best = (omega arith, λ i p. absurd (omega arith))
best_ns-le max_offset rs (b ∷ bs) best =
    let (le, each) = best_ns-le max_offset rs bs (min best (exceptions max_offset b rs)) in
    (omega arith, under le each)
  where
    under :
        best_ns max_offset rs bs (min best (exceptions max_offset b rs))
          ≤ min best (exceptions max_offset b rs)
        → ((i : ℕ)
            → i < length bs
            → best_ns max_offset rs bs (min best (exceptions max_offset b rs))
              ≤ exceptions max_offset (get_or bs i 0) rs)
        → (i : ℕ) → i < length (b ∷ bs)
        → best_ns max_offset rs bs (min best (exceptions max_offset b rs))
          ≤ exceptions max_offset (get_or (b ∷ bs) i 0) rs
    under le each zero p = omega arith
    under le each (suc i) p = each i (omega arith)

best_ns-attained :
    (max_offset : ℕ) (rs bs : List ℕ) (best : ℕ)
    → (best_ns max_offset rs bs best ≡ best)
      ⊎ ((i : ℕ) × (i < length bs)
          × (best_ns max_offset rs bs best ≡ exceptions max_offset (get_or bs i 0) rs))
unfolding best_ns
best_ns-attained max_offset rs [] best = inl refl
best_ns-attained max_offset rs (b ∷ bs) best =
    elim (best_ns-attained max_offset rs bs (min best (exceptions max_offset b rs))) [
      | inr (i, p, e) ↦ inr (suc i, omega arith, e)
      | inl e ↦ elim (min-cases best (exceptions max_offset b rs)) [
        | inl f ↦ inl (omega arith)
        | inr f ↦ inr (0, omega arith, omega arith)
      ]
    ]
  where
    min-cases : (x y : ℕ) → (min x y ≡ x) ⊎ (min x y ≡ y)
    min-cases x y = ground arith

-- From one register on, the number is at most the size of the sketch with any register as its base,
-- and is the size with one of them.
pub least_bits-least :
    (registers : List ℕ) (m_bits s_bits : ℕ)
    → 0 < length registers
    → ((i : ℕ)
        → i < length registers
        → least_bits registers m_bits s_bits
          ≤ bits_with registers m_bits s_bits (get_or registers i 0))
      × ((i : ℕ) × (i < length registers)
          × (least_bits registers m_bits s_bits
              ≡ bits_with registers m_bits s_bits (get_or registers i 0)))
unfolding least_bits bits_with
least_bits-least registers m_bits s_bits pos =
    let max_offset = (2 ^ m_bits - 1) % 2 ^ 8 in
    let m = length registers in
    let (le, each) = best_ns-le max_offset registers registers m in
    (
      (λ i p. omega (arith, mul-le-mul_right (log2i m + s_bits) (each i p))),
      elim (best_ns-attained max_offset registers registers m) [
        | inr (i, p, e) ↦ (i, p, ap (λ (n : ℕ). n * (log2i m + s_bits) + m * m_bits) e)
        | inl e ↦ (0, pos, ap (λ (n : ℕ). n * (log2i m + s_bits) + m * m_bits) (whole e))
      ],
    )
  where
    whole :
        best_ns ((2 ^ m_bits - 1) % 2 ^ 8) registers registers (length registers) ≡ length registers
        → best_ns ((2 ^ m_bits - 1) % 2 ^ 8) registers registers (length registers)
          ≡ exceptions ((2 ^ m_bits - 1) % 2 ^ 8) (get_or registers 0 0) registers
    whole e = omega (
      arith,
      exceptions-le ((2 ^ m_bits - 1) % 2 ^ 8) (get_or registers 0 0) registers,
      (best_ns-le ((2 ^ m_bits - 1) % 2 ^ 8) registers registers (length registers)).1 0 pos,
    )
