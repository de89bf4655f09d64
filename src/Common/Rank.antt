-- ===== src/Common/Rank.antt =====
-- `rho` counts leading zeros, and `fibonacciHash` gives an index of `b` bits.
use native.Mathlib.Nat.{suc-sub-suc}
use native.Mathlib.Numerals.{unary_clauses}
use native.Mathlib.Decide.{dec_lt, ℕ_discrete}
use hyperlogloglog.Base.{
  ◌%◌, ℕ, zero, suc, ◌+◌, ◌-◌, ◌*◌, ◌^◌, ◌≤◌, ◌<◌, ◌≡◌, ◌≢◌, refl, ap, arith, test_bit, wrap,
}
use hyperlogloglog.Base.Bits.{
  test_bit-of_lt, test_bit-le, lt_of_test_bit, test_bit-shr, test_bit-mod,
}
use hyperlogloglog.Common.{leading_zeros, clz, rho, fibonacci_hash}

-- The highest bit of a number of `n + 1` bits.
le_of_top : (n x : ℕ) → test_bit x n ≡ 1 → 2 ^ n ≤ x
le_of_top n x one = elim (dec_lt x (2 ^ n)) [
  | yes p ↦ absurd (omega (arith, test_bit-of_lt n x n p (omega arith)))
  | no p ↦ omega arith
]

lt_of_top : (n x : ℕ) → x < 2 ^ suc n → test_bit x n ≢ 1 → x < 2 ^ n
lt_of_top n x h zero_bit = lt_of_test_bit n x λ i p.
    ground (arith, test_bit-of_lt (suc n) x i h, test_bit-le x n, ap (test_bit x) {x = i} {y = n})

-- Where the highest one stands, below the leading zeros.
record IsTop (n x zeros : ℕ) : Type 0 where
  fewer : zeros < n
  from : 2 ^ (n - 1 - zeros) ≤ x
  below : x < 2 ^ (n - zeros)

leading_zeros-IsTop : (n x : ℕ) → 0 < x → x < 2 ^ n → IsTop n x (leading_zeros n x)
leading_zeros-IsTop zero x pos h = absurd (omega arith)
leading_zeros-IsTop (suc n) x pos h = elim (ℕ_discrete (test_bit x n) 1) [
  | yes one ↦ rw (found one) (record {
    fewer = omega arith;
    from = simp unary_clauses (le_of_top n x one);
    below = simp unary_clauses (simp unary_clauses at h);
  })
  | no other ↦
      let rest = leading_zeros-IsTop n x pos (lt_of_top n x h other) in
      rw (skipped other) (record {
        fewer = omega (arith, rest.fewer);
        from = rw (fewer_bits (leading_zeros n x)) rest.from;
        below = rw suc-sub-suc rest.below;
      })
]
  where
    found : test_bit x n ≡ 1 → leading_zeros (suc n) x ≡ 0
    found e = unfold leading_zeros in ground arith

    skipped : test_bit x n ≢ 1 → leading_zeros (suc n) x ≡ suc (leading_zeros n x)
    skipped e = unfold leading_zeros in ground arith

    fewer_bits : (z : ℕ) → suc n - 1 - suc z ≡ n - 1 - z
    fewer_bits z = omega arith

-- A 64-bit word other than 0 has a rank from 1 to 64, which places its highest bit.
pub rho_bounds :
    (x : ℕ)
    → 0 < x
    → x < 2 ^ 64
    → (1 ≤ rho x) × (rho x ≤ 64) × (2 ^ (64 - rho x) ≤ x) × (x < 2 ^ (65 - rho x))
rho_bounds x pos h =
    let top = leading_zeros-IsTop 64 x pos h in
    rw rank (
      omega arith,
      omega (arith, top.fewer),
      rw (shifted (leading_zeros 64 x)) top.from,
      rw (shifted' (leading_zeros 64 x)) top.below,
    )
  where
    rank : rho x ≡ leading_zeros 64 x + 1
    rank = unfold rho clz in refl

    shifted : (z : ℕ) → 64 - (z + 1) ≡ 64 - 1 - z
    shifted z = omega arith

    shifted' : (z : ℕ) → 65 - (z + 1) ≡ 64 - z
    shifted' z = omega arith

-- The Fibonacci hash to 1 to 64 bits is below the power of two of its bits.
pub fibonacci_hash-lt : (x b : ℕ) → 0 < b → b ≤ 64 → fibonacci_hash x b < 2 ^ b
unfolding fibonacci_hash
fibonacci_hash-lt x b pos h = lt_of_test_bit b _ λ i p. ground (
  arith,
  test_bit-shr (wrap (0x9e3779b97f4a7c15 * x)) ((64 - b) % 64) i,
  test_bit-mod (0x9e3779b97f4a7c15 * x) 64 (i + (64 - b) % 64),
)
