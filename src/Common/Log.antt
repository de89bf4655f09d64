-- ===== src/Common/Log.antt =====
-- `log2i` is the logarithm rounded down.
use native.Mathlib.Nat.{pow-suc, one-le-pow, pow-le-pow_right}
use hyperlogloglog.Base.{
  ℕ, zero, suc, ◌+◌, ◌*◌, ◌/◌, ◌^◌, ◌≤◌, ◌<◌, ◌≡◌, ap, ◌∙◌, arith, ltb, false, lt→ltb,
}
use native.Mathlib.Decide.{dec_lt}
use hyperlogloglog.Common.{log2i_from, log2i}

ge→ltb : (a b : ℕ) → b ≤ a → ltb a b ≡ false
ge→ltb a b h = ground arith

pow-one-add : (k : ℕ) → 2 ^ (1 + k) ≡ 2 * 2 ^ k
pow-one-add k = ap (λ n. 2 ^ n) one_add ∙ omega (arith, pow-suc 2 k)
  where
    one_add : 1 + k ≡ suc k
    one_add = omega arith

log2i_from_bounds :
    (fuel x : ℕ) → x ≤ fuel → 0 < x → (2 ^ log2i_from fuel x ≤ x) × (x < 2 * 2 ^ log2i_from fuel x)
unfolding log2i_from
log2i_from_bounds zero x h pos = absurd (omega arith)
log2i_from_bounds (suc fuel) x h pos = elim (dec_lt x 2) [
  | yes small ↦ rw (lt→ltb x 2 small) (omega arith)
  | no big ↦
      let rest = log2i_from_bounds fuel (x / 2) (omega arith) (omega arith) in
      rw (ge→ltb x 2 (omega arith)) (omega (arith, rest, pow-one-add (log2i_from fuel (x / 2))))
]

-- From 1 on, the power of two of `log2i x` is at most `x`, and its double is greater.
pub log2i_bounds : (x : ℕ) → 0 < x → (2 ^ log2i x ≤ x) × (x < 2 * 2 ^ log2i x)
unfolding log2i
log2i_bounds x pos = log2i_from_bounds x x (omega arith) pos

-- Powers of two are told apart by their exponents.
pow_between : (k n : ℕ) → 2 ^ k ≤ 2 ^ n → 2 ^ n < 2 * 2 ^ k → k ≡ n
pow_between k n le lt = elim (dec_lt k n) [
  | yes p ↦
      absurd (
        omega
          (arith, lt, pow-suc 2 k, pow-le-pow_right {n = 2} (omega arith) {i = suc k} {j = n} p))
  | no p ↦ elim (dec_lt n k) [
    | yes q ↦ absurd (
        omega (
          arith,
          le,
          pow-suc 2 n,
          one-le-pow n 2 (omega arith),
          pow-le-pow_right {n = 2} (omega arith) {i = suc n} {j = k} q,
        ))
    | no q ↦ omega arith
  ]
]

-- The test `m == 1 << log2i(m)` accepts the powers of two.
pub log2i-pow : (k : ℕ) → log2i (2 ^ k) ≡ k
log2i-pow k =
    let b = log2i_bounds (2 ^ k) (one-le-pow k 2 (omega arith)) in
    pow_between (log2i (2 ^ k)) k b.0 b.1

pub pow-lt-pow_right : (k n : ℕ) → k < n → 2 ^ k < 2 ^ n
pow-lt-pow_right k n p = omega (
  arith,
  pow-suc 2 k,
  one-le-pow k 2 (omega arith),
  pow-le-pow_right {n = 2} (omega arith) {i = suc k} {j = n} p,
)
