-- ===== src/Common.antt =====
-- hyperlogloglog/common.hpp and hyperlogloglog/Hash.hpp, for `Word = uint64_t`.
pub mod Log
pub mod Rank
pub mod ByteOrder
use hyperlogloglog.Base.{
  ◌%◌, ℕ, zero, suc, ◌+◌, ◌-◌, ◌*◌, ◌/◌, word_bits, wrap, shr, ltb, ◌==◌, if◌then◌else◌, test_bit,
}

-- `__builtin_clzl` on `n` bits: the zeros above the highest one. It is undefined at 0, where this
-- one gives `n`.
unfoldable pub leading_zeros : ℕ → ℕ → ℕ
leading_zeros zero x = 0
leading_zeros (suc n) x = if test_bit x n == 1 then 0 else suc (leading_zeros n x)

unfoldable pub clz : ℕ → ℕ
unfolding leading_zeros
clz x = leading_zeros word_bits x

unfoldable pub rho : ℕ → ℕ
rho x = clz x + 1

-- `log2i` with fuel, of which `x` is enough.
unfoldable pub log2i_from : ℕ → ℕ → ℕ
log2i_from zero x = 0
log2i_from (suc fuel) x = let rest = log2i_from fuel (shr x 1) in if ltb x 2 then 0 else 1 + rest

unfoldable pub log2i : ℕ → ℕ
unfolding log2i_from
log2i x = log2i_from x x

-- The product wraps. A shift by 64, at `b = 0`, is undefined in C++; here the word is then not
-- shifted, as with processors that take the distance modulo 64.
unfoldable pub fibonacci_hash : ℕ → ℕ → ℕ
fibonacci_hash x b = shr (wrap (0x9e3779b97f4a7c15 * x)) ((64 - b) % 64)
