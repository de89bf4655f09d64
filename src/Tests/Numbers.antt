-- ===== src/Tests/Numbers.antt =====
-- hyperlogloglog/common.hpp and hyperlogloglog/Hash.hpp on numbers.
use hyperlogloglog.Base.{◌≡◌, refl, test_bit}
use hyperlogloglog.Common.{leading_zeros, clz, rho, log2i_from, log2i, fibonacci_hash}

program : Unit {0}
unfolding test_bit leading_zeros clz rho log2i_from log2i fibonacci_hash
program = tt

rho_hundred : (rho 100 ≡ 58) × (log2i 100 ≡ 6)
unfolding program
rho_hundred = (refl, refl)

fibonacci_hash_one : fibonacci_hash 1 12 ≡ 2531
unfolding program
fibonacci_hash_one = refl
