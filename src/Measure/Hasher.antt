-- ===== src/Measure/Hasher.antt =====
-- The class `Hasher` of hyperlogloglog/measure.cpp, which only hashes. Its static variable `M` is
-- a field here, as nothing reads it. `add` passes the number of registers on as the number of
-- bits; a shift by a negative number is undefined in C++, and by 0 here.
use hyperlogloglog.Base.{ℕ, Option, none}
use hyperlogloglog.Common.{fibonacci_hash}

pub record Hasher : Type 0 where
  pub last : ℕ
  pub m : ℕ

unfoldable pub construct : ℕ → Hasher
construct m = record { last = 0; m = m }

-- `add` of an object by its hash.
unfoldable pub add : Hasher → ℕ → Hasher
add h x = record h { last = fibonacci_hash x h.m }

-- The assertions of `addJr` and `merge` fail.
unfoldable pub add_jr : Hasher → ℕ → ℕ → Option Hasher
add_jr h j r = none

unfoldable pub merge : Hasher → Hasher → Option Hasher
merge a b = none
