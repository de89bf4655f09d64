-- ===== src/Estimate.antt =====
-- The arithmetic of `estimate`, which hyperlogloglog/HyperLogLog.hpp, HyperLogLogLog.hpp and
-- HyperLogLogZstd.hpp share. A `double` is a value of an unknown type with the operations that
-- the code applies, so that what is equal here is equal to the last bit. The registers are below
-- 64, so the shift `1ull << r` is defined.
use hyperlogloglog.Base.{ℕ, ◌+◌, ◌/◌, ◌^◌, Bool, ◌&&◌, not, List, [], ◌∷◌, ◌==◌, if◌then◌else◌, shl}

-- `of_nat` converts an integer, and `decimal n k` is the literal for `n / 10 ^ k`.
pub record Floats {ℓ} (F : Type ℓ) : Type ℓ where
  pub of_nat : ℕ → F
  pub decimal : ℕ → ℕ → F
  pub add : F → F → F
  pub sub : F → F → F
  pub mul : F → F → F
  pub div : F → F → F
  pub negate : F → F
  pub log : F → F
  pub le : F → F → Bool

-- The variables `E` and `V` of the loop.
pub record Sum {ℓ} (F : Type ℓ) : Type ℓ where
  pub total : F
  pub zeros : ℕ

module _ {ℓ} {F : Type ℓ} (d : Floats F) where
  abbrev pub start : Sum F
  start = record { total = d.of_nat 0; zeros = 0 }

  -- The body of the loop.
  unfoldable pub tally : ℕ → Sum F → Sum F
  tally r s = record {
    total = d.add s.total (d.div (d.decimal 10 1) (d.of_nat (shl 1 r)));
    zeros = if r == 0 then s.zeros + 1 else s.zeros;
  }

  unfoldable pub alpha : ℕ → F
  alpha m =
      if m == 16
      then d.decimal 673 3
      else if m == 32
      then d.decimal 697 3
      else if m == 64
      then d.decimal 709 3
      else d.div (d.decimal 7213 4) (d.add (d.decimal 10 1) (d.div (d.decimal 1079 3) (d.of_nat m)))

  -- What follows the loop.
  unfoldable pub finish : ℕ → Sum F → F
  unfolding alpha
  finish m s =
      let e = d.div (d.mul (d.mul (alpha m) (d.of_nat m)) (d.of_nat m)) s.total in
      let small = d.mul (d.div (d.decimal 50 1) (d.decimal 20 1)) (d.of_nat m) in
      if d.le e small && not (s.zeros == 0)
      then d.mul (d.of_nat m) (d.log (d.div (d.of_nat m) (d.of_nat s.zeros)))
      else if d.le e (d.of_nat (2 ^ 32 / 30))
      then e
      else d.mul (d.negate (d.of_nat (2 ^ 32)))
          (d.log (d.sub (d.of_nat 1) (d.div e (d.of_nat (2 ^ 32)))))

  -- The estimate of a list of registers, in the order of their indices.
  unfoldable pub tally_list : List ℕ → Sum F → Sum F
  tally_list [] s = s
  tally_list (r ∷ rs) s = tally_list rs (tally r s)

  unfoldable pub estimate_list : ℕ → List ℕ → F
  unfolding tally_list
  estimate_list m rs = finish m (tally_list rs start)
