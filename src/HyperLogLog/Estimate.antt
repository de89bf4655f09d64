-- ===== src/HyperLogLog/Estimate.antt =====
-- `estimate` of hyperlogloglog/HyperLogLog.hpp.
use hyperlogloglog.Base.{ℕ, zero, suc, ◌+◌, ◌^◌, ◌<◌, ◌≤◌, ◌≡◌, refl, ap, arith}
use native.Mathlib.Nat.{mod-eq_of_lt}
use hyperlogloglog.PackedVector
use hyperlogloglog.PackedVector.{PackedVector}
use hyperlogloglog.Estimate.{Floats, Sum, start, tally, finish, tally_list, estimate_list}
use hyperlogloglog.HyperLogLog.{HyperLogLog, export_from, export_registers}
use hyperlogloglog.HyperLogLog.Add.{IsValid, register-lt}

module _ {ℓ} {F : Type ℓ} (d : Floats F) where
  -- The loop over the registers, from `i` on, with the rounds that are left.
  unfoldable pub tally_from : PackedVector → ℕ → ℕ → Sum F → Sum F
  tally_from v zero i s = s
  tally_from v (suc rounds) i s = tally_from v rounds (i + 1) (tally d (PackedVector.get v i) s)

  unfoldable pub estimate : HyperLogLog → F
  unfolding tally_from
  estimate h = finish d h.m (tally_from h.registers h.m 0 (start d))

  tally_from-list :
      (v : PackedVector) (rounds i : ℕ) (s : Sum F)
      → ((j : ℕ) → i ≤ j → j < i + rounds → PackedVector.get v j < 2 ^ 8)
      → tally_from v rounds i s ≡ tally_list d (export_from v rounds i) s
  unfolding tally_from tally_list export_from
  tally_from-list v zero i s small = refl
  tally_from-list v (suc rounds) i s small =
      rw (mod-eq_of_lt (small i (omega arith) (omega arith))) (
        tally_from-list v rounds (i + 1) (tally d (PackedVector.get v i) s)
          (λ j p q. small j (omega arith) (omega arith)))

  -- The estimate depends on the exported registers only.
  pub estimate-export_registers :
      {h : HyperLogLog} → IsValid h → estimate h ≡ estimate_list d h.m (export_registers h)
  unfolding estimate estimate_list export_registers
  estimate-export_registers {h} valid = ap (finish d h.m) (
      tally_from-list h.registers h.m 0 (start d)
        (λ j p q. omega (arith, register-lt j valid (omega arith))))
