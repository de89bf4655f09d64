-- ===== src/HyperLogLogLog/Estimate.antt =====
-- `estimate` of hyperlogloglog/HyperLogLogLog.hpp.
use hyperlogloglog.Base.{ℕ, zero, suc, ◌+◌, ◌^◌, ◌<◌, ◌≤◌, ◌≡◌, refl, ap, ◌∙◌, arith}
use native.Mathlib.Nat.{mod-eq_of_lt}
use hyperlogloglog.Estimate.{Floats, Sum, start, tally, finish, tally_list, estimate_list}
use hyperlogloglog.HyperLogLogLog.State.{HyperLogLogLog}
use hyperlogloglog.HyperLogLogLog.Registers.{get, iterate}
use hyperlogloglog.HyperLogLogLog.Update.{export_from, export_registers}
use hyperlogloglog.HyperLogLogLog.Rebase.{IsValid}
use hyperlogloglog.HyperLogLogLog.Iterate.{over, iterate-over}

module _ {ℓ} {F : Type ℓ} (d : Floats F) where
  unfoldable pub estimate : HyperLogLogLog → F
  estimate h = finish d h.m (iterate (λ j r s. tally d r s) h (start d))

  over-list :
      (h : HyperLogLogLog) (rounds i : ℕ) (s : Sum F)
      → ((j : ℕ) → i ≤ j → j < i + rounds → get h j < 2 ^ 8)
      → over (λ j r s. tally d r s) (get h) rounds i s ≡ tally_list d (export_from h rounds i) s
  unfolding over tally_list export_from
  over-list h zero i s small = refl
  over-list h (suc rounds) i s small = rw (mod-eq_of_lt (small i (omega arith) (omega arith))) (
      over-list h rounds (i + 1) (tally d (get h i) s)
        (λ j p q. small j (omega arith) (omega arith)))

  -- The estimate depends on the exported registers only.
  pub estimate-export_registers :
      {h : HyperLogLogLog} → IsValid h → estimate h ≡ estimate_list d h.m (export_registers h)
  unfolding estimate estimate_list export_registers
  estimate-export_registers {h} valid = ap (finish d h.m) (
      iterate-over (λ j r s. tally d r s) valid.shape (start d)
      ∙ over-list h h.m 0 (start d) (λ j p q. omega (arith, valid.ranks j (omega arith))))
