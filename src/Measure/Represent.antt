-- ===== src/Measure/Represent.antt =====
-- The three sketch classes do what the benchmark asks of them.
use hyperlogloglog.Base.{ℕ, ◌^◌, ◌≤◌, ◌<◌, ◌≡◌, refl, sym, ap, ap₂, ◌∙◌, arith, some}
use hyperlogloglog.Base.Tables.{eq-tabulate}
use native.Mathlib.Nat.{pow-le-pow_right}
use hyperlogloglog.Common.{log2i, rho, fibonacci_hash}
use hyperlogloglog.Estimate.{Floats, estimate_list}
use hyperlogloglog.HyperLogLog
use hyperlogloglog.HyperLogLog.{HyperLogLog}
use hyperlogloglog.HyperLogLog.Add as Vanilla
use hyperlogloglog.HyperLogLog.Merge as VanillaMerge
use hyperlogloglog.HyperLogLog.Export as VanillaExport
use hyperlogloglog.HyperLogLog.Estimate as VanillaEstimate
use hyperlogloglog.Measure.Laws.{raised, IsSketch}
use hyperlogloglog.Measure.Sketches.{hyper_log_log}

pub record HasRegisters (m : ℕ) (g : ℕ → ℕ) (h : HyperLogLog) : Type 0 where
  pub valid : Vanilla.IsValid h
  pub size : h.m ≡ m
  pub log_m : h.log_m ≡ log2i m
  pub values : (j : ℕ) → j < m → Vanilla.register h j ≡ g j

pub add_jr-HasRegisters :
    (m j r : ℕ) (g : ℕ → ℕ) (h : HyperLogLog)
    → HasRegisters m g h
    → j < m
    → r < 64
    → HasRegisters m (raised g j r) (HyperLogLog.add_jr h j r)
add_jr-HasRegisters m j r g h has hj hr =
    let in_h : j < h.m = omega (arith, has.size) in
    record {
      valid = Vanilla.add_jr-IsValid j r has.valid in_h;
      size = Vanilla.m-add_jr h j r ∙ has.size;
      log_m = Vanilla.log_m-add_jr h j r ∙ has.log_m;
      values = λ k p.
          ground
            (arith, Vanilla.register-add_jr-max j r has.valid in_h k hr, has.size, has.values k p);
    }

pub new-HasRegisters : (m : ℕ) → m < 2 ^ 31 → HasRegisters m (λ j. 0) (HyperLogLog.new m)
unfolding HyperLogLog.new
new-HasRegisters m small = record {
  valid = Vanilla.new-IsValid m small;
  size = refl;
  log_m = refl;
  values = λ j p. Vanilla.register-new m j small p;
}

module _ {ℓ} {F : Type ℓ} (d : Floats F) where
  -- HyperLogLog, which takes no flags.
  pub hyper_log_log-IsSketch : IsSketch d (hyper_log_log d)
  unfolding HyperLogLog.add HyperLogLog.add_hash
  hyper_log_log-IsSketch = record {
    Represents = λ m flags g h. HasRegisters m g h;
    construct-Represents = λ k flags le accepted.
        (HyperLogLog.new (2 ^ k), refl, new-HasRegisters (2 ^ k) (power_small k le));
    add_jr-Represents = λ m flags j r g h has hj hr.
        (HyperLogLog.add_jr h j r, refl, add_jr-HasRegisters m j r g h has hj hr);
    add-eq-add_jr = λ m flags x g h has.
        ap (λ b. some (HyperLogLog.add_jr h (fibonacci_hash x b) (rho x))) has.log_m;
    merge-Represents = λ m flags f g a b ha hb.
        let (h, e, joined) =
          VanillaMerge.merge-IsMerged ha.valid hb.valid (ha.size ∙ sym hb.size) in
        (
          h,
          e,
          record {
            valid = joined.valid;
            size = joined.m ∙ ha.size;
            log_m = joined.log_m ∙ log_m-new a.m ∙ ap log2i ha.size;
            values =
                λ j p. ground (arith, joined.registers j, ha.size, ha.values j p, hb.values j p);
          },
        );
    Represents_ext = λ m flags f g h same has. record {
      valid = has.valid;
      size = has.size;
      log_m = has.log_m;
      values = λ j p. has.values j p ∙ same j;
    };
    estimate-eq-list = λ m flags g h has.
        VanillaEstimate.estimate-export_registers d has.valid
        ∙ ap₂ (estimate_list d) has.size (
            eq-tabulate (HyperLogLog.export_registers h) g m
              (VanillaExport.length-export_registers h ∙ has.size)
              (λ j p.
                VanillaExport.get_or-export_registers j has.valid (omega (arith, has.size))
                ∙ has.values j p));
  }
    where
      power_small : (k : ℕ) → k ≤ 30 → 2 ^ k < 2 ^ 31
      power_small k le = omega (arith, pow-le-pow_right {n = 2} (omega arith) {i = k} {j = 30} le)

      log_m-new : (m : ℕ) → (HyperLogLog.new m).log_m ≡ log2i m
      log_m-new m = unfold HyperLogLog.new in refl
