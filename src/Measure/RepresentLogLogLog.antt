-- ===== src/Measure/RepresentLogLogLog.antt =====
-- The HyperLogLogLog sketch does what the benchmark asks of a sketch class.
use hyperlogloglog.Base.{
  ℕ, ◌%◌, ◌^◌, ◌≤◌, ◌<◌, ◌≡◌, refl, sym, ap, ap₂, ◌∙◌, arith, true, some, max,
}
use hyperlogloglog.Base.Tables.{eq-tabulate}
use native.Mathlib.Nat.{pow-le-pow_right}
use hyperlogloglog.Common.{log2i, rho, fibonacci_hash}
use hyperlogloglog.Common.Log.{log2i-pow}
use hyperlogloglog.Estimate.{Floats, estimate_list}
use hyperlogloglog.HyperLogLogLog.State.{
  HyperLogLogLog, new, fresh, complete_flags, are_valid_flags,
}
use hyperlogloglog.HyperLogLogLog.Registers.{get}
use hyperlogloglog.HyperLogLogLog.Update.{add, add_hash, add_jr, export_registers}
use hyperlogloglog.HyperLogLogLog.Rebase.{IsValid}
use hyperlogloglog.HyperLogLogLog.Refine.{add_jr-IsRaised}
use hyperlogloglog.HyperLogLogLog.New.{new_iff, new-IsValid}
use hyperlogloglog.HyperLogLogLog.Config.{SameConfig, SameConfig-trans, add_jr-SameConfig}
use hyperlogloglog.HyperLogLogLog.Streams.{length-export_registers, get_or-export_registers}
use hyperlogloglog.HyperLogLogLog.Estimate.{estimate-export_registers}
use hyperlogloglog.HyperLogLogLog.Merge.{merge}
use hyperlogloglog.HyperLogLogLog.Merge.Joined.{merge-IsJoined}
use hyperlogloglog.HyperLogLogLog.Merge.Config.{merge-SameConfig}
use hyperlogloglog.HyperLogLogLog.Merge.Streams.{new-again}
use hyperlogloglog.Measure.Laws.{raised, IsSketch}
use hyperlogloglog.Measure.Sketches.{hyper_log_log_log}

-- With the sketch that the constructor makes for the benchmark, whose set-up it has.
record HasRegisters (m flags : ℕ) (g : ℕ → ℕ) (h : HyperLogLogLog) : Type 0 where
  valid : IsValid h
  size : h.m ≡ m
  start : HyperLogLogLog
  made : new m 3 flags ≡ some start
  config : SameConfig start h
  values : (j : ℕ) → j < m → get h j ≡ g j

log_m-HasRegisters :
    (m flags : ℕ) (g : ℕ → ℕ) (h : HyperLogLogLog) → HasRegisters m flags g h → h.log_m ≡ log2i m
log_m-HasRegisters m flags g h has =
    sym (log2i-pow h.log_m) ∙ ap log2i (sym has.valid.shape.power ∙ has.size)

new-HasRegisters :
    (k flags : ℕ)
    → k ≤ 30
    → are_valid_flags (complete_flags (flags % 2 ^ 8)) ≡ true
    → (h : HyperLogLogLog) × (new (2 ^ k) 3 flags ≡ some h) × HasRegisters (2 ^ k) flags (λ j. 0) h
new-HasRegisters k flags le accepted =
    let m = 2 ^ k in
    let h = fresh m 3 (complete_flags (flags % 2 ^ 8)) in
    let made : new m 3 flags ≡ some h =
      (new_iff m 3 flags h).1 (ap (λ e. 2 ^ e) (sym (log2i-pow k)), accepted, refl) in
    let small : m ≤ 2 ^ 30 = pow-le-pow_right {n = 2} (omega arith) {i = k} {j = 30} le in
    let (valid, size, zeros) = new-IsValid m 3 flags small (omega arith) (omega arith) made in
    (
      h,
      made,
      record {
        valid = valid;
        size = size;
        start = h;
        made = made;
        config = record { m_bits = refl; s_bits = refl; flags = refl };
        values = zeros;
      },
    )

add_jr-HasRegisters :
    (m flags j r : ℕ) (g : ℕ → ℕ) (h : HyperLogLogLog)
    → HasRegisters m flags g h
    → j < m
    → r < 64
    → HasRegisters m flags (raised g j r) (add_jr h j r)
add_jr-HasRegisters m flags j r g h has hj hr =
    let one = add_jr-IsRaised j r has.valid (omega (arith, has.size)) hr in
    record {
      valid = one.valid;
      size = one.m ∙ has.size;
      start = has.start;
      made = has.made;
      config = SameConfig-trans has.config (add_jr-SameConfig h j r);
      values = λ k p. ground (arith, one.registers k, has.size, has.values k p);
    }

merge-HasRegisters :
    (m flags : ℕ) (f g : ℕ → ℕ) (a b : HyperLogLogLog)
    → HasRegisters m flags f a
    → HasRegisters m flags g b
    → (h : HyperLogLogLog) × (merge a b ≡ some h) × HasRegisters m flags (λ j. max (f j) (g j)) h
merge-HasRegisters m flags f g a b ha hb =
    let same : hb.start ≡ ha.start = ground (arith, ha.made, hb.made) in
    let cb : SameConfig ha.start b = rw (← same) hb.config in
    let (size, bits, again) = made_again in
    let made : new a.m a.m_bits a.flags ≡ some ha.start =
      rw (ha.size, ha.config.m_bits, ha.config.flags) (rw (← size) again) in
    let (h, merged, joined) =
      merge-IsJoined ha.valid hb.valid (hb.size ∙ sym ha.size) (cb.m_bits ∙ sym ha.config.m_bits)
        (omega (arith, ha.config.m_bits, bits)) made (cb.s_bits ∙ sym ha.config.s_bits)
        (cb.flags ∙ sym ha.config.flags) in
    (
      h,
      merged,
      record {
        valid = joined.valid;
        size = joined.m ∙ ha.size;
        start = ha.start;
        made = ha.made;
        config = merge-SameConfig a b made merged;
        values = λ j p. ground (arith, joined.registers j, ha.size, ha.values j p, hb.values j p);
      },
    )
  where
    made_again :
        (ha.start.m ≡ m)
        × (ha.start.m_bits ≡ 3)
        × (new ha.start.m ha.start.m_bits ha.start.flags ≡ some ha.start)
    made_again =
        let (bits, again) = new-again m 3 flags (omega arith) ha.made in (size_of, bits, again)
      where
        size_of : ha.start.m ≡ m
        size_of =
            (new-IsValid m 3 flags (omega (arith, ha.valid.shape.small, ha.size)) (omega arith)
              (omega arith) ha.made).1

module _ {ℓ} {F : Type ℓ} (d : Floats F) where
  -- HyperLogLogLog, with offsets of 3 bits.
  pub hyper_log_log_log-IsSketch : IsSketch d (hyper_log_log_log d)
  unfolding add add_hash
  hyper_log_log_log-IsSketch = record {
    Represents = HasRegisters;
    construct-Represents = new-HasRegisters;
    add_jr-Represents = λ m flags j r g h has hj hr.
        (add_jr h j r, refl, add_jr-HasRegisters m flags j r g h has hj hr);
    add-eq-add_jr = λ m flags x g h has.
        ap (λ b. some (add_jr h (fibonacci_hash x b) (rho x))) (log_m-HasRegisters m flags g h has);
    merge-Represents = merge-HasRegisters;
    Represents_ext = λ m flags f g h same has. record {
      valid = has.valid;
      size = has.size;
      start = has.start;
      made = has.made;
      config = has.config;
      values = λ j p. has.values j p ∙ same j;
    };
    estimate-eq-list = λ m flags g h has.
        estimate-export_registers d has.valid
        ∙ ap₂ (estimate_list d) has.size (
            eq-tabulate (export_registers h) g m (length-export_registers h ∙ has.size) (λ j p.
              get_or-export_registers j has.valid (omega (arith, has.size)) ∙ has.values j p));
  }
