-- ===== src/HyperLogLogLog/Convert.antt =====
-- The conversions from and to HyperLogLog.
use hyperlogloglog.Base.{
  ℕ, zero, suc, ◌+◌, ◌^◌, ◌≤◌, ◌<◌, ◌≡◌, refl, sym, ap, ◌∙◌, arith, some, max, ◌==◌, if◌then◌else◌,
  List, [], ◌∷◌, length, get_or, get_or_ext, Option-cases, inl, inr,
}
use hyperlogloglog.HyperLogLog
use hyperlogloglog.HyperLogLog.{HyperLogLog}
use hyperlogloglog.HyperLogLog.Add as Vanilla
use hyperlogloglog.HyperLogLog.Export
use hyperlogloglog.HyperLogLogLog.State.{HyperLogLogLog, new}
use hyperlogloglog.HyperLogLogLog.Registers.{get}
use hyperlogloglog.HyperLogLogLog.Update.{
  add_jr, export_registers, to_hyper_log_log, add_registers, from_hyper_log_log,
}
use hyperlogloglog.HyperLogLogLog.Rebase.{IsValid}
use hyperlogloglog.HyperLogLogLog.Refine.{IsRaised, add_jr-IsRaised}
use hyperlogloglog.HyperLogLogLog.Iterate.{over_inv, iterate-over}
use hyperlogloglog.HyperLogLogLog.New.{new-IsValid}
use hyperlogloglog.HyperLogLogLog.Streams.{
  export_registers_agree, length-export_registers, get_or-export_registers,
}

-- What the loop of `fromHyperLogLog` does from index `j` on with the list `rs`.
record IsFilled (h : HyperLogLogLog) (rs : List ℕ) (j : ℕ) (h' : HyperLogLogLog) : Type 0 where
  valid : IsValid h'
  m : h'.m ≡ h.m
  before : (k : ℕ) → k < j → k < h.m → get h' k ≡ get h k
  after : (i : ℕ) → j + i < h.m → get h' (j + i) ≡ max (get_or rs i 0) (get h (j + i))

add_registers-IsFilled :
    (rs : List ℕ) (j : ℕ) {h : HyperLogLogLog}
    → IsValid h
    → j + length rs ≡ h.m
    → ((i : ℕ) → i < length rs → get_or rs i 0 < 64)
    → IsFilled h rs j (add_registers rs j h)
unfolding add_registers
add_registers-IsFilled [] j {h} valid e small = record {
  valid = valid;
  m = refl;
  before = λ k p q. refl;
  after = λ i p. absurd (omega (arith, e));
}
add_registers-IsFilled (r ∷ rs) j {h} valid e small =
    let one = add_jr-IsRaised j r valid (omega (arith, e)) (small 0 (omega arith)) in
    let rest =
      add_registers-IsFilled rs (j + 1) one.valid (omega (arith, e, one.m))
        (λ i p. small (suc i) (omega arith)) in
    record {
      valid = rest.valid;
      m = rest.m ∙ one.m;
      before = λ k p q. ground (arith, rest.before k, one.registers k q, one.m);
      after = after one rest;
    }
  where
    after :
        IsRaised h j r (add_jr h j r)
        → IsFilled (add_jr h j r) rs (j + 1) (add_registers rs (j + 1) (add_jr h j r))
        → (i : ℕ) → j + i < h.m
        → get (add_registers rs (j + 1) (add_jr h j r)) (j + i)
          ≡ max (get_or (r ∷ rs) i 0) (get h (j + i))
    after one rest zero p =
        let k : j + 0 ≡ j = omega arith in
        rw k (ground (arith, rest.before j, one.registers j, one.m))
    after one rest (suc i) p =
        let k : j + suc i ≡ (j + 1) + i = omega arith in
        rw k (ground (arith, rest.after i, one.registers ((j + 1) + i), one.m))

-- Take a valid HyperLogLog of at most 2 ^ 30 registers and offsets of 1 to 8 bits. If
-- `fromHyperLogLog` returns a sketch, it is valid and exports the same registers.
pub from_hyper_log_log-agrees :
    (g : HyperLogLog) (m_bits flags : ℕ) {h : HyperLogLogLog}
    → Vanilla.IsValid g
    → g.m ≤ 2 ^ 30
    → 0 < m_bits
    → m_bits ≤ 8
    → from_hyper_log_log g m_bits flags ≡ some h
    → IsValid h × (export_registers h ≡ HyperLogLog.export_registers g)
unfolding from_hyper_log_log
from_hyper_log_log-agrees g m_bits flags {h} valid small pos le e =
    elim (Option-cases (new g.m m_bits flags)) [
      | inl none_e ↦ absurd (ground (arith, e, none_e))
      | inr (h₀, some_e) ↦
          let (v₀, m₀, zeros) = new-IsValid g.m m_bits flags small pos le some_e in
          let filled =
            add_registers-IsFilled (HyperLogLog.export_registers g) 0 v₀
              (omega (arith, Export.length-export_registers g, m₀))
              (λ i p. ground (
                arith,
                Export.length-export_registers g,
                Export.get_or-export_registers i valid,
                Vanilla.register-lt i valid,
              )) in
          let h_e : add_registers (HyperLogLog.export_registers g) 0 h₀ ≡ h =
            ground (arith, e, some_e) in
          rw (← h_e) (
            filled.valid,
            get_or_ext 0 _ _
                (length-export_registers _ ∙ filled.m ∙ m₀ ∙ sym (Export.length-export_registers g))
                (λ j p. ground (
                  arith,
                  length-export_registers (add_registers (HyperLogLog.export_registers g) 0 h₀),
                  get_or-export_registers j filled.valid,
                  filled.m,
                  m₀,
                  filled.after j,
                  zeros j,
                  ap (get (add_registers (HyperLogLog.export_registers g) 0 h₀)) {x = 0 + j}
                      {y = j},
                  ap (get h₀) {x = 0 + j} {y = j},
                )),
          )
    ]

-- What `toHyperLogLog` has built before index `k`: the registers below `k`, zeros from there on.
record IsCopied (h : HyperLogLogLog) (k : ℕ) (g : HyperLogLog) : Type 0 where
  valid : Vanilla.IsValid g
  m : g.m ≡ h.m
  done : (j : ℕ) → j < k → j < h.m → Vanilla.register g j ≡ get h j
  left : (j : ℕ) → k ≤ j → j < h.m → Vanilla.register g j ≡ 0

add_jr-IsCopied :
    {h : HyperLogLogLog} (k : ℕ) (g : HyperLogLog)
    → IsValid h
    → k < h.m
    → IsCopied h k g
    → IsCopied h (k + 1) (HyperLogLog.add_jr g k (get h k))
add_jr-IsCopied {h} k g valid hk copied =
    let k_g : k < g.m = omega (arith, copied.m) in
    let raised : (j : ℕ)
        → j < h.m
        → Vanilla.register (HyperLogLog.add_jr g k (get h k)) j
          ≡ (if k == j then max (get h k) (Vanilla.register g j) else Vanilla.register g j) =
      λ j hj.
        Vanilla.register-add_jr-max k (get h k) copied.valid k_g j (omega (arith, valid.ranks k hk))
          (omega (arith, copied.m)) in
    record {
      valid = Vanilla.add_jr-IsValid k (get h k) copied.valid k_g;
      m = Vanilla.m-add_jr g k (get h k) ∙ copied.m;
      done = λ j p hj.
          ground (arith, raised j hj, copied.done j, copied.left j, ap (get h) {x = k} {y = j});
      left = λ j p hj. ground (arith, raised j hj, copied.left j);
    }

-- `toHyperLogLog` of a valid sketch is a valid HyperLogLog that exports the same registers.
pub to_hyper_log_log-agrees :
    {h : HyperLogLogLog}
    → IsValid h
    → Vanilla.IsValid (to_hyper_log_log h)
      × (export_registers h ≡ HyperLogLog.export_registers (to_hyper_log_log h))
unfolding to_hyper_log_log
to_hyper_log_log-agrees {h} valid =
    let small : h.m < 2 ^ 31 = omega (arith, valid.shape.small) in
    let copied : IsCopied h h.m (to_hyper_log_log h) =
      rw (iterate-over (λ j r g. HyperLogLog.add_jr g j r) valid.shape (HyperLogLog.new h.m)) (
        over_inv (IsCopied h) (λ j r g. HyperLogLog.add_jr g j r) (get h) h.m 0 h.m
          (HyperLogLog.new h.m) (omega arith) (λ k g hk. add_jr-IsCopied k g valid hk)
          (record {
            valid = Vanilla.new-IsValid h.m small;
            m = unfold HyperLogLog.new in refl;
            done = λ j p. absurd (omega arith);
            left = λ j p hj. Vanilla.register-new h.m j small hj;
          })) in
    (
      copied.valid,
      export_registers_agree valid copied.valid (sym copied.m) (λ j p. sym (copied.done j p p)),
    )
