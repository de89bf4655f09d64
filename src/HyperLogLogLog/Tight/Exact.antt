-- ===== src/HyperLogLogLog/Tight/Exact.antt =====
-- The size of a tight sketch, from its base and the registers that it exports.
use native.Mathlib.Nat.{mul-le-mul, pow-le-pow_right, le_of_lt}
use hyperlogloglog.Base.{ℕ, ◌+◌, ◌-◌, ◌*◌, ◌%◌, ◌^◌, ◌≤◌, ◌≡◌, sym, ap, ap₂, ◌∙◌, arith, get_or}
use hyperlogloglog.Common.{log2i}
use hyperlogloglog.Common.Log.{log2i-pow}
use hyperlogloglog.PackedVector
use hyperlogloglog.PackedMap
use hyperlogloglog.HyperLogLogLog.State.{HyperLogLogLog}
use hyperlogloglog.HyperLogLogLog.Update.{bit_size, export_registers}
use hyperlogloglog.HyperLogLogLog.Shape.{HasShape, is_exception}
use hyperlogloglog.HyperLogLogLog.Rebase.{IsValid}
use hyperlogloglog.HyperLogLogLog.Streams.{length-export_registers, get_or-export_registers}
use hyperlogloglog.HyperLogLogLog.Counts.{count, count_ext}
use hyperlogloglog.HyperLogLogLog.Rounds.{exceptions_at}
use hyperlogloglog.HyperLogLogLog.Optimum.{exceptions, bits_with}
use hyperlogloglog.HyperLogLogLog.Optimum.Bases.{exceptions-count}
use hyperlogloglog.HyperLogLogLog.Tight.{IsTight}
use hyperlogloglog.HyperLogLogLog.Tight.Size.{size-exceptions_at}

-- The exceptions from a base are those in the exported list.
pub exceptions-export_registers :
    {h : HyperLogLogLog} (b : ℕ)
    → IsValid h
    → exceptions h.max_offset b (export_registers h) ≡ exceptions_at h b
exceptions-export_registers {h} b valid =
    exceptions-count h.max_offset b (export_registers h)
    ∙ ap (count (λ i. is_exception h.max_offset b (get_or (export_registers h) i 0)))
        (length-export_registers h)
    ∙ count_ext _ _ h.m
        (λ i p. ap (is_exception h.max_offset b) (get_or-export_registers i valid p))

-- No sum or product of the sizes exceeds 64 bits.
pub bit_size_whole :
    {h : HyperLogLogLog}
    → HasShape h
    → bit_size h ≡ h.m * h.m_bits + PackedMap.size h.sparse * (h.log_m + 6)
unfolding bit_size PackedVector.bit_size PackedMap.bit_size
bit_size_whole {h} shape =
    let v = shape.vector in
    let p = shape.map.packed in
    let dense : h.offsets.size * h.offsets.elem_size ≤ 2 ^ 30 * 64 =
      mul-le-mul {n₂ = 2 ^ 30} (omega (arith, shape.count, shape.small)) (le_of_lt v.elem_small) in
    let pairs : h.sparse.arr.size * h.sparse.arr.elem_size ≤ 2 ^ 30 * 64 =
      mul-le-mul {n₂ = 2 ^ 30} (omega (arith, p.vector.within, shape.small))
        (le_of_lt p.vector.elem_small) in
    let d : h.offsets.size * h.offsets.elem_size ≡ h.m * h.m_bits =
      ap₂ (λ (x y : ℕ). x * y) shape.count shape.width in
    let e : h.sparse.arr.elem_size ≡ h.log_m + 6 =
      omega (arith, p.elem_size, shape.key_size, shape.value_size) in
    let s = ap (λ (x : ℕ). h.sparse.arr.size * x) e in omega (arith, dense, pairs, d, s)

-- The greatest offset, as `minimumBits` has it.
pub max_offset-bits :
    {h : HyperLogLogLog} → HasShape h → h.m_bits ≤ 8 → h.max_offset ≡ (2 ^ h.m_bits - 1) % 2 ^ 8
max_offset-bits {h} shape le =
    omega (arith, shape.offset, pow-le-pow_right {n = 2} (omega arith) {i = h.m_bits} {j = 8} le)

-- A valid tight sketch with offsets of at most 8 bits has exactly the size that its base needs
-- for the registers it exports.
pub bit_size-bits_with :
    {h : HyperLogLogLog}
    → IsValid h
    → IsTight h
    → h.m_bits ≤ 8
    → bit_size h ≡ bits_with (export_registers h) h.m_bits 6 h.base
unfolding bits_with
bit_size-bits_with {h} valid tight le =
    let log : log2i h.m ≡ h.log_m = ap log2i valid.shape.power ∙ log2i-pow h.log_m in
    let stored : PackedMap.size h.sparse
        ≡ exceptions ((2 ^ h.m_bits - 1) % 2 ^ 8) h.base (export_registers h) =
      size-exceptions_at valid.shape tight
      ∙ sym (exceptions-export_registers h.base valid)
      ∙ ap (λ w. exceptions w h.base (export_registers h)) (max_offset-bits valid.shape le) in
    bit_size_whole valid.shape ∙ rw (length-export_registers h, log, ← stored) (omega arith)
