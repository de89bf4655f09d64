-- ===== src/HyperLogLogLog/Tight/Streams.antt =====
-- The size of a sketch after a stream, as the tests of test.cpp compare it with `minimumBits`.
use native.Mathlib.Nat.{one-le-pow, mul-le-mul_right}
use hyperlogloglog.Base.{
  ℕ, ◌+◌, ◌%◌, ◌^◌, ◌≤◌, ◌<◌, ◌≡◌, refl, ap, arith, some, length, get_or, ◌-◌,
}
use hyperlogloglog.PackedVector
use hyperlogloglog.PackedMap
use hyperlogloglog.PackedMap.Lookup.{lookup-absent}
use hyperlogloglog.Common.{log2i}
use hyperlogloglog.HyperLogLogLog.State.{HyperLogLogLog, complete_flags, new, fresh}
use hyperlogloglog.HyperLogLogLog.Update.{bit_size, export_registers}
use hyperlogloglog.HyperLogLogLog.Shape.{HasShape}
use hyperlogloglog.HyperLogLogLog.Rebase.{IsValid}
use hyperlogloglog.HyperLogLogLog.New.{new_iff, new-IsValid}
use hyperlogloglog.HyperLogLogLog.Streams.{length-export_registers}
use hyperlogloglog.HyperLogLogLog.Counts.{count_none}
use hyperlogloglog.HyperLogLogLog.Rounds.{exceptions_at}
use hyperlogloglog.HyperLogLogLog.Optimum.{exceptions, least_bits, bits_with}
use hyperlogloglog.HyperLogLogLog.Optimum.Bases.{least_bits_optimal}
use hyperlogloglog.HyperLogLogLog.Tight.{IsTight}
use hyperlogloglog.HyperLogLogLog.Tight.Exact.{
  exceptions-export_registers, max_offset-bits, bit_size-bits_with,
}
use hyperlogloglog.HyperLogLogLog.Tight.Best.{IsBest}

-- What the constructor makes has no exception, no count and no base.
fresh-fields :
    (m m_bits flags : ℕ)
    → (PackedMap.size (fresh m m_bits flags).sparse ≡ 0)
      × ((fresh m m_bits flags).base ≡ 0)
      × ((fresh m m_bits flags).m_bits ≡ m_bits % 2 ^ 8)
unfolding fresh PackedMap.new PackedVector.new
fresh-fields m m_bits flags = (refl, refl, refl)

pub m_pos : {h : HyperLogLogLog} → HasShape h → 0 < h.m
m_pos {h} shape = omega (arith, shape.power, one-le-pow h.log_m 2 (omega arith))

module _ (m m_bits flags : ℕ) {h : HyperLogLogLog} (small : m ≤ 2 ^ 30) (pos : 0 < m_bits)
    (le : m_bits ≤ 8) (made : new m m_bits flags ≡ some h) where
  pub new-fields : (PackedMap.size h.sparse ≡ 0) × (h.base ≡ 0) × (h.m_bits ≡ m_bits)
  new-fields =
      let (power, accepted, same) = (new_iff m m_bits flags h).0 made in
      let (keys, base, bits) = fresh-fields m m_bits (complete_flags (flags % 2 ^ 8)) in
      rw same (keys, base, omega (arith, bits))

  pub new-IsBest : IsBest h
  new-IsBest =
      let (valid, size, zeros) = new-IsValid m m_bits flags small pos le made in
      let (keys, base, bits) = new-fields in
      let no_exceptions : exceptions_at h 0 ≡ 0 =
        count_none _ h.m (λ i p. ground (arith, zeros i, size)) in
      record {
        tight = record {
          stored = λ q p. ground (
            arith,
            zeros q,
            size,
            base,
            lookup-absent h.sparse q valid.shape.map.sorted (λ i r. absurd (omega (arith, keys))),
          );
        };
        best = λ b. omega (arith, ap (exceptions_at h) base, no_exceptions);
      }

-- The size of a sketch is at least what `minimumBits` gives, and with the best base exactly that.
pub bit_size-ge :
    {h : HyperLogLogLog}
    → IsValid h
    → IsTight h
    → h.m_bits ≤ 8
    → least_bits (export_registers h) h.m_bits 6 ≤ bit_size h
bit_size-ge {h} valid tight le =
    let filled : 0 < length (export_registers h) =
      omega (arith, length-export_registers h, m_pos valid.shape) in
    omega (
      arith,
      bit_size-bits_with valid tight le,
      (least_bits_optimal (export_registers h) h.m_bits 6 filled).0 h.base,
    )

pub bit_size-IsBest :
    {h : HyperLogLogLog}
    → IsValid h
    → IsBest h
    → h.m_bits ≤ 8
    → bit_size h ≡ least_bits (export_registers h) h.m_bits 6
unfolding bits_with
bit_size-IsBest {h} valid best le =
    let filled : 0 < length (export_registers h) =
      omega (arith, length-export_registers h, m_pos valid.shape) in
    let (i, p, e) = (least_bits_optimal (export_registers h) h.m_bits 6 filled).1 in
    let r = get_or (export_registers h) i 0 in
    let width = max_offset-bits valid.shape le in
    let fewer : exceptions ((2 ^ h.m_bits - 1) % 2 ^ 8) h.base (export_registers h)
        ≤ exceptions ((2 ^ h.m_bits - 1) % 2 ^ 8) r (export_registers h) =
      rw (← width) (
        omega (
          arith,
          exceptions-export_registers h.base valid,
          exceptions-export_registers r valid,
          best.best r,
        )) in
    omega (
      arith,
      e,
      bit_size-ge valid best.tight le,
      bit_size-bits_with valid best.tight le,
      mul-le-mul_right (log2i (length (export_registers h)) + 6) fewer,
    )
