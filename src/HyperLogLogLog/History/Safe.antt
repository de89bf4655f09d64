-- ===== src/HyperLogLogLog/History/Safe.antt =====
-- No history leaves a sketch in which an index, a key or a count is out of range.
use hyperlogloglog.Base.{ℕ, ◌^◌, ◌≤◌, ◌<◌, ◌≡◌, ◌∙◌, arith, true}
use hyperlogloglog.Registers.{Stream}
use hyperlogloglog.PackedVector
use hyperlogloglog.PackedVector.Elements.{append_asserts-IsValid}
use hyperlogloglog.PackedMap
use hyperlogloglog.HyperLogLogLog.State.{HyperLogLogLog}
use hyperlogloglog.HyperLogLogLog.Registers.{get}
use hyperlogloglog.HyperLogLogLog.Merge.Sides.{key_at-lt_m}
use hyperlogloglog.HyperLogLogLog.History.{History}
use hyperlogloglog.HyperLogLogLog.History.Reached.{History-IsReached}
use hyperlogloglog.HyperLogLogLog.History.Sizes.{History-new}

-- Take at most 2 ^ 30 registers and offsets of 1 to 8 bits. In a sketch that any interleaving
-- of the constructor, `addJr` and `merge` has made, the assertion of `append` holds for the
-- exceptions, the offsets are `m`, the exceptions are at most `m` and have keys below `m`, and
-- every register is below 64 and not below the lower bound.
pub History_safe :
    (m m_bits flags : ℕ) {h : HyperLogLogLog} {s : Stream}
    → m ≤ 2 ^ 30
    → 0 < m_bits
    → m_bits ≤ 8
    → History m m_bits flags h s
    → (PackedVector.append_asserts h.sparse.arr ≡ true)
      × (h.offsets.size ≡ m)
      × (PackedMap.size h.sparse ≤ m)
      × ((i : ℕ) → i < PackedMap.size h.sparse → PackedMap.key_at h.sparse i < m)
      × ((j : ℕ) → j < m → (h.lower_bound ≤ get h j) × (get h j < 64))
History_safe m m_bits flags {h} {s} small pos le history =
    let (h₀, made) = History-new history in
    let reached = History-IsReached m m_bits flags small pos le made history in
    let shape = reached.valid.shape in
    (
      append_asserts-IsValid shape.map.packed.vector,
      shape.count ∙ reached.size,
      omega (arith, shape.map.packed.vector.within, reached.size),
      (λ i p. omega (arith, key_at-lt_m i shape p, reached.size)),
      (λ j p. (
        reached.valid.lower j (omega (arith, reached.size)),
        reached.valid.ranks j (omega (arith, reached.size)),
      )),
    )
