-- ===== src/HyperLogLogLog/Bottom/Merge.antt =====
-- The bottom mode after `merge`.
use hyperlogloglog.Base.{ℕ, ◌≤◌, ◌<◌, ◌≡◌, ◌%◌, ◌^◌, sym, subst, ap, ◌∙◌, arith, some}
use native.Mathlib.Nat.{one-le-pow}
use hyperlogloglog.Common.{log2i}
use hyperlogloglog.Registers.{Stream, IsInRange}
use hyperlogloglog.HyperLogLogLog.State.{HyperLogLogLog, bottom, new, fresh, complete_flags}
use hyperlogloglog.HyperLogLogLog.Compress.{compress}
use hyperlogloglog.HyperLogLogLog.Rebase.{IsValid}
use hyperlogloglog.HyperLogLogLog.New.{new_iff, new-IsValid}
use hyperlogloglog.HyperLogLogLog.Config.{adds-SameConfig}
use hyperlogloglog.HyperLogLogLog.Streams.{adds, adds-IsAdded}
use hyperlogloglog.HyperLogLogLog.Merge.{merge, merge_registers}
use hyperlogloglog.HyperLogLogLog.Merge.Joined.{
  IsJoined, merge-IsJoined, written, written-get, written-IsValid,
}
use hyperlogloglog.HyperLogLogLog.Merge.Config.{merge_registers-SameConfig}
use hyperlogloglog.HyperLogLogLog.Merge.Streams.{new-again}
use hyperlogloglog.HyperLogLogLog.Bottom.{IsBottom}
use hyperlogloglog.HyperLogLogLog.Bottom.Compress.{compress-IsBottom}
use hyperlogloglog.HyperLogLogLog.Bottom.Streams.{fresh-fields, new-IsBottom, adds-IsBottom}

pub merge-IsBottom :
    {a b h : HyperLogLogLog}
    → IsValid a
    → IsValid b
    → IsBottom a
    → IsBottom b
    → b.m ≡ a.m
    → b.m_bits ≡ a.m_bits
    → a.m_bits ≤ 8
    → b.s_bits ≡ a.s_bits
    → 0 < a.m
    → new a.m a.m_bits a.flags ≡ some h
    → (h' : HyperLogLogLog) × (merge a b ≡ some h') × IsJoined a b h' × IsBottom h'
unfolding merge
merge-IsBottom {a} {b} {h} va vb la lb same bits le s_bits pos made =
    let filled = written va vb same bits le made in
    let valid = written-IsValid va vb same bits le made in
    let (h', merged, joined) =
      merge-IsJoined va vb same bits le made s_bits (lb.flags ∙ sym la.flags) in
    let (power, accepted, set_up) = (new_iff a.m a.m_bits a.flags h).0 made in
    let h_flags : h.flags ≡ bottom =
      ap (λ k. k.flags) set_up
      ∙ ap (λ f. (fresh a.m a.m_bits (complete_flags (f % 2 ^ 8))).flags) la.flags
      ∙ (fresh-fields a.m a.m_bits).0 in
    let least : IsBottom (compress (merge_registers a b h)) =
      compress-IsBottom valid ((merge_registers-SameConfig a b h).flags ∙ h_flags)
        (omega (arith, filled.m, pos)) (omega (arith, filled.m, va.shape.small))
        (λ j p. ground (
          arith,
          filled.base,
          filled.m,
          written-get va vb same bits le made j,
          la.base,
          lb.base,
          va.lower j,
          vb.lower j,
          same,
        )) in
    let result : compress (merge_registers a b h) ≡ h' = ground (arith, merged, made) in
    (h', merged, joined, subst IsBottom result least)

-- Take a sketch that the constructor makes with the bottom flag, at most 2 ^ 30 registers and
-- offsets of 1 to 8 bits, and two streams whose indices are below `m` and whose ranks are below
-- 64. The sketches of the two streams merge into a valid one in the bottom mode: its base is
-- its lower bound, and `minValueCount` is the number of registers that are equal to it, which
-- is not 0.
pub merge-least :
    (m m_bits : ℕ) {h : HyperLogLogLog} (s t : Stream)
    → m ≤ 2 ^ 30
    → 0 < m_bits
    → m_bits ≤ 8
    → new m m_bits bottom ≡ some h
    → IsInRange m s
    → IsInRange m t
    → (h' : HyperLogLogLog) × (merge (adds h s) (adds h t) ≡ some h') × IsValid h' × IsBottom h'
merge-least m m_bits {h} s t small pos le e hs ht =
    let (valid, size, zeros) = new-IsValid m m_bits bottom small pos le e in
    let start = new-IsBottom m m_bits small pos le e in
    let a = adds-IsAdded s valid (rw size hs) in
    let b = adds-IsAdded t valid (rw size ht) in
    let ca = adds-SameConfig s h in
    let cb = adds-SameConfig t h in
    let (bits, again) = new-again m m_bits bottom le e in
    let made : new (adds h s).m (adds h s).m_bits (adds h s).flags ≡ some h =
      rw (a.m, ca.m_bits, ca.flags) again in
    let (power, accepted, set_up) = (new_iff m m_bits bottom h).0 e in
    let (h', merged, joined, least) =
      merge-IsBottom a.valid b.valid (adds-IsBottom s valid start (rw size hs))
        (adds-IsBottom t valid start (rw size ht)) (b.m ∙ sym a.m) (cb.m_bits ∙ sym ca.m_bits)
        (omega (arith, ca.m_bits)) (cb.s_bits ∙ sym ca.s_bits)
        (omega (arith, a.m, size, power, one-le-pow (log2i m) 2 (omega arith))) made in
    (h', merged, joined.valid, least)
