-- ===== src/HyperLogLogLog/Tight/Merge.antt =====
-- `merge` ends with a compression, which with a full one leaves no better base.
use hyperlogloglog.Base.{◌≤◌, ◌<◌, ◌≡◌, ap, ◌∙◌, arith, true, some}
use hyperlogloglog.HyperLogLogLog.State.{HyperLogLogLog, has, type_full, new}
use hyperlogloglog.HyperLogLogLog.Compress.{compress}
use hyperlogloglog.HyperLogLogLog.Rebase.{IsValid}
use hyperlogloglog.HyperLogLogLog.Merge.{merge, merge_registers}
use hyperlogloglog.HyperLogLogLog.Merge.Joined.{written, written-IsValid, written-IsTight}
use hyperlogloglog.HyperLogLogLog.Merge.Config.{merge_registers-SameConfig}
use hyperlogloglog.HyperLogLogLog.Tight.Best.{IsBest, compress-IsBest}

pub merge-IsBest :
    {a b h h' : HyperLogLogLog}
    → IsValid a
    → IsValid b
    → b.m ≡ a.m
    → b.m_bits ≡ a.m_bits
    → a.m_bits ≤ 8
    → 0 < a.m
    → new a.m a.m_bits a.flags ≡ some h
    → has h.flags type_full ≡ true
    → merge a b ≡ some h'
    → IsBest h'
unfolding merge
merge-IsBest {a} {b} {h} {h'} va vb same bits le pos made full e =
    let compressed : compress (merge_registers a b h) ≡ h' = ground (arith, made, e) in
    let flags = (merge_registers-SameConfig a b h).flags in
    rw (← compressed) (
      compress-IsBest (written-IsValid va vb same bits le made)
        (written-IsTight va vb same bits le made)
        (omega (arith, (written va vb same bits le made).m, pos))
        (ap (λ f. has f type_full) flags ∙ full))
