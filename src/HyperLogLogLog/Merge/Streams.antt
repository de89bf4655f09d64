-- ===== src/HyperLogLogLog/Merge/Streams.antt =====
-- `merge` after streams.
use hyperlogloglog.Base.{
  ℕ, ◌%◌, ◌^◌, ◌≤◌, ◌<◌, ◌≡◌, ◌≢◌, sym, ap, ◌∙◌, arith, none, some, ◌⊎◌, ◌++◌,
}
use hyperlogloglog.Registers.{Stream, IsInRange, max_rank-append, IsInRange-append}
use hyperlogloglog.HyperLogLog
use hyperlogloglog.HyperLogLog.Streams as VanillaStreams
use hyperlogloglog.HyperLogLogLog.State.{
  HyperLogLogLog, new, fresh, complete_flags, are_valid_flags,
}
use hyperlogloglog.HyperLogLogLog.Update.{export_registers}
use hyperlogloglog.HyperLogLogLog.New.{new_iff, new-IsValid}
use hyperlogloglog.HyperLogLogLog.Streams.{adds, adds-IsAdded, export_registers_agree}
use hyperlogloglog.HyperLogLogLog.Config.{adds-SameConfig}
use hyperlogloglog.HyperLogLogLog.Flags.{complete_flags-complete_flags}
use hyperlogloglog.HyperLogLogLog.Merge.{merge}
use hyperlogloglog.HyperLogLogLog.Merge.Joined.{merge-IsJoined}

-- Two sketches that differ in `m`, in the bits of an offset, in the bits of an exception or in
-- the flags do not merge.
pub merge_refuses :
    (a b : HyperLogLogLog)
    → (a.m ≢ b.m) ⊎ ((a.m_bits ≢ b.m_bits) ⊎ ((a.s_bits ≢ b.s_bits) ⊎ (a.flags ≢ b.flags)))
    → merge a b ≡ none
unfolding merge
merge_refuses a b differ = ground arith

-- The constructor accepts again what it has set up.
pub new-again :
    (m m_bits flags : ℕ) {h : HyperLogLogLog}
    → m_bits ≤ 8
    → new m m_bits flags ≡ some h
    → (h.m_bits ≡ m_bits) × (new h.m h.m_bits h.flags ≡ some h)
unfolding fresh
new-again m m_bits flags {h} le e =
    let (power, accepted, made) = (new_iff m m_bits flags h).0 e in
    let f = complete_flags (flags % 2 ^ 8) in
    let again = complete_flags-complete_flags (flags % 2 ^ 8) (omega arith) in
    let bits : m_bits % 2 ^ 8 ≡ m_bits = omega arith in
    rw made (
      bits,
      ap (λ (k : ℕ). new m k f) bits
          ∙ (new_iff m m_bits f (fresh m m_bits f)).1
              (power, ap are_valid_flags again ∙ accepted, ap (fresh m m_bits) (sym again)),
    )

-- Take flags that the constructor accepts, `m` at most 2 ^ 30 registers, offsets of 1 to 8
-- bits, and two streams whose indices are below `m` and whose ranks are below 64. The
-- HyperLogLogLog sketches of the two streams merge into one that exports the same registers as
-- a HyperLogLog of `m` registers after the streams one after the other.
pub merge_refines :
    (m m_bits flags : ℕ) {h : HyperLogLogLog} (s t : Stream)
    → m ≤ 2 ^ 30
    → 0 < m_bits
    → m_bits ≤ 8
    → new m m_bits flags ≡ some h
    → IsInRange m s
    → IsInRange m t
    → (h' : HyperLogLogLog) × (merge (adds h s) (adds h t) ≡ some h')
      × (export_registers h'
          ≡ HyperLogLog.export_registers (VanillaStreams.adds (HyperLogLog.new m) (s ++ t)))
merge_refines m m_bits flags {h} s t small pos le e hs ht =
    let (valid, size, zeros) = new-IsValid m m_bits flags small pos le e in
    let a = adds-IsAdded s valid (rw size hs) in
    let b = adds-IsAdded t valid (rw size ht) in
    let (vg, mg, rg) =
      VanillaStreams.adds-new m (omega arith) (s ++ t) (IsInRange-append m s t hs ht) in
    let ca = adds-SameConfig s h in
    let cb = adds-SameConfig t h in
    let (bits, again) = new-again m m_bits flags le e in
    let made : new (adds h s).m (adds h s).m_bits (adds h s).flags ≡ some h =
      rw (a.m, ca.m_bits, ca.flags) again in
    let (h', merged, joined) =
      merge-IsJoined a.valid b.valid (b.m ∙ sym a.m) (cb.m_bits ∙ sym ca.m_bits)
        (omega (arith, ca.m_bits)) made (cb.s_bits ∙ sym ca.s_bits) (cb.flags ∙ sym ca.flags) in
    (
      h',
      merged,
      export_registers_agree joined.valid vg (joined.m ∙ a.m ∙ size ∙ sym mg) (λ j p. ground (
        arith,
        joined.m,
        a.m,
        size,
        joined.registers j,
        a.registers j,
        b.registers j,
        zeros j,
        rg j,
        max_rank-append s t j,
      )),
    )
