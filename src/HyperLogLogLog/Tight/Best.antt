-- ===== src/HyperLogLogLog/Tight/Best.antt =====
-- Where every update compresses in full, the base is always one with the fewest exceptions.
use hyperlogloglog.Base.{
  ℕ, ◌^◌, ◌≤◌, ◌<◌, ◌≡◌, refl, ap, ap₂, ◌∙◌, arith, Bool, true, false, ltb, leb, if◌then◌else◌, inl,
  inr, Bool-cases,
}
use hyperlogloglog.PackedMap
use hyperlogloglog.HyperLogLogLog.State.{HyperLogLogLog, has, type_full, when_always}
use hyperlogloglog.HyperLogLogLog.Registers.{get, value_at}
use hyperlogloglog.HyperLogLogLog.Compress.{compress, compress_full}
use hyperlogloglog.HyperLogLogLog.Update.{update, add_jr}
use hyperlogloglog.HyperLogLogLog.Shape.{is_exception}
use hyperlogloglog.HyperLogLogLog.Rebase.{IsValid, KeepsRegisters}
use hyperlogloglog.HyperLogLogLog.Refine.{update-IsRaised}
use hyperlogloglog.HyperLogLogLog.Keeps.{compress-KeepsRegisters}
use hyperlogloglog.HyperLogLogLog.Counts.{count, count_ext}
use hyperlogloglog.HyperLogLogLog.Rounds.{exceptions_at}
use hyperlogloglog.HyperLogLogLog.Least.{compress_full-least}
use hyperlogloglog.HyperLogLogLog.Config.{compress-SameConfig, update-SameConfig}
use hyperlogloglog.HyperLogLogLog.Optimum.Bases.{some_value-le}
use hyperlogloglog.HyperLogLogLog.Tight.{IsTight}
use hyperlogloglog.HyperLogLogLog.Tight.Size.{size-exceptions_at}

pub record IsBest (h : HyperLogLogLog) : Type 0 where
  pub tight : IsTight h
  pub best : (b : ℕ) → exceptions_at h h.base ≤ exceptions_at h b

-- Sketches with the same registers and the same greatest offset have the same exceptions.
exceptions_at-KeepsRegisters :
    {h h' : HyperLogLogLog} (b : ℕ)
    → IsValid h
    → KeepsRegisters h h'
    → h'.m_bits ≡ h.m_bits
    → exceptions_at h' b ≡ exceptions_at h b
exceptions_at-KeepsRegisters {h} {h'} b valid kept bits =
    let width : h'.max_offset ≡ h.max_offset =
      omega (arith, valid.shape.offset, kept.valid.shape.offset, ap (λ (k : ℕ). 2 ^ k) bits) in
    ap (count (λ i. is_exception h'.max_offset b (get h' i))) kept.m
    ∙ count_ext _ _ h.m (λ i p. ap₂ (λ (w r : ℕ). is_exception w b r) width (kept.same i p))

base-compress :
    (h : HyperLogLogLog) → has h.flags type_full ≡ true → (compress h).base ≡ (compress_full h).base
unfolding compress
base-compress h e = rw e refl

-- The full compression of a tight sketch leaves none better.
pub compress-IsBest :
    {h : HyperLogLogLog}
    → IsValid h
    → IsTight h
    → 0 < h.m
    → has h.flags type_full ≡ true
    → IsBest (compress h)
compress-IsBest {h} valid tight pos full =
    let kept = compress-KeepsRegisters valid in
    let bits = (compress-SameConfig h).m_bits in
    let same = λ (b : ℕ). exceptions_at-KeepsRegisters b valid kept bits in
    record {
      tight = kept.tight tight;
      best = λ b.
          let (j, p, le) = some_value-le (get h) h.max_offset b h.m pos in
          omega (
            arith,
            same (compress h).base,
            same b,
            ap (exceptions_at h) (base-compress h full),
            le,
            least j p,
          );
    }
  where
    least : (j : ℕ) → j < h.m → exceptions_at h (compress_full h).base ≤ exceptions_at h (get h j)
    least j p = elim (compress_full-least valid) [
      | inl (base, le) ↦
          omega (arith, ap (exceptions_at h) base, size-exceptions_at valid.shape tight, le j p)
      | inr (less, le) ↦ le j p
    ]

module _ {h : HyperLogLogLog} (j r : ℕ) (valid : IsValid h) (best : IsBest h) (hj : j < h.m)
    (hr : r < 64) (always : has h.flags when_always ≡ true)
    (full : has h.flags type_full ≡ true) where
  abbrev old : ℕ
  old = value_at h h.base j

  abbrev updated : HyperLogLogLog
  updated = update h j r (PackedMap.find h.sparse j) old

  updated-IsBest : old < r → IsBest (compress updated)
  updated-IsBest lt =
      let raised = update-IsRaised j r valid hj hr lt in
      let flags = (update-SameConfig h j r (PackedMap.find h.sparse j) old).flags in
      compress-IsBest raised.valid (raised.tight best.tight) (omega (arith, raised.m, hj))
        (ap (λ f. has f type_full) flags ∙ full)

  maybe-IsBest : (test : Bool) → IsBest (if test then compress h else h)
  maybe-IsBest true = compress-IsBest valid best.tight (omega (arith, hj)) full
  maybe-IsBest false = best

  pub add_jr-IsBest : IsBest (add_jr h j r)
  unfolding add_jr
  add_jr-IsBest = elim (Bool-cases (leb r h.lower_bound)) [
    | inl e ↦ rw e best
    | inr e ↦ rw e (elim (Bool-cases (ltb old r)) [
      | inl up ↦
          let flags = (update-SameConfig h j r (PackedMap.find h.sparse j) old).flags in
          let goes : has updated.flags when_always ≡ true =
            ap (λ f. has f when_always) flags ∙ always in
          rw (up, goes) (updated-IsBest (ground (arith, up)))
      | inr down ↦ rw down (maybe-IsBest _)
    ])
  ]
