-- ===== src/HyperLogLogLog/History/Least.antt =====
-- The bottom mode in every history: the base follows the least register.
use hyperlogloglog.Base.{ℕ, ◌^◌, ◌≤◌, ◌<◌, ◌≡◌, sym, ap₂, ◌∙◌, arith, subst}
use hyperlogloglog.Registers.{Stream, max_rank}
use hyperlogloglog.HyperLogLogLog.State.{HyperLogLogLog, bottom}
use hyperlogloglog.HyperLogLogLog.Registers.{get}
use hyperlogloglog.HyperLogLogLog.Occurrences.{occurrences, occurrences_ext, occurrences_some}
use hyperlogloglog.HyperLogLogLog.Tight.Streams.{m_pos, new-fields}
use hyperlogloglog.HyperLogLogLog.Bottom.{IsBottom}
use hyperlogloglog.HyperLogLogLog.Bottom.Streams.{new-IsBottom, add_jr-IsBottom}
use hyperlogloglog.HyperLogLogLog.Bottom.Merge.{merge-IsBottom}
use hyperlogloglog.HyperLogLogLog.History.{History, created, added, merged}
use hyperlogloglog.HyperLogLogLog.History.Reached.{again, History-IsReached}
use hyperlogloglog.HyperLogLogLog.History.Sizes.{History-new}

module _ (m m_bits : ℕ) (small : m ≤ 2 ^ 30) (pos : 0 < m_bits) (le : m_bits ≤ 8) where
  History-IsBottom : {h : HyperLogLogLog} {s : Stream} → History m m_bits bottom h s → IsBottom h
  History-IsBottom (created {h} e) = new-IsBottom m m_bits small pos le e
  History-IsBottom (added {h} {s} j r old hj hr) =
      let (h₀, made) = History-new old in
      let before = History-IsReached m m_bits bottom small pos le made old in
      add_jr-IsBottom j r before.valid (History-IsBottom old) (omega (arith, before.size)) hr
  History-IsBottom (merged {a} {b} {h} {s} {t} left right e) =
      let (h₀, made) = History-new left in
      let ra = History-IsReached m m_bits bottom small pos le made left in
      let rb = History-IsReached m m_bits bottom small pos le made right in
      let bits = ra.config.m_bits ∙ (new-fields m m_bits bottom small pos le made).2 in
      let (h', e', joined, least) =
        merge-IsBottom ra.valid rb.valid (History-IsBottom left) (History-IsBottom right)
          (rb.size ∙ sym ra.size) (rb.config.m_bits ∙ sym ra.config.m_bits)
          (omega (arith, bits, le)) (rb.config.s_bits ∙ sym ra.config.s_bits) (m_pos ra.valid.shape)
          (again m m_bits bottom small pos le made ra) in
      let same : h' ≡ h = ground (arith, e, e') in subst IsBottom same least

  -- Take at most 2 ^ 30 registers, offsets of 1 to 8 bits and the bottom flag. In a sketch that
  -- any interleaving of the constructor, `addJr` and `merge` has made, the base is the lower
  -- bound and is the least of the greatest ranks that were added at the indices, and
  -- `minValueCount` is the number of indices at which the greatest rank is the base.
  pub History_least :
      {h : HyperLogLogLog} {s : Stream}
      → History m m_bits bottom h s
      → (h.base ≡ h.lower_bound)
        × ((j : ℕ) → j < m → h.base ≤ max_rank s j)
        × ((j : ℕ) × (j < m) × (max_rank s j ≡ h.base))
        × (h.min_value_count ≡ occurrences (max_rank s) h.base m)
  History_least {h} {s} history =
      let (h₀, made) = History-new history in
      let reached = History-IsReached m m_bits bottom small pos le made history in
      let least = History-IsBottom history in
      let count : h.min_value_count ≡ occurrences (max_rank s) h.base m =
        least.count
        ∙ ap₂ (λ l n. occurrences (get h) l n) (sym least.base) reached.size
        ∙ occurrences_ext (get h) (max_rank s) h.base m reached.registers in
      (
        least.base,
        (λ j p. omega (
          arith,
          least.base,
          reached.registers j p,
          reached.valid.lower j (omega (arith, reached.size)),
        )),
        occurrences_some (max_rank s) h.base m (omega (arith, count, least.some_least)),
        count,
      )

  pub History_rises :
      {h : HyperLogLogLog} {s : Stream} (b : ℕ)
      → History m m_bits bottom h s
      → ((j : ℕ) → j < m → b < max_rank s j)
      → b < h.base
  History_rises b history above =
      let (bound, low, (j, p, e), count) = History_least history in omega (arith, above j p, e)
