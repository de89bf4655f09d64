-- ===== src/HyperLogLogLog/History/Sizes.antt =====
-- The size of a sketch with a history, as test.cpp compares it with `minimumBits` and with the
-- size in the bottom mode.
use hyperlogloglog.Base.{ℕ, ◌^◌, ◌≤◌, ◌<◌, ◌≡◌, sym, ap, ◌∙◌, arith, true, some, ◌++◌, get_or_ext}
use hyperlogloglog.Registers.{Stream, max_rank}
use hyperlogloglog.HyperLogLog
use hyperlogloglog.HyperLogLog.Streams as VanillaStreams
use hyperlogloglog.HyperLogLogLog.State.{HyperLogLogLog, has, type_full, when_always, new}
use hyperlogloglog.HyperLogLogLog.Update.{bit_size, export_registers}
use hyperlogloglog.HyperLogLogLog.Merge.{merge}
use hyperlogloglog.HyperLogLogLog.Streams.{
  export_registers_agree, length-export_registers, get_or-export_registers,
}
use hyperlogloglog.HyperLogLogLog.Optimum.{least_bits, minimum_bits, bits_with}
use hyperlogloglog.HyperLogLogLog.Optimum.Fits.{minimum_bits-least_bits}
use hyperlogloglog.HyperLogLogLog.Tight.Exact.{bit_size-bits_with}
use hyperlogloglog.HyperLogLogLog.Tight.Best.{IsBest, add_jr-IsBest}
use hyperlogloglog.HyperLogLogLog.Tight.Merge.{merge-IsBest}
use hyperlogloglog.HyperLogLogLog.Tight.Streams.{
  m_pos, new-IsBest, new-fields, bit_size-ge, bit_size-IsBest,
}
use hyperlogloglog.HyperLogLogLog.History.{History, created, added, merged}
use hyperlogloglog.HyperLogLogLog.History.Reached.{again, History-IsReached, merge-IsReached}

-- The constructor has made a sketch at the start of a history.
pub History-new :
    {m m_bits flags : ℕ} {h : HyperLogLogLog} {s : Stream}
    → History m m_bits flags h s
    → (h₀ : HyperLogLogLog) × (new m m_bits flags ≡ some h₀)
History-new (created {h} e) = (h, e)
History-new (added j r old hj hr) = History-new old
History-new (merged left right e) = History-new left

module _ (m m_bits : ℕ) (small : m ≤ 2 ^ 30) (pos : 0 < m_bits) (le : m_bits ≤ 8) where
  -- Take at most 2 ^ 30 registers and offsets of 1 to 8 bits. A HyperLogLogLog that any
  -- interleaving of the constructor, `addJr` and `merge` has made, however it has compressed,
  -- exports the same registers as a HyperLogLog after a stream of the pairs that were added.
  pub History_refines :
      (flags : ℕ) {h : HyperLogLogLog} {s : Stream}
      → History m m_bits flags h s
      → export_registers h
        ≡ HyperLogLog.export_registers (VanillaStreams.adds (HyperLogLog.new m) s)
  History_refines flags {h} {s} history =
      let (h₀, made) = History-new history in
      let reached = History-IsReached m m_bits flags small pos le made history in
      let (vg, mg, rg) = VanillaStreams.adds-new m (omega arith) s reached.range in
      export_registers_agree reached.valid vg (reached.size ∙ sym mg)
        (λ j p. ground (arith, reached.size, reached.registers j, rg j))

  -- Take at most 2 ^ 30 registers and offsets of 1 to 8 bits. Two sketches that were made with
  -- the same arguments of the constructor, each by any interleaving of the constructor, `addJr`
  -- and `merge`, merge without an exception, and the result is again such a sketch, with the
  -- pairs of both.
  pub History-merge :
      (flags : ℕ) {a b : HyperLogLogLog} {s t : Stream}
      → History m m_bits flags a s
      → History m m_bits flags b t
      → (h : HyperLogLogLog) × (merge a b ≡ some h) × History m m_bits flags h (s ++ t)
  History-merge flags left right =
      let (h₀, made) = History-new left in
      let (h, e, reached) =
        merge-IsReached m m_bits flags small pos le made
          (History-IsReached m m_bits flags small pos le made left)
          (History-IsReached m m_bits flags small pos le made right) in
      (h, e, merged left right e)

  -- The size by the base, which no base makes less than the least one.
  History-bits :
      (flags : ℕ) {h : HyperLogLogLog} {s : Stream}
      → History m m_bits flags h s
      → (bit_size h ≡ bits_with (export_registers h) m_bits 6 h.base)
        × (least_bits (export_registers h) m_bits 6 ≤ bit_size h)
  History-bits flags {h} {s} history =
      let (h₀, made) = History-new history in
      let reached = History-IsReached m m_bits flags small pos le made history in
      let bits = reached.config.m_bits ∙ (new-fields m m_bits flags small pos le made).2 in
      rw (← bits) (
        bit_size-bits_with reached.valid reached.tight (omega (arith, bits, le)),
        bit_size-ge reached.valid reached.tight (omega (arith, bits, le)),
      )

  -- With at most 2 ^ 25 registers `minimumBits` does not overflow.
  minimum_bits-History :
      (flags : ℕ) {h : HyperLogLogLog} {s : Stream}
      → m ≤ 2 ^ 25
      → History m m_bits flags h s
      → minimum_bits (export_registers h) m_bits 6 ≡ some (least_bits (export_registers h) m_bits 6)
  minimum_bits-History flags {h} {s} few history =
      let (h₀, made) = History-new history in
      let reached = History-IsReached m m_bits flags small pos le made history in
      let size = length-export_registers h ∙ reached.size in
      minimum_bits-least_bits (export_registers h) m_bits 6
        (omega (arith, size, reached.size, m_pos reached.valid.shape)) (omega (arith, size)) le
        (omega arith)

  -- Take at most 2 ^ 25 registers and offsets of 1 to 8 bits. With any flags, the size of a
  -- sketch that any interleaving of the constructor, `addJr` and `merge` has made is exactly
  -- what its base needs for the registers that it exports, and at least what `minimumBits`
  -- returns for them, without an overflow.
  pub History-bits_with :
      (flags : ℕ) {h : HyperLogLogLog} {s : Stream}
      → m ≤ 2 ^ 25
      → History m m_bits flags h s
      → (bit_size h ≡ bits_with (export_registers h) m_bits 6 h.base)
        × ((bits : ℕ) × (minimum_bits (export_registers h) m_bits 6 ≡ some bits)
            × (bits ≤ bit_size h))
  History-bits_with flags few history =
      let (exact, least) = History-bits flags history in
      (exact, (_, minimum_bits-History flags few history, least))

  -- Sketches with the same greatest ranks export the same registers.
  pub History_agree :
      (flags flags' : ℕ) {h h' : HyperLogLogLog} {s t : Stream}
      → History m m_bits flags h s
      → History m m_bits flags' h' t
      → ((j : ℕ) → j < m → max_rank s j ≡ max_rank t j)
      → export_registers h ≡ export_registers h'
  History_agree flags flags' {h} {h'} history other same =
      let (h₀, made) = History-new history in
      let (h₁, made₁) = History-new other in
      let r = History-IsReached m m_bits flags small pos le made history in
      let r' = History-IsReached m m_bits flags' small pos le made₁ other in
      let size = length-export_registers h ∙ r.size in
      get_or_ext 0 _ _ (size ∙ sym (length-export_registers h' ∙ r'.size)) (λ j p.
        let q : j < m = omega (arith, size) in
        get_or-export_registers j r.valid (omega (arith, r.size))
        ∙ r.registers j q
        ∙ same j q
        ∙ sym (r'.registers j q)
        ∙ sym (get_or-export_registers j r'.valid (omega (arith, r'.size))))

  module _ (flags : ℕ) {h₀ : HyperLogLogLog} (made : new m m_bits flags ≡ some h₀)
      (always : has h₀.flags when_always ≡ true) (full : has h₀.flags type_full ≡ true) where
    History-IsBest : {h : HyperLogLogLog} {s : Stream} → History m m_bits flags h s → IsBest h
    History-IsBest (created {h} e) = new-IsBest m m_bits flags small pos le e
    History-IsBest (added {h} {s} j r old hj hr) =
        let before = History-IsReached m m_bits flags small pos le made old in
        let same = before.config.flags in
        add_jr-IsBest j r before.valid (History-IsBest old) (omega (arith, before.size)) hr
          (ap (λ f. has f when_always) same ∙ always) (ap (λ f. has f type_full) same ∙ full)
    History-IsBest (merged {a} {b} {h} {s} {t} left right e) =
        let ra = History-IsReached m m_bits flags small pos le made left in
        let rb = History-IsReached m m_bits flags small pos le made right in
        let bits = ra.config.m_bits ∙ (new-fields m m_bits flags small pos le made).2 in
        merge-IsBest ra.valid rb.valid (rb.size ∙ sym ra.size)
          (rb.config.m_bits ∙ sym ra.config.m_bits) (omega (arith, bits, le)) (m_pos ra.valid.shape)
          (again m m_bits flags small pos le made ra) full e

    -- Such a sketch has the least size.
    History-least_bits :
        {h : HyperLogLogLog} {s : Stream}
        → History m m_bits flags h s
        → bit_size h ≡ least_bits (export_registers h) m_bits 6
    History-least_bits {h} history =
        let reached = History-IsReached m m_bits flags small pos le made history in
        let bits = reached.config.m_bits ∙ (new-fields m m_bits flags small pos le made).2 in
        bit_size-IsBest reached.valid (History-IsBest history) (omega (arith, bits, le))
        ∙ ap (λ k. least_bits (export_registers h) k 6) bits

    -- Take at most 2 ^ 25 registers and offsets of 1 to 8 bits, and flags with which every
    -- update compresses in full, such as the default ones. For the registers that a sketch
    -- exports which any interleaving of the constructor, `addJr` and `merge` has made,
    -- `minimumBits` returns the size of the sketch, without an overflow.
    pub History-minimum_bits :
        {h : HyperLogLogLog} {s : Stream}
        → m ≤ 2 ^ 25
        → History m m_bits flags h s
        → minimum_bits (export_registers h) m_bits 6 ≡ some (bit_size h)
    History-minimum_bits few history =
        minimum_bits-History flags few history ∙ ap some (sym (History-least_bits history))

    -- Take at most 2 ^ 30 registers and offsets of 1 to 8 bits. A sketch with flags with which
    -- every update compresses in full is at most as large as a sketch with any flags, if each
    -- was made by any interleaving of the constructor, `addJr` and `merge`, and the pairs that
    -- were added have the same greatest rank at every index.
    pub History_smaller :
        (flags' : ℕ) {h h' : HyperLogLogLog} {s t : Stream}
        → History m m_bits flags h s
        → History m m_bits flags' h' t
        → ((j : ℕ) → j < m → max_rank s j ≡ max_rank t j)
        → bit_size h ≤ bit_size h'
    History_smaller flags' history other same = omega (
      arith,
      History-least_bits history,
      ap (λ rs. least_bits rs m_bits 6) (History_agree flags flags' history other same),
      (History-bits flags' other).1,
    )
