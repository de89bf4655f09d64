-- ===== src/HyperLogLogLog/View.antt =====
-- The abstract state of a sketch: the pairs that were added, up to what a sketch can tell. The
-- quotient forgets their order, their number, and all but the greatest rank at an index.
use mathlib.Core.Quot
use mathlib.Core.Quot.{Quot, Quot-set}
use hyperlogloglog.Base.{
  ℕ, ◌^◌, ◌≤◌, ◌<◌, ◌≡◌, ◌↔◌, sym, ap, ◌∙◌, arith, List, ◌++◌, some, get_or, length, max,
}
use hyperlogloglog.Registers.{Stream, max_rank, max_rank-append}
use hyperlogloglog.Base.Tables.{tabulate, eq-tabulate, length-tabulate, get_or-tabulate}
use hyperlogloglog.HyperLogLogLog.State.{HyperLogLogLog}
use hyperlogloglog.HyperLogLogLog.Update.{export_registers}
use hyperlogloglog.HyperLogLogLog.Streams.{length-export_registers, get_or-export_registers}
use hyperlogloglog.HyperLogLogLog.Merge.{merge}
use hyperlogloglog.HyperLogLogLog.History.{History, merged}
use hyperlogloglog.HyperLogLogLog.History.Reached.{History-IsReached}
use hyperlogloglog.HyperLogLogLog.History.Sizes.{History-new, History-merge}

-- Two streams have the same greatest rank at each of `m` indices.
abbrev pub SameRanks : ℕ → Stream → Stream → Type 0
SameRanks m s t = (j : ℕ) → j < m → max_rank s j ≡ max_rank t j

abbrev pub View : ℕ → Type 0
View m = Quot (SameRanks m)

abbrev pub view_of : (m : ℕ) → Stream → View m
view_of m s = Quot.mk s

pub tabulate-SameRanks :
    (m : ℕ) (s t : Stream) → SameRanks m s t → tabulate (max_rank s) m ≡ tabulate (max_rank t) m
tabulate-SameRanks m s t same =
    eq-tabulate (tabulate (max_rank s) m) (max_rank t) m (length-tabulate (max_rank s) m)
      (λ j p. get_or-tabulate (max_rank s) m j p ∙ same j p)

-- The registers that a view stands for.
unfoldable pub view_registers : (m : ℕ) → View m → List ℕ
view_registers m =
    Quot.lift (hlevel) (λ s. tabulate (max_rank s) m) (λ s t same. tabulate-SameRanks m s t same)

module _ (m m_bits : ℕ) (small : m ≤ 2 ^ 30) (pos : 0 < m_bits) (le : m_bits ≤ 8) where
  -- The exported registers.
  pub export_registers-view :
      (flags : ℕ) {h : HyperLogLogLog} {s : Stream}
      → History m m_bits flags h s
      → export_registers h ≡ view_registers m (view_of m s)
  unfolding view_registers
  export_registers-view flags {h} {s} history =
      let (h₀, made) = History-new history in
      let r = History-IsReached m m_bits flags small pos le made history in
      eq-tabulate (export_registers h) (max_rank s) m (length-export_registers h ∙ r.size)
        (λ j p. get_or-export_registers j r.valid (omega (arith, r.size, p)) ∙ r.registers j p)

  -- Take at most 2 ^ 30 registers and offsets of 1 to 8 bits. Two sketches, with any flags,
  -- that were made by any interleaving of the constructor, `addJr` and `merge` export the same
  -- registers exactly if the pairs added to them are one element of the quotient of the streams
  -- by the greatest ranks.
  pub view_iff :
      (flags flags' : ℕ) {h h' : HyperLogLogLog} {s t : Stream}
      → History m m_bits flags h s
      → History m m_bits flags' h' t
      → (export_registers h ≡ export_registers h') ↔ (view_of m s ≡ view_of m t)
  unfolding view_registers
  view_iff flags flags' {h} {h'} {s} {t} history other =
      let e₁ = export_registers-view flags history in
      let e₂ = export_registers-view flags' other in
      (
        λ e. Quot.sound (λ j p. same (sym e₁ ∙ e ∙ e₂) j p),
        λ e. e₁ ∙ ap (view_registers m) e ∙ sym e₂,
      )
    where
      same :
          view_registers m (view_of m s) ≡ view_registers m (view_of m t)
          → (j : ℕ) → j < m
          → max_rank s j ≡ max_rank t j
      same e j p =
          sym (get_or-tabulate (max_rank s) m j p)
          ∙ ap (λ rs. get_or rs j 0) e
          ∙ get_or-tabulate (max_rank t) m j p

  -- Take at most 2 ^ 30 registers and offsets of 1 to 8 bits. Two sketches that were made with
  -- the same arguments of the constructor, each by any interleaving of the constructor, `addJr`
  -- and `merge`, merge without an exception. The result is again such a sketch, with the pairs
  -- of both, and each of the `m` registers that it exports is the greater of those that the two
  -- export.
  pub History_merges :
      (flags : ℕ) {a b : HyperLogLogLog} {s t : Stream}
      → History m m_bits flags a s
      → History m m_bits flags b t
      → (h : HyperLogLogLog) × (merge a b ≡ some h)
        × History m m_bits flags h (s ++ t)
        × (length (export_registers h) ≡ m)
        × ((j : ℕ)
            → j < m
            → get_or (export_registers h) j 0
              ≡ max (get_or (export_registers a) j 0) (get_or (export_registers b) j 0))
  unfolding view_registers
  History_merges flags {a} {b} {s} {t} left right =
      let (h, e, history) = History-merge m m_bits small pos le flags left right in
      let at =
        λ (x : HyperLogLogLog) (u : Stream) (made : History m m_bits flags x u) (j : ℕ) (p : j < m).
          ap (λ rs. get_or rs j 0) (export_registers-view flags made)
          ∙ get_or-tabulate (max_rank u) m j p in
      (
        h,
        e,
        history,
        ap length (export_registers-view flags history) ∙ length-tabulate (max_rank (s ++ t)) m,
        λ j p. omega (
          arith,
          at h (s ++ t) history j p,
          at a s left j p,
          at b t right j p,
          max_rank-append s t j,
        ),
      )

  -- Neither the order of two merges nor a repeated one shows in what is exported.
  merge_comm :
      (flags : ℕ) {a b h h' : HyperLogLogLog} {s t : Stream}
      → History m m_bits flags a s
      → History m m_bits flags b t
      → merge a b ≡ some h
      → merge b a ≡ some h'
      → export_registers h ≡ export_registers h'
  merge_comm flags {s = s} {t = t} left right e e' =
      (view_iff flags flags (merged left right e) (merged right left e')).1
        (Quot.sound (λ j p. omega (arith, max_rank-append s t j, max_rank-append t s j)))

  merge_idem :
      (flags : ℕ) {a h : HyperLogLogLog} {s : Stream}
      → History m m_bits flags a s
      → merge a a ≡ some h
      → export_registers h ≡ export_registers a
  merge_idem flags {s = s} history e =
      (view_iff flags flags (merged history history e) history).1
        (Quot.sound (λ j p. omega (arith, max_rank-append s s j)))

  merge_assoc :
      (flags : ℕ) {a b c ab bc h h' : HyperLogLogLog} {s t u : Stream}
      → History m m_bits flags a s
      → History m m_bits flags b t
      → History m m_bits flags c u
      → merge a b ≡ some ab
      → merge b c ≡ some bc
      → merge ab c ≡ some h
      → merge a bc ≡ some h'
      → export_registers h ≡ export_registers h'
  merge_assoc flags {s = s} {t = t} {u = u} ha hb hc eab ebc e e' =
      (view_iff flags flags (merged (merged ha hb eab) hc e) (merged ha (merged hb hc ebc) e')).1 (
        Quot.sound (λ j p. omega (
          arith,
          max_rank-append (s ++ t) u j,
          max_rank-append s t j,
          max_rank-append s (t ++ u) j,
          max_rank-append t u j,
        )))

  -- Take at most 2 ^ 30 registers and offsets of 1 to 8 bits, and three sketches that were made
  -- with the same arguments by any interleaving of the constructor, `addJr` and `merge`. On the
  -- exported registers `merge` is idempotent, commutative and associative.
  pub merge_laws :
      (flags : ℕ) {a b c aa ab ba bc ab_c a_bc : HyperLogLogLog} {s t u : Stream}
      → History m m_bits flags a s
      → History m m_bits flags b t
      → History m m_bits flags c u
      → merge a a ≡ some aa
      → merge a b ≡ some ab
      → merge b a ≡ some ba
      → merge b c ≡ some bc
      → merge ab c ≡ some ab_c
      → merge a bc ≡ some a_bc
      → (export_registers aa ≡ export_registers a)
        × (export_registers ab ≡ export_registers ba)
        × (export_registers ab_c ≡ export_registers a_bc)
  merge_laws flags ha hb hc eaa eab eba ebc e e' = (
    merge_idem flags ha eaa,
    merge_comm flags ha hb eab eba,
    merge_assoc flags ha hb hc eab ebc e e',
  )
