-- ===== src/HyperLogLogLog/History/Adds.antt =====
-- Streams that are added to a sketch with a history.
use hyperlogloglog.Base.{ℕ, ◌^◌, ◌≤◌, ◌<◌, ◌≡◌, arith, [], ◌∷◌, max}
use hyperlogloglog.Registers.{Stream, max_rank, IsInRange}
use hyperlogloglog.HyperLogLogLog.State.{HyperLogLogLog, bottom}
use hyperlogloglog.HyperLogLogLog.Streams.{adds}
use hyperlogloglog.HyperLogLogLog.History.{History, added}
use hyperlogloglog.HyperLogLogLog.History.Least.{History_rises}

-- The greatest ranks of the history that the sketch then has are those of both.
pub adds-History :
    {m m_bits flags : ℕ} (t : Stream) {h : HyperLogLogLog} {s : Stream}
    → History m m_bits flags h s
    → IsInRange m t
    → (u : Stream) × History m m_bits flags (adds h t) u
      × ((j : ℕ) → max_rank u j ≡ max (max_rank t j) (max_rank s j))
unfolding adds max_rank
adds-History [] {h} {s} history range = (s, history, λ j. omega arith)
adds-History ((i, r) ∷ t) {h} {s} history range =
    let (u, later, ranks) = adds-History t (added i r history range.0 range.1) range.2 in
    (u, later, λ j. ground (arith, ranks j))

-- Take at most 2 ^ 30 registers, offsets of 1 to 8 bits and the bottom flag. From any sketch
-- that the constructor, `addJr` and `merge` have made, a stream in range that has a rank above
-- `b` at every index leads to a sketch whose base is above `b`.
pub adds_rises :
    (m m_bits : ℕ) {h : HyperLogLogLog} {s : Stream} (b : ℕ) (t : Stream)
    → m ≤ 2 ^ 30
    → 0 < m_bits
    → m_bits ≤ 8
    → History m m_bits bottom h s
    → IsInRange m t
    → ((j : ℕ) → j < m → b < max_rank t j)
    → b < (adds h t).base
adds_rises m m_bits {h} {s} b t small pos le history range above =
    let (u, later, ranks) = adds-History t history range in
    History_rises m m_bits small pos le b later (λ j p. ground (arith, ranks j, above j p))
