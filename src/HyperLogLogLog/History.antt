-- ===== src/HyperLogLogLog/History.antt =====
-- The sketches that the public interface can make: any interleaving of the constructor, `addJr`
-- and `merge`. `add`, `addHash` and `fromHyperLogLog` are calls of `addJr`.
use hyperlogloglog.Base.{ℕ, ◌<◌, ◌≡◌, some, [], ◌∷◌, ◌++◌}
use hyperlogloglog.Registers.{Stream}
use hyperlogloglog.HyperLogLogLog.State.{HyperLogLogLog, new}
use hyperlogloglog.HyperLogLogLog.Update.{add_jr}
use hyperlogloglog.HyperLogLogLog.Merge.{merge}
pub mod Reached
pub mod Sizes
pub mod Least
pub mod Adds
pub mod Safe

-- With the arguments of the constructor, and the pairs that were added on the way.
pub data History (m m_bits flags : ℕ) : HyperLogLogLog → Stream → Type 0 where
  created : {h : HyperLogLogLog} → new m m_bits flags ≡ some h → History m m_bits flags h []
  added :
      {h : HyperLogLogLog} {s : Stream} (j r : ℕ)
      → History m m_bits flags h s
      → j < m
      → r < 64
      → History m m_bits flags (add_jr h j r) ((j, r) ∷ s)
  merged :
      {a b h : HyperLogLogLog} {s t : Stream}
      → History m m_bits flags a s
      → History m m_bits flags b t
      → merge a b ≡ some h
      → History m m_bits flags h (s ++ t)
