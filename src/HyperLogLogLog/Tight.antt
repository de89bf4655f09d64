-- ===== src/HyperLogLogLog/Tight.antt =====
-- The sparse map holds the registers that are no offset from the base, and no other.
pub mod Size
pub mod Exact
pub mod Best
pub mod Streams
pub mod Merge
use hyperlogloglog.Base.{ℕ, ◌<◌, ◌≡◌}
use hyperlogloglog.PackedMap.Lookup.{lookup}
use hyperlogloglog.HyperLogLogLog.State.{HyperLogLogLog}
use hyperlogloglog.HyperLogLogLog.Registers.{get}
use hyperlogloglog.HyperLogLogLog.Shape.{is_some, is_exception}

pub record IsTight (h : HyperLogLogLog) : Type 0 where
  pub stored :
      (q : ℕ) → q < h.m → is_some (lookup h.sparse q) ≡ is_exception h.max_offset h.base (get h q)
