-- ===== src/HyperLogLogLog/Bottom.antt =====
-- The bottom mode: the base and the lower bound are the least register, and `min_value_count`
-- counts the registers that have it.
pub mod Compress
pub mod Streams
pub mod Merge
use hyperlogloglog.Base.{ℕ, ◌<◌, ◌≡◌}
use hyperlogloglog.HyperLogLogLog.State.{HyperLogLogLog, bottom}
use hyperlogloglog.HyperLogLogLog.Registers.{get}
use hyperlogloglog.HyperLogLogLog.Occurrences.{occurrences}

pub record IsBottom (h : HyperLogLogLog) : Type 0 where
  pub flags : h.flags ≡ bottom
  pub base : h.base ≡ h.lower_bound
  pub count : h.min_value_count ≡ occurrences (get h) h.lower_bound h.m
  pub some_least : 0 < h.min_value_count
