-- ===== src/HyperLogLogLog/Getters.antt =====
-- The getters of hyperlogloglog/HyperLogLogLog.hpp, those for debugging included.
use hyperlogloglog.Base.{ℕ}
use hyperlogloglog.PackedVector.{PackedVector}
use hyperlogloglog.PackedMap.{PackedMap}
use hyperlogloglog.HyperLogLogLog.State.{HyperLogLogLog}

abbrev pub get_compress_count : HyperLogLogLog → ℕ
get_compress_count h = h.compress_count

abbrev pub get_rebase_count : HyperLogLogLog → ℕ
get_rebase_count h = h.rebase_count

abbrev pub get_m : HyperLogLogLog → PackedVector
get_m h = h.offsets

abbrev pub get_s : HyperLogLogLog → PackedMap
get_s h = h.sparse

abbrev pub get_b : HyperLogLogLog → ℕ
get_b h = h.base

abbrev pub get_lower_bound : HyperLogLogLog → ℕ
get_lower_bound h = h.lower_bound
