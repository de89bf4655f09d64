-- ===== src/HyperLogLogLog.antt =====
-- hyperlogloglog/HyperLogLogLog.hpp, for `Word = uint64_t`: a register is an offset of `m_bits`
-- bits in `offsets` (the code's `M`) above `base` (`B`), or an exception in the sparse map
-- `sparse` (`S`). `min_value_count`, `compress_count` and `rebase_count` are the 32-bit patterns
-- of the code's `int`s; the `uint8_t` fields are cut to 8 bits where they are assigned. The
-- exceptions of the constructor are `none`. `log_m` and `s_bits` are as the constructor sets
-- them, and `m` is below 2 ^ 31, as an `int`.
pub mod State
pub mod Registers
pub mod Compress
pub mod Update
pub mod Shape
pub mod Moved
pub mod Rebase
pub mod Iterate
pub mod Search
pub mod Tight
pub mod History
pub mod View
pub mod Keeps
pub mod Refine
pub mod New
pub mod Streams
pub mod Estimate
pub mod Getters
pub mod Convert
pub mod Config
pub mod Flags
pub mod Merge
pub mod Optimum
pub mod Occurrences
pub mod Counts
pub mod Rounds
pub mod Least
pub mod Bottom
