-- ===== src/Tests/Compressed.antt =====
-- hyperlogloglog/HyperLogLogZstd.hpp with a compressor that stores what it is given.
use hyperlogloglog.Base.{◌≡◌, refl, arith, some, [], ◌∷◌, ◌++◌}
use hyperlogloglog.Common.{log2i_from, log2i}
use hyperlogloglog.Registers.{Stream, IsInRange}
use hyperlogloglog.HyperLogLog
use hyperlogloglog.HyperLogLog.Streams as VanillaStreams
use hyperlogloglog.HyperLogLogZstd.{
  HyperLogLogZstd, least, new, compress, decompress, add_jr, export_registers, merge,
}
use hyperlogloglog.HyperLogLogZstd.Valid.{new-IsValid}
use hyperlogloglog.HyperLogLogZstd.Add.{IsRaised, zstd_add_jr-IsRaised}
use hyperlogloglog.HyperLogLogZstd.Streams.{adds, zstd_adds_refines, zstd_merge_refines}
use hyperlogloglog.Tests.Systems.{store_only, store_only-IsLossless}

abbrev left : Stream
left = (1, 5) ∷ (0, 2) ∷ (1, 3) ∷ (3, 63) ∷ []

abbrev right : Stream
right = (2, 1) ∷ (1, 9) ∷ []

IsInRange-left : IsInRange 4 left
IsInRange-left = (
  omega arith,
  omega arith,
  (omega arith, omega arith, (omega arith, omega arith, (omega arith, omega arith, tt))),
)

IsInRange-right : IsInRange 4 right
IsInRange-right = (omega arith, omega arith, (omega arith, omega arith, tt))

zstd_exports :
    (export_registers store_only (adds store_only (new store_only 4) left)).0 ≡ 2 ∷ 5 ∷ 0 ∷ 63 ∷ []
unfolding log2i_from log2i least new compress decompress add_jr export_registers adds
zstd_exports = refl

-- The rank 64 fits a `char`, other than the 6 bits of a HyperLogLog.
zstd_keeps_rank_64 :
    (export_registers store_only (add_jr store_only (new store_only 2) 1 64)).0 ≡ 0 ∷ 64 ∷ []
unfolding log2i_from log2i least new compress decompress add_jr export_registers
zstd_keeps_rank_64 = refl

zstd_adds_refines_example :
    (export_registers store_only (adds store_only (new store_only 4) left)).0
    ≡ HyperLogLog.export_registers (VanillaStreams.adds (HyperLogLog.new 4) left)
zstd_adds_refines_example =
    zstd_adds_refines store_only store_only-IsLossless 4 left (omega arith) IsInRange-left

zstd_merge_refines_example :
    (h : HyperLogLogZstd) × (merge store_only
        (adds store_only (new store_only 4) left)
        (adds store_only (new store_only 4) right)
      ≡ some (adds store_only (new store_only 4) left, adds store_only (new store_only 4) right, h))
    × ((export_registers store_only h).0
        ≡ HyperLogLog.export_registers (VanillaStreams.adds (HyperLogLog.new 4) (left ++ right)))
zstd_merge_refines_example =
    zstd_merge_refines store_only store_only-IsLossless 4 left right (omega arith) IsInRange-left
      IsInRange-right

zstd_add_jr-IsRaised_example :
    IsRaised store_only (new store_only 4) 2 100 (add_jr store_only (new store_only 4) 2 100)
zstd_add_jr-IsRaised_example =
    zstd_add_jr-IsRaised store_only-IsLossless 2 100 (new-IsValid store_only-IsLossless 4).0
      (omega (arith, (new-IsValid store_only-IsLossless 4).1)) (omega arith)
