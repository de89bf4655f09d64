-- ===== src/PackedVector/Casts.antt =====
-- `insert` where the cast of the size to `int` is negative.
use hyperlogloglog.PackedVector.{PackedVector}
