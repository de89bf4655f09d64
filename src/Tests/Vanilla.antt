-- ===== src/Tests/Vanilla.antt =====
-- hyperlogloglog/HyperLogLog.hpp on small sketches.
use hyperlogloglog.Base.{ℕ, ◌≡◌, refl, arith, some, [], ◌∷◌, ◌++◌, low_ones, test_bit}
use hyperlogloglog.Common.{leading_zeros, clz, rho, log2i_from, log2i, fibonacci_hash}
use hyperlogloglog.PackedVector
use hyperlogloglog.Registers.{Stream, max_rank, IsInRange}
use hyperlogloglog.HyperLogLog.{
  HyperLogLog, new, add_jr, add_hash, add, export_from, export_registers, merge_from, merge,
}
use hyperlogloglog.HyperLogLog.Add.{IsValid, register, add_jr-IsValid}
use hyperlogloglog.HyperLogLog.Streams.{adds, adds-new, merge-adds, add_hash-one}

program : Unit {0}
unfolding test_bit low_ones leading_zeros clz rho log2i_from log2i fibonacci_hash PackedVector.new
    PackedVector.get PackedVector.set_at PackedVector.read_field PackedVector.write_field new add_jr
    add_hash add export_from export_registers merge_from merge adds max_rank
program = tt

abbrev left : Stream
left = (1, 5) ∷ (0, 2) ∷ (1, 3) ∷ (3, 63) ∷ []

abbrev right : Stream
right = (2, 1) ∷ (1, 9) ∷ []

IsInRange-left : IsInRange 4 left
IsInRange-left = (
  omega arith,
  omega arith,
  (omega arith, omega arith, (omega arith, omega arith, (omega arith, omega arith, tt))),
)

IsInRange-right : IsInRange 4 right
IsInRange-right = (omega arith, omega arith, (omega arith, omega arith, tt))

left_exports : export_registers (adds (new 4) left) ≡ 2 ∷ 5 ∷ 0 ∷ 63 ∷ []
unfolding program
left_exports = refl

abbrev sketch : HyperLogLog
sketch = adds (new 4) left

sketch-IsValid : IsValid sketch
sketch-IsValid = (adds-new 4 (omega arith) left IsInRange-left).0

other-IsValid : IsValid (adds (new 4) right)
other-IsValid = (adds-new 4 (omega arith) right IsInRange-right).0

m-sketch : (sketch.m ≡ 4) × (sketch.log_m ≡ 2) × ((adds (new 4) right).m ≡ 4)
unfolding program
m-sketch = (refl, refl, refl)

merge-adds_example :
    (h : HyperLogLog) × (merge (adds (new 4) left) (adds (new 4) right) ≡ some h)
    × (export_registers h ≡ export_registers (adds (new 4) (left ++ right)))
merge-adds_example = merge-adds 4 (omega arith) left right IsInRange-left IsInRange-right

abbrev again : Stream
again = (3, 63) ∷ (1, 5) ∷ (0, 2) ∷ (0, 2) ∷ []

IsInRange-again : IsInRange 4 again
IsInRange-again = (
  omega arith,
  omega arith,
  (omega arith, omega arith, (omega arith, omega arith, (omega arith, omega arith, tt))),
)

max_rank-again : (j : ℕ) → max_rank left j ≡ max_rank again j
unfolding max_rank
max_rank-again j = ground arith

-- The Fibonacci hash of 1 to 2 bits is 2, and a rank was added at that index before.
abbrev raised : HyperLogLog
raised = add_jr sketch 2 30

raised-IsValid : IsValid raised
raised-IsValid = add_jr-IsValid 2 30 sketch-IsValid (omega (arith, m-sketch.0))

raised_index : (fibonacci_hash 1 raised.log_m ≡ 2) × (raised.m ≡ 4) × (register raised 2 ≡ 30)
unfolding program
raised_index = (refl, refl, refl)

add_hash-one_example :
    register (add_hash raised 1 fibonacci_hash) (fibonacci_hash 1 raised.log_m) ≡ 0
add_hash-one_example =
    add_hash-one fibonacci_hash raised-IsValid (omega (arith, raised_index.0, raised_index.1))
