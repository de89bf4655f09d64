-- ===== src/Tests/Merges.antt =====
-- `merge` of hyperlogloglog/HyperLogLogLog.hpp on sketches of four registers.
use hyperlogloglog.Base.{◌≡◌, ◌≢◌, refl, arith, some, none, [], ◌∷◌, low_ones, test_bit}
use hyperlogloglog.Common.{leading_zeros, clz, rho, log2i_from, log2i}
use hyperlogloglog.PackedVector
use hyperlogloglog.PackedMap
use hyperlogloglog.Registers.{Stream, IsInRange}
use hyperlogloglog.HyperLogLogLog.State.{
  HyperLogLogLog, complete_flags, are_valid_flags, fresh, new, bottom, compress_default,
}
use hyperlogloglog.HyperLogLogLog.Registers.{
  get, value_at, place, rebase_from, rebase, walk, iterate_from, iterate,
}
use hyperlogloglog.HyperLogLogLog.Compress.{
  lowest_two, count_base, search_base, compress_full, raise_base, compress_increase,
  compress_bottom, compress,
}
use hyperlogloglog.HyperLogLogLog.Update.{
  update, is_size_increased, add_jr, export_from, export_registers,
}
use hyperlogloglog.HyperLogLogLog.Rebase.{IsValid}
use hyperlogloglog.HyperLogLogLog.New.{new-IsValid}
use hyperlogloglog.HyperLogLogLog.Streams.{adds, adds-IsAdded}
use hyperlogloglog.HyperLogLogLog.Search.{Ends, search_base-Ends}
use hyperlogloglog.HyperLogLogLog.Merge.{
  merge_gap, merge_round, merge_both, merge_left, merge_right, merge_registers, merge,
}

program : Unit {0}
unfolding test_bit low_ones leading_zeros clz rho log2i_from log2i PackedVector.new PackedVector.get
    PackedVector.set_at PackedVector.read_field PackedVector.write_field PackedVector.append
    PackedVector.grow PackedVector.erase PackedVector.shift_left PackedMap.new PackedMap.at
    PackedMap.key_at PackedMap.find_from PackedMap.find PackedMap.pack_element PackedMap.put
    PackedMap.sift PackedMap.add PackedMap.erase_at PackedMap.erase complete_flags are_valid_flags
    fresh new get value_at place rebase_from rebase walk iterate_from iterate lowest_two count_base
    search_base compress_full raise_base compress_increase compress_bottom compress update
    is_size_increased add_jr export_from export_registers adds merge_gap merge_round merge_both
    merge_left merge_right merge_registers merge
program = tt

abbrev empty : HyperLogLogLog
empty = fresh 4 3 compress_default

new-empty : new 4 3 compress_default ≡ some empty
unfolding program
new-empty = refl

-- Exceptions at 0 and 3 on the left, at 1 on the right.
abbrev left : Stream
left = (0, 20) ∷ (1, 12) ∷ (2, 13) ∷ (3, 50) ∷ []

abbrev right : Stream
right = (0, 21) ∷ (1, 40) ∷ (2, 15) ∷ (3, 18) ∷ []

IsInRange-left : IsInRange 4 left
IsInRange-left = (
  omega arith,
  omega arith,
  (omega arith, omega arith, (omega arith, omega arith, (omega arith, omega arith, tt))),
)

IsInRange-right : IsInRange 4 right
IsInRange-right = (
  omega arith,
  omega arith,
  (omega arith, omega arith, (omega arith, omega arith, (omega arith, omega arith, tt))),
)

merged_exports :
    (elim (merge (adds empty left) (adds empty right)) [ none ↦ [] | some h ↦ export_registers h ])
    ≡ 21 ∷ 40 ∷ 15 ∷ 50 ∷ []
unfolding program
merged_exports = refl

m-empty : empty.m ≡ 4
unfolding program
m-empty = refl

empty-IsValid : IsValid empty
empty-IsValid =
    (new-IsValid 4 3 compress_default (omega arith) (omega arith) (omega arith) new-empty).0

left-IsValid : IsValid (adds empty left)
left-IsValid = (adds-IsAdded left empty-IsValid (rw m-empty IsInRange-left)).valid

right-IsValid : IsValid (adds empty right)
right-IsValid = (adds-IsAdded right empty-IsValid (rw m-empty IsInRange-right)).valid

new-bottom : new 4 3 bottom ≡ some (fresh 4 3 bottom)
unfolding program
new-bottom = refl

left_right :
    ((adds empty right).m ≡ (adds empty left).m)
    × ((adds empty right).m_bits ≡ (adds empty left).m_bits)
    × ((adds empty left).m_bits ≡ 3)
    × (new (adds empty left).m (adds empty left).m_bits (adds empty left).flags ≡ some empty)
    × ((adds empty right).s_bits ≡ (adds empty left).s_bits)
    × ((adds empty right).flags ≡ (adds empty left).flags)
unfolding program
left_right = (refl, refl, refl, refl, refl, refl)

bits-differ : (fresh 4 3 compress_default).m_bits ≢ (fresh 4 2 compress_default).m_bits
unfolding program
bits-differ = omega arith

search_base-Ends_example :
    Ends (adds empty left) 12 0 2 0 (search_base 65 (adds empty left) 12 0 2 0)
search_base-Ends_example = search_base-Ends left-IsValid.shape 65 12 0 2 0 (omega arith)
