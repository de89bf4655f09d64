-- ===== src/Tests/Triple.antt =====
-- hyperlogloglog/HyperLogLogLog.hpp on sketches of four registers.
use hyperlogloglog.Base.{
  ℕ, ◌⊎◌, ◌≤◌, ◌<◌, List, length, get_or, ◌+◌, ◌*◌, ◌≡◌, refl, arith, some, none, [], ◌∷◌, low_ones,
  test_bit,
}
use hyperlogloglog.Common.{leading_zeros, clz, rho, log2i_from, log2i}
use hyperlogloglog.PackedVector
use hyperlogloglog.PackedMap
use hyperlogloglog.Registers.{Stream, IsInRange}
use hyperlogloglog.HyperLogLog
use hyperlogloglog.HyperLogLog.{HyperLogLog}
use hyperlogloglog.HyperLogLog.Add as Vanilla
use hyperlogloglog.HyperLogLog.Streams as VanillaStreams
use hyperlogloglog.HyperLogLogLog.Least.{compress_full-least}
use hyperlogloglog.HyperLogLogLog.Rounds.{exceptions_at}
use hyperlogloglog.HyperLogLogLog.State.{
  HyperLogLogLog, complete_flags, are_valid_flags, fresh, new, compress_default, bottom,
  type_increase, when_append,
}
use hyperlogloglog.HyperLogLogLog.Registers.{
  get, value_at, place, rebase_from, rebase, walk, iterate_from, iterate,
}
use hyperlogloglog.HyperLogLogLog.Compress.{
  lowest_two, count_base, search_base, compress_full, raise_base, compress_increase,
  compress_bottom, compress,
}
use hyperlogloglog.HyperLogLogLog.Update.{
  update, is_size_increased, add_jr, export_from, export_registers, to_hyper_log_log, add_registers,
  from_hyper_log_log,
}
use hyperlogloglog.HyperLogLogLog.Rebase.{IsValid, KeepsRegisters, rebase-KeepsRegisters}
use hyperlogloglog.HyperLogLogLog.Iterate.{over, iterate-over}
use hyperlogloglog.HyperLogLogLog.Keeps.{compress-KeepsRegisters}
use hyperlogloglog.HyperLogLogLog.Refine.{IsRaised, add_jr-IsRaised}
use hyperlogloglog.HyperLogLogLog.New.{new-IsValid}
use hyperlogloglog.HyperLogLogLog.Streams.{adds, adds-IsAdded}
use hyperlogloglog.HyperLogLogLog.Optimum.{exceptions, best_ns, minimum_bits, least_bits, bits_with}
use hyperlogloglog.HyperLogLogLog.Optimum.Fits.{minimum_bits_optimal}
use hyperlogloglog.HyperLogLogLog.Convert.{to_hyper_log_log-agrees, from_hyper_log_log-agrees}

program : Unit {0}
unfolding test_bit low_ones leading_zeros clz rho log2i_from log2i PackedVector.new PackedVector.get
    PackedVector.set_at PackedVector.read_field PackedVector.write_field PackedVector.append
    PackedVector.grow PackedVector.erase PackedVector.shift_left PackedMap.new PackedMap.at
    PackedMap.key_at PackedMap.find_from PackedMap.find PackedMap.pack_element PackedMap.put
    PackedMap.sift PackedMap.add PackedMap.erase_at PackedMap.erase HyperLogLog.new
    HyperLogLog.add_jr HyperLogLog.export_from HyperLogLog.export_registers complete_flags
    are_valid_flags fresh new get value_at place rebase_from rebase walk iterate_from iterate
    lowest_two count_base search_base compress_full raise_base compress_increase compress_bottom
    compress update is_size_increased add_jr export_from export_registers to_hyper_log_log
    add_registers from_hyper_log_log adds
program = tt

abbrev empty : HyperLogLogLog
empty = fresh 4 3 compress_default

new-empty : new 4 3 compress_default ≡ some empty
unfolding program
new-empty = refl

new-bottom : new 4 3 bottom ≡ some (fresh 4 3 bottom)
unfolding program
new-bottom = refl

-- The default flags with the bottom flag are refused, and a size that is no power of two is.
new_refused : (new 4 3 (bottom + 1) ≡ none) × (new 5 3 compress_default ≡ none)
unfolding program
new_refused = (refl, refl)

-- The base moves up to 12; the ranks 20 and 50 are exceptions.
abbrev stream : Stream
stream = (0, 20) ∷ (1, 12) ∷ (2, 13) ∷ (0, 3) ∷ (3, 50) ∷ []

in_range : IsInRange 4 stream
in_range = (
  omega arith,
  omega arith,
  (
    omega arith,
    omega arith,
    (omega arith, omega arith, (omega arith, omega arith, (omega arith, omega arith, tt))),
  ),
)

abbrev sketch : HyperLogLogLog
sketch = adds empty stream

sketch_exports :
    (export_registers sketch ≡ 20 ∷ 12 ∷ 13 ∷ 50 ∷ [])
    × (sketch.base ≡ 12)
    × (PackedMap.size sketch.sparse ≡ 2)
unfolding program
sketch_exports = (refl, refl, refl)

sketch_increase_exports :
    export_registers (adds (fresh 4 3 (type_increase + when_append)) stream)
    ≡ 20 ∷ 12 ∷ 13 ∷ 50 ∷ []
unfolding program
sketch_increase_exports = refl

m-empty : empty.m ≡ 4
unfolding program
m-empty = refl

m-sketch : sketch.m ≡ 4
unfolding program
m-sketch = refl

empty-IsValid : IsValid empty
empty-IsValid =
    (new-IsValid 4 3 compress_default (omega arith) (omega arith) (omega arith) new-empty).0

sketch-IsValid : IsValid sketch
sketch-IsValid = (adds-IsAdded stream empty-IsValid (rw m-empty in_range)).valid

add_jr-IsRaised_example : IsRaised sketch 1 17 (add_jr sketch 1 17)
add_jr-IsRaised_example =
    add_jr-IsRaised 1 17 sketch-IsValid (omega (arith, m-sketch)) (omega arith)

compress_full-least_example :
    (((compress_full sketch).base ≡ sketch.base)
      × ((j : ℕ)
          → j < sketch.m
          → PackedMap.size sketch.sparse ≤ exceptions_at sketch (get sketch j)))
    ⊎ ((exceptions_at sketch (compress_full sketch).base < PackedMap.size sketch.sparse)
        × ((j : ℕ)
            → j < sketch.m
            → exceptions_at sketch (compress_full sketch).base
              ≤ exceptions_at sketch (get sketch j)))
compress_full-least_example = compress_full-least sketch-IsValid

compress-KeepsRegisters_example : KeepsRegisters sketch (compress sketch)
compress-KeepsRegisters_example = compress-KeepsRegisters sketch-IsValid

rebase-KeepsRegisters_example : KeepsRegisters sketch (rebase sketch 45)
rebase-KeepsRegisters_example = rebase-KeepsRegisters 45 sketch-IsValid

iterate-over_example :
    iterate (λ j r n. n + j * r) sketch 0 ≡ over (λ j r n. n + j * r) (get sketch) sketch.m 0 0
iterate-over_example = iterate-over (λ j r n. n + j * r) sketch-IsValid.shape 0

to_hyper_log_log-agrees_example :
    Vanilla.IsValid (to_hyper_log_log sketch)
    × (export_registers sketch ≡ HyperLogLog.export_registers (to_hyper_log_log sketch))
to_hyper_log_log-agrees_example = to_hyper_log_log-agrees sketch-IsValid

abbrev vanilla : HyperLogLog
vanilla = VanillaStreams.adds (HyperLogLog.new 4) stream

abbrev converted : HyperLogLogLog
converted = add_registers (HyperLogLog.export_registers vanilla) 0 empty

converted_from : from_hyper_log_log vanilla 3 compress_default ≡ some converted
unfolding program VanillaStreams.adds
converted_from = refl

m-vanilla : vanilla.m ≡ 4
unfolding program VanillaStreams.adds
m-vanilla = refl

from_hyper_log_log-agrees_example :
    IsValid converted × (export_registers converted ≡ HyperLogLog.export_registers vanilla)
from_hyper_log_log-agrees_example =
    from_hyper_log_log-agrees vanilla 3 compress_default
      (VanillaStreams.adds-new 4 (omega arith) stream in_range).0 (omega (arith, m-vanilla))
      (omega arith) (omega arith) converted_from

abbrev registers : List ℕ
registers = 20 ∷ 12 ∷ 13 ∷ 50 ∷ []

-- Two exceptions of 8 bits, and four offsets of 3 bits.
minimum_bits_registers : minimum_bits registers 3 6 ≡ some 28
unfolding program minimum_bits least_bits best_ns exceptions
minimum_bits_registers = refl

minimum_bits_optimal_example :
    (bits : ℕ) × (minimum_bits registers 3 6 ≡ some bits)
    × ((base : ℕ) → bits ≤ bits_with registers 3 6 base)
    × ((i : ℕ) × (i < length registers) × (bits ≡ bits_with registers 3 6 (get_or registers i 0)))
minimum_bits_optimal_example =
    minimum_bits_optimal registers 3 6 (omega arith) (omega arith) (omega arith) (omega arith)
