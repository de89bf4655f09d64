-- ===== src/Tests/Literals.antt =====
-- The tests of hyperlogloglog/test.cpp that compare with literals pass.
use hyperlogloglog.Base.{◌≡◌, refl, true, low_ones, test_bit}
use hyperlogloglog.Common.{leading_zeros, clz, rho, log2i_from, log2i}
use hyperlogloglog.PackedVector
use hyperlogloglog.PackedMap
use hyperlogloglog.HyperLogLogLog.State.{complete_flags, are_valid_flags, fresh, new}
use hyperlogloglog.HyperLogLogLog.Registers.{
  get, value_at, place, rebase_from, rebase, walk, iterate_from, iterate,
}
use hyperlogloglog.HyperLogLogLog.Compress.{
  lowest_two, count_base, search_base, compress_full, raise_base, compress_increase,
  compress_bottom, compress,
}
use hyperlogloglog.HyperLogLogLog.Update.{
  update, is_size_increased, add_jr, export_from, export_registers, bit_size,
}
use hyperlogloglog.HyperLogLogLog.Optimum.{minimum_bits, least_bits, best_ns, exceptions}
use hyperlogloglog.UnitTests.Literals.{test_packed_vector3, test_minimum_bits}
use hyperlogloglog.UnitTests.Literals.Default.{test_hyperlogloglog}
use hyperlogloglog.UnitTests.Literals.Partial.{test_hyperlogloglog_partial}

program : Unit {0}
unfolding test_bit low_ones leading_zeros clz rho log2i_from log2i PackedVector.new PackedVector.get
    PackedVector.set_at PackedVector.read_field PackedVector.write_field PackedVector.append
    PackedVector.grow PackedVector.erase PackedVector.shift_left PackedVector.bit_size PackedMap.new
    PackedMap.at PackedMap.key_at PackedMap.find_from PackedMap.find PackedMap.pack_element
    PackedMap.put PackedMap.sift PackedMap.add PackedMap.erase_at PackedMap.erase PackedMap.bit_size
    complete_flags are_valid_flags fresh new get value_at place rebase_from rebase walk iterate_from
    iterate lowest_two count_base search_base compress_full raise_base compress_increase
    compress_bottom compress update is_size_increased add_jr export_from export_registers bit_size
    minimum_bits least_bits best_ns exceptions PackedVector.insert PackedVector.int_place
    PackedVector.word_at PackedVector.shift_right test_packed_vector3 test_minimum_bits
    test_hyperlogloglog test_hyperlogloglog_partial
program = tt

packed_vector3 : test_packed_vector3 ≡ true
unfolding program
packed_vector3 = refl

minimum_bits_literals : test_minimum_bits ≡ true
unfolding program
minimum_bits_literals = refl

hyperlogloglog_literals : test_hyperlogloglog ≡ true
unfolding program
hyperlogloglog_literals = refl

partial_literals : test_hyperlogloglog_partial ≡ true
unfolding program
partial_literals = refl
