-- ===== src/Tests/Histories.antt =====
-- Sketches of four registers with histories of additions and merges.
use hyperlogloglog.Base.{
  length, get_or, max, ℕ, ◌≤◌, ◌<◌, ◌≡◌, ◌↔◌, refl, arith, true, some, none, [], ◌∷◌, ◌++◌,
  low_ones, test_bit,
}
use hyperlogloglog.Common.{leading_zeros, clz, rho, log2i_from, log2i}
use hyperlogloglog.PackedVector
use hyperlogloglog.PackedMap
use hyperlogloglog.Registers.{Stream, IsInRange, max_rank}
use hyperlogloglog.HyperLogLog
use hyperlogloglog.HyperLogLog.Streams as VanillaStreams
use hyperlogloglog.HyperLogLogLog.State.{
  HyperLogLogLog, complete_flags, are_valid_flags, fresh, new, bottom, compress_default, has,
}
use hyperlogloglog.HyperLogLogLog.Registers.{
  get, value_at, place, rebase_from, rebase, walk, iterate_from, iterate,
}
use hyperlogloglog.HyperLogLogLog.Compress.{
  lowest_two, count_base, search_base, compress_full, raise_base, compress_increase,
  compress_bottom, compress,
}
use hyperlogloglog.HyperLogLogLog.Update.{
  update, is_size_increased, add_jr, export_from, export_registers, bit_size,
}
use hyperlogloglog.HyperLogLogLog.Optimum.{minimum_bits, bits_with}
use hyperlogloglog.HyperLogLogLog.Occurrences.{occurrences}
use hyperlogloglog.HyperLogLogLog.Streams.{adds}
use hyperlogloglog.HyperLogLogLog.Merge.{
  merge_gap, merge_round, merge_both, merge_left, merge_right, merge_registers, merge,
}
use hyperlogloglog.HyperLogLogLog.History.{History, created, added, merged}
use hyperlogloglog.HyperLogLogLog.History.Sizes.{
  History_refines, History-bits_with, History-minimum_bits, History_smaller,
}
use hyperlogloglog.HyperLogLogLog.History.Least.{History_least}
use hyperlogloglog.HyperLogLogLog.History.Adds.{adds_rises}
use hyperlogloglog.HyperLogLogLog.History.Safe.{History_safe}
use hyperlogloglog.HyperLogLogLog.View.{History_merges, view_of, view_iff, merge_laws}

program : Unit {0}
unfolding test_bit low_ones leading_zeros clz rho log2i_from log2i PackedVector.new PackedVector.get
    PackedVector.set_at PackedVector.read_field PackedVector.write_field PackedVector.append
    PackedVector.grow PackedVector.erase PackedVector.shift_left PackedVector.bit_size PackedMap.new
    PackedMap.at PackedMap.key_at PackedMap.find_from PackedMap.find PackedMap.pack_element
    PackedMap.put PackedMap.sift PackedMap.add PackedMap.erase_at PackedMap.erase PackedMap.bit_size
    complete_flags are_valid_flags fresh new get value_at place rebase_from rebase walk iterate_from
    iterate lowest_two count_base search_base compress_full raise_base compress_increase
    compress_bottom compress update is_size_increased add_jr export_from export_registers bit_size
    adds merge_gap merge_round merge_both merge_left merge_right merge_registers merge
program = tt

abbrev start : HyperLogLogLog
start = fresh 4 3 compress_default

new-start : new 4 3 compress_default ≡ some start
unfolding program
new-start = refl

has-start : (has start.flags 1 ≡ true) × (has start.flags 4 ≡ true)
unfolding program
has-start = (refl, refl)

abbrev left : HyperLogLogLog
left = add_jr (add_jr (add_jr start 0 20) 1 12) 2 13

abbrev right : HyperLogLogLog
right = add_jr (add_jr start 1 40) 3 18

abbrev left_pairs : Stream
left_pairs = (2, 13) ∷ (1, 12) ∷ (0, 20) ∷ []

abbrev right_pairs : Stream
right_pairs = (3, 18) ∷ (1, 40) ∷ []

left-History : History 4 3 compress_default left left_pairs
left-History =
    added 2 13
      (added 1 12 (added 0 20 (created new-start) (omega arith) (omega arith)) (omega arith)
        (omega arith))
      (omega arith) (omega arith)

right-History : History 4 3 compress_default right right_pairs
right-History =
    added 3 18 (added 1 40 (created new-start) (omega arith) (omega arith)) (omega arith)
      (omega arith)

-- What `merge` returns, or an empty sketch.
abbrev merge_of : HyperLogLogLog → HyperLogLogLog → HyperLogLogLog
merge_of a b = elim (merge a b) [ none ↦ start | some h ↦ h ]

abbrev both : HyperLogLogLog
both = merge_of left right

merge-left : merge left right ≡ some both
unfolding program
merge-left = refl

-- From the base 13 the one exception is 40.
both_exports :
    (export_registers both ≡ 20 ∷ 40 ∷ 13 ∷ 18 ∷ []) × (both.base ≡ 13) × (bit_size both ≡ 20)
unfolding program
both_exports = (refl, refl, refl)

both-History : History 4 3 compress_default both (left_pairs ++ right_pairs)
both-History = merged left-History right-History merge-left

abbrev low : HyperLogLogLog
low = add_jr (add_jr (fresh 4 3 bottom) 1 12) 0 3

abbrev low_pairs : Stream
low_pairs = (0, 3) ∷ (1, 12) ∷ []

new-low : new 4 3 bottom ≡ some (fresh 4 3 bottom)
unfolding program
new-low = refl

low-History : History 4 3 bottom low low_pairs
low-History =
    added 0 3 (added 1 12 (created new-low) (omega arith) (omega arith)) (omega arith) (omega arith)

History_refines_example :
    export_registers both
    ≡ HyperLogLog.export_registers
        (VanillaStreams.adds (HyperLogLog.new 4) (left_pairs ++ right_pairs))
History_refines_example =
    History_refines 4 3 (omega arith) (omega arith) (omega arith) compress_default both-History

History_merges_example :
    (h : HyperLogLogLog) × (merge both right ≡ some h)
    × History 4 3 compress_default h ((left_pairs ++ right_pairs) ++ right_pairs)
    × (length (export_registers h) ≡ 4)
    × ((j : ℕ)
        → j < 4
        → get_or (export_registers h) j 0
          ≡ max (get_or (export_registers both) j 0) (get_or (export_registers right) j 0))
History_merges_example =
    History_merges 4 3 (omega arith) (omega arith) (omega arith) compress_default both-History
      right-History

History-minimum_bits_example : minimum_bits (export_registers both) 3 6 ≡ some (bit_size both)
History-minimum_bits_example =
    History-minimum_bits 4 3 (omega arith) (omega arith) (omega arith) compress_default new-start
      has-start.0 has-start.1 (omega arith) both-History

History-bits_with_example :
    (bit_size low ≡ bits_with (export_registers low) 3 6 low.base)
    × ((bits : ℕ) × (minimum_bits (export_registers low) 3 6 ≡ some bits) × (bits ≤ bit_size low))
History-bits_with_example =
    History-bits_with 4 3 (omega arith) (omega arith) (omega arith) bottom (omega arith) low-History

-- The pairs of `low`, in the other order.
abbrev high : HyperLogLogLog
high = add_jr (add_jr start 0 3) 1 12

abbrev high_pairs : Stream
high_pairs = (1, 12) ∷ (0, 3) ∷ []

high-History : History 4 3 compress_default high high_pairs
high-History =
    added 1 12 (added 0 3 (created new-start) (omega arith) (omega arith)) (omega arith)
      (omega arith)

same_ranks : (j : ℕ) → j < 4 → max_rank high_pairs j ≡ max_rank low_pairs j
unfolding max_rank
same_ranks j p = ground arith

History_smaller_example : bit_size high ≤ bit_size low
History_smaller_example =
    History_smaller 4 3 (omega arith) (omega arith) (omega arith) compress_default new-start
      has-start.0 has-start.1 bottom high-History low-History same_ranks

History_least_example :
    (low.base ≡ low.lower_bound)
    × ((j : ℕ) → j < 4 → low.base ≤ max_rank low_pairs j)
    × ((j : ℕ) × (j < 4) × (max_rank low_pairs j ≡ low.base))
    × (low.min_value_count ≡ occurrences (max_rank low_pairs) low.base 4)
History_least_example = History_least 4 3 (omega arith) (omega arith) (omega arith) low-History

abbrev further : Stream
further = (0, 9) ∷ (1, 8) ∷ (2, 8) ∷ (3, 11) ∷ []

IsInRange-further : IsInRange 4 further
IsInRange-further = (
  omega arith,
  omega arith,
  (omega arith, omega arith, (omega arith, omega arith, (omega arith, omega arith, tt))),
)

above : (j : ℕ) → j < 4 → 7 < max_rank further j
unfolding max_rank
above j p = ground arith

adds_rises_example : 7 < (adds low further).base
adds_rises_example =
    adds_rises 4 3 7 further (omega arith) (omega arith) (omega arith) low-History IsInRange-further
      above

History_safe_example :
    (PackedVector.append_asserts both.sparse.arr ≡ true)
    × (both.offsets.size ≡ 4)
    × (PackedMap.size both.sparse ≤ 4)
    × ((i : ℕ) → i < PackedMap.size both.sparse → PackedMap.key_at both.sparse i < 4)
    × ((j : ℕ) → j < 4 → (both.lower_bound ≤ get both j) × (get both j < 64))
History_safe_example =
    History_safe 4 3 compress_default (omega arith) (omega arith) (omega arith) both-History

view_iff_example :
    (export_registers high ≡ export_registers low) ↔ (view_of 4 high_pairs ≡ view_of 4 low_pairs)
view_iff_example =
    view_iff 4 3 (omega arith) (omega arith) (omega arith) compress_default bottom high-History
      low-History

merges_made :
    (merge left left ≡ some (merge_of left left))
    × (merge right left ≡ some (merge_of right left))
    × (merge right high ≡ some (merge_of right high))
    × (merge both high ≡ some (merge_of both high))
    × (merge left (merge_of right high) ≡ some (merge_of left (merge_of right high)))
unfolding program
merges_made = (refl, refl, refl, refl, refl)

merge_laws_example :
    (export_registers (merge_of left left) ≡ export_registers left)
    × (export_registers both ≡ export_registers (merge_of right left))
    × (export_registers (merge_of both high)
        ≡ export_registers (merge_of left (merge_of right high)))
merge_laws_example =
    merge_laws 4 3 (omega arith) (omega arith) (omega arith) compress_default left-History
      right-History high-History merges_made.0 merge-left merges_made.1 merges_made.2 merges_made.3
      merges_made.4
