-- ===== src/Tests/Maps.antt =====
-- hyperlogloglog/PackedMap.hpp on a map of two keys.
use hyperlogloglog.Base.{ℕ, ◌%◌, ◌^◌, ◌≤◌, ◌<◌, ◌≡◌, refl, arith, none, some, low_ones}
use hyperlogloglog.PackedVector
use hyperlogloglog.PackedMap.{
  PackedMap, new, at, key_at, find_from, find, pack_element, put, sift, add, erase_at, erase,
}
use hyperlogloglog.PackedMap.Entries as Entries
use hyperlogloglog.PackedMap.Entries.{IsValid}
use hyperlogloglog.PackedMap.Overwrite.{Changes}
use hyperlogloglog.PackedMap.Laws.{add-Changes, erase-Changes}

program : Unit {0}
unfolding low_ones PackedVector.new PackedVector.get PackedVector.set_at PackedVector.read_field
    PackedVector.write_field PackedVector.append PackedVector.grow PackedVector.erase
    PackedVector.shift_left new at key_at find_from find pack_element put sift add erase_at erase
program = tt

-- Keys of 4 bits with values of 6 bits.
abbrev empty : PackedMap
empty = new 4 6

empty-IsValid : IsValid 16 empty
empty-IsValid = Entries.new-IsValid 16 4 6 (omega arith) (omega arith) (omega arith)

key_size-empty : empty.key_size ≡ 4
unfolding program
key_size-empty = refl

abbrev two : PackedMap
two = add (add empty 9 41) 3 17

two_keys : (key_at two 0 ≡ 3) × (at two 0 ≡ 17) × (key_at two 1 ≡ 9) × (at two 1 ≡ 41)
unfolding program
two_keys = (refl, refl, refl, refl)

two_found : (find two 9 ≡ some 1) × (find two 4 ≡ none) × (find (erase two 3) 9 ≡ some 0)
unfolding program
two_found = (refl, refl, refl)

key_size-two : two.key_size ≡ 4
unfolding program
key_size-two = refl

fits_key : (m : PackedMap) (key : ℕ) → m.key_size ≡ 4 → key < 16 → key < 2 ^ m.key_size
fits_key m key e p = rw e p

fits_limit : (m : PackedMap) → m.key_size ≡ 4 → 2 ^ m.key_size ≤ 16
fits_limit m e = rw e (omega arith)

one-Changes : Changes 16 empty 9 (some (41 % 2 ^ empty.value_size)) (add empty 9 41)
one-Changes =
    add-Changes 9 41 empty-IsValid (fits_key empty 9 key_size-empty (omega arith))
      (fits_limit empty key_size-empty)

two-IsValid : IsValid 16 two
two-IsValid =
    let one = add empty 9 41 in
    let size_one : one.key_size ≡ 4 = unfold program in refl in
    (add-Changes 3 17 one-Changes.valid (fits_key one 3 size_one (omega arith))
      (fits_limit one size_one)).valid

add-Changes_example : Changes 16 two 5 (some (63 % 2 ^ two.value_size)) (add two 5 63)
add-Changes_example =
    add-Changes 5 63 two-IsValid (fits_key two 5 key_size-two (omega arith))
      (fits_limit two key_size-two)

erase-Changes_example : Changes 16 two 9 none (erase two 9)
erase-Changes_example = erase-Changes 9 two-IsValid
