-- ===== src/Tests/Vectors.antt =====
-- hyperlogloglog/PackedVector.hpp on small vectors.
use hyperlogloglog.Base.{◌^◌, ℕ, ◌<◌, ◌≡◌, refl, arith, [], ◌∷◌, low_ones}
use hyperlogloglog.PackedVector.{
  PackedVector, new, copy, get, set_at, read_field, write_field, append, append_asserts, grow,
  insert, int_place, word_at, shift_right, erase, shift_left,
}
use hyperlogloglog.PackedVector.Valid as Valid
use hyperlogloglog.PackedVector.Valid.{IsValid}
use hyperlogloglog.PackedVector.Reference.{
  elements, insert_at, erase_at, created, stored, appended, inserted, erased, Edits_refines,
}

program : Unit {0}
unfolding low_ones new copy get set_at read_field write_field append append_asserts grow insert
    int_place word_at shift_right erase shift_left
program = tt

-- 12 elements of 6 bits; element 10 crosses the word boundary.
abbrev twelve : PackedVector
twelve = set_at (new 6 12) 10 45

get-twelve : get twelve 10 ≡ 45
unfolding program
get-twelve = refl

size-twelve : twelve.size ≡ 12
unfolding program
size-twelve = refl

elem_size-twelve : twelve.elem_size ≡ 6
unfolding program
elem_size-twelve = refl

get-erase-insert : get (erase (insert twelve 3 7) 0) 2 ≡ 7
unfolding program
get-erase-insert = refl

twelve-IsValid : IsValid 20 twelve
twelve-IsValid =
    Valid.set_at-IsValid 10 45
      (Valid.new-IsValid 20 6 12 (omega arith) (omega arith) (omega arith) (omega arith))
      (unfold new in omega arith)

in_twelve : (i : ℕ) → i < 12 → i < twelve.size
in_twelve i p = omega (arith, size-twelve)

room-twelve : twelve.size < 20
room-twelve = omega (arith, size-twelve)

-- `twelve` after an append, an insertion before element 10 and an erasure of element 0.
abbrev edited : PackedVector
edited = erase (insert (append twelve 70) 10 9) 0

Edits_refines_example : elements edited ≡ 0 ∷ 0 ∷ 0 ∷ 0 ∷ 0 ∷ 0 ∷ 0 ∷ 0 ∷ 0 ∷ 9 ∷ 45 ∷ 0 ∷ 6 ∷ []
unfolding erase_at insert_at
Edits_refines_example = Edits_refines 20 6 (omega arith) (omega arith) (omega arith) (omega arith) (
    erased 0
      (inserted 10 9
        (appended 70 (stored 10 45 (created 12 (omega arith)) (omega arith)) (omega arith))
        (omega arith) (omega arith))
      (omega arith))

-- As many elements of a bit as there are `int`s from 0 on.
abbrev huge : PackedVector
huge = new 1 (2 ^ 31)
