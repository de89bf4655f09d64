-- ===== src/PackedVector.antt =====
-- hyperlogloglog/PackedVector.hpp: a vector of `elem_size`-bit elements packed into 64-bit words,
-- where an element may cross a word boundary. `arr` holds the words; out of range it reads 0 and
-- is not written, which the bounds of `PackedVector.Valid` rule out. `is_null` says that the
-- pointer is `nullptr`. `insert` casts sizes and indices to `int`, which keeps those below 2 ^ 31.
pub mod Fields
pub mod Valid
pub mod Elements
pub mod Shifts
pub mod Insert
pub mod Casts
pub mod Assign
pub mod Reference
use hyperlogloglog.Base.{
  ℕ, zero, suc, ◌+◌, ◌-◌, ◌*◌, ◌/◌, ◌%◌, ◌^◌, Bool, true, false, List, [], ◌∷◌, ◌++◌, bit_and,
  bit_or, low_ones, word_bits, wrap, shl, shr, complement, ltb, leb, ◌==◌, if◌then◌else◌, length,
  get_or, set, replicate,
}

pub record PackedVector : Type 0 where
  pub elem_size : ℕ
  pub elem_mask : ℕ
  pub size : ℕ
  pub arr : List ℕ
  pub capacity : ℕ
  pub is_null : Bool

-- `PackedVector(elemSize, initialSize)`.
unfoldable pub new : ℕ → ℕ → PackedVector
new e n =
    let words = wrap (n * e + (word_bits - 1)) / word_bits in
    record {
      elem_size = e;
      elem_mask = low_ones e;
      size = n;
      arr = replicate words 0;
      capacity = words;
      is_null = words == 0;
    }

-- The copy constructor: it allocates also when there is no word to copy.
unfoldable pub copy : PackedVector → PackedVector
copy v = record v { is_null = false }

-- `swap`, by which the moves are written.
unfoldable pub swap : PackedVector → PackedVector → PackedVector × PackedVector
swap a b = (b, a)

unfoldable pub bit_size : PackedVector → ℕ
bit_size v = wrap (v.size * v.elem_size)

-- The method `capacity()`, its assertion aside: elements that fit without a new allocation.
unfoldable pub element_capacity : PackedVector → ℕ
element_capacity v = if ltb 0 v.capacity then wrap (v.capacity * word_bits) / v.elem_size else 0

-- `get` from its bit address on: the element of `e` bits at bit `first` of the words.
unfoldable pub read_field : List ℕ → ℕ → ℕ → ℕ → ℕ
read_field arr e mask first =
    let w = first / word_bits in
    let first_bit = first % word_bits in
    let num_bits = word_bits - first_bit in
    if leb (first_bit + e) word_bits
    then bit_and (shr (get_or arr w 0) first_bit) mask
    else bit_or (shr (get_or arr w 0) first_bit)
        (bit_and (shl (get_or arr (w + 1) 0) num_bits) mask)

unfoldable pub get : PackedVector → ℕ → ℕ
unfolding read_field
get v i = read_field v.arr v.elem_size v.elem_mask (wrap (i * v.elem_size))

-- What `*w &= ~hole; *w |= bits` leaves in `*w`.
abbrev pub patch : ℕ → ℕ → ℕ → ℕ
patch w hole bits = bit_or (bit_and w (complement hole)) bits

-- `set` from its bit address on, with the element already masked.
unfoldable pub write_field : List ℕ → ℕ → ℕ → ℕ → ℕ → List ℕ
write_field arr e mask first x =
    let w = first / word_bits in
    let first_bit = first % word_bits in
    let num_bits = word_bits - first_bit in
    let arr' = set arr w (patch (get_or arr w 0) (shl mask first_bit) (shl x first_bit)) in
    if leb (first_bit + e) word_bits
    then arr'
    else set arr' (w + 1) (patch (get_or arr' (w + 1) 0) (shr mask num_bits) (shr x num_bits))

unfoldable pub set_at : PackedVector → ℕ → ℕ → PackedVector
unfolding write_field
set_at v i x = record v {
  arr = write_field v.arr v.elem_size v.elem_mask (wrap (i * v.elem_size)) (bit_and x v.elem_mask);
}

-- Whether the assertion of `append` holds: without words, the pointer must be null.
unfoldable pub append_asserts : PackedVector → Bool
append_asserts v = if v.capacity == 0 then v.is_null else true

-- `append` up to its call of `set`: one more element, and one more word where it would not fit.
unfoldable pub grow : PackedVector → PackedVector
grow v =
    let size' = wrap (v.size + 1) in
    if v.capacity == 0
    then record v { size = size'; arr = 0 ∷ []; capacity = 1; is_null = false }
    else if ltb (wrap (word_bits * v.capacity)) (wrap (size' * v.elem_size))
    then record v { size = size'; arr = v.arr ++ 0 ∷ []; capacity = v.capacity + 1 }
    else record v { size = size' }

unfoldable pub append : PackedVector → ℕ → PackedVector
unfolding grow
append v x = set_at (grow v) v.size x

-- A number cast to `int`, as its place among the `int`s in their order; and back to `size_t`.
unfoldable pub int_place : ℕ → ℕ
int_place x = (x + 2 ^ 31) % 2 ^ 32

unfoldable pub word_at : ℕ → ℕ
word_at p = wrap (p + (2 ^ 64 - 2 ^ 31))

-- The loop of `insert` from the `int` below the given place, down to that at `low`.
unfoldable pub shift_right : ℕ → ℕ → PackedVector → PackedVector
unfolding word_at
shift_right low zero v = v
shift_right low (suc j) v = elim (leb low j) [
  | true ↦ shift_right low j (set_at v (word_at (j + 1)) (get v (word_at j)))
  | false ↦ v
]

unfoldable pub insert : PackedVector → ℕ → ℕ → PackedVector
unfolding int_place shift_right
insert v i x =
    let v' = append v 0 in set_at (shift_right (int_place i) (int_place v'.size - 1) v') i x

-- The loop of `erase` at `j`, with the rounds that are left.
unfoldable pub shift_left : ℕ → ℕ → PackedVector → PackedVector
shift_left zero j v = v
shift_left (suc rounds) j v = shift_left rounds (j + 1) (set_at v (j - 1) (get v j))

unfoldable pub erase : PackedVector → ℕ → PackedVector
unfolding shift_left
erase v i =
    let v' = shift_left (v.size - (i + 1)) (i + 1) v in
    record v' { size = wrap (v'.size + (2 ^ 64 - 1)) }
