-- ===== src/PackedVector/Valid.antt =====
-- The representation invariant of a packed vector that never holds more than `limit` elements,
-- and that every operation keeps it.
use native.Mathlib.Nat.{mul-le-mul_left, mul-le-mul_right}
use hyperlogloglog.Base.{
  ◌∙◌, ℕ, zero, suc, ◌+◌, ◌*◌, ◌/◌, ◌^◌, ◌≤◌, ◌<◌, ◌≡◌, refl, arith, List, [], ◌∷◌, ◌++◌, bit_and,
  low_ones, wrap, ◌==◌, length, length-replicate, get_or-replicate, length-append,
}
use hyperlogloglog.PackedVector.{PackedVector, new, set_at, write_field, grow}
use hyperlogloglog.PackedVector.Fields.{AreWords, length-write_field, write_field-AreWords}

pub record IsValid (limit : ℕ) (v : PackedVector) : Type 0 where
  pub elem_pos : 0 < v.elem_size
  pub elem_small : v.elem_size < 64
  pub mask : v.elem_mask ≡ low_ones v.elem_size
  pub addressable : limit * v.elem_size + 128 ≤ 2 ^ 64
  pub within : v.size ≤ limit
  pub fits : v.size * v.elem_size ≤ 64 * v.capacity
  pub tight : 64 * v.capacity ≤ limit * v.elem_size + 64
  pub cells : length v.arr ≡ v.capacity
  pub words : AreWords v.arr
  pub null : v.is_null ≡ (v.capacity == 0)

-- The bits of element `i` end where those of element `i + 1` begin.
pub slot-le : (i n e : ℕ) → i < n → i * e + e ≤ n * e
slot-le i n e h = omega (arith, mul-le-mul_right e h)

-- A bit address does not wrap, and the element lies inside the words.
pub first_bit_lem :
    {limit : ℕ} {v : PackedVector} (i : ℕ)
    → IsValid limit v
    → i < v.size
    → (wrap (i * v.elem_size) ≡ i * v.elem_size)
      × (i * v.elem_size + v.elem_size ≤ 64 * length v.arr)
first_bit_lem {limit} {v} i valid h =
    omega (arith, slot-le i v.size v.elem_size h, mul-le-mul_right v.elem_size valid.within)

pub new-IsValid :
    (limit e n : ℕ)
    → 0 < e
    → e < 64
    → n ≤ limit
    → limit * e + 128 ≤ 2 ^ 64
    → IsValid limit (new e n)
unfolding new
new-IsValid limit e n pos small le room =
    let bound : n * e ≤ limit * e = mul-le-mul_right e le in
    record {
      elem_pos = pos;
      elem_small = small;
      mask = refl;
      addressable = room;
      within = le;
      fits = omega arith;
      tight = omega arith;
      cells = length-replicate _ 0;
      words = λ q. omega (arith, get_or-replicate {A = ℕ} (wrap (n * e + 63) / 64) q 0);
      null = refl;
    }

-- What `set` leaves in the words.
pub arr-set_at :
    {limit : ℕ} {v : PackedVector} (i x : ℕ)
    → IsValid limit v
    → i < v.size
    → (set_at v i x).arr
      ≡ write_field v.arr v.elem_size
          (low_ones v.elem_size)
          (i * v.elem_size)
          (bit_and x (low_ones v.elem_size))
unfolding set_at
arr-set_at {limit} {v} i x valid h = rw (valid.mask, (first_bit_lem i valid h).0)

pub set_at-IsValid :
    {limit : ℕ} {v : PackedVector} (i x : ℕ)
    → IsValid limit v
    → i < v.size
    → IsValid limit (set_at v i x)
unfolding set_at
set_at-IsValid {limit} {v} i x valid h = record {
  elem_pos = valid.elem_pos;
  elem_small = valid.elem_small;
  mask = valid.mask;
  addressable = valid.addressable;
  within = valid.within;
  fits = valid.fits;
  tight = valid.tight;
  cells = length-write_field _ _ _ _ _ ∙ valid.cells;
  words = rw (arr-set_at i x valid h) (
      write_field-AreWords v.arr v.elem_size (i * v.elem_size) x (first_bit_lem i valid h).1
        valid.elem_pos valid.words);
  null = valid.null;
}

zero_word : 0 < 2 ^ 64
zero_word = omega arith

append_zero-AreWords : (arr : List ℕ) → AreWords arr → AreWords (arr ++ 0 ∷ [])
append_zero-AreWords [] words zero = omega arith
append_zero-AreWords [] words (suc q) = omega arith
append_zero-AreWords (w ∷ arr) words zero = words 0
append_zero-AreWords (w ∷ arr) words (suc q) = append_zero-AreWords arr (λ i. words (suc i)) q

module _ {limit : ℕ} {v : PackedVector} (valid : IsValid limit v) (h : v.size < limit) where
  size_fits : wrap (v.size + 1) ≡ v.size + 1
  size_fits = omega (arith, mul-le-mul_left limit valid.elem_pos, valid.addressable)

  room : (v.size + 1) * v.elem_size ≤ limit * v.elem_size
  room = mul-le-mul_right v.elem_size (omega arith)

  room_fits : wrap ((v.size + 1) * v.elem_size) ≡ (v.size + 1) * v.elem_size
  room_fits = omega (arith, room, valid.addressable)

  words_fit : wrap (64 * v.capacity) ≡ 64 * v.capacity
  words_fit = omega (arith, valid.tight, valid.addressable)

  pub size-grow : (grow v).size ≡ v.size + 1
  unfolding grow
  size-grow = ground (arith, size_fits)

  words-grow : AreWords (grow v).arr
  unfolding grow
  words-grow q = ground (
    arith,
    valid.words q,
    append_zero-AreWords v.arr valid.words q,
    append_zero-AreWords [] (λ (i : ℕ). zero_word) q,
  )

  -- One more element keeps the invariant, up to the limit.
  pub grow-IsValid : IsValid limit (grow v)
  unfolding grow
  grow-IsValid = record {
    elem_pos = ground (arith, valid.elem_pos);
    elem_small = ground (arith, valid.elem_small);
    mask = ground (arith, valid.mask);
    addressable = ground (arith, valid.addressable);
    within = ground (arith, size_fits);
    fits = ground (arith, size_fits, room, room_fits, words_fit, valid.fits, valid.elem_small);
    tight = ground (arith, size_fits, room, room_fits, words_fit, valid.tight);
    cells = ground (arith, valid.cells, length-append v.arr (0 ∷ []));
    words = words-grow;
    null = ground (arith, valid.null);
  }
