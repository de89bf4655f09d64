-- ===== src/PackedVector/Elements.antt =====
-- What `get` reads after `set` and `append`, element by element.
use hyperlogloglog.Base.{
  ℕ, ◌+◌, ◌-◌, ◌*◌, ◌/◌, ◌%◌, ◌^◌, ◌≤◌, ◌<◌, ◌≡◌, refl, ap, ◌∙◌, arith, true, false, [], ◌∷◌, wrap,
  ltb, leb, ◌==◌, ◌&&◌, if◌then◌else◌, length, get_or-append_left, get_or-replicate, test_bit,
}
use hyperlogloglog.Base.Bits.{test_bit-zero, test_bit_ext, test_bit-mod, lt_of_test_bit}
use hyperlogloglog.PackedVector.{PackedVector, get, set_at, grow, append, append_asserts, copy, new}
use hyperlogloglog.PackedVector.Fields.{bit_at, test_bit-read_field, bit_at-write_field}
use hyperlogloglog.PackedVector.Valid.{
  IsValid, slot-le, first_bit_lem, arr-set_at, set_at-IsValid, size-grow, grow-IsValid,
}

pub elem_size-set_at : (v : PackedVector) (i x : ℕ) → (set_at v i x).elem_size ≡ v.elem_size
unfolding set_at
elem_size-set_at v i x = refl

pub size-set_at : (v : PackedVector) (i x : ℕ) → (set_at v i x).size ≡ v.size
unfolding set_at
size-set_at v i x = refl

-- Bit `k` of element `i` is bit `i * e + k` of the array.
test_bit-get :
    {limit : ℕ} {v : PackedVector} (i k : ℕ)
    → IsValid limit v
    → i < v.size
    → test_bit (get v i) k ≡ (if ltb k v.elem_size then bit_at v.arr (i * v.elem_size + k) else 0)
unfolding get
test_bit-get {v = v} i k valid h =
    rw (valid.mask, (first_bit_lem i valid h).0)
      (test_bit-read_field v.arr v.elem_size (i * v.elem_size) k valid.elem_small valid.words)

-- An element is below `2 ^ elem_size`.
pub get-lt :
    {limit : ℕ} {v : PackedVector} (i : ℕ)
    → IsValid limit v
    → i < v.size
    → get v i < 2 ^ v.elem_size
get-lt {v = v} i valid h =
    lt_of_test_bit v.elem_size (get v i) (λ k p. ground (arith, test_bit-get i k valid h))

-- Distinct elements have no bit in common.
slots_apart :
    (i j e k : ℕ) → k < e → (leb (i * e) (j * e + k) && ltb (j * e + k) (i * e + e)) ≡ (i == j)
slots_apart i j e k h = ground (arith, slot-le i j e, slot-le j i e, ap (λ (t : ℕ). t * e))

-- A `set` of element `i` changes bit `k` of that element and of no other.
bit_at-set_at :
    {limit : ℕ} {v : PackedVector} (i j x k : ℕ)
    → IsValid limit v
    → i < v.size
    → k < v.elem_size
    → bit_at (set_at v i x).arr (j * v.elem_size + k)
      ≡ (if i == j then test_bit x k else bit_at v.arr (j * v.elem_size + k))
bit_at-set_at {v = v} i j x k valid h hk =
    let e = v.elem_size in
    rw (arr-set_at i x valid h) (
      bit_at-write_field v.arr e (i * e) x (j * e + k) valid.elem_small (first_bit_lem i valid h).1
        valid.elem_pos
      ∙ rw (slots_apart i j e k hk) (ground (arith, in_slot)))
  where
    in_slot : i ≡ j → test_bit x (j * v.elem_size + k - i * v.elem_size) ≡ test_bit x k
    in_slot same = ap (test_bit x) (omega (arith, ap (λ (t : ℕ). t * v.elem_size) same))

-- In a valid vector, a `get` after a `set`, both below the size, reads the written element cut
-- to the size of an element, or at another index what was there.
pub get-set_at :
    {limit : ℕ} {v : PackedVector} (i j x : ℕ)
    → IsValid limit v
    → i < v.size
    → j < v.size
    → get (set_at v i x) j ≡ (if i == j then x % 2 ^ v.elem_size else get v j)
unfolding set_at
get-set_at {v = v} i j x valid hi hj = test_bit_ext _ _ λ k. ground (
  arith,
  test_bit-get j k (set_at-IsValid i x valid hi) hj,
  elem_size-set_at v i x,
  bit_at-set_at i j x k valid hi,
  test_bit-get j k valid hj,
  test_bit-mod x v.elem_size k,
)

pub elem_size-grow : (v : PackedVector) → (grow v).elem_size ≡ v.elem_size
unfolding grow
elem_size-grow v = ground arith

-- The words that were there are still there.
arr-grow :
    {limit : ℕ} {v : PackedVector} (p : ℕ)
    → IsValid limit v
    → p < 64 * length v.arr
    → bit_at (grow v).arr p ≡ bit_at v.arr p
unfolding grow
arr-grow {v = v} p valid h =
    ground (arith, valid.cells, get_or-append_left v.arr (0 ∷ []) (p / 64) 0 (omega arith))

get-grow :
    {limit : ℕ} {v : PackedVector} (j : ℕ)
    → IsValid limit v
    → v.size < limit
    → j < v.size
    → get (grow v) j ≡ get v j
get-grow {v = v} j valid room h = test_bit_ext _ _ λ k. ground (
  arith,
  test_bit-get j k (grow-IsValid valid room) (rw (size-grow valid room) (omega arith)),
  elem_size-grow v,
  arr-grow (j * v.elem_size + k) valid,
  (first_bit_lem j valid h).1,
  test_bit-get j k valid h,
)

module _ {limit : ℕ} {v : PackedVector} (valid : IsValid limit v) (room : v.size < limit) where
  in_grown : (j : ℕ) → j ≤ v.size → j < (grow v).size
  in_grown j h = omega (arith, size-grow valid room)

  -- `append` to a valid vector below its limit gives a valid vector.
  pub append-IsValid : (x : ℕ) → IsValid limit (append v x)
  unfolding append
  append-IsValid x =
      set_at-IsValid v.size x (grow-IsValid valid room) (in_grown v.size (omega arith))

  pub size-append : (x : ℕ) → (append v x).size ≡ v.size + 1
  unfolding append
  size-append x = size-set_at (grow v) v.size x ∙ size-grow valid room

  -- In a valid vector below its limit, a `get` after `append` reads the appended element, cut
  -- to the size of an element, behind the others, and the others as they were.
  pub get-append :
      (j x : ℕ)
      → j ≤ v.size
      → get (append v x) j ≡ (if v.size == j then x % 2 ^ v.elem_size else get v j)
  unfolding append
  get-append j x h = ground (
    arith,
    get-set_at v.size j x (grow-IsValid valid room) (in_grown v.size (omega arith)) (in_grown j h),
    elem_size-grow v,
    get-grow j valid room,
  )

pub elem_size-append : (v : PackedVector) (x : ℕ) → (append v x).elem_size ≡ v.elem_size
unfolding append
elem_size-append v x = elem_size-set_at (grow v) v.size x ∙ elem_size-grow v

-- Every element of a new vector is 0.
pub get-new : (limit e n i : ℕ) → IsValid limit (new e n) → i < n → get (new e n) i ≡ 0
unfolding new
get-new limit e n i valid h = test_bit_ext _ _ λ k. ground (
  arith,
  test_bit-get {v = new e n} i k valid h,
  get_or-replicate {A = ℕ} (wrap (n * e + 63) / 64) ((i * e + k) / 64) 0,
  test_bit-zero k,
  test_bit-zero ((i * e + k) % 64),
)

-- The assertion of `append` holds in a valid vector.
pub append_asserts-IsValid :
    {limit : ℕ} {v : PackedVector} → IsValid limit v → append_asserts v ≡ true
unfolding append_asserts
append_asserts-IsValid valid = ground (arith, valid.null)

-- The assertion of `append` fails on the copy of a vector without elements, whatever their
-- size.
append_asserts-copy : (e : ℕ) → append_asserts (copy (new e 0)) ≡ false
unfolding append_asserts copy new
append_asserts-copy e = ground arith
