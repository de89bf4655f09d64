-- ===== src/PackedVector/Shifts.antt =====
-- `erase`: the loop that moves elements down by one place.
use native.Mathlib.Nat.{mod-eq_of_lt, mul-le-mul_left, mul-le-mul_right}
use hyperlogloglog.Base.{
  ℕ, zero, suc, ◌+◌, ◌-◌, ◌*◌, ◌^◌, ◌≤◌, ◌<◌, ◌≡◌, refl, ◌∙◌, arith, wrap, ltb, leb, ◌==◌, ◌&&◌,
  if◌then◌else◌,
}
use hyperlogloglog.PackedVector.{PackedVector, get, set_at, shift_left, erase}
use hyperlogloglog.PackedVector.Valid.{IsValid, set_at-IsValid}
use hyperlogloglog.PackedVector.Elements.{elem_size-set_at, size-set_at, get-lt, get-set_at}

-- `v'` is valid and has as many elements of the same size as `v`.
pub record SameShape (limit : ℕ) (v v' : PackedVector) : Type 0 where
  pub valid : IsValid limit v'
  pub size : v'.size ≡ v.size
  pub elem_size : v'.elem_size ≡ v.elem_size

pub set_at-SameShape :
    {limit : ℕ} {v : PackedVector} (i x : ℕ)
    → IsValid limit v
    → i < v.size
    → SameShape limit v (set_at v i x)
set_at-SameShape {v = v} i x valid h = record {
  valid = set_at-IsValid i x valid h;
  size = size-set_at v i x;
  elem_size = elem_size-set_at v i x;
}

pub SameShape-trans :
    {limit : ℕ} {u v w : PackedVector}
    → SameShape limit u v
    → SameShape limit v w
    → SameShape limit u w
SameShape-trans s t = record {
  valid = t.valid;
  size = t.size ∙ s.size;
  elem_size = t.elem_size ∙ s.elem_size;
}

-- Copying element `j` to place `i` is exact.
pub get-set_at-get :
    {limit : ℕ} {v : PackedVector} (i j k : ℕ)
    → IsValid limit v
    → i < v.size
    → j < v.size
    → k < v.size
    → get (set_at v i (get v j)) k ≡ (if i == k then get v j else get v k)
get-set_at-get {v = v} i j k valid hi hj hk =
    ground (arith, get-set_at i k (get v j) valid hi hk, mod-eq_of_lt (get-lt j valid hj))

shift_left-more :
    (rounds j : ℕ) (v : PackedVector)
    → shift_left (suc rounds) j v ≡ shift_left rounds (j + 1) (set_at v (j - 1) (get v j))
unfolding shift_left
shift_left-more rounds j v = refl

shift_left-done : (j : ℕ) (v : PackedVector) → shift_left zero j v ≡ v
unfolding shift_left
shift_left-done j v = refl

shift_left-SameShape :
    {limit : ℕ} (rounds j : ℕ) {v : PackedVector}
    → IsValid limit v
    → j + rounds ≤ v.size
    → SameShape limit v (shift_left rounds j v)
shift_left-SameShape zero j {v} valid h =
    rw (shift_left-done j v) (record { valid = valid; size = refl; elem_size = refl })
shift_left-SameShape (suc rounds) j {v} valid h =
    let step = set_at-SameShape (j - 1) (get v j) valid (omega arith) in
    rw (shift_left-more rounds j v) (
      SameShape-trans step
        (shift_left-SameShape rounds (j + 1) step.valid (rw step.size (omega arith))))

-- The loop of `erase` moves the elements from `j` on down by one place.
get-shift_left :
    {limit : ℕ} (rounds j k : ℕ) {v : PackedVector}
    → IsValid limit v
    → 0 < j
    → j + rounds ≤ v.size
    → k < v.size
    → get (shift_left rounds j v) k
      ≡ (if leb j (k + 1) && ltb (k + 1) (j + rounds) then get v (k + 1) else get v k)
get-shift_left zero j k {v} valid pos h hk = rw (shift_left-done j v) (ground arith)
get-shift_left (suc rounds) j k {v} valid pos h hk = rw (shift_left-more rounds j v) (
    ground (
      arith,
      get-shift_left rounds (j + 1) k (set_at-IsValid (j - 1) (get v j) valid (omega arith)),
      size-set_at v (j - 1) (get v j),
      get-set_at-get (j - 1) j (k + 1) valid,
      get-set_at-get (j - 1) j k valid,
    ))

module _ {limit : ℕ} {v : PackedVector} (i : ℕ) (valid : IsValid limit v) (h : i < v.size) where
  moved : SameShape limit v (shift_left (v.size - (i + 1)) (i + 1) v)
  moved = shift_left-SameShape (v.size - (i + 1)) (i + 1) valid (omega arith)

  shorter : wrap (v.size + (2 ^ 64 - 1)) ≡ v.size - 1
  shorter = omega (arith, mul-le-mul_left limit valid.elem_pos, valid.addressable, valid.within)

  pub size-erase : (erase v i).size ≡ v.size - 1
  unfolding erase
  size-erase = rw moved.size shorter

  pub elem_size-erase : (erase v i).elem_size ≡ v.elem_size
  unfolding erase
  elem_size-erase = moved.elem_size

  -- `erase` at an index below the size of a valid vector gives a valid vector.
  pub erase-IsValid : IsValid limit (erase v i)
  unfolding erase
  erase-IsValid =
      let w = shift_left (v.size - (i + 1)) (i + 1) v in
      let less : wrap (w.size + (2 ^ 64 - 1)) ≡ w.size - 1 = rw moved.size shorter in
      record {
        elem_pos = moved.valid.elem_pos;
        elem_small = moved.valid.elem_small;
        mask = moved.valid.mask;
        addressable = moved.valid.addressable;
        within = omega (arith, less, moved.valid.within);
        fits = rw less (omega (arith, moved.valid.fits, fewer w.size w.elem_size));
        tight = moved.valid.tight;
        cells = moved.valid.cells;
        words = moved.valid.words;
        null = moved.valid.null;
      }
    where
      fewer : (n e : ℕ) → (n - 1) * e ≤ n * e
      fewer n e = mul-le-mul_right e (omega arith)

  -- In a valid vector, `erase` at an index below the size drops that element and moves those
  -- behind it down by one place.
  pub get-erase :
      (k : ℕ) → k < v.size - 1 → get (erase v i) k ≡ (if ltb k i then get v k else get v (k + 1))
  get-erase k hk = get-cut k ∙ ground (arith, get-shift_left (v.size - (i + 1)) (i + 1) k valid)
    where
      get-cut : (k : ℕ) → get (erase v i) k ≡ get (shift_left (v.size - (i + 1)) (i + 1) v) k
      get-cut k = unfold erase get in refl
