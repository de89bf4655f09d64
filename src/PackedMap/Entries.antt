-- ===== src/PackedMap/Entries.antt =====
-- The representation invariant of a packed map, and its entries as pairs of a key and a value.
use native.Mathlib.Nat.{mod-lt, one-le-pow, mod-eq_of_lt, mul-le-mul, le_of_lt}
use hyperlogloglog.Base.{
  ℕ, ◌+◌, ◌-◌, ◌/◌, ◌%◌, ◌^◌, ◌≤◌, ◌<◌, ◌≡◌, refl, ◌∙◌, arith, bit_and, low_ones, shl, ltb, ◌==◌,
  if◌then◌else◌, test_bit,
}
use hyperlogloglog.Base.Bits.{
  test_bit_ext, lt_of_test_bit, test_bit-bit_and, test_bit-bit_or, test_bit-shr, test_bit-mod,
  test_bit-le,
}
use hyperlogloglog.Base.Words.{test_bit-shl, test_bit-low_ones, bit_and-low_ones}
use hyperlogloglog.PackedVector
use hyperlogloglog.PackedVector.{PackedVector}
use hyperlogloglog.PackedVector.Valid
use hyperlogloglog.PackedVector.Elements.{get-set_at, elem_size-set_at, size-set_at}
use hyperlogloglog.PackedMap.{PackedMap, new, size, at, key_at, pack_element, put}

-- What holds of a map that never has more than `limit` pairs, the order of its keys aside.
pub record IsPacked (limit : ℕ) (m : PackedMap) : Type 0 where
  pub vector : Valid.IsValid limit m.arr
  pub value_pos : 0 < m.value_size
  pub elem_size : m.arr.elem_size ≡ m.key_size + m.value_size
  pub key_mask : m.key_mask ≡ low_ones m.key_size
  pub value_mask : m.value_mask ≡ low_ones m.value_size
  pub int_range : limit ≤ 2 ^ 30

-- The keys ascend, so no key occurs twice.
abbrev pub IsSorted : PackedMap → Type 0
IsSorted m = (i j : ℕ) → i < j → j < size m → key_at m i < key_at m j

pub record IsValid (limit : ℕ) (m : PackedMap) : Type 0 where
  pub packed : IsPacked limit m
  pub sorted : IsSorted m

pub new-IsValid : (limit k v : ℕ) → 0 < v → k + v < 64 → limit ≤ 2 ^ 30 → IsValid limit (new k v)
unfolding new PackedVector.new
new-IsValid limit k v pos small le = record {
  packed = record {
    vector =
        Valid.new-IsValid limit (k + v) 0 (omega arith) small (omega arith)
          (omega (arith, mul-le-mul le (le_of_lt small)));
    value_pos = pos;
    elem_size = refl;
    key_mask = refl;
    value_mask = refl;
    int_range = le;
  };
  sorted = λ i j p q. absurd (omega arith);
}

-- The value and the key of a packed pair.
module _ {limit : ℕ} {m : PackedMap} (packed : IsPacked limit m) (key value : ℕ) where
  key_small : m.key_size < 64
  key_small = omega (arith, packed.vector.elem_small, packed.elem_size)

  value_small : m.value_size < 64
  value_small = omega (arith, packed.vector.elem_small, packed.elem_size)

  test_bit-pack_element :
      (i : ℕ)
      → test_bit (pack_element m key value) i ≡ (
          if ltb i m.value_size
          then test_bit value i
          else if ltb i (m.key_size + m.value_size)
          then test_bit key (i - m.value_size)
          else 0)
  unfolding pack_element
  test_bit-pack_element i =
      rw (packed.key_mask, packed.value_mask)
        (ground (
          arith,
          packed.vector.elem_small,
          packed.elem_size,
          test_bit-bit_or (shl (bit_and key (low_ones m.key_size)) m.value_size)
              (bit_and value (low_ones m.value_size)) i,
          test_bit-shl (bit_and key (low_ones m.key_size)) m.value_size i,
          test_bit-bit_and key (low_ones m.key_size) (i - m.value_size),
          test_bit-low_ones m.key_size (i - m.value_size) key_small,
          test_bit-bit_and value (low_ones m.value_size) i,
          test_bit-low_ones m.value_size i value_small,
          test_bit-le value i,
          test_bit-le key (i - m.value_size),
        ))

  pub pack_element-lt : pack_element m key value < 2 ^ m.arr.elem_size
  pack_element-lt =
      lt_of_test_bit _ _ λ i p. ground (arith, test_bit-pack_element i, packed.elem_size)

  pub key-pack_element : pack_element m key value / 2 ^ m.value_size ≡ key % 2 ^ m.key_size
  key-pack_element = test_bit_ext _ _ λ i. ground (
    arith,
    test_bit-shr (pack_element m key value) m.value_size i,
    test_bit-pack_element (i + m.value_size),
    test_bit-mod key m.key_size i,
  )

  pub value-pack_element : pack_element m key value % 2 ^ m.value_size ≡ value % 2 ^ m.value_size
  value-pack_element = test_bit_ext _ _ λ i. ground (
    arith,
    test_bit-mod (pack_element m key value) m.value_size i,
    test_bit-pack_element i,
    test_bit-mod value m.value_size i,
  )

-- Value and key of the pair at an index, from the packed element.
pub key_at-get : (m : PackedMap) (i : ℕ) → key_at m i ≡ PackedVector.get m.arr i / 2 ^ m.value_size
unfolding key_at
key_at-get m i = refl

pub at-get :
    {limit : ℕ} {m : PackedMap} (i : ℕ)
    → IsPacked limit m
    → at m i ≡ PackedVector.get m.arr i % 2 ^ m.value_size
unfolding at
at-get {m = m} i packed = rw packed.value_mask (
    bit_and-low_ones (PackedVector.get m.arr i) m.value_size
      (omega (arith, packed.vector.elem_small, packed.elem_size)))

-- A value fits its width.
pub at-lt : {limit : ℕ} {m : PackedMap} (i : ℕ) → IsPacked limit m → at m i < 2 ^ m.value_size
at-lt {m = m} i packed = rw (at-get i packed) (mod-lt _ (one-le-pow m.value_size 2 (omega arith)))

-- `m'` has the widths of `m`, and is packed as well.
pub record SameWidths (limit : ℕ) (m m' : PackedMap) : Type 0 where
  pub packed : IsPacked limit m'
  pub key_size : m'.key_size ≡ m.key_size
  pub value_size : m'.value_size ≡ m.value_size

pub replace-SameWidths :
    {limit : ℕ} {m : PackedMap} (arr : PackedVector)
    → IsPacked limit m
    → Valid.IsValid limit arr
    → arr.elem_size ≡ m.arr.elem_size
    → SameWidths limit m (record m { arr = arr })
replace-SameWidths arr packed valid e = record {
  packed = record {
    vector = valid;
    value_pos = packed.value_pos;
    elem_size = e ∙ packed.elem_size;
    key_mask = packed.key_mask;
    value_mask = packed.value_mask;
    int_range = packed.int_range;
  };
  key_size = refl;
  value_size = refl;
}

-- A write at an index of the vector.
module _ {limit : ℕ} {m : PackedMap} (packed : IsPacked limit m) (i kv : ℕ) (h : i < size m) where
  pub put-SameWidths : SameWidths limit m (put m i kv)
  unfolding put
  put-SameWidths =
      replace-SameWidths _ packed (Valid.set_at-IsValid i kv packed.vector h)
        (elem_size-set_at m.arr i kv)

  pub get-put :
      (j : ℕ)
      → j < size m
      → kv < 2 ^ m.arr.elem_size
      → PackedVector.get (put m i kv).arr j ≡ (if i == j then kv else PackedVector.get m.arr j)
  unfolding put
  get-put j hj fits = ground (arith, get-set_at i j kv packed.vector h hj, mod-eq_of_lt fits)

pub size-put : (m : PackedMap) (i kv : ℕ) → size (put m i kv) ≡ size m
unfolding put
size-put m i kv = size-set_at m.arr i kv

pub elem_size-put : (m : PackedMap) (i kv : ℕ) → (put m i kv).arr.elem_size ≡ m.arr.elem_size
unfolding put
elem_size-put m i kv = elem_size-set_at m.arr i kv

pub SameWidths-trans :
    {limit : ℕ} {u v w : PackedMap}
    → SameWidths limit u v
    → SameWidths limit v w
    → SameWidths limit u w
SameWidths-trans s t = record {
  packed = t.packed;
  key_size = t.key_size ∙ s.key_size;
  value_size = t.value_size ∙ s.value_size;
}
