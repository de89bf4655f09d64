-- ===== src/PackedMap.antt =====
-- hyperlogloglog/PackedMap.hpp: a map from keys of `key_size` bits to values of `value_size`
-- bits, as a sorted packed vector of key-value pairs. The signed `int` variables of the code
-- are read so: the `r` of `find` is `hi - 1` here, so that -1 is `hi = 0`, and the negative
-- result of `find` is `none`. No `int` overflows up to 2 ^ 30 pairs, as `l + r` stays below
-- 2 ^ 31.
pub mod Entries
pub mod Find
pub mod Add
pub mod Lookup
pub mod Overwrite
pub mod Insert
pub mod Laws
use hyperlogloglog.Base.{
  ℕ, zero, suc, ◌+◌, ◌-◌, ◌/◌, Bool, true, false, Option, none, some, bit_and, bit_or, low_ones,
  shl, shr, ltb, if◌then◌else◌,
}
use hyperlogloglog.PackedVector
use hyperlogloglog.PackedVector.{PackedVector}

pub record PackedMap : Type 0 where
  pub key_size : ℕ
  pub value_size : ℕ
  pub elem_size : ℕ
  pub key_mask : ℕ
  pub value_mask : ℕ
  pub arr : PackedVector

unfoldable pub new : ℕ → ℕ → PackedMap
new k v = record {
  key_size = k;
  value_size = v;
  elem_size = k + v;
  key_mask = low_ones k;
  value_mask = low_ones v;
  arr = PackedVector.new (k + v) 0;
}

abbrev pub size : PackedMap → ℕ
size m = m.arr.size

unfoldable pub at : PackedMap → ℕ → ℕ
at m i = bit_and (PackedVector.get m.arr i) m.value_mask

unfoldable pub key_at : PackedMap → ℕ → ℕ
key_at m i = shr (PackedVector.get m.arr i) m.value_size

unfoldable pub bit_size : PackedMap → ℕ
bit_size m = PackedVector.bit_size m.arr

-- The loop of `find`; each round leaves a shorter range, so that `size + 1` rounds are enough.
unfoldable pub find_from : ℕ → PackedMap → ℕ → ℕ → ℕ → Option ℕ
find_from zero m key l hi = none
find_from (suc fuel) m key l hi =
    let mid = (l + (hi - 1)) / 2 in
    let k = key_at m mid in
    let right = find_from fuel m key (mid + 1) hi in
    let left = find_from fuel m key l mid in
    if ltb l hi then (if ltb k key then right else if ltb key k then left else some mid) else none

unfoldable pub find : PackedMap → ℕ → Option ℕ
unfolding find_from
find m key = find_from (suc (size m)) m key 0 (size m)

unfoldable pub pack_element : PackedMap → ℕ → ℕ → ℕ
pack_element m key value =
    bit_or (shl (bit_and key m.key_mask) m.value_size) (bit_and value m.value_mask)

-- `arr.set(i, kv)` on the map's vector.
unfoldable pub put : PackedMap → ℕ → ℕ → PackedMap
put m i kv = record m { arr = PackedVector.set_at m.arr i kv }

-- The loop of `add` that moves the greater keys up, from `i` down, and the write after it.
unfoldable pub sift : ℕ → ℕ → ℕ → PackedMap → PackedMap
unfolding put
sift key kv zero m = put m 0 kv
sift key kv (suc i) m = elim (ltb key (key_at m i)) [
  | true ↦ sift key kv i (put m (suc i) (PackedVector.get m.arr i))
  | false ↦ put m (suc i) kv
]

unfoldable pub add : PackedMap → ℕ → ℕ → PackedMap
unfolding put sift
add m key value =
    let kv = pack_element m key value in
    let m' = record m { arr = PackedVector.append m.arr kv } in
    elim (find m key) [ some i ↦ put m i kv | none ↦ sift key kv (size m' - 1) m' ]

unfoldable pub erase_at : PackedMap → ℕ → PackedMap
erase_at m i = record m { arr = PackedVector.erase m.arr i }

unfoldable pub erase : PackedMap → ℕ → PackedMap
unfolding erase_at
erase m key = elim (find m key) [ some i ↦ erase_at m i | none ↦ m ]
