-- ===== src/PackedMap/Overwrite.antt =====
-- `add` of a key that is there: its pair is overwritten.
use native.Mathlib.Nat.{mod-eq_of_lt}
use hyperlogloglog.Base.{
  ℕ, ◌/◌, ◌%◌, ◌^◌, ◌<◌, ◌≡◌, sym, ◌∙◌, arith, Option, some, ◌==◌, if◌then◌else◌,
}
use hyperlogloglog.PackedMap.{PackedMap, size, at, key_at, put, pack_element}
use hyperlogloglog.PackedMap.Entries.{
  IsSorted, IsValid, SameWidths, put-SameWidths, get-put, size-put, key_at-get, at-get,
  pack_element-lt, key-pack_element, value-pack_element,
}
use hyperlogloglog.PackedMap.Lookup.{
  lookup, lookup-key_at, lookup-absent, present, missing, Lookup-cases,
}

-- What `m'` is to `m` after a change of one key: valid, of the same widths, and with `value` at
-- `key`.
pub record Changes (limit : ℕ) (m : PackedMap) (key : ℕ) (value : Option ℕ) (m' : PackedMap)
    : Type 0 where
  pub valid : IsValid limit m'
  pub key_size : m'.key_size ≡ m.key_size
  pub value_size : m'.value_size ≡ m.value_size
  pub reads : (q : ℕ) → lookup m' q ≡ (if key == q then value else lookup m q)

module _ {limit : ℕ} {m : PackedMap} (valid : IsValid limit m) (key value : ℕ)
    (key_fits : key < 2 ^ m.key_size) where
  abbrev pub kv : ℕ
  kv = pack_element m key value

  pub kv_key : kv / 2 ^ m.value_size ≡ key
  kv_key = key-pack_element valid.packed key value ∙ mod-eq_of_lt key_fits

  pub kv_lt : kv < 2 ^ m.arr.elem_size
  kv_lt = pack_element-lt valid.packed key value

  module _ (i : ℕ) (h : i < size m) (found : key_at m i ≡ key) where
    same : SameWidths limit m (put m i kv)
    same = put-SameWidths valid.packed i kv h

    key_at-put : (j : ℕ) → j < size m → key_at (put m i kv) j ≡ key_at m j
    key_at-put j hj = ground (
      arith,
      key_at-get (put m i kv) j,
      same.value_size,
      get-put valid.packed i kv h j hj kv_lt,
      kv_key,
      key_at-get m j,
    )

    at-put :
        (j : ℕ)
        → j < size m
        → at (put m i kv) j ≡ (if i == j then value % 2 ^ m.value_size else at m j)
    at-put j hj = ground (
      arith,
      at-get j same.packed,
      same.value_size,
      get-put valid.packed i kv h j hj kv_lt,
      value-pack_element valid.packed key value,
      at-get j valid.packed,
    )

    put-IsSorted : IsSorted (put m i kv)
    put-IsSorted a b p q =
        ground (arith, size-put m i kv, key_at-put a, key_at-put b, valid.sorted a b)

    put-reads :
        (q : ℕ)
        → lookup (put m i kv) q ≡ (if key == q then some (value % 2 ^ m.value_size) else lookup m q)
    put-reads q = elim (Lookup-cases m q valid.sorted) [
      | present j hj e _ r ↦ ground (
        arith,
        lookup-key_at (put m i kv) q j put-IsSorted,
        size-put m i kv,
        key_at-put j hj,
        at-put j hj,
        valid.sorted i j,
        valid.sorted j i,
      )
      | missing absent _ r ↦ ground (
        arith,
        lookup-absent (put m i kv) q put-IsSorted
            (λ (j : ℕ) (hj : j < size (put m i kv)) (e : key_at (put m i kv) j ≡ q).
              absent j (rw (size-put m i kv) at hj)
                (sym (key_at-put j (rw (size-put m i kv) at hj)) ∙ e)),
        absent i h,
      )
    ]

    pub put-Changes : Changes limit m key (some (value % 2 ^ m.value_size)) (put m i kv)
    put-Changes = record {
      valid = record { packed = same.packed; sorted = put-IsSorted };
      key_size = same.key_size;
      value_size = same.value_size;
      reads = put-reads;
    }
