-- ===== src/HyperLogLogLog/Shape.antt =====
-- The shape of a sketch's state, and the storing of one register.
use native.Mathlib.Nat.{mod-eq_of_lt}
use hyperlogloglog.Base.{
  ℕ, ◌+◌, ◌-◌, ◌%◌, ◌^◌, ◌≤◌, ◌<◌, ◌≡◌, ◌≢◌, refl, ap, ◌∙◌, arith, Bool, true, false, Option, none,
  some, ◌==◌, ltb, ◌||◌, if◌then◌else◌, Bool-cases, inl, inr,
}
use hyperlogloglog.PackedVector
use hyperlogloglog.PackedVector.{PackedVector}
use hyperlogloglog.PackedVector.Valid
use hyperlogloglog.PackedVector.Elements.{get-set_at, size-set_at, elem_size-set_at}
use hyperlogloglog.PackedMap
use hyperlogloglog.PackedMap.{PackedMap}
use hyperlogloglog.PackedMap.Entries
use hyperlogloglog.PackedMap.Lookup.{lookup, present, missing, Lookup-cases}
use hyperlogloglog.PackedMap.Overwrite.{Changes}
use hyperlogloglog.PackedMap.Laws.{add-Changes, erase-Changes}
use hyperlogloglog.HyperLogLogLog.State.{HyperLogLogLog}
use hyperlogloglog.HyperLogLogLog.Registers.{value_at, is_dense, place}

pub record HasShape (h : HyperLogLogLog) : Type 0 where
  pub power : h.m ≡ 2 ^ h.log_m
  pub small : h.m ≤ 2 ^ 30
  pub vector : Valid.IsValid h.m h.offsets
  pub count : h.offsets.size ≡ h.m
  pub width : h.offsets.elem_size ≡ h.m_bits
  pub map : Entries.IsValid h.m h.sparse
  pub key_size : h.sparse.key_size ≡ h.log_m
  pub value_size : h.sparse.value_size ≡ 6
  pub s_bits : h.s_bits ≡ 6
  pub offset : h.max_offset + 1 ≡ 2 ^ h.m_bits

-- The value that a lookup gives, or the one in the other store.
abbrev pub value_or : Option ℕ → ℕ → ℕ
value_or none d = d
value_or (some v) d = v

-- Whether a lookup finds a value.
abbrev pub is_some : Option ℕ → Bool
is_some none = false
is_some (some v) = true

-- Whether `r` is no offset from `base`.
abbrev pub is_exception : ℕ → ℕ → ℕ → Bool
is_exception max_offset base r = ltb r base || ltb (base + max_offset) r

pub value_at-lookup :
    (h : HyperLogLogLog) (b j : ℕ)
    → HasShape h
    → value_at h b j ≡ value_or (lookup h.sparse j) (PackedVector.get h.offsets j + b)
unfolding value_at
value_at-lookup h b j shape = elim (Lookup-cases h.sparse j shape.map.sorted) [
  | present i p e found r ↦ rw (found, r, value_at) refl
  | missing absent found r ↦ rw (found, r, value_at) refl
]

-- An index fits the keys of the sparse map.
pub key_fits : {h : HyperLogLogLog} (j : ℕ) → HasShape h → j < h.m → j < 2 ^ h.sparse.key_size
key_fits j shape hj = omega (arith, ap (λ (k : ℕ). 2 ^ k) shape.key_size, shape.power)

-- The two ways to store a register.
abbrev dense : HyperLogLogLog → ℕ → ℕ → ℕ → HyperLogLogLog
dense h base j r = record h {
  offsets = PackedVector.set_at h.offsets j (r - base);
  sparse = PackedMap.erase h.sparse j;
}

abbrev excepted : HyperLogLogLog → ℕ → ℕ → HyperLogLogLog
excepted h j r = record h { sparse = PackedMap.add h.sparse j r }

place-dense :
    (h : HyperLogLogLog) (base j r : ℕ)
    → is_dense h base r ≡ true
    → place h base (PackedMap.find h.sparse j) j r ≡ dense h base j r
unfolding place PackedMap.erase
place-dense h base j r e = rw (e, place) refl

place-excepted :
    (h : HyperLogLogLog) (base j r : ℕ)
    → is_dense h base r ≡ false
    → place h base (PackedMap.find h.sparse j) j r ≡ excepted h j r
unfolding place
place-excepted h base j r e = rw (e, place) refl

-- `h'` is `h` with the register at `j` stored as `r`, to be read above `base`.
pub record IsPlaced (h h' : HyperLogLogLog) (base j r : ℕ) : Type 0 where
  pub shape : HasShape h'
  pub m : h'.m ≡ h.m
  pub base_kept : h'.base ≡ h.base
  pub lower_bound : h'.lower_bound ≡ h.lower_bound
  pub max_offset : h'.max_offset ≡ h.max_offset
  pub own : value_at h' base j ≡ r
  pub stored : is_some (lookup h'.sparse j) ≡ is_exception h.max_offset base r
  pub kept : (q : ℕ) → q ≢ j → lookup h'.sparse q ≡ lookup h.sparse q
  pub others : (q b : ℕ) → q < h.m → q ≢ j → value_at h' b q ≡ value_at h b q

module _ {h : HyperLogLogLog} (base j r : ℕ) (shape : HasShape h) (hj : j < h.m) (hr : r < 64) where
  erased : Changes h.m h.sparse j none (PackedMap.erase h.sparse j)
  erased = erase-Changes j shape.map

  added : Changes h.m h.sparse j (some (r % 2 ^ h.sparse.value_size)) (PackedMap.add h.sparse j r)
  added =
      add-Changes j r shape.map (key_fits j shape hj)
        (omega (arith, ap (λ (k : ℕ). 2 ^ k) shape.key_size, shape.power))

  whole_rank : r % 2 ^ h.sparse.value_size ≡ r
  whole_rank = ap (λ k. r % 2 ^ k) shape.value_size ∙ mod-eq_of_lt hr

  dense-HasShape : HasShape (dense h base j r)
  dense-HasShape = record {
    power = shape.power;
    small = shape.small;
    vector = Valid.set_at-IsValid j (r - base) shape.vector (omega (arith, shape.count));
    count = size-set_at h.offsets j (r - base) ∙ shape.count;
    width = elem_size-set_at h.offsets j (r - base) ∙ shape.width;
    map = erased.valid;
    key_size = erased.key_size ∙ shape.key_size;
    value_size = erased.value_size ∙ shape.value_size;
    s_bits = shape.s_bits;
    offset = shape.offset;
  }

  excepted-HasShape : HasShape (excepted h j r)
  excepted-HasShape = record {
    power = shape.power;
    small = shape.small;
    vector = shape.vector;
    count = shape.count;
    width = shape.width;
    map = added.valid;
    key_size = added.key_size ∙ shape.key_size;
    value_size = added.value_size ∙ shape.value_size;
    s_bits = shape.s_bits;
    offset = shape.offset;
  }

  value_at-dense :
      (q b : ℕ)
      → is_dense h base r ≡ true
      → q < h.m
      → value_at (dense h base j r) b q ≡ (if j == q then (r - base) + b else value_at h b q)
  value_at-dense q b e hq = ground (
    arith,
    value_at-lookup (dense h base j r) b q dense-HasShape,
    value_at-lookup h b q shape,
    erased.reads q,
    get-set_at j q (r - base) shape.vector (omega (arith, shape.count))
        (omega (arith, shape.count)),
    ap (λ (k : ℕ). (r - base) % 2 ^ k) shape.width,
    mod-eq_of_lt {n = r - base} {m = 2 ^ h.m_bits},
    shape.offset,
  )

  value_at-excepted :
      (q b : ℕ) → q < h.m → value_at (excepted h j r) b q ≡ (if j == q then r else value_at h b q)
  value_at-excepted q b hq = ground (
    arith,
    value_at-lookup (excepted h j r) b q excepted-HasShape,
    value_at-lookup h b q shape,
    added.reads q,
    whole_rank,
  )

  -- Storing a rank below 64 keeps the shape, and changes that register only.
  pub place-IsPlaced : IsPlaced h (place h base (PackedMap.find h.sparse j) j r) base j r
  place-IsPlaced = elim (Bool-cases (is_dense h base r)) [
    | inl e ↦ rw (place-dense h base j r e) (record {
      shape = dense-HasShape;
      m = refl;
      base_kept = refl;
      lower_bound = refl;
      max_offset = refl;
      own = ground (arith, value_at-dense j base e hj);
      stored = ground (arith, erased.reads j, e);
      kept = λ q ne. ground (arith, erased.reads q);
      others = λ q b hq ne. ground (arith, value_at-dense q b e hq);
    })
    | inr e ↦ rw (place-excepted h base j r e) (record {
      shape = excepted-HasShape;
      m = refl;
      base_kept = refl;
      lower_bound = refl;
      max_offset = refl;
      own = ground (arith, value_at-excepted j base hj);
      stored = ground (arith, added.reads j, e);
      kept = λ q ne. ground (arith, added.reads q);
      others = λ q b hq ne. ground (arith, value_at-excepted q b hq);
    })
  ]
