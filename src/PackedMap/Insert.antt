-- ===== src/PackedMap/Insert.antt =====
-- `add` of a key that is not there: its pair is put in at its place.
use hyperlogloglog.Base.{
  ℕ, ◌+◌, ◌-◌, ◌%◌, ◌^◌, ◌≤◌, ◌<◌, ◌≡◌, ◌≢◌, ◌∙◌, arith, some, ltb, ◌==◌, if◌then◌else◌,
}
use native.Mathlib.Decide.{ℕ_discrete}
use hyperlogloglog.PackedVector
use hyperlogloglog.PackedVector.{PackedVector}
use hyperlogloglog.PackedVector.Elements.{append-IsValid, size-append, get-append, elem_size-append}
use hyperlogloglog.PackedMap.{PackedMap, size, at, key_at, sift}
use hyperlogloglog.PackedMap.Entries.{
  IsSorted, IsValid, SameWidths, key_at-get, at-get, replace-SameWidths, SameWidths-trans,
  value-pack_element,
}
use hyperlogloglog.PackedMap.Add.{entry, IsInserted, sift-IsInserted}
use hyperlogloglog.PackedMap.Lookup.{
  lookup, lookup-key_at, lookup-absent, present, missing, Lookup-cases,
}
use hyperlogloglog.PackedMap.Overwrite.{Changes, kv, kv_key, kv_lt}

module _ {limit : ℕ} {m : PackedMap} (valid : IsValid limit m) (key value : ℕ)
    (key_fits : key < 2 ^ m.key_size) (room : size m < limit)
    (absent : (i : ℕ) → i < size m → key_at m i ≢ key) where
  abbrev pair : ℕ
  pair = kv valid key value key_fits

  abbrev appended : PackedMap
  appended = record m { arr = PackedVector.append m.arr pair }

  longer : SameWidths limit m appended
  longer =
      replace-SameWidths _ valid.packed (append-IsValid valid.packed.vector room pair)
        (elem_size-append m.arr pair)

  size-longer : size appended ≡ size m + 1
  size-longer = size-append valid.packed.vector room pair

  abbrev result : PackedMap
  result = sift key pair (size appended - 1) appended

  inserted : IsInserted limit appended result key pair (size appended - 1)
  inserted =
      sift-IsInserted key pair (size appended - 1) longer.packed
        (rw (elem_size-append m.arr pair) (kv_lt valid key value key_fits))
        (omega (arith, size-longer))

  widths : SameWidths limit m result
  widths = SameWidths-trans longer inserted.widths

  size-result : size result ≡ size m + 1
  size-result = inserted.size ∙ size-longer

  key_at-appended : (k : ℕ) → k < size m → key_at appended k ≡ key_at m k
  key_at-appended k hk =
      ground
        (arith, key_at-get appended k, get-append valid.packed.vector room k pair, key_at-get m k)

  -- The pair that ends at index `k`.
  entry-result :
      (k : ℕ)
      → k ≤ size m
      → entry result k ≡ (
          if k == inserted.place
          then pair
          else if ltb inserted.place k
          then entry m (k - 1)
          else entry m k)
  entry-result k hk = ground (
    arith,
    inserted.entries k,
    inserted.place_le,
    size-longer,
    get-append valid.packed.vector room k pair,
    get-append valid.packed.vector room (k - 1) pair,
  )

  key_at-result :
      (k : ℕ)
      → k ≤ size m
      → key_at result k ≡ (
          if k == inserted.place
          then key
          else if ltb inserted.place k
          then key_at m (k - 1)
          else key_at m k)
  key_at-result k hk = ground (
    arith,
    key_at-get result k,
    widths.value_size,
    entry-result k hk,
    kv_key valid key value key_fits,
    key_at-get m k,
    key_at-get m (k - 1),
  )

  at-result :
      (k : ℕ)
      → k ≤ size m
      → at result k ≡ (
          if k == inserted.place
          then value % 2 ^ m.value_size
          else if ltb inserted.place k
          then at m (k - 1)
          else at m k)
  at-result k hk = ground (
    arith,
    at-get k widths.packed,
    widths.value_size,
    entry-result k hk,
    value-pack_element valid.packed key value,
    at-get k valid.packed,
    at-get (k - 1) valid.packed,
  )

  -- The keys around the place are on their sides of the new key.
  key_at_below : (k : ℕ) → k < inserted.place → key_at m k < key
  key_at_below k h = ground (
    arith,
    inserted.place_le,
    size-longer,
    key_at-appended (inserted.place - 1),
    inserted.low,
    absent (inserted.place - 1),
    valid.sorted k (inserted.place - 1),
  )

  key_at_above : (k : ℕ) → inserted.place ≤ k → k < size m → key < key_at m k
  key_at_above k h p = ground (arith, size-longer, key_at-appended k, inserted.high k)

  result-IsSorted : IsSorted result
  result-IsSorted a b p q = ground (
    arith,
    size-result,
    key_at-result a,
    key_at-result b,
    key_at_below a,
    key_at_above (b - 1),
    valid.sorted a b,
    valid.sorted (a - 1) (b - 1),
    valid.sorted a (b - 1),
  )

  result-reads :
      (q : ℕ) → lookup result q ≡ (if key == q then some (value % 2 ^ m.value_size) else lookup m q)
  result-reads q = elim (ℕ_discrete key q) [
    | yes e ↦ ground (
      arith,
      lookup-key_at result q inserted.place result-IsSorted,
      size-result,
      size-longer,
      inserted.place_le,
      key_at-result inserted.place,
      at-result inserted.place,
    )
    | no ne ↦ elim (Lookup-cases m q valid.sorted) [
      | present j hj e _ r ↦
          let j' = if ltb j inserted.place then j else j + 1 in
          ground (
            arith,
            lookup-key_at result q j' result-IsSorted,
            size-result,
            key_at-result j',
            at-result j',
          )
      | missing gone _ r ↦
          ground (arith, lookup-absent result q result-IsSorted (not_stored q ne gone))
    ]
  ]
    where
      not_stored :
          (q : ℕ)
          → key ≢ q
          → ((i : ℕ) → i < size m → key_at m i ≢ q)
          → (k : ℕ) → k < size result
          → key_at result k ≢ q
      not_stored q ne gone k h e =
          ground (arith, size-result, key_at-result k, gone k, gone (k - 1))

  pub insert-Changes : Changes limit m key (some (value % 2 ^ m.value_size)) result
  insert-Changes = record {
    valid = record { packed = widths.packed; sorted = result-IsSorted };
    key_size = widths.key_size;
    value_size = widths.value_size;
    reads = result-reads;
  }

  pub size-inserted : size result ≡ size m + 1
  size-inserted = size-result
