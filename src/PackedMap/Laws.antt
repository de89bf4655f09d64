-- ===== src/PackedMap/Laws.antt =====
-- `add` and `erase` on the abstract map: each keeps the invariant and changes one key.
use hyperlogloglog.Base.{
  ℕ, ◌+◌, ◌-◌, ◌%◌, ◌^◌, ◌≤◌, ◌<◌, ◌≡◌, ◌≢◌, refl, ap, ◌∙◌, arith, none, some, ltb, ◌==◌,
  if◌then◌else◌,
}
use native.Mathlib.Decide.{ℕ_discrete}
use hyperlogloglog.PackedVector.Shifts.{size-erase, elem_size-erase, erase-IsValid, get-erase}
use hyperlogloglog.PackedMap.{PackedMap, size, at, key_at, find, add, erase_at, erase}
use hyperlogloglog.PackedMap.Entries.{
  IsSorted, IsValid, SameWidths, size-put, key_at-get, at-get, replace-SameWidths,
}
use hyperlogloglog.PackedMap.Add.{entry}
use hyperlogloglog.PackedMap.Lookup.{
  added, lookup, lookup-key_at, lookup-absent, present, missing, Lookup-cases, size-lt_of_missing,
}
use hyperlogloglog.PackedMap.Overwrite.{Changes, put-Changes}
use hyperlogloglog.PackedMap.Insert.{insert-Changes, size-inserted}

-- In a valid map with room for every key, `add` of a key that fits its width gives a valid map
-- of the same widths that stores the value, cut to its width, under the key, and is unchanged
-- at every other key.
pub add-Changes :
    {limit : ℕ} {m : PackedMap} (key value : ℕ)
    → IsValid limit m
    → key < 2 ^ m.key_size
    → 2 ^ m.key_size ≤ limit
    → Changes limit m key (some (value % 2 ^ m.value_size)) (add m key value)
unfolding add
add-Changes {m = m} key value valid fits room = elim (Lookup-cases m key valid.sorted) [
  | present i h e found _ ↦ rw (found, add) (put-Changes valid key value fits i h e)
  | missing absent found _ ↦
      rw (found, add)
        (insert-Changes valid key value fits
          (omega (arith, size-lt_of_missing valid key fits absent)) absent)
]

-- In a valid map with room for every key, `add` of a key that fits its width makes the map
-- longer by one if the key was not found, and keeps the size otherwise.
pub size-add :
    {limit : ℕ} {m : PackedMap} (key value : ℕ)
    → IsValid limit m
    → key < 2 ^ m.key_size
    → 2 ^ m.key_size ≤ limit
    → size (add m key value) ≡ size m + added (find m key)
unfolding add
size-add {m = m} key value valid fits room = elim (Lookup-cases m key valid.sorted) [
  | present i h e found _ ↦ rw (found, add) (size-put m i _ ∙ omega arith)
  | missing absent found _ ↦
      rw (found, add)
        (size-inserted valid key value fits
          (omega (arith, size-lt_of_missing valid key fits absent)) absent)
]

module _ {limit : ℕ} {m : PackedMap} (valid : IsValid limit m) (i : ℕ) (h : i < size m) where
  shorter : SameWidths limit m (erase_at m i)
  unfolding erase_at
  shorter =
      replace-SameWidths _ valid.packed (erase-IsValid i valid.packed.vector h)
        (elem_size-erase i valid.packed.vector h)

  pub size-erase_at : size (erase_at m i) ≡ size m - 1
  unfolding erase_at
  size-erase_at = size-erase i valid.packed.vector h

  entry-erase_at :
      (k : ℕ)
      → k < size m - 1
      → entry (erase_at m i) k ≡ (if ltb k i then entry m k else entry m (k + 1))
  unfolding erase_at
  entry-erase_at k hk = get-erase i valid.packed.vector h k hk

  key_at-erase_at :
      (k : ℕ)
      → k < size m - 1
      → key_at (erase_at m i) k ≡ (if ltb k i then key_at m k else key_at m (k + 1))
  key_at-erase_at k hk = ground (
    arith,
    key_at-get (erase_at m i) k,
    shorter.value_size,
    entry-erase_at k hk,
    key_at-get m k,
    key_at-get m (k + 1),
  )

  at-erase_at :
      (k : ℕ) → k < size m - 1 → at (erase_at m i) k ≡ (if ltb k i then at m k else at m (k + 1))
  at-erase_at k hk = ground (
    arith,
    at-get k shorter.packed,
    shorter.value_size,
    entry-erase_at k hk,
    at-get k valid.packed,
    at-get (k + 1) valid.packed,
  )

  erase_at-IsSorted : IsSorted (erase_at m i)
  erase_at-IsSorted a b p q = ground (
    arith,
    size-erase_at,
    key_at-erase_at a,
    key_at-erase_at b,
    valid.sorted a b,
    valid.sorted (a + 1) (b + 1),
    valid.sorted a (b + 1),
  )

  erase_at-reads :
      (q : ℕ) → lookup (erase_at m i) q ≡ (if key_at m i == q then none else lookup m q)
  erase_at-reads q = elim (Lookup-cases m q valid.sorted) [
    | present j hj e _ r ↦ elim (ℕ_discrete i j) [
      | yes same ↦ ground (
        arith,
        lookup-absent (erase_at m i) q erase_at-IsSorted (gone j hj e same),
        ap (key_at m) same,
      )
      | no ne ↦
          let j' = if ltb j i then j else j - 1 in
          ground (
            arith,
            lookup-key_at (erase_at m i) q j' erase_at-IsSorted,
            size-erase_at,
            key_at-erase_at j',
            at-erase_at j',
            valid.sorted i j,
            valid.sorted j i,
          )
    ]
    | missing absent _ r ↦
        ground (arith, lookup-absent (erase_at m i) q erase_at-IsSorted (still absent), absent i h)
  ]
    where
      gone :
          (j : ℕ)
          → j < size m
          → key_at m j ≡ q
          → i ≡ j
          → (k : ℕ) → k < size (erase_at m i)
          → key_at (erase_at m i) k ≢ q
      gone j hj e same k hk eq =
          ground (arith, size-erase_at, key_at-erase_at k, valid.sorted j (k + 1), valid.sorted k j)

      still :
          ((k : ℕ) → k < size m → key_at m k ≢ q)
          → (k : ℕ) → k < size (erase_at m i)
          → key_at (erase_at m i) k ≢ q
      still absent k hk eq =
          ground (arith, size-erase_at, key_at-erase_at k, absent k, absent (k + 1))

  -- `eraseAt` takes out the key at the index and changes no other.
  pub erase_at-Changes : Changes limit m (key_at m i) none (erase_at m i)
  erase_at-Changes = record {
    valid = record { packed = shorter.packed; sorted = erase_at-IsSorted };
    key_size = shorter.key_size;
    value_size = shorter.value_size;
    reads = erase_at-reads;
  }

-- `erase` of any key in a valid map gives a valid map of the same widths without that key,
-- unchanged at every other key.
pub erase-Changes :
    {limit : ℕ} {m : PackedMap} (key : ℕ) → IsValid limit m → Changes limit m key none (erase m key)
unfolding erase
erase-Changes {limit} {m} key valid = elim (Lookup-cases m key valid.sorted) [
  | present i h e found _ ↦ rw (found, erase) (rw e at (erase_at-Changes valid i h))
  | missing absent found r ↦
      rw (found, erase)
        (record {
          valid = valid;
          key_size = refl;
          value_size = refl;
          reads = λ q. ground (arith, r, ap (lookup m));
        })
]
