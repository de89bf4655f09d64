-- ===== src/PackedMap/Lookup.antt =====
-- A packed map as a partial function from keys to values, and how full it can be.
use native.Mathlib.Decide.{dec_lt}
use hyperlogloglog.Base.{
  ℕ, zero, suc, ◌+◌, ◌-◌, ◌/◌, ◌^◌, ◌≤◌, ◌<◌, ◌≡◌, ◌≢◌, refl, ◌∙◌, arith, test_bit, Option, none,
  some, Option-cases, inl, inr,
}
use hyperlogloglog.Base.Bits.{lt_of_test_bit, test_bit-shr, test_bit-of_lt}
use hyperlogloglog.PackedVector
use hyperlogloglog.PackedVector.Elements.{get-lt}
use hyperlogloglog.PackedMap.{PackedMap, size, at, key_at, find}
use hyperlogloglog.PackedMap.Entries.{IsSorted, IsValid, key_at-get}
use hyperlogloglog.PackedMap.Find.{Answers, find-Answers, find-key_at, find-absent}

-- By how much a key with this answer of `find` makes the map longer.
abbrev pub added : Option ℕ → ℕ
added none = 1
added (some _) = 0

value_of : PackedMap → Option ℕ → Option ℕ
value_of m none = none
value_of m (some i) = some (at m i)

-- The value stored under a key: the abstract view of the map.
pub lookup : PackedMap → ℕ → Option ℕ
unfolding value_of
lookup m q = value_of m (find m q)

pub lookup-found : (m : PackedMap) (q i : ℕ) → find m q ≡ some i → lookup m q ≡ some (at m i)
unfolding lookup
lookup-found m q i e = rw e refl

pub lookup-missing : (m : PackedMap) (q : ℕ) → find m q ≡ none → lookup m q ≡ none
unfolding lookup
lookup-missing m q e = rw e refl

-- A key that stands at an index has the value that stands there.
pub lookup-key_at :
    (m : PackedMap) (q i : ℕ)
    → IsSorted m
    → i < size m
    → key_at m i ≡ q
    → lookup m q ≡ some (at m i)
lookup-key_at m q i sorted h e = lookup-found m q i (find-key_at m q i sorted h e)

-- A key that stands nowhere has no value.
pub lookup-absent :
    (m : PackedMap) (q : ℕ)
    → IsSorted m
    → ((i : ℕ) → i < size m → key_at m i ≢ q)
    → lookup m q ≡ none
lookup-absent m q sorted h = lookup-missing m q (find-absent m q sorted h)

-- Either a key stands at an index, with its value, or it stands nowhere.
pub data Lookup (m : PackedMap) (q : ℕ) : Type 0 where
  present :
      (i : ℕ)
      → i < size m
      → key_at m i ≡ q
      → find m q ≡ some i
      → lookup m q ≡ some (at m i)
      → Lookup m q
  missing :
      ((i : ℕ) → i < size m → key_at m i ≢ q) → find m q ≡ none → lookup m q ≡ none → Lookup m q

pub Lookup-cases : (m : PackedMap) (q : ℕ) → IsSorted m → Lookup m q
Lookup-cases m q sorted = elim (Option-cases (find m q)) [
  | inl e ↦ missing (rw e at (find-Answers m q sorted)) e (lookup-missing m q e)
  | inr (i, e) ↦
      let answer : Answers m q (some i) = rw e at (find-Answers m q sorted) in
      present i answer.0 answer.1 e (lookup-found m q i e)
]

module _ {limit : ℕ} {m : PackedMap} (valid : IsValid limit m) where
  -- A stored key fits its width.
  pub key_at-lt : (i : ℕ) → i < size m → key_at m i < 2 ^ m.key_size
  key_at-lt i h = rw (key_at-get m i) (lt_of_test_bit m.key_size _ high)
    where
      high : (k : ℕ) → m.key_size ≤ k → test_bit (PackedVector.get m.arr i / 2 ^ m.value_size) k ≡ 0
      high k p =
          test_bit-shr (PackedVector.get m.arr i) m.value_size k
          ∙ test_bit-of_lt m.arr.elem_size (PackedVector.get m.arr i) (k + m.value_size)
              (get-lt i valid.packed.vector h) (omega (arith, valid.packed.elem_size))

  -- Ascending keys are at least their index, and as many below the bound as there is room for.
  key_at-ge : (i : ℕ) → i < size m → i ≤ key_at m i
  key_at-ge zero h = omega arith
  key_at-ge (suc i) h =
      omega (arith, key_at-ge i (omega arith), valid.sorted i (suc i) (omega arith) h)

  key_at-le : (k i : ℕ) → i + k + 1 ≡ size m → key_at m i + k < 2 ^ m.key_size
  key_at-le zero i e = omega (arith, key_at-lt i (omega arith))
  key_at-le (suc k) i e =
      omega (
        arith,
        key_at-le k (i + 1) (omega arith),
        valid.sorted i (i + 1) (omega arith) (omega arith),
      )

  -- A valid map has at most as many pairs as there are keys of its width.
  pub size-le : size m ≤ 2 ^ m.key_size
  size-le = elim (dec_lt 0 (size m)) [
    | yes p ↦ omega (arith, key_at-le (size m - 1) 0 (omega arith))
    | no p ↦ omega arith
  ]

  -- A key that is not stored leaves room for itself.
  pub size-lt_of_missing :
      (q : ℕ)
      → q < 2 ^ m.key_size
      → ((i : ℕ) → i < size m → key_at m i ≢ q)
      → size m < 2 ^ m.key_size
  size-lt_of_missing q hq absent = elim (dec_lt (size m) (2 ^ m.key_size)) [
    | yes p ↦ p
    | no p ↦ absurd (
        absent q (omega arith) (
          omega (
            arith,
            key_at-ge q (omega arith),
            key_at-le (size m - 1 - q) q (omega (arith, size-le)),
            size-le,
          )))
  ]
