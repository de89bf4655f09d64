-- ===== src/PackedMap/Find.antt =====
-- The binary search `find`: it ends within its fuel, and finds a key exactly if it is there.
use hyperlogloglog.Base.{
  ℕ, zero, suc, ◌+◌, ◌-◌, ◌/◌, ◌≤◌, ◌<◌, ◌≡◌, ◌≢◌, ap, ◌∙◌, arith, Option, none, some, Option-cases,
  inl, inr,
}
use native.Mathlib.Decide.{dec_lt}
use hyperlogloglog.PackedMap.{PackedMap, size, key_at, find_from, find}
use hyperlogloglog.PackedMap.Entries.{IsSorted}

-- What a search for a key may answer.
abbrev pub Answers : PackedMap → ℕ → Option ℕ → Type 0
Answers m key (some i) = (i < size m) × (key_at m i ≡ key)
Answers m key none = (i : ℕ) → i < size m → key_at m i ≢ key

-- The keys outside the range are smaller on its left and greater on its right.
record Bracketed (m : PackedMap) (key l hi : ℕ) : Type 0 where
  low : (i : ℕ) → i < l → key_at m i < key
  high : (i : ℕ) → hi ≤ i → i < size m → key < key_at m i
  within : hi ≤ size m

abbrev mid : ℕ → ℕ → ℕ
mid l hi = (l + (hi - 1)) / 2

module _ (fuel : ℕ) (m : PackedMap) (key l hi : ℕ) where
  find_from-empty : hi ≤ l → find_from (suc fuel) m key l hi ≡ none
  unfolding find_from
  find_from-empty h = ground arith

  find_from-right :
      l < hi
      → key_at m (mid l hi) < key
      → find_from (suc fuel) m key l hi ≡ find_from fuel m key (mid l hi + 1) hi
  unfolding find_from
  find_from-right h p = ground arith

  find_from-left :
      l < hi
      → key < key_at m (mid l hi)
      → find_from (suc fuel) m key l hi ≡ find_from fuel m key l (mid l hi)
  unfolding find_from
  find_from-left h p = ground arith

  find_from-hit :
      l < hi → key_at m (mid l hi) ≡ key → find_from (suc fuel) m key l hi ≡ some (mid l hi)
  unfolding find_from
  find_from-hit h p = ground arith

module _ {m : PackedMap} (key : ℕ) {l hi : ℕ} (sorted : IsSorted m) (b : Bracketed m key l hi)
    (h : l < hi) where
  Bracketed-right : key_at m (mid l hi) < key → Bracketed m key (mid l hi + 1) hi
  Bracketed-right p = record {
    low = λ i q. ground (arith, sorted i (mid l hi), b.within);
    high = b.high;
    within = b.within;
  }

  Bracketed-left : key < key_at m (mid l hi) → Bracketed m key l (mid l hi)
  Bracketed-left p = record {
    low = b.low;
    high = λ i q r. ground (arith, sorted (mid l hi) i, b.within);
    within = omega (arith, b.within);
  }

find_from-Answers :
    (fuel : ℕ) {m : PackedMap} (key l hi : ℕ)
    → IsSorted m
    → Bracketed m key l hi
    → hi - l < fuel
    → Answers m key (find_from fuel m key l hi)
find_from-Answers zero key l hi sorted b enough = absurd (omega arith)
find_from-Answers (suc fuel) {m} key l hi sorted b enough =
    let at_mid = mid l hi in
    elim (dec_lt l hi) [
      | no done ↦
          rw (find_from-empty fuel m key l hi (omega arith))
            λ i p e. ground (arith, b.low i, b.high i)
      | yes more ↦ elim (dec_lt (key_at m at_mid) key) [
        | yes p ↦ rw (find_from-right fuel m key l hi more p) (
            find_from-Answers fuel key (at_mid + 1) hi sorted (Bracketed-right key sorted b more p)
              (omega arith))
        | no p ↦ elim (dec_lt key (key_at m at_mid)) [
          | yes q ↦ rw (find_from-left fuel m key l hi more q) (
              find_from-Answers fuel key l at_mid sorted (Bracketed-left key sorted b more q)
                (omega arith))
          | no q ↦
              rw (find_from-hit fuel m key l hi more (omega arith))
                (omega (arith, b.within), omega arith)
        ]
      ]
    ]

-- In a map with ascending keys, `find` answers with an index at which the key stands, or,
-- negatively, if the key stands at no index.
pub find-Answers : (m : PackedMap) (key : ℕ) → IsSorted m → Answers m key (find m key)
unfolding find
find-Answers m key sorted =
    find_from-Answers (suc (size m)) key 0 (size m) sorted start (omega arith)
  where
    start : Bracketed m key 0 (size m)
    start = record {
      low = λ i p. absurd (omega arith);
      high = λ i p q. absurd (omega arith);
      within = omega arith;
    }

-- A key that stands at an index is found there.
pub find-key_at :
    (m : PackedMap) (key i : ℕ) → IsSorted m → i < size m → key_at m i ≡ key → find m key ≡ some i
find-key_at m key i sorted h e = elim (Option-cases (find m key)) [
  | inl absent ↦ absurd ((rw absent at (find-Answers m key sorted)) i h e)
  | inr (j, found) ↦
      let answer : Answers m key (some j) = rw found at (find-Answers m key sorted) in
      found ∙ ap some (ground (arith, sorted i j, sorted j i, answer.0, answer.1))
]

-- A key that stands nowhere is not found.
pub find-absent :
    (m : PackedMap) (key : ℕ)
    → IsSorted m
    → ((i : ℕ) → i < size m → key_at m i ≢ key)
    → find m key ≡ none
find-absent m key sorted absent = elim (Option-cases (find m key)) [
  | inl none_found ↦ none_found
  | inr (j, found) ↦
      let answer : Answers m key (some j) = rw found at (find-Answers m key sorted) in
      absurd (absent j answer.0 answer.1)
]
