-- ===== src/PackedMap/Add.antt =====
-- `add`: the insertion of a pair at its place in the order of the keys.
use native.Mathlib.Numerals.{sub-one}
use native.Mathlib.Decide.{dec_lt}
use hyperlogloglog.Base.{
  ℕ, zero, suc, ◌-◌, ◌^◌, ◌≤◌, ◌<◌, ◌≡◌, ◌≢◌, refl, ◌∙◌, arith, ltb, leb, ◌==◌, ◌&&◌, if◌then◌else◌,
}
use hyperlogloglog.PackedVector
use hyperlogloglog.PackedVector.{PackedVector}
use hyperlogloglog.PackedVector.Elements.{get-lt}
use hyperlogloglog.PackedMap.{PackedMap, size, key_at, put, sift}
use hyperlogloglog.PackedMap.Entries.{
  IsPacked, SameWidths, put-SameWidths, get-put, size-put, elem_size-put, SameWidths-trans,
  key_at-get,
}

-- The packed pair at an index.
abbrev pub entry : PackedMap → ℕ → ℕ
entry m i = PackedVector.get m.arr i

-- `m'` is `m` with the last of its `n + 1` pairs dropped and `kv` put in at `place`.
pub record IsInserted (limit : ℕ) (m m' : PackedMap) (key kv n : ℕ) : Type 0 where
  pub widths : SameWidths limit m m'
  pub size : m'.arr.size ≡ m.arr.size
  pub place : ℕ
  pub place_le : place ≤ n
  pub entries :
      (k : ℕ)
      → k < m.arr.size
      → entry m' k
        ≡ (if k == place then kv else if ltb place k && leb k n then entry m (k - 1) else entry m k)
  pub low : place ≢ 0 → ¬ (key < key_at m (place - 1))
  pub high : (k : ℕ) → place ≤ k → k < n → key < key_at m k

module _ (key kv : ℕ) where
  sift-zero : (m : PackedMap) → sift key kv zero m ≡ put m 0 kv
  unfolding sift
  sift-zero m = refl

  sift-more :
      (i : ℕ) (m : PackedMap)
      → key < key_at m i
      → sift key kv (suc i) m ≡ sift key kv i (put m (suc i) (entry m i))
  unfolding sift
  sift-more i m h = ground arith

  sift-done :
      (i : ℕ) (m : PackedMap) → ¬ (key < key_at m i) → sift key kv (suc i) m ≡ put m (suc i) kv
  unfolding sift
  sift-done i m h = ground arith

module _ {limit : ℕ} (key kv : ℕ) {m : PackedMap} (packed : IsPacked limit m) where
  stop_here :
      (n : ℕ)
      → kv < 2 ^ m.arr.elem_size
      → n < size m
      → (n ≢ 0 → ¬ (key < key_at m (n - 1)))
      → IsInserted limit m (put m n kv) key kv n
  stop_here n fits h low = record {
    widths = put-SameWidths packed n kv h;
    size = size-put m n kv;
    place = n;
    place_le = omega arith;
    entries = λ k hk. ground (arith, get-put packed n kv h k hk fits);
    low = low;
    high = λ k p q. absurd (omega arith);
  }

  module _ (i : ℕ) (h : suc i < size m) where
    abbrev one_up : PackedMap
    one_up = put m (suc i) (entry m i)

    entry-one_up :
        (k : ℕ) → k < size m → entry one_up k ≡ (if suc i == k then entry m i else entry m k)
    entry-one_up k hk =
        get-put packed (suc i) (entry m i) h k hk (get-lt i packed.vector (omega arith))

    key_at-one_up : (k : ℕ) → k ≤ i → key_at one_up k ≡ key_at m k
    key_at-one_up k p = ground (
      arith,
      key_at-get one_up k,
      key_at-get m k,
      entry-one_up k,
      (put-SameWidths packed (suc i) (entry m i) h).value_size,
    )

    -- What the rest of the loop does to the map with one pair moved up, seen from before.
    carry :
        {m' : PackedMap}
        → key < key_at m i
        → IsInserted limit one_up m' key kv i
        → IsInserted limit m m' key kv (suc i)
    carry greater r = record {
      widths = SameWidths-trans (put-SameWidths packed (suc i) (entry m i) h) r.widths;
      size = r.size ∙ size-put m (suc i) (entry m i);
      place = r.place;
      place_le = omega (arith, r.place_le);
      entries = λ k hk. ground (
        arith,
        size-put m (suc i) (entry m i),
        r.entries k,
        r.place_le,
        entry-one_up k,
        entry-one_up (k - 1),
      );
      low = λ p q. r.low p (rw (key_at-one_up (r.place - 1) (omega (arith, r.place_le))) q);
      high = λ k p q. ground (arith, r.high k p, key_at-one_up k);
    }

-- The loop of `add` with its last write puts the pair in below the first greater key.
pub sift-IsInserted :
    {limit : ℕ} (key kv n : ℕ) {m : PackedMap}
    → IsPacked limit m
    → kv < 2 ^ m.arr.elem_size
    → n < size m
    → IsInserted limit m (sift key kv n m) key kv n
sift-IsInserted key kv zero {m} packed fits h =
    rw (sift-zero key kv m) (stop_here key kv packed 0 fits h (λ p. absurd (p refl)))
sift-IsInserted key kv (suc i) {m} packed fits h = elim (dec_lt key (key_at m i)) [
  | yes p ↦ rw (sift-more key kv i m p) (
      carry key kv packed i h p (
        sift-IsInserted key kv i (put-SameWidths packed (suc i) (entry m i) h).packed
          (rw (elem_size-put m (suc i) (entry m i)) fits)
          (rw (size-put m (suc i) (entry m i)) (omega arith))))
  | no p ↦ rw (sift-done key kv i m p) (stop_here key kv packed (suc i) fits h (λ _. rw sub-one p))
]
