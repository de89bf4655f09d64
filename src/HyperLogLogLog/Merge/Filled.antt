-- ===== src/HyperLogLogLog/Merge/Filled.antt =====
-- What the loops of `merge` have written before an index.
use hyperlogloglog.Base.{
  ℕ, zero, suc, ◌+◌, ◌-◌, ◌^◌, ◌≤◌, ◌<◌, ◌≡◌, refl, ap, ◌∙◌, arith, true, none, max,
}
use hyperlogloglog.PackedVector
use hyperlogloglog.PackedVector.Elements.{get-lt}
use hyperlogloglog.PackedMap
use hyperlogloglog.PackedMap.Lookup.{lookup}
use hyperlogloglog.HyperLogLogLog.State.{HyperLogLogLog}
use hyperlogloglog.HyperLogLogLog.Registers.{value_at, get, place, is_dense}
use hyperlogloglog.HyperLogLogLog.Merge.{dense_at, merge_gap}
use hyperlogloglog.HyperLogLogLog.Shape.{HasShape, is_some, is_exception, IsPlaced, place-IsPlaced}
use hyperlogloglog.HyperLogLogLog.Rebase.{IsValid}

-- No exception at `q`: the register follows the base.
abbrev IsFree : HyperLogLogLog → ℕ → Type 0
IsFree h q = value_at h 1 q ≡ suc (value_at h 0 q)

find-IsFree : (h : HyperLogLogLog) (q : ℕ) → IsFree h q → PackedMap.find h.sparse q ≡ none
unfolding value_at
find-IsFree h q free = ground (arith, free)

pub IsFree-find : (h : HyperLogLogLog) (q : ℕ) → PackedMap.find h.sparse q ≡ none → IsFree h q
unfolding value_at
IsFree-find h q e = ground (arith, e)

-- The registers below `j` are the greater ones, of which the exceptions are stored, and there is
-- no exception from `j` on.
pub record IsFilled (a b : HyperLogLogLog) (j : ℕ) (h : HyperLogLogLog) : Type 0 where
  pub shape : HasShape h
  pub m : h.m ≡ a.m
  pub base : h.base ≡ max a.base b.base
  pub width : h.max_offset ≡ a.max_offset
  pub lower : h.lower_bound ≡ 0
  pub done : (q : ℕ) → q < j → q < a.m → value_at h h.base q ≡ max (get a q) (get b q)
  pub stored :
      (q : ℕ)
      → q < j
      → q < a.m
      → is_some (lookup h.sparse q) ≡ is_exception h.max_offset h.base (value_at h h.base q)
  pub free : (q : ℕ) → j ≤ q → q < a.m → IsFree h q

max_offset-place :
    (h : HyperLogLogLog) (base j r : ℕ) → (place h base none j r).max_offset ≡ h.max_offset
unfolding place
max_offset-place h base j r = ground arith

-- An offset stays an offset in the merged sketch.
is_dense-max :
    (h : HyperLogLogLog) (r₁ r₂ b₁ b₂ : ℕ)
    → h.base ≡ max b₁ b₂
    → b₁ ≤ r₁
    → b₂ ≤ r₂
    → r₁ ≤ b₁ + h.max_offset
    → r₂ ≤ b₂ + h.max_offset
    → is_dense h h.base (max r₁ r₂) ≡ true
is_dense-max h r₁ r₂ b₁ b₂ e p₁ p₂ q₁ q₂ = ground arith

place-offset :
    (h : HyperLogLogLog) (base j r : ℕ)
    → is_dense h base r ≡ true
    → place h base none j r ≡ record h { offsets = PackedVector.set_at h.offsets j (r - base) }
unfolding place
place-offset h base j r e = rw (e, place) refl

-- An offset is at most the greatest one.
dense_at-le :
    {h : HyperLogLogLog} (j : ℕ) → HasShape h → j < h.m → dense_at h j ≤ h.base + h.max_offset
dense_at-le {h} j shape hj = omega (
  arith,
  get-lt j shape.vector (omega (arith, shape.count)),
  ap (λ (k : ℕ). 2 ^ k) shape.width,
  shape.offset,
)

module _ {a b : HyperLogLogLog} (va : IsValid a) (vb : IsValid b) (same : b.m ≡ a.m) where
  -- Writing the greater register at the next index, without a look at the exceptions.
  pub place-IsFilled :
      {h : HyperLogLogLog} (j r : ℕ)
      → IsFilled a b j h
      → j < a.m
      → r ≡ max (get a j) (get b j)
      → IsFilled a b (j + 1) (place h h.base none j r)
  place-IsFilled {h} j r filled hj e =
      let hr : r < 64 = ground (arith, e, va.ranks j, vb.ranks j, same) in
      let no_key = find-IsFree h j (filled.free j (omega arith) hj) in
      let one : IsPlaced h (place h h.base none j r) h.base j r =
        rw no_key at (place-IsPlaced h.base j r filled.shape (omega (arith, filled.m)) hr) in
      record {
        shape = one.shape;
        m = one.m ∙ filled.m;
        base = one.base_kept ∙ filled.base;
        width = max_offset-place h h.base j r ∙ filled.width;
        lower = one.lower_bound ∙ filled.lower;
        done = λ q p hq. ground (
          arith,
          ap (λ (k : ℕ). value_at (place h h.base none j r) k q) one.base_kept,
          one.own,
          one.others q h.base,
          filled.done q,
          filled.m,
          e,
          ap (value_at (place h h.base none j r) h.base) {x = q} {y = j},
          ap (get a) {x = q} {y = j},
          ap (get b) {x = q} {y = j},
        );
        stored = λ q p hq. ground (
          arith,
          ap (λ (k : ℕ). value_at (place h h.base none j r) k q) one.base_kept,
          ap (λ (k : ℕ). value_at (place h h.base none j r) h.base k) {x = q} {y = j},
          ap (λ (k : ℕ). is_some (lookup (place h h.base none j r).sparse k)) {x = q} {y = j},
          one.own,
          one.stored,
          one.kept q,
          one.others q h.base,
          one.base_kept,
          one.max_offset,
          filled.stored q,
          filled.m,
        );
        free = λ q p hq. ground (arith, one.others q 1, one.others q 0, filled.m, filled.free q);
      }

  -- The inner loop writes offsets, where neither sketch has an exception.
  pub merge_gap-IsFilled :
      (rounds j : ℕ) {h : HyperLogLogLog}
      → a.max_offset ≡ b.max_offset
      → IsFilled a b j h
      → j + rounds ≤ a.m
      → ((q : ℕ) → j ≤ q → q < j + rounds → get a q ≡ dense_at a q)
      → ((q : ℕ) → j ≤ q → q < j + rounds → get b q ≡ dense_at b q)
      → IsFilled a b (j + rounds) (merge_gap a b rounds j h)
  unfolding merge_gap
  merge_gap-IsFilled zero j {h} w filled le ga gb =
      let stays : j + 0 ≡ j = omega arith in rw stays filled
  merge_gap-IsFilled (suc rounds) j {h} w filled le ga gb =
      let r = max (dense_at a j) (dense_at b j) in
      let fits : is_dense h h.base r ≡ true =
        is_dense-max h (dense_at a j) (dense_at b j) a.base b.base filled.base (omega arith)
          (omega arith) (omega (arith, dense_at-le j va.shape, filled.width))
          (omega (arith, dense_at-le j vb.shape, filled.width, same, w)) in
      let next : IsFilled a b (j + 1)
          (record h { offsets = PackedVector.set_at h.offsets j (r - h.base) }) =
        rw (place-offset h h.base j r fits) at (
          place-IsFilled j r filled (omega arith)
            (ground (arith, ga j (omega arith) (omega arith), gb j (omega arith) (omega arith)))) in
      let further : j + suc rounds ≡ (j + 1) + rounds = omega arith in
      rw further (
        merge_gap-IsFilled rounds (j + 1) w next (omega arith)
          (λ q p s. ga q (omega arith) (omega arith)) (λ q p s. gb q (omega arith) (omega arith)))
