-- ===== src/HyperLogLogLog/Moved.antt =====
-- The loop of `rebase`, which moves one register after the other to the new base.
use hyperlogloglog.Base.{ℕ, zero, suc, ◌+◌, ◌≤◌, ◌<◌, ◌≡◌, refl, ap, ◌∙◌, arith, ◌⊎◌}
use hyperlogloglog.PackedMap
use hyperlogloglog.PackedMap.Lookup.{lookup}
use hyperlogloglog.HyperLogLogLog.State.{HyperLogLogLog}
use hyperlogloglog.HyperLogLogLog.Registers.{value_at, get, place, rebase_from}
use hyperlogloglog.HyperLogLogLog.Shape.{HasShape, is_some, is_exception, place-IsPlaced}

pub get-value_at : (h : HyperLogLogLog) (j : ℕ) → get h j ≡ value_at h h.base j
unfolding get
get-value_at h j = refl

-- The registers from `lo` to `hi` have moved to `new_base`; the others are as they were.
pub record IsMoved (new_base lo hi : ℕ) (h h' : HyperLogLogLog) : Type 0 where
  pub shape : HasShape h'
  pub m : h'.m ≡ h.m
  pub base_kept : h'.base ≡ h.base
  pub lower_bound : h'.lower_bound ≡ h.lower_bound
  pub max_offset : h'.max_offset ≡ h.max_offset
  pub inside : (q : ℕ) → lo ≤ q → q < hi → value_at h' new_base q ≡ value_at h h.base q
  pub outside : (q b : ℕ) → q < h.m → (q < lo) ⊎ (hi ≤ q) → value_at h' b q ≡ value_at h b q
  pub stored :
      (q : ℕ)
      → lo ≤ q
      → q < hi
      → is_some (lookup h'.sparse q) ≡ is_exception h.max_offset new_base (value_at h h.base q)
  pub kept : (q : ℕ) → (q < lo) ⊎ (hi ≤ q) → lookup h'.sparse q ≡ lookup h.sparse q

rebase_from-suc :
    (new_base rounds i : ℕ) (h : HyperLogLogLog)
    → rebase_from new_base (suc rounds) i h
      ≡ rebase_from new_base rounds
          (i + 1)
          (place h new_base (PackedMap.find h.sparse i) i (value_at h h.base i))
unfolding rebase_from
rebase_from-suc new_base rounds i h = refl

rebase_from-zero : (new_base i : ℕ) (h : HyperLogLogLog) → rebase_from new_base zero i h ≡ h
unfolding rebase_from
rebase_from-zero new_base i h = refl

pub rebase_from-IsMoved :
    (new_base rounds i hi : ℕ) {h : HyperLogLogLog}
    → HasShape h
    → ((j : ℕ) → i ≤ j → j < h.m → value_at h h.base j < 64)
    → i + rounds ≡ hi
    → hi ≤ h.m
    → IsMoved new_base i hi h (rebase_from new_base rounds i h)
rebase_from-IsMoved new_base zero i hi {h} shape ranks e le =
    rw (rebase_from-zero new_base i h) (record {
      shape = shape;
      m = refl;
      base_kept = refl;
      lower_bound = refl;
      max_offset = refl;
      inside = λ q p r. absurd (omega arith);
      outside = λ q b p r. refl;
      stored = λ q p r. absurd (omega arith);
      kept = λ q p. refl;
    })
rebase_from-IsMoved new_base (suc rounds) i hi {h} shape ranks e le =
    let hi_m : i < h.m = omega arith in
    let r = value_at h h.base i in
    let one = place-IsPlaced new_base i r shape hi_m (ranks i (omega arith) hi_m) in
    let h₁ = place h new_base (PackedMap.find h.sparse i) i r in
    let ranks₁ : (j : ℕ) → i + 1 ≤ j → j < h₁.m → value_at h₁ h₁.base j < 64 = λ j p q.
      ground (
        arith,
        ap (λ (b : ℕ). value_at h₁ b j) one.base_kept,
        one.others j h.base,
        one.m,
        ranks j,
      ) in
    let rest =
      rebase_from-IsMoved new_base rounds (i + 1) hi one.shape ranks₁ (omega arith) (rw one.m le) in
    rw (rebase_from-suc new_base rounds i h) (record {
      shape = rest.shape;
      m = rest.m ∙ one.m;
      base_kept = rest.base_kept ∙ one.base_kept;
      lower_bound = rest.lower_bound ∙ one.lower_bound;
      max_offset = rest.max_offset ∙ one.max_offset;
      inside = λ q p s. ground (
        arith,
        rest.inside q,
        rest.outside q new_base,
        one.own,
        one.others q h.base,
        ap (λ (b : ℕ). value_at h₁ b q) one.base_kept,
        one.m,
        ap (value_at h h.base) {x = i} {y = q},
        ap (value_at (rebase_from new_base rounds (i + 1) h₁) new_base) {x = i} {y = q},
      );
      outside = λ q b p s. ground (arith, rest.outside q b, one.others q b, one.m);
      stored = λ q p s. ground (
        arith,
        rest.stored q,
        rest.kept q,
        one.stored,
        one.max_offset,
        one.others q h.base,
        ap (λ (b : ℕ). value_at h₁ b q) one.base_kept,
        ap (value_at h h.base) {x = i} {y = q},
        ap (λ (k : ℕ). is_some (lookup h₁.sparse k)) {x = i} {y = q},
      );
      kept = λ q s. ground (arith, rest.kept q, one.kept q);
    })
