-- ===== src/HyperLogLogLog/Rebase.antt =====
-- `rebase` moves to any other base and keeps every register.
use hyperlogloglog.HyperLogLogLog.Moved.{IsMoved, rebase_from-IsMoved}
pub use hyperlogloglog.HyperLogLogLog.Moved.{get-value_at}
use hyperlogloglog.Base.{ℕ, ◌+◌, ◌%◌, ◌^◌, ◌≤◌, ◌<◌, ◌≡◌, refl, sym, ◌∙◌, arith}
use hyperlogloglog.HyperLogLogLog.State.{HyperLogLogLog}
use hyperlogloglog.HyperLogLogLog.Registers.{value_at, get, rebase_from, rebase}
use hyperlogloglog.HyperLogLogLog.Tight.{IsTight}
use hyperlogloglog.HyperLogLogLog.Shape.{HasShape}

-- Every register is below 64 and not below the lower bound.
pub record IsValid (h : HyperLogLogLog) : Type 0 where
  pub shape : HasShape h
  pub ranks : (j : ℕ) → j < h.m → get h j < 64
  pub lower : (j : ℕ) → j < h.m → h.lower_bound ≤ get h j

-- The sketch with other counters, bound and base over the same stores.
abbrev pub retag : HyperLogLogLog → ℕ → ℕ → ℕ → ℕ → ℕ → HyperLogLogLog
retag h base lower mins compressed rebased = record h {
  base = base;
  lower_bound = lower;
  min_value_count = mins;
  compress_count = compressed;
  rebase_count = rebased;
}

module _ (h : HyperLogLogLog) (base lower mins compressed rebased : ℕ) where
  pub retag-HasShape : HasShape h → HasShape (retag h base lower mins compressed rebased)
  retag-HasShape shape = record {
    power = shape.power;
    small = shape.small;
    vector = shape.vector;
    count = shape.count;
    width = shape.width;
    map = shape.map;
    key_size = shape.key_size;
    value_size = shape.value_size;
    s_bits = shape.s_bits;
    offset = shape.offset;
  }

  pub value_at-retag :
      (b j : ℕ) → value_at (retag h base lower mins compressed rebased) b j ≡ value_at h b j
  unfolding value_at
  value_at-retag b j = refl

-- `h'` is valid, with the registers of `h`, and is tight if `h` is.
pub record KeepsRegisters (h h' : HyperLogLogLog) : Type 0 where
  pub valid : IsValid h'
  pub m : h'.m ≡ h.m
  pub same : (j : ℕ) → j < h.m → get h' j ≡ get h j
  pub tight : IsTight h → IsTight h'

pub KeepsRegisters-trans :
    {u v w : HyperLogLogLog} → KeepsRegisters u v → KeepsRegisters v w → KeepsRegisters u w
KeepsRegisters-trans s t = record {
  valid = t.valid;
  m = t.m ∙ s.m;
  same = λ j p. t.same j (rw s.m p) ∙ s.same j p;
  tight = λ x. t.tight (s.tight x);
}

-- Another lower bound that is one, and other counters, change no register.
pub retag-KeepsRegisters :
    {h : HyperLogLogLog} (lower mins compressed rebased : ℕ)
    → IsValid h
    → ((j : ℕ) → j < h.m → lower ≤ get h j)
    → KeepsRegisters h (retag h h.base lower mins compressed rebased)
unfolding get value_at
retag-KeepsRegisters {h} lower mins compressed rebased valid bound = record {
  valid = record {
    shape = retag-HasShape h h.base lower mins compressed rebased valid.shape;
    ranks = valid.ranks;
    lower = bound;
  };
  m = refl;
  same = λ j p. refl;
  tight = λ x. record { stored = x.stored };
}

-- The loop of `rebase` moves all registers.
pub rebase_from-all :
    {h : HyperLogLogLog} (new_base : ℕ)
    → IsValid h
    → IsMoved new_base 0 h.m h (rebase_from new_base h.m 0 h)
rebase_from-all {h} new_base valid =
    rebase_from-IsMoved new_base h.m 0 h.m valid.shape
      (λ j _ p. rw (← get-value_at h j) (valid.ranks j p)) (omega arith) (omega arith)

-- `rebase` of a valid sketch to any base gives a valid sketch with as many registers and the
-- same registers.
pub rebase-KeepsRegisters :
    {h : HyperLogLogLog} (new_base : ℕ) → IsValid h → KeepsRegisters h (rebase h new_base)
unfolding rebase
rebase-KeepsRegisters {h} new_base valid = record {
  valid = record {
    shape =
        retag-HasShape h' new_base h'.lower_bound h'.min_value_count h'.compress_count _
          moved.shape;
    ranks = λ j p. omega (arith, same j (rw moved.m at p), valid.ranks j (rw moved.m at p));
    lower = λ j p.
        omega (arith, moved.lower_bound, same j (rw moved.m at p), valid.lower j (rw moved.m at p));
  };
  m = moved.m;
  same = same;
  tight = λ _. tight;
}
  where
    h' : HyperLogLogLog
    h' = rebase_from new_base h.m 0 h

    moved : IsMoved new_base 0 h.m h h'
    moved = rebase_from-all new_base valid

    same : (j : ℕ) → j < h.m → get (rebase h new_base) j ≡ get h j
    same j p =
        get-value_at (rebase h new_base) j
        ∙ value_at-retag h' new_base h'.lower_bound h'.min_value_count h'.compress_count
            ((h'.rebase_count + 1) % 2 ^ 32) new_base j
        ∙ moved.inside j (omega arith) p
        ∙ sym (get-value_at h j)

    tight : IsTight (rebase h new_base)
    tight = record {
      stored = λ q p.
          ground (arith, moved.stored q, moved.max_offset, moved.m, same q, get-value_at h q);
    }

-- It sets the base.
pub base-rebase : (h : HyperLogLogLog) (new_base : ℕ) → (rebase h new_base).base ≡ new_base
unfolding rebase
base-rebase h new_base = refl
