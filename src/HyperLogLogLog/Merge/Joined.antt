-- ===== src/HyperLogLogLog/Merge/Joined.antt =====
-- The result of `merge`.
use hyperlogloglog.Base.{ℕ, ◌%◌, ◌^◌, ◌≤◌, ◌<◌, ◌≡◌, refl, ap, ◌∙◌, arith, some, max}
use hyperlogloglog.PackedVector
use hyperlogloglog.PackedMap
use hyperlogloglog.PackedMap.Find.{find-absent}
use hyperlogloglog.HyperLogLogLog.State.{HyperLogLogLog, new, fresh}
use hyperlogloglog.HyperLogLogLog.Registers.{get}
use hyperlogloglog.HyperLogLogLog.Compress.{compress}
use hyperlogloglog.HyperLogLogLog.Merge.{merge, merge_registers}
use hyperlogloglog.HyperLogLogLog.Rebase.{IsValid, KeepsRegisters, retag-HasShape, get-value_at}
use hyperlogloglog.HyperLogLogLog.Tight.{IsTight}
use hyperlogloglog.HyperLogLogLog.Keeps.{compress-KeepsRegisters}
use hyperlogloglog.HyperLogLogLog.New.{new_iff, new-IsValid}
use hyperlogloglog.HyperLogLogLog.Merge.Filled.{IsFilled, IsFree-find}
use hyperlogloglog.HyperLogLogLog.Merge.Laws.{merge_registers-IsFilled}

-- What a merge of `a` and `b` returns; it is tight whether they are or not.
pub record IsJoined (a b h : HyperLogLogLog) : Type 0 where
  pub valid : IsValid h
  pub m : h.m ≡ a.m
  pub registers : (j : ℕ) → j < a.m → get h j ≡ max (get a j) (get b j)
  pub tight : IsTight h

-- The empty sketch that the constructor makes has no exception, and starts at 0.
new-empty :
    (m m_bits flags : ℕ) {h : HyperLogLogLog}
    → new m m_bits flags ≡ some h
    → (PackedMap.size h.sparse ≡ 0) × (h.lower_bound ≡ 0) × (h.m_bits ≡ m_bits % 2 ^ 8)
unfolding fresh PackedMap.new PackedVector.new
new-empty m m_bits flags {h} e =
    let (power, accepted, made) = (new_iff m m_bits flags h).0 e in rw made (refl, refl, refl)

module _ {a b h : HyperLogLogLog} (va : IsValid a) (vb : IsValid b) (same : b.m ≡ a.m)
    (bits : b.m_bits ≡ a.m_bits) (bits_le : a.m_bits ≤ 8)
    (made : new a.m a.m_bits a.flags ≡ some h) where
  bits_pos : 0 < a.m_bits
  bits_pos = omega (arith, va.shape.vector.elem_pos, va.shape.width)

  empty : IsValid h × (h.m ≡ a.m) × ((j : ℕ) → j < a.m → get h j ≡ 0)
  empty = new-IsValid a.m a.m_bits a.flags va.shape.small bits_pos bits_le made

  offsets : a.max_offset ≡ b.max_offset
  offsets = omega (arith, va.shape.offset, vb.shape.offset, ap (λ (e : ℕ). 2 ^ e) bits)

  start : IsFilled a b 0 (record h { base = max a.base b.base })
  start =
      let (no_keys, zero_bound, h_bits) = new-empty a.m a.m_bits a.flags made in
      let whole : h.m_bits ≡ a.m_bits = omega arith in
      record {
        shape =
            retag-HasShape h (max a.base b.base) h.lower_bound h.min_value_count h.compress_count
              h.rebase_count empty.0.shape;
        m = empty.1;
        base = refl;
        width = omega (arith, empty.0.shape.offset, va.shape.offset, ap (λ (e : ℕ). 2 ^ e) whole);
        lower = zero_bound;
        done = λ q p. absurd (omega arith);
        stored = λ q p. absurd (omega arith);
        free = λ q p hq.
            IsFree-find (record h { base = max a.base b.base }) q
              (find-absent h.sparse q empty.0.shape.map.sorted (λ i r. absurd (omega arith)));
      }

  pub written : IsFilled a b a.m (merge_registers a b h)
  written = merge_registers-IsFilled va vb same offsets h start

  pub written-get : (j : ℕ) → j < a.m → get (merge_registers a b h) j ≡ max (get a j) (get b j)
  written-get j p = get-value_at (merge_registers a b h) j ∙ written.done j p p

  pub written-IsValid : IsValid (merge_registers a b h)
  written-IsValid = record {
    shape = written.shape;
    ranks = λ j p. ground (arith, written-get j, written.m, va.ranks j, vb.ranks j);
    lower = λ j p. omega (arith, written.lower);
  }

  pub written-IsTight : IsTight (merge_registers a b h)
  written-IsTight = record {
    stored = λ q p. ground (
      arith,
      written.stored q (rw written.m at p),
      written.m,
      get-value_at (merge_registers a b h) q,
    );
  }

  kept : KeepsRegisters (merge_registers a b h) (compress (merge_registers a b h))
  kept = compress-KeepsRegisters written-IsValid

  -- Two valid sketches with equal `m`, offset bits of at most 8, exception bits and flags, from
  -- which the constructor makes a sketch, merge into a valid sketch with as many registers,
  -- each the greater of the two.
  pub merge-IsJoined :
      b.s_bits ≡ a.s_bits
      → b.flags ≡ a.flags
      → (h' : HyperLogLogLog) × (merge a b ≡ some h') × IsJoined a b h'
  merge-IsJoined s_bits flags = (
    compress (merge_registers a b h),
    unfold merge in ground (arith, made),
    record {
      valid = kept.valid;
      m = kept.m ∙ written.m;
      registers = λ j p. ground (arith, kept.same j, written.m, written-get j);
      tight = kept.tight written-IsTight;
    },
  )
