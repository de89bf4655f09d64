-- ===== src/HyperLogLogLog/New.antt =====
-- What the constructor accepts, and the empty sketch that it makes.
use native.Mathlib.Nat.{one-le-pow, mul-le-mul, pow-le-pow_right}
use native.Mathlib.Decide.{dec_lt}
use hyperlogloglog.Base.{
  ℕ, ◌+◌, ◌%◌, ◌^◌, ◌≤◌, ◌<◌, ◌≡◌, ◌↔◌, refl, ap, ◌∙◌, arith, true, none, some,
}
use hyperlogloglog.Common.{log2i}
use hyperlogloglog.Common.Log.{log2i-pow, pow-lt-pow_right}
use hyperlogloglog.PackedVector
use hyperlogloglog.PackedVector.Valid
use hyperlogloglog.PackedVector.Elements.{get-new}
use hyperlogloglog.PackedMap
use hyperlogloglog.PackedMap.Entries
use hyperlogloglog.PackedMap.Lookup.{lookup, lookup-absent}
use hyperlogloglog.HyperLogLogLog.State.{
  HyperLogLogLog, complete_flags, are_valid_flags, fresh, new,
}
use hyperlogloglog.HyperLogLogLog.Registers.{get}
use hyperlogloglog.HyperLogLogLog.Shape.{HasShape, value_or, value_at-lookup}
use hyperlogloglog.HyperLogLogLog.Rebase.{IsValid, get-value_at}

-- The constructor returns a sketch exactly if `m` is the power of two of its `log2i` and the
-- flags, cut to 8 bits and completed, are valid; the sketch is then the one of its initialisers
-- with those flags.
pub new_iff :
    (m m_bits flags : ℕ) (h : HyperLogLogLog)
    → (new m m_bits flags ≡ some h) ↔ (
        (m ≡ 2 ^ log2i m)
        × (are_valid_flags (complete_flags (flags % 2 ^ 8)) ≡ true)
        × (h ≡ fresh m m_bits (complete_flags (flags % 2 ^ 8))))
unfolding new
new_iff m m_bits flags h = ground arith

module _ (m m_bits flags : ℕ) (power : m ≡ 2 ^ log2i m) (small : m ≤ 2 ^ 30) (bits_pos : 0 < m_bits)
    (bits_le : m_bits ≤ 8) where
  log_small : log2i m ≤ 30
  log_small = elim (dec_lt 30 (log2i m)) [
    | yes p ↦ absurd (omega (arith, pow-lt-pow_right 30 (log2i m) p))
    | no p ↦ omega arith
  ]

  whole_bits : m_bits % 2 ^ 8 ≡ m_bits
  whole_bits = omega arith

  fresh-HasShape : HasShape (fresh m m_bits flags)
  unfolding fresh PackedVector.new PackedMap.new
  fresh-HasShape = record {
    power = power;
    small = small;
    vector =
        Valid.new-IsValid m m_bits m bits_pos (omega arith) (omega arith)
          (omega (arith, mul-le-mul small bits_le));
    count = refl;
    width = omega arith;
    map =
        rw (log2i-pow 6)
          (Entries.new-IsValid m (log2i m) 6 (omega arith) (omega (arith, log_small)) small);
    key_size = refl;
    value_size = log2i-pow 6;
    s_bits = log2i-pow 6;
    offset = omega (
      arith,
      ap (λ (e : ℕ). 2 ^ e) whole_bits,
      one-le-pow m_bits 2 (omega arith),
      pow-le-pow_right {n = 2} (omega arith) {i = m_bits} {j = 8} bits_le,
    );
  }

  get-fresh : (j : ℕ) → j < m → get (fresh m m_bits flags) j ≡ 0
  get-fresh j hj =
      let h = fresh m m_bits flags in
      get-value_at h j
      ∙ value_at-lookup h h.base j fresh-HasShape
      ∙ ap (λ o. value_or o (PackedVector.get h.offsets j + h.base)) no_exceptions
      ∙ no_offset
    where
      no_exceptions : lookup (fresh m m_bits flags).sparse j ≡ none
      no_exceptions =
          lookup-absent (fresh m m_bits flags).sparse j fresh-HasShape.map.sorted
            (λ i p. absurd (nothing_stored i p))
        where
          nothing_stored : (i : ℕ) → ¬ (i < PackedMap.size (fresh m m_bits flags).sparse)
          nothing_stored i p = unfold fresh PackedMap.new PackedVector.new in omega arith

      no_offset :
          PackedVector.get (fresh m m_bits flags).offsets j + (fresh m m_bits flags).base ≡ 0
      no_offset = unfold fresh in omega (arith, get-new m m_bits m j fresh-HasShape.vector hj)

  -- The empty sketch is valid, and all its registers are 0.
  pub fresh-IsValid : IsValid (fresh m m_bits flags)
  fresh-IsValid = record {
    shape = fresh-HasShape;
    ranks = λ j p. omega (arith, get-fresh j (rw m-fresh at p));
    lower = λ j p. omega (arith, lower-fresh);
  }
    where
      m-fresh : (fresh m m_bits flags).m ≡ m
      m-fresh = unfold fresh in refl

      lower-fresh : (fresh m m_bits flags).lower_bound ≡ 0
      lower-fresh = unfold fresh in refl

-- With at most 2 ^ 30 registers and 1 to 8 bits for an offset, what the constructor returns is a
-- valid sketch of `m` registers, all 0.
pub new-IsValid :
    (m m_bits flags : ℕ) {h : HyperLogLogLog}
    → m ≤ 2 ^ 30
    → 0 < m_bits
    → m_bits ≤ 8
    → new m m_bits flags ≡ some h
    → IsValid h × (h.m ≡ m) × ((j : ℕ) → j < m → get h j ≡ 0)
new-IsValid m m_bits flags {h} small pos le e =
    let (power, accepted, made) = (new_iff m m_bits flags h).0 e in
    let flags' = complete_flags (flags % 2 ^ 8) in
    rw made (
      fresh-IsValid m m_bits flags' power small pos le,
      unfold fresh in refl,
      get-fresh m m_bits flags' power small pos le,
    )
