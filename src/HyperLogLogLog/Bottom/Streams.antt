-- ===== src/HyperLogLogLog/Bottom/Streams.antt =====
-- The bottom mode after `addJr` and after streams.
use hyperlogloglog.Base.{
  ℕ, ◌+◌, ◌-◌, ◌%◌, ◌^◌, ◌≤◌, ◌<◌, ◌≡◌, refl, sym, subst, ap, ap₂, ◌∙◌, arith, Bool, true, false,
  ◌&&◌, ◌||◌, some, [], ◌∷◌, inl, inr, Bool-cases, ltb, leb, ◌==◌, if◌then◌else◌,
}
use native.Mathlib.Nat.{one-le-pow}
use hyperlogloglog.Common.{log2i}
use hyperlogloglog.PackedMap
use hyperlogloglog.Registers.{Stream, IsInRange}
use hyperlogloglog.HyperLogLogLog.State.{
  HyperLogLogLog, bottom, has, when_always, when_append, complete_flags, new, fresh,
}
use hyperlogloglog.HyperLogLogLog.Registers.{get, value_at, place}
use hyperlogloglog.HyperLogLogLog.Compress.{compress}
use hyperlogloglog.HyperLogLogLog.Update.{update, is_size_increased, add_jr}
use hyperlogloglog.HyperLogLogLog.Rebase.{IsValid}
use hyperlogloglog.HyperLogLogLog.Refine.{update-IsRaised, add_jr-IsRaised, old-get}
use hyperlogloglog.HyperLogLogLog.New.{new_iff, new-IsValid}
use hyperlogloglog.HyperLogLogLog.Streams.{adds, adds-IsAdded}
use hyperlogloglog.HyperLogLogLog.Occurrences.{
  occurrences, occurrences-le, occurrences_ext, occurrences_zero, occurrences_raised,
}
use hyperlogloglog.HyperLogLogLog.Bottom.{IsBottom}
use hyperlogloglog.HyperLogLogLog.Bottom.Compress.{compress-IsBottom}

-- With the bottom flag, `addJr` compresses exactly if no least register is left.
both : (test : Bool) → (test && true) ≡ test
both true = refl
both false = refl

only_count :
    (updated increased : Bool) (flags count : ℕ)
    → flags ≡ bottom
    → ((updated && has flags when_always)
        || (increased && has flags when_append)
        || (count == 0 && flags == bottom))
      ≡ (count == 0)
only_count true true flags count e = rw e (both (count == 0))
only_count true false flags count e = rw e (both (count == 0))
only_count false true flags count e = rw e (both (count == 0))
only_count false false flags count e = rw e (both (count == 0))

maybe_compressed :
    (updated increased : Bool) (x : HyperLogLogLog)
    → x.flags ≡ bottom
    → IsBottom (if x.min_value_count == 0 then compress x else x)
    → IsBottom (
        if (updated && has x.flags when_always)
          || (increased && has x.flags when_append)
          || (x.min_value_count == 0 && x.flags == bottom)
        then compress x
        else x)
maybe_compressed updated increased x e least =
    subst (λ test. IsBottom (if test then compress x else x))
      (sym (only_count updated increased x.flags x.min_value_count e)) least

module _ {h : HyperLogLogLog} (j r : ℕ) (valid : IsValid h) (least : IsBottom h) (hj : j < h.m)
    (hr : r < 64) where
  abbrev r0 : ℕ
  r0 = value_at h h.base j

  abbrev h' : HyperLogLogLog
  h' = update h j r (PackedMap.find h.sparse j) r0

  -- `update` counts a least register that is raised.
  update-fields :
      (h'.flags ≡ h.flags)
      × (h'.base ≡ h.base)
      × (h'.lower_bound ≡ h.lower_bound)
      × (h'.min_value_count ≡ (
          if r0 == h.lower_bound
          then (h.min_value_count + (2 ^ 32 - 1)) % 2 ^ 32
          else h.min_value_count))
  unfolding update place
  update-fields = (ground arith, ground arith, ground arith, ground arith)

  update-count : r0 < r → h'.min_value_count ≡ occurrences (get h') h.lower_bound h.m
  update-count lt =
      let raised = update-IsRaised j r valid hj hr lt in
      let own : get h' j ≡ r = ground (arith, raised.registers j hj, old-get j r valid hj hr) in
      let once =
        occurrences_raised (get h) (get h') h.lower_bound h.m j hj
          (λ i p ne. ground (arith, raised.registers i p))
          (ground (arith, own, valid.lower j hj, old-get j r valid hj hr)) in
      let bound = occurrences-le (get h) h.lower_bound h.m in
      ground (
        arith,
        update-fields.3,
        once,
        bound,
        least.count,
        least.some_least,
        valid.shape.small,
        old-get j r valid hj hr,
      )

  updated-IsBottom : r0 < r → IsBottom (if h'.min_value_count == 0 then compress h' else h')
  updated-IsBottom lt =
      let raised = update-IsRaised j r valid hj hr lt in
      let (flags, base, lower, _) = update-fields in
      let whole = ap₂ (λ l m. occurrences (get h') l m) lower raised.m in
      elim (Bool-cases (h'.min_value_count == 0)) [
        | inl e ↦ rw e (
            compress-IsBottom raised.valid (flags ∙ least.flags) (omega (arith, raised.m, hj))
              (omega (arith, raised.m, valid.shape.small))
              (λ i p. omega (arith, base, least.base, lower, raised.valid.lower i p)))
        | inr e ↦ rw e (record {
          flags = flags ∙ least.flags;
          base = base ∙ least.base ∙ sym lower;
          count = update-count lt ∙ sym whole;
          some_least = ground (arith, e);
        })
      ]

  pub add_jr-IsBottom : IsBottom (add_jr h j r)
  unfolding add_jr
  add_jr-IsBottom = elim (Bool-cases (leb r h.lower_bound)) [
    | inl e ↦ rw e least
    | inr e ↦ rw e (elim (Bool-cases (ltb r0 r)) [
      | inl up ↦ rw up (
          maybe_compressed true (is_size_increased h r (PackedMap.find h.sparse j)) h'
            (update-fields.0 ∙ least.flags) (updated-IsBottom (ground (arith, up))))
      | inr down ↦
          rw down (maybe_compressed false false h least.flags (ground (arith, least.some_least)))
    ])
  ]

-- A stream keeps the bottom mode.
pub adds-IsBottom :
    (s : Stream) {h : HyperLogLogLog}
    → IsValid h
    → IsBottom h
    → IsInRange h.m s
    → IsBottom (adds h s)
unfolding adds
adds-IsBottom [] valid least range = least
adds-IsBottom ((j, r) ∷ s) {h} valid least range =
    let raised = add_jr-IsRaised j r valid range.0 range.1 in
    adds-IsBottom s raised.valid (add_jr-IsBottom j r valid least range.0 range.1)
      (rw raised.m range.2)

pub fresh-fields :
    (m m_bits : ℕ)
    → ((fresh m m_bits (complete_flags (bottom % 2 ^ 8))).flags ≡ bottom)
      × ((fresh m m_bits (complete_flags (bottom % 2 ^ 8))).base ≡ 0)
      × ((fresh m m_bits (complete_flags (bottom % 2 ^ 8))).lower_bound ≡ 0)
      × ((fresh m m_bits (complete_flags (bottom % 2 ^ 8))).min_value_count ≡ m)
unfolding fresh complete_flags
fresh-fields m m_bits = (refl, refl, refl, refl)

-- The empty sketch is in the bottom mode.
pub new-IsBottom :
    (m m_bits : ℕ) {h : HyperLogLogLog}
    → m ≤ 2 ^ 30
    → 0 < m_bits
    → m_bits ≤ 8
    → new m m_bits bottom ≡ some h
    → IsBottom h
new-IsBottom m m_bits {h} small pos le e =
    let (power, accepted, made) = (new_iff m m_bits bottom h).0 e in
    let (flags, base, lower, count) = fresh-fields m m_bits in
    let (valid, size, zeros) = new-IsValid m m_bits bottom small pos le e in
    let all : occurrences (get h) 0 m ≡ m =
      occurrences_ext (get h) (λ i. 0) 0 m zeros ∙ occurrences_zero 0 m in
    let h_lower : h.lower_bound ≡ 0 = ap (λ k. k.lower_bound) made ∙ lower in
    let h_count : h.min_value_count ≡ m = ap (λ k. k.min_value_count) made ∙ count in
    record {
      flags = ap (λ k. k.flags) made ∙ flags;
      base = ap (λ k. k.base) made ∙ base ∙ sym h_lower;
      count = h_count ∙ sym (ap₂ (λ l n. occurrences (get h) l n) h_lower size ∙ all);
      some_least = omega (arith, h_count, power, one-le-pow (log2i m) 2 (omega arith));
    }

-- Take a sketch that the constructor makes with the bottom flag, at most 2 ^ 30 registers and
-- offsets of 1 to 8 bits, and a stream whose indices are below `m` and whose ranks are below
-- 64. After the stream, the base and the lower bound are equal and at most every register, and
-- `minValueCount` is the number of registers that are equal to them, which is not 0.
pub adds-least :
    (m m_bits : ℕ) {h : HyperLogLogLog} (s : Stream)
    → m ≤ 2 ^ 30
    → 0 < m_bits
    → m_bits ≤ 8
    → new m m_bits bottom ≡ some h
    → IsInRange m s
    → ((adds h s).base ≡ (adds h s).lower_bound)
      × ((j : ℕ) → j < (adds h s).m → (adds h s).base ≤ get (adds h s) j)
      × ((adds h s).min_value_count ≡ occurrences (get (adds h s)) (adds h s).base (adds h s).m)
      × (0 < (adds h s).min_value_count)
adds-least m m_bits {h} s small pos le e range =
    let (valid, size, zeros) = new-IsValid m m_bits bottom small pos le e in
    let in_h : IsInRange h.m s = rw size range in
    let least = adds-IsBottom s valid (new-IsBottom m m_bits small pos le e) in_h in
    let after = adds-IsAdded s valid in_h in
    (
      least.base,
      λ j p. omega (arith, least.base, after.valid.lower j p),
      least.count ∙ ap (λ l. occurrences (get (adds h s)) l (adds h s).m) (sym least.base),
      least.some_least,
    )
