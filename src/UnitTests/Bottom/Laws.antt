-- ===== src/UnitTests/Bottom/Laws.antt =====
-- The tests of the bottom mode pass, as long as no estimate is a NaN.
use hyperlogloglog.Base.{
  ℕ, ◌^◌, ◌≤◌, ◌<◌, ◌≡◌, refl, sym, ap, ap₂, ◌∙◌, arith, Bool, true, some, List, [], ◌∷◌, inr,
}
use hyperlogloglog.Common.Log.{log2i-pow}
use hyperlogloglog.Registers.{Stream, IsInRange}
use hyperlogloglog.Estimate.{Floats}
use hyperlogloglog.HyperLogLogLog.State.{
  HyperLogLogLog, compress_default, bottom, new, fresh, complete_flags, are_valid_flags,
}
use hyperlogloglog.HyperLogLogLog.Update.{export_registers}
use hyperlogloglog.HyperLogLogLog.Estimate.{estimate}
use hyperlogloglog.HyperLogLogLog.Streams.{length-export_registers, get_or-export_registers}
use hyperlogloglog.HyperLogLogLog.Optimum.{minimum_bits}
use hyperlogloglog.HyperLogLogLog.History.{History, created, added}
use hyperlogloglog.HyperLogLogLog.History.Reached.{IsReached, History-IsReached}
use hyperlogloglog.HyperLogLogLog.History.Sizes.{History-new, History_agree, History_smaller}
use hyperlogloglog.HyperLogLogLog.History.Least.{History_least}
use hyperlogloglog.Measure.Hashed.{IsUsable}
use hyperlogloglog.UnitTests.{is_minimum, equals, equals_refl, least, least_is}
use hyperlogloglog.UnitTests.Histories.{pair_of, IsNumber, AreNumbers, estimate-History}
use hyperlogloglog.UnitTests.Adds.{AreUsable, new_accepts, power-le, minimum_size, add-tested}
use hyperlogloglog.UnitTests.Bottom.{
  Sketches, start, step, step_jr, passes, rounds, test_bottom, test_bottom_jr, test_flags,
}

record AreSame (m : ℕ) (t : Sketches) (s : Stream) : Type 0 where
  plain : History m 3 compress_default t.hll s
  low : History m 3 bottom t.hlll1 s
  full : History m 3 compress_default t.hlll2 s

module _ (k : ℕ) (le : k ≤ 30) where
  start-AreSame : (t : Sketches) × (start (2 ^ k) ≡ some t) × AreSame (2 ^ k) t []
  unfolding start complete_flags are_valid_flags
  start-AreSame =
      let e = new_accepts k 3 compress_default refl in
      let e₁ = new_accepts k 3 bottom refl in
      (_, rw (e, e₁) refl, record { plain = created e; low = created e₁; full = created e })

  -- The constructor refuses the bottom flag with another one.
  pub test_flags-passes : test_flags (2 ^ k) ≡ true
  unfolding test_flags new complete_flags are_valid_flags
  test_flags-passes = ground (arith, log2i-pow k)

  step-AreSame :
      {A : Type 0} (hash : A → ℕ) (x : A) {t : Sketches} {s : Stream}
      → 0 < k
      → IsUsable (hash x)
      → AreSame (2 ^ k) t s
      → AreSame (2 ^ k) (step hash x t) (pair_of (2 ^ k) (hash x) ∷ s)
  unfolding step
  step-AreSame hash x pos usable same = record {
    plain = add-tested k le hash x pos usable same.plain;
    low = add-tested k le hash x pos usable same.low;
    full = add-tested k le hash x pos usable same.full;
  }

  step_jr-AreSame :
      (j r : ℕ) {t : Sketches} {s : Stream}
      → j < 2 ^ k
      → r < 64
      → AreSame (2 ^ k) t s
      → AreSame (2 ^ k) (step_jr (j, r) t) ((j, r) ∷ s)
  unfolding step_jr
  step_jr-AreSame j r hj hr same = record {
    plain = added j r same.plain hj hr;
    low = added j r same.low hj hr;
    full = added j r same.full hj hr;
  }

  -- Sketches of the same pairs have the same registers, and the same estimate.
  agree :
      (flags flags' : ℕ) {h h' : HyperLogLogLog} {s : Stream}
      → History (2 ^ k) 3 flags h s
      → History (2 ^ k) 3 flags' h' s
      → export_registers h ≡ export_registers h'
  agree flags flags' history other =
      History_agree (2 ^ k) 3 (power-le k le) (omega arith) (omega arith) flags flags' history other
        (λ j p. refl)

  tested-IsReached :
      (flags : ℕ) {h : HyperLogLogLog} {s : Stream} (history : History (2 ^ k) 3 flags h s)
      → IsReached (2 ^ k) (History-new history).0 h s
  tested-IsReached flags history =
      History-IsReached (2 ^ k) 3 flags (power-le k le) (omega arith) (omega arith)
        (History-new history).1 history

  -- The base is the least register.
  base-least :
      {h : HyperLogLogLog} {s : Stream}
      → History (2 ^ k) 3 bottom h s
      → least 255 (export_registers h) ≡ h.base
  base-least {h} {s} history =
      let reached = tested-IsReached bottom history in
      let (bound, low, (i, p, e), count) =
        History_least (2 ^ k) 3 (power-le k le) (omega arith) (omega arith) history in
      let size = length-export_registers h ∙ reached.size in
      let ranks = λ (j : ℕ) (q : j < 2 ^ k).
        get_or-export_registers j reached.valid (omega (arith, reached.size, q))
        ∙ reached.registers j q in
      least_is 255 h.base (export_registers h)
        (omega
          (arith, e, reached.registers i p, reached.valid.ranks i (omega (arith, reached.size, p))))
        (λ j q. omega (arith, ranks j (omega (arith, size, q)), low j (omega (arith, size, q))))
        (inr (i, omega (arith, size, p), ranks i p ∙ e))

  module _ {ℓ} {F : Type ℓ} (d : Floats F) (eq : F → F → Bool) (pos : 0 < k) (few : k ≤ 25) where
    eq_same :
        (flags flags' : ℕ) {h h' : HyperLogLogLog} {s : Stream}
        → IsNumber d eq (2 ^ k) s
        → History (2 ^ k) 3 flags h s
        → History (2 ^ k) 3 flags' h' s
        → eq (estimate d h) (estimate d h') ≡ true
    eq_same flags flags' number history other =
        ap₂ eq
          (estimate-History (2 ^ k) 3 flags (power-le k le) (omega arith) (omega arith) d history)
          (estimate-History (2 ^ k) 3 flags' (power-le k le) (omega arith) (omega arith) d other)
        ∙ number

    AreSame-passes :
        {t : Sketches} {s : Stream}
        → IsNumber d eq (2 ^ k) s
        → AreSame (2 ^ k) t s
        → passes d eq t ≡ true
    unfolding passes is_minimum complete_flags are_valid_flags fresh
    AreSame-passes {t} {s} number same =
        let low = agree bottom compress_default same.low same.plain in
        let full = agree compress_default compress_default same.full same.plain in
        let size =
          ap (λ rs. minimum_bits rs 3 6) (agree bottom compress_default same.low same.full)
          ∙ minimum_size k le few same.full in
        let smaller =
          History_smaller (2 ^ k) 3 (power-le k le) (omega arith) (omega arith) compress_default
            (new_accepts k 3 compress_default refl) refl refl bottom same.full same.low
            (λ j p. refl) in
        let base = sym (base-least same.low) ∙ ap (least 255) low in
        ground (
          arith,
          eq_same bottom compress_default number same.low same.plain,
          eq_same compress_default compress_default number same.full same.plain,
          ap (λ rs. equals rs (export_registers t.hll)) low ∙ equals_refl (export_registers t.hll),
          ap (λ rs. equals rs (export_registers t.hll)) full ∙ equals_refl (export_registers t.hll),
          size,
          smaller,
          base,
        )

    rounds_pass :
        {A : Type 0} (hash : A → ℕ) (xs : List A) {t : Sketches} {s : Stream}
        → AreUsable hash xs
        → AreNumbers d eq (2 ^ k) (λ x. pair_of (2 ^ k) (hash x)) xs s
        → AreSame (2 ^ k) t s
        → rounds d eq (step hash) xs t ≡ true
    unfolding rounds
    rounds_pass hash [] usable numbers same = refl
    rounds_pass hash (x ∷ xs) usable numbers same =
        let next = step-AreSame hash x pos usable.0 same in
        rw (AreSame-passes numbers.0 next) (rounds_pass hash xs usable.1 numbers.1 next)

    rounds_jr_pass :
        (draws : Stream) {t : Sketches} {s : Stream}
        → IsInRange (2 ^ k) draws
        → AreNumbers d eq (2 ^ k) (λ x. x) draws s
        → AreSame (2 ^ k) t s
        → rounds d eq step_jr draws t ≡ true
    unfolding rounds
    rounds_jr_pass [] range numbers same = refl
    rounds_jr_pass ((j, r) ∷ draws) range numbers same =
        let next = step_jr-AreSame j r range.0 range.1 same in
        rw (AreSame-passes numbers.0 next) (rounds_jr_pass draws range.2 numbers.1 next)

    pub test_bottom-passes :
        {A : Type 0} (hash : A → ℕ) (xs : List A)
        → AreUsable hash xs
        → AreNumbers d eq (2 ^ k) (λ x. pair_of (2 ^ k) (hash x)) xs []
        → test_bottom d eq (2 ^ k) hash xs ≡ true
    unfolding test_bottom
    test_bottom-passes hash xs usable numbers =
        let (t, e, same) = start-AreSame in
        rw (e, test_bottom) (rounds_pass hash xs usable numbers same)

    pub test_bottom_jr-passes :
        (draws : Stream)
        → IsInRange (2 ^ k) draws
        → AreNumbers d eq (2 ^ k) (λ x. x) draws []
        → test_bottom_jr d eq (2 ^ k) draws ≡ true
    unfolding test_bottom_jr
    test_bottom_jr-passes draws range numbers =
        let (t, e, same) = start-AreSame in
        rw (e, test_bottom_jr) (rounds_jr_pass draws range numbers same)
