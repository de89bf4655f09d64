-- ===== src/UnitTests/Adds.antt =====
-- `test_hyperlogloglog_uint64` and `test_hyperlogloglog_string` of hyperlogloglog/test.cpp, which
-- draw words and strings in the same way. The size is far below 2 ^ 31 there, so that the cast
-- to `int` keeps it.
use hyperlogloglog.Base.{
  ◌<◌, ℕ, ◌%◌, ◌^◌, ◌≤◌, ◌≡◌, refl, sym, ap, arith, Bool, true, false, ◌&&◌, Option, none, some,
  List, [], ◌∷◌,
}
use native.Mathlib.Nat.{pow-le-pow_right}
use hyperlogloglog.Common.{fibonacci_hash}
use hyperlogloglog.Common.Log.{log2i-pow}
use hyperlogloglog.Registers.{Stream}
use hyperlogloglog.Estimate.{Floats}
use hyperlogloglog.HyperLogLog
use hyperlogloglog.HyperLogLog.{HyperLogLog}
use hyperlogloglog.HyperLogLog.Estimate as VanillaEstimate
use hyperlogloglog.HyperLogLogLog.State.{
  HyperLogLogLog, compress_default, when_append, type_increase, new, fresh, complete_flags,
  are_valid_flags,
}
use hyperlogloglog.HyperLogLogLog.New.{new_iff}
use hyperlogloglog.HyperLogLogLog.Update.{add, bit_size, export_registers}
use hyperlogloglog.HyperLogLogLog.Estimate.{estimate}
use hyperlogloglog.HyperLogLogLog.Optimum.{minimum_bits}
use hyperlogloglog.HyperLogLogLog.History.{History, created}
use hyperlogloglog.HyperLogLogLog.History.Sizes.{History-minimum_bits}
use hyperlogloglog.Measure.{◌>>=◌}
use hyperlogloglog.Measure.Hashed.{IsUsable}
use hyperlogloglog.UnitTests.{equals, is_minimum}
use hyperlogloglog.UnitTests.Histories.{
  Holds, new-Holds, add-Holds, add-History, equals_agree, eq_agree, pair_of, IsNumber, AreNumbers,
}

pub record Sketches : Type 0 where
  pub hlll1 : HyperLogLogLog
  pub hlll2 : HyperLogLogLog
  pub hlll3 : HyperLogLogLog
  pub hll : HyperLogLog

unfoldable pub start : ℕ → Option Sketches
start m = do
  h₁ ← new m 3 compress_default
  h₂ ← new m 3 when_append
  h₃ ← new m 3 type_increase
  some (record { hlll1 = h₁; hlll2 = h₂; hlll3 = h₃; hll = HyperLogLog.new m })

-- The body of the loop before the first `REQUIRE`.
unfoldable pub step {ℓ} : {A : Type ℓ} → (A → ℕ) → A → Sketches → Sketches
step hash x t = record {
  hlll1 = add t.hlll1 x hash fibonacci_hash;
  hlll2 = add t.hlll2 x hash fibonacci_hash;
  hlll3 = add t.hlll3 x hash fibonacci_hash;
  hll = HyperLogLog.add t.hll x hash fibonacci_hash;
}

-- `eq` is the `==` of two values of type `double`.
module _ {ℓ} {F : Type ℓ} (d : Floats F) (eq : F → F → Bool) where
  unfoldable pub passes : Sketches → Bool
  passes t =
      let e = VanillaEstimate.estimate d t.hll in
      let registers = HyperLogLog.export_registers t.hll in
      eq (estimate d t.hlll1) e
      && eq (estimate d t.hlll2) e
      && eq (estimate d t.hlll3) e
      && equals (export_registers t.hlll1) registers
      && equals (export_registers t.hlll2) registers
      && equals (export_registers t.hlll3) registers
      && is_minimum (minimum_bits (export_registers t.hlll1) 3 6) (bit_size t.hlll1)

  unfoldable pub rounds : {A : Type 0} → (A → ℕ) → List A → Sketches → Bool
  rounds hash [] t = true
  rounds hash (x ∷ xs) t =
      let rest = rounds hash xs (step hash x t) in passes (step hash x t) && rest

  unfoldable pub test_adds : {A : Type 0} → ℕ → (A → ℕ) → List A → Bool
  test_adds m hash xs = elim (start m) [ none ↦ false | some t ↦ rounds hash xs t ]

abbrev pub AreUsable {ℓ} : {A : Type ℓ} → (A → ℕ) → List A → Type 0
AreUsable hash [] = Unit {0}
AreUsable hash (x ∷ xs) = IsUsable (hash x) × AreUsable hash xs

-- The constructor accepts a power of two with the flags that the tests use.
pub new_accepts :
    (k m_bits flags : ℕ)
    → are_valid_flags (complete_flags (flags % 2 ^ 8)) ≡ true
    → new (2 ^ k) m_bits flags ≡ some (fresh (2 ^ k) m_bits (complete_flags (flags % 2 ^ 8)))
new_accepts k m_bits flags ok =
    (new_iff (2 ^ k) m_bits flags _).1 (ap (λ (e : ℕ). 2 ^ e) (sym (log2i-pow k)), ok, refl)

-- The sketches of the test hold the same pairs.
record AreSame (m : ℕ) (t : Sketches) (s : Stream) : Type 0 where
  first : History m 3 compress_default t.hlll1 s
  second : History m 3 when_append t.hlll2 s
  third : History m 3 type_increase t.hlll3 s
  vanilla : Holds m t.hll s

module _ (k : ℕ) (le : k ≤ 30) where
  pub power-le : 2 ^ k ≤ 2 ^ 30
  power-le = pow-le-pow_right {n = 2} (omega arith) {i = k} {j = 30} le

  start-AreSame : (t : Sketches) × (start (2 ^ k) ≡ some t) × AreSame (2 ^ k) t []
  unfolding start complete_flags are_valid_flags
  start-AreSame =
      let e₁ = new_accepts k 3 compress_default refl in
      let e₂ = new_accepts k 3 when_append refl in
      let e₃ = new_accepts k 3 type_increase refl in
      (
        _,
        rw (e₁, e₂, e₃) refl,
        record {
          first = created e₁;
          second = created e₂;
          third = created e₃;
          vanilla = new-Holds (2 ^ k) (omega (arith, power-le));
        },
      )

  -- With the default flags the size is the least one.
  pub minimum_size :
      {h : HyperLogLogLog} {s : Stream}
      → k ≤ 25
      → History (2 ^ k) 3 compress_default h s
      → minimum_bits (export_registers h) 3 6 ≡ some (bit_size h)
  unfolding complete_flags are_valid_flags fresh
  minimum_size few history =
      History-minimum_bits (2 ^ k) 3 power-le (omega arith) (omega arith) compress_default
        (new_accepts k 3 compress_default refl) refl refl
        (pow-le-pow_right {n = 2} (omega arith) {i = k} {j = 25} few) history

  pub add-tested :
      {A : Type 0} (hash : A → ℕ) (x : A) {flags : ℕ} {h : HyperLogLogLog} {s : Stream}
      → 0 < k
      → IsUsable (hash x)
      → History (2 ^ k) 3 flags h s
      → History (2 ^ k) 3 flags (add h x hash fibonacci_hash) (pair_of (2 ^ k) (hash x) ∷ s)
  add-tested hash x pos usable =
      add-History k pos (omega (arith, le)) hash x usable power-le (omega arith) (omega arith)

  step-AreSame :
      {A : Type 0} (hash : A → ℕ) (x : A) {t : Sketches} {s : Stream}
      → 0 < k
      → IsUsable (hash x)
      → AreSame (2 ^ k) t s
      → AreSame (2 ^ k) (step hash x t) (pair_of (2 ^ k) (hash x) ∷ s)
  unfolding step
  step-AreSame hash x {t} {s} pos usable same = record {
    first = add-tested hash x pos usable same.first;
    second = add-tested hash x pos usable same.second;
    third = add-tested hash x pos usable same.third;
    vanilla = add-Holds k pos (omega (arith, le)) hash x usable s same.vanilla;
  }

  module _ {ℓ} {F : Type ℓ} (d : Floats F) (eq : F → F → Bool) (pos : 0 < k) (few : k ≤ 25) where
    AreSame-passes :
        {t : Sketches} {s : Stream}
        → IsNumber d eq (2 ^ k) s
        → AreSame (2 ^ k) t s
        → passes d eq t ≡ true
    unfolding passes is_minimum
    AreSame-passes {t} {s} number same = ground (
      arith,
      eq_agree (2 ^ k) 3 compress_default power-le (omega arith) (omega arith) same.first
          same.vanilla d eq number,
      eq_agree (2 ^ k) 3 when_append power-le (omega arith) (omega arith) same.second same.vanilla d
          eq number,
      eq_agree (2 ^ k) 3 type_increase power-le (omega arith) (omega arith) same.third same.vanilla
          d eq number,
      equals_agree (2 ^ k) 3 compress_default power-le (omega arith) (omega arith) same.first
          same.vanilla,
      equals_agree (2 ^ k) 3 when_append power-le (omega arith) (omega arith) same.second
          same.vanilla,
      equals_agree (2 ^ k) 3 type_increase power-le (omega arith) (omega arith) same.third
          same.vanilla,
      minimum_size few same.first,
    )

    rounds_pass :
        {A : Type 0} (hash : A → ℕ) (xs : List A) {t : Sketches} {s : Stream}
        → AreUsable hash xs
        → AreNumbers d eq (2 ^ k) (λ x. pair_of (2 ^ k) (hash x)) xs s
        → AreSame (2 ^ k) t s
        → rounds d eq hash xs t ≡ true
    unfolding rounds
    rounds_pass hash [] usable numbers same = refl
    rounds_pass hash (x ∷ xs) usable numbers same =
        let next = step-AreSame hash x pos usable.0 same in
        rw (AreSame-passes numbers.0 next) (rounds_pass hash xs usable.1 numbers.1 next)

    pub test_adds-passes :
        {A : Type 0} (hash : A → ℕ) (xs : List A)
        → AreUsable hash xs
        → AreNumbers d eq (2 ^ k) (λ x. pair_of (2 ^ k) (hash x)) xs []
        → test_adds d eq (2 ^ k) hash xs ≡ true
    unfolding test_adds
    test_adds-passes hash xs usable numbers =
        let (t, e, same) = start-AreSame in
        rw (e, test_adds) (rounds_pass hash xs usable numbers same)
