-- ===== src/UnitTests/Bottom.antt =====
-- The loops of `test_hyperlogloglog_bottom_uint64`, `test_hyperlogloglog_bottom_str` and
-- `test_hyperlogloglog_bottom_jr` of hyperlogloglog/test.cpp.
pub mod Laws
use hyperlogloglog.Base.{
  ℕ, ◌%◌, ◌^◌, ◌≤◌, ◌<◌, ◌≡◌, refl, sym, ap, ap₂, ◌∙◌, arith, Bool, true, false, not, bit_or, ◌&&◌,
  Option, none, some, List, [], ◌∷◌, ◌==◌, leb, inl, inr, ◌+◌,
}
use hyperlogloglog.Common.{fibonacci_hash}
use hyperlogloglog.Registers.{Stream, IsInRange}
use hyperlogloglog.Estimate.{Floats, estimate_list}
use hyperlogloglog.HyperLogLogLog.State.{
  HyperLogLogLog, compress_default, bottom, when_always, when_append, type_full, type_increase, new,
  fresh, complete_flags, are_valid_flags, has,
}
use hyperlogloglog.HyperLogLogLog.Update.{add, add_jr, bit_size, export_registers}
use hyperlogloglog.HyperLogLogLog.Estimate.{estimate, estimate-export_registers}
use hyperlogloglog.HyperLogLogLog.Getters.{get_b}
use hyperlogloglog.HyperLogLogLog.Streams.{length-export_registers, get_or-export_registers}
use hyperlogloglog.HyperLogLogLog.Optimum.{minimum_bits}
use hyperlogloglog.HyperLogLogLog.History.{History, created, added}
use hyperlogloglog.HyperLogLogLog.History.Reached.{IsReached, History-IsReached}
use hyperlogloglog.HyperLogLogLog.History.Sizes.{History-new, History_agree, History_smaller}
use hyperlogloglog.HyperLogLogLog.History.Least.{History_least}
use hyperlogloglog.Measure.{◌>>=◌}
use hyperlogloglog.Measure.Hashed.{IsUsable}
use hyperlogloglog.UnitTests.{is_minimum, equals, equals_refl, least, least_is}
use hyperlogloglog.UnitTests.Histories.{pair_of}
use hyperlogloglog.UnitTests.Adds.{AreUsable, new_accepts, power-le, minimum_size, add-tested}

pub record Sketches : Type 0 where
  pub hll : HyperLogLogLog
  pub hlll1 : HyperLogLogLog
  pub hlll2 : HyperLogLogLog

unfoldable pub start : ℕ → Option Sketches
start m = do
  h ← new m 3 compress_default
  h₁ ← new m 3 bottom
  h₂ ← new m 3 compress_default
  some (record { hll = h; hlll1 = h₁; hlll2 = h₂ })

unfoldable pub step {ℓ} : {A : Type ℓ} → (A → ℕ) → A → Sketches → Sketches
step hash x t = record {
  hll = add t.hll x hash fibonacci_hash;
  hlll1 = add t.hlll1 x hash fibonacci_hash;
  hlll2 = add t.hlll2 x hash fibonacci_hash;
}

unfoldable pub step_jr : ℕ × ℕ → Sketches → Sketches
step_jr (j, r) t = record {
  hll = add_jr t.hll j r;
  hlll1 = add_jr t.hlll1 j r;
  hlll2 = add_jr t.hlll2 j r;
}

-- Whether the constructor throws.
abbrev throws : Option HyperLogLogLog → Bool
throws none = true
throws (some h) = false

-- The `REQUIRE_THROWS_AS` and the `REQUIRE_NOTHROW` before the loop.
unfoldable pub test_flags : ℕ → Bool
test_flags m =
    throws (new m 3 (bit_or bottom compress_default))
    && throws (new m 3 (bit_or bottom when_always))
    && throws (new m 3 (bit_or bottom when_append))
    && throws (new m 3 (bit_or bottom type_full))
    && throws (new m 3 (bit_or bottom type_increase))
    && not (throws (new m 3 bottom))

module _ {ℓ} {F : Type ℓ} (d : Floats F) (eq : F → F → Bool) where
  -- The `REQUIRE`s of a round, in the order of the code.
  unfoldable pub passes : Sketches → Bool
  passes t =
      let registers = export_registers t.hll in
      eq (estimate d t.hlll1) (estimate d t.hll)
      && eq (estimate d t.hlll2) (estimate d t.hll)
      && equals (export_registers t.hlll1) registers
      && equals (export_registers t.hlll2) registers
      && is_minimum (minimum_bits (export_registers t.hlll1) 3 6) (bit_size t.hlll2)
      && leb (bit_size t.hlll2) (bit_size t.hlll1)
      && (get_b t.hlll1 == least 255 registers)

  -- The loop, with one of the two ways to add what is drawn.
  unfoldable pub rounds : {A : Type 0} → (A → Sketches → Sketches) → List A → Sketches → Bool
  rounds add_to [] t = true
  rounds add_to (x ∷ xs) t = let rest = rounds add_to xs (add_to x t) in passes (add_to x t) && rest

  unfoldable pub test_bottom : {A : Type 0} → ℕ → (A → ℕ) → List A → Bool
  test_bottom m hash xs = elim (start m) [ none ↦ false | some t ↦ rounds (step hash) xs t ]

  unfoldable pub test_bottom_jr : ℕ → Stream → Bool
  test_bottom_jr m draws = elim (start m) [ none ↦ false | some t ↦ rounds step_jr draws t ]
