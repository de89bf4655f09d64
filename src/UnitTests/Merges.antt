-- ===== src/UnitTests/Merges.antt =====
-- The last loop of `test_hyperlogloglog_merge` of hyperlogloglog/test.cpp.
use hyperlogloglog.Base.{
  ℕ, ◌+◌, ◌^◌, ◌≤◌, ◌<◌, ◌≡◌, refl, ap, ◌∙◌, arith, Bool, true, false, ◌&&◌, Option, none, some,
  List, [], ◌∷◌, ◌++◌, length,
}
use hyperlogloglog.Registers.{Stream, max_rank, max_rank-append}
use hyperlogloglog.Estimate.{Floats}
use hyperlogloglog.HyperLogLog
use hyperlogloglog.HyperLogLog.{HyperLogLog}
use hyperlogloglog.HyperLogLog.Estimate as VanillaEstimate
use hyperlogloglog.HyperLogLogLog.State.{
  HyperLogLogLog, compress_default, new, complete_flags, are_valid_flags,
}
use hyperlogloglog.HyperLogLogLog.Update.{add_jr, export_registers}
use hyperlogloglog.HyperLogLogLog.Merge.{merge}
use hyperlogloglog.HyperLogLogLog.Estimate.{estimate}
use hyperlogloglog.HyperLogLogLog.History.{History, created, added}
use hyperlogloglog.HyperLogLogLog.History.Sizes.{History-merge}
use hyperlogloglog.Measure.{◌>>=◌}
use hyperlogloglog.UnitTests.{equals, equals_refl}
use hyperlogloglog.UnitTests.Histories.{
  Holds, new-Holds, add_jr-Holds, registers_agree, eq_agree, IsNumber,
}
use hyperlogloglog.UnitTests.Adds.{new_accepts, power-le}

pub record Sketches : Type 0 where
  pub hlll1 : HyperLogLogLog
  pub hlll2 : HyperLogLogLog
  pub hll : HyperLogLog

unfoldable pub start : ℕ → Option Sketches
start m = do
  h₁ ← new m 3 compress_default
  h₂ ← new m 3 compress_default
  some (record { hlll1 = h₁; hlll2 = h₂; hll = HyperLogLog.new m })

-- The loop over the indices, from `j` on, with the two ranks that are drawn for each.
unfoldable pub fill : ℕ → List (ℕ × ℕ) → Sketches → Sketches
fill j [] t = t
fill j ((x, y) ∷ draws) t = fill (j + 1) draws (record {
  hlll1 = add_jr t.hlll1 j x;
  hlll2 = add_jr t.hlll2 j y;
  hll = HyperLogLog.add_jr (HyperLogLog.add_jr t.hll j x) j y;
})

module _ {ℓ} {F : Type ℓ} (d : Floats F) (eq : F → F → Bool) where
  unfoldable pub passes : Sketches → Bool
  passes t = elim (merge t.hlll1 t.hlll2) [
    | none ↦ false
    | some h ↦
        eq (estimate d h) (VanillaEstimate.estimate d t.hll)
        && equals (HyperLogLog.export_registers t.hll) (export_registers h)
  ]

  unfoldable pub trial : ℕ → List (ℕ × ℕ) → Bool
  trial m draws = elim (start m) [ none ↦ false | some t ↦ passes (fill 0 draws t) ]

  -- The trials, with the ranks that each draws.
  unfoldable pub test_merges : ℕ → List (List (ℕ × ℕ)) → Bool
  test_merges m [] = true
  test_merges m (draws ∷ rest) = let others = test_merges m rest in trial m draws && others

-- The drawn ranks are below 64.
abbrev pub AreRanks : List (ℕ × ℕ) → Type 0
AreRanks [] = Unit {0}
AreRanks ((x, y) ∷ draws) = (x < 64) × (y < 64) × AreRanks draws

-- Each trial draws for `m` indices.
abbrev pub AreDraws : ℕ → List (List (ℕ × ℕ)) → Type 0
AreDraws m [] = Unit {0}
AreDraws m (draws ∷ rest) = (length draws ≡ m) × AreRanks draws × AreDraws m rest

-- What the two sketches get, the latest pair first.
abbrev pub firsts : ℕ → List (ℕ × ℕ) → Stream → Stream
firsts j [] s = s
firsts j ((x, y) ∷ draws) s = firsts (j + 1) draws ((j, x) ∷ s)

abbrev pub seconds : ℕ → List (ℕ × ℕ) → Stream → Stream
seconds j [] s = s
seconds j ((x, y) ∷ draws) s = seconds (j + 1) draws ((j, y) ∷ s)

-- After no trial the estimate is a NaN.
abbrev pub AreTrialNumbers {ℓ} :
    {F : Type ℓ} → Floats F → (F → F → Bool) → ℕ → List (List (ℕ × ℕ)) → Type 0
AreTrialNumbers d eq m [] = Unit {0}
AreTrialNumbers d eq m (draws ∷ rest) =
    IsNumber d eq m (firsts 0 draws [] ++ seconds 0 draws []) × AreTrialNumbers d eq m rest

-- The vanilla sketch holds what the two others hold.
record AreSame (m : ℕ) (t : Sketches) (s₁ s₂ : Stream) : Type 0 where
  first : History m 3 compress_default t.hlll1 s₁
  second : History m 3 compress_default t.hlll2 s₂
  vanilla : Holds m t.hll (s₁ ++ s₂)

module _ (k : ℕ) (le : k ≤ 30) where
  start-AreSame : (t : Sketches) × (start (2 ^ k) ≡ some t) × AreSame (2 ^ k) t [] []
  unfolding start complete_flags are_valid_flags
  start-AreSame =
      let e = new_accepts k 3 compress_default refl in
      (
        _,
        rw e refl,
        record {
          first = created e;
          second = created e;
          vanilla = new-Holds (2 ^ k) (omega (arith, power-le k le));
        },
      )

  fill-AreSame :
      (j : ℕ) (draws : List (ℕ × ℕ)) {t : Sketches} {s₁ s₂ : Stream}
      → j + length draws ≤ 2 ^ k
      → AreRanks draws
      → AreSame (2 ^ k) t s₁ s₂
      → AreSame (2 ^ k) (fill j draws t) (firsts j draws s₁) (seconds j draws s₂)
  unfolding fill max_rank
  fill-AreSame j [] {t} {s₁} {s₂} bound ranks same = same
  fill-AreSame j ((x, y) ∷ draws) {t} {s₁} {s₂} bound ranks same =
      let hj : j < 2 ^ k = omega arith in
      let both =
        add_jr-Holds ((j, x) ∷ (s₁ ++ s₂)) j y (add_jr-Holds (s₁ ++ s₂) j x same.vanilla hj ranks.0)
          hj ranks.1 in
      fill-AreSame (j + 1) draws (omega arith) ranks.2 (record {
        first = added j x same.first hj ranks.0;
        second = added j y same.second hj ranks.1;
        vanilla = record {
          valid = both.valid;
          size = both.size;
          log_m = both.log_m;
          values = λ i p.
              ground (
                arith,
                both.values i p,
                max_rank-append s₁ s₂ i,
                max_rank-append s₁ ((j, y) ∷ s₂) i,
              );
        };
      })

  module _ {ℓ} {F : Type ℓ} (d : Floats F) (eq : F → F → Bool) where
    AreSame-passes :
        {t : Sketches} {s₁ s₂ : Stream}
        → IsNumber d eq (2 ^ k) (s₁ ++ s₂)
        → AreSame (2 ^ k) t s₁ s₂
        → passes d eq t ≡ true
    unfolding passes
    AreSame-passes {t} {s₁} {s₂} number same =
        let small = power-le k le in
        let (h, e, history) =
          History-merge (2 ^ k) 3 small (omega arith) (omega arith) compress_default same.first
            same.second in
        rw (e, passes)
          (ground (
            arith,
            eq_agree (2 ^ k) 3 compress_default small (omega arith) (omega arith) history
                same.vanilla d eq number,
            ap (equals (HyperLogLog.export_registers t.hll)) (
                  registers_agree (2 ^ k) 3 compress_default small (omega arith) (omega arith)
                    history same.vanilla)
                ∙ equals_refl (HyperLogLog.export_registers t.hll),
          ))

    trial-passes :
        (draws : List (ℕ × ℕ))
        → length draws ≡ 2 ^ k
        → AreRanks draws
        → IsNumber d eq (2 ^ k) (firsts 0 draws [] ++ seconds 0 draws [])
        → trial d eq (2 ^ k) draws ≡ true
    unfolding trial
    trial-passes draws size ranks number =
        let (t, e, same) = start-AreSame in
        let full = fill-AreSame 0 draws (omega (arith, size)) ranks same in
        rw (e, trial) (AreSame-passes number full)

    -- Take 2 ^ k registers, k at most 30. The last loop of the test case for `merge` passes if
    -- the ranks that are drawn for the indices are below 64 and in no trial the estimate of the
    -- greatest ranks is a NaN, which is that it is equal to itself.
    pub test_merges-passes :
        (trials : List (List (ℕ × ℕ)))
        → AreDraws (2 ^ k) trials
        → AreTrialNumbers d eq (2 ^ k) trials
        → test_merges d eq (2 ^ k) trials ≡ true
    unfolding test_merges
    test_merges-passes [] drawn numbers = refl
    test_merges-passes (draws ∷ rest) drawn numbers =
        rw (trial-passes draws drawn.0 drawn.1 numbers.0)
          (test_merges-passes rest drawn.2 numbers.1)
