-- ===== src/UnitTests/Compressed.antt =====
-- The first two loops of `test_hyperloglogzstd` of hyperlogloglog/test.cpp, for words and for
-- strings.
use hyperlogloglog.Base.{
  ◌<◌, ℕ, ◌^◌, ◌≤◌, ◌≡◌, refl, sym, subst, ap, ap₂, ◌∙◌, arith, Bool, true, ◌&&◌, List, [], ◌∷◌,
}
use hyperlogloglog.Base.Tables.{tabulate, eq-tabulate}
use hyperlogloglog.Common.{fibonacci_hash, log2i, rho}
use hyperlogloglog.Registers.{Stream, max_rank}
use hyperlogloglog.Estimate.{Floats, estimate_list}
use hyperlogloglog.HyperLogLog
use hyperlogloglog.HyperLogLog.{HyperLogLog}
use hyperlogloglog.HyperLogLog.Estimate as VanillaEstimate
use hyperlogloglog.HyperLogLogZstd
use hyperlogloglog.HyperLogLogZstd.{
  Zstd, IsLossless, HyperLogLogZstd, new, add, add_hash, estimate, export_registers,
}
use hyperlogloglog.HyperLogLogZstd.Valid.{new-IsValid, decompress-same}
use hyperlogloglog.HyperLogLogZstd.Add.{export_registers-temp}
use hyperlogloglog.Measure.RepresentZstd.{
  HasRegisters, add_jr-HasRegisters, estimate-HasRegisters, log_m-new,
}
use hyperlogloglog.Measure.Hashed.{IsUsable, hash-lt, rho-lt}
use hyperlogloglog.UnitTests.{equals, equals_refl}
use hyperlogloglog.UnitTests.Histories.{
  IsNumber, AreNumbers, exported, Holds, new-Holds, add-Holds, pair_of,
}
use hyperlogloglog.UnitTests.Adds.{AreUsable, power-le}

pub record Sketches : Type 0 where
  pub hll : HyperLogLog
  pub hllz : HyperLogLogZstd

module _ {ℓ} {F : Type ℓ} (d : Floats F) (eq : F → F → Bool) (z : Zstd) where
  unfoldable pub step {κ} : {A : Type κ} → (A → ℕ) → A → Sketches → Sketches
  step hash x t = record {
    hll = HyperLogLog.add t.hll x hash fibonacci_hash;
    hllz = add z t.hllz x hash fibonacci_hash;
  }

  -- The `REQUIRE`s; reading decompresses the sketch into its buffer.
  unfoldable pub passes : Sketches → Bool × Sketches
  passes t =
      let (e, read) = estimate z d t.hllz in
      let (registers, read') = export_registers z read in
      (
        eq (VanillaEstimate.estimate d t.hll) e
            && equals (HyperLogLog.export_registers t.hll) registers,
        record t { hllz = read' },
      )

  unfoldable pub rounds : {A : Type 0} → (A → ℕ) → List A → Sketches → Bool
  rounds hash [] t = true
  rounds hash (x ∷ xs) t =
      let (passed, t') = passes (step hash x t) in let rest = rounds hash xs t' in passed && rest

  unfoldable pub test_zstd : {A : Type 0} → ℕ → (A → ℕ) → List A → Bool
  test_zstd m hash xs = rounds hash xs (record { hll = HyperLogLog.new m; hllz = new z m })

-- The two sketches hold the same pairs.
record AreSame (z : Zstd) (m : ℕ) (t : Sketches) (s : Stream) : Type 0 where
  vanilla : Holds m t.hll s
  zipped : HasRegisters z m (max_rank s) t.hllz

module _ {ℓ} {F : Type ℓ} (d : Floats F) (eq : F → F → Bool) {z : Zstd} (laws : IsLossless z) where
  -- Reading gives what the table has, and leaves the sketch as it is.
  estimate_read :
      {m : ℕ} {g : ℕ → ℕ} {h : HyperLogLogZstd}
      → HasRegisters z m g h
      → estimate z d h ≡ (estimate_list d m (tabulate g m), h)
  unfolding estimate
  estimate_read {m} {g} {h} has =
      ap₂ (λ e (k : HyperLogLogZstd). (e, k)) (estimate-HasRegisters d laws m g h has)
        (decompress-same laws has.valid)

  export_registers_read :
      {m : ℕ} {g : ℕ → ℕ} {h : HyperLogLogZstd}
      → HasRegisters z m g h
      → export_registers z h ≡ (tabulate g m, h)
  export_registers_read {m} {g} {h} has =
      export_registers-temp laws has.valid
      ∙ ap (λ rs. (rs, h)) (eq-tabulate h.temp g m (has.valid.count ∙ has.size) has.values)

  AreSame-passes :
      {m : ℕ} {t : Sketches} {s : Stream}
      → IsNumber d eq m s
      → AreSame z m t s
      → passes d eq z t ≡ (true, t)
  unfolding passes
  AreSame-passes {m} {t} {s} number same =
      let table = tabulate (max_rank s) m in
      let list = exported s same.vanilla in
      let e =
        VanillaEstimate.estimate-export_registers d same.vanilla.valid
        ∙ ap₂ (estimate_list d) same.vanilla.size list in
      let both : (eq (VanillaEstimate.estimate d t.hll) (estimate_list d m table)
            && equals (HyperLogLog.export_registers t.hll) table)
          ≡ true =
        ground (
          arith,
          ap (λ x. eq x (estimate_list d m table)) e ∙ number,
          ap (λ rs. equals rs table) list ∙ equals_refl table,
        ) in
      rw (passes, estimate_read same.zipped, export_registers_read same.zipped)
        (ap (λ (b : Bool). (b, t)) both)

  module _ (k : ℕ) (pos : 0 < k) (le : k ≤ 30) where
    step-AreSame :
        {A : Type 0} (hash : A → ℕ) (x : A) {t : Sketches} {s : Stream}
        → IsUsable (hash x)
        → AreSame z (2 ^ k) t s
        → AreSame z (2 ^ k) (step d eq z hash x t) (pair_of (2 ^ k) (hash x) ∷ s)
    unfolding step add add_hash max_rank
    step-AreSame hash x {t} {s} usable same =
        let y = hash x in
        let has =
          add_jr-HasRegisters laws (2 ^ k) (fibonacci_hash y (log2i (2 ^ k))) (rho y) (max_rank s)
            t.hllz same.zipped (hash-lt y k pos (omega (arith, le))) (rho-lt y usable) in
        record {
          vanilla = add-Holds k pos (omega (arith, le)) hash x usable s same.vanilla;
          zipped =
              subst
                (λ l.
                  HasRegisters z (2 ^ k) (max_rank (pair_of (2 ^ k) y ∷ s))
                    (HyperLogLogZstd.add_jr z t.hllz (fibonacci_hash y l) (rho y)))
                (sym same.zipped.log_m) has;
        }

    rounds_pass :
        {A : Type 0} (hash : A → ℕ) (xs : List A) {t : Sketches} {s : Stream}
        → AreUsable hash xs
        → AreNumbers d eq (2 ^ k) (λ x. pair_of (2 ^ k) (hash x)) xs s
        → AreSame z (2 ^ k) t s
        → rounds d eq z hash xs t ≡ true
    unfolding rounds
    rounds_pass hash [] usable numbers same = refl
    rounds_pass hash (x ∷ xs) usable numbers same =
        let next = step-AreSame hash x usable.0 same in
        rw (AreSame-passes numbers.0 next) (rounds_pass hash xs usable.1 numbers.1 next)

    pub test_zstd-passes :
        {A : Type 0} (hash : A → ℕ) (xs : List A)
        → AreUsable hash xs
        → AreNumbers d eq (2 ^ k) (λ x. pair_of (2 ^ k) (hash x)) xs []
        → test_zstd d eq z (2 ^ k) hash xs ≡ true
    unfolding test_zstd max_rank
    test_zstd-passes hash xs usable numbers =
        let (valid, size, zeros) = new-IsValid laws (2 ^ k) in
        rounds_pass hash xs {s = []} usable numbers (record {
          vanilla = new-Holds (2 ^ k) (omega (arith, power-le k le));
          zipped = record {
            valid = valid;
            size = size;
            log_m = log_m-new laws (2 ^ k);
            values = λ j p. zeros j;
          };
        })
