-- ===== src/Measure/Agree.antt =====
-- The benchmark reports the same estimate with each of the three sketches.
use native.Mathlib.Nat.{one-le-pow, pow-le-pow_right}
use native.Mathlib.Decide.{dec_lt}
use hyperlogloglog.Base.{
  ℕ, ◌%◌, ◌^◌, ◌≤◌, ◌<◌, ◌≡◌, refl, sym, subst, ap, ap₂, ◌∙◌, arith, true, false, Option, some,
  List, [], ◌∷◌, map,
}
use hyperlogloglog.Base.Tables.{tabulate}
use hyperlogloglog.Registers.{Stream, max_rank, IsInRange}
use hyperlogloglog.Common.{log2i}
use hyperlogloglog.Common.ByteOrder.{ByteOrder, IsByteOrder}
use hyperlogloglog.Estimate.{Floats, estimate_list}
use hyperlogloglog.Generator.{Random, Reals, rank_of}
use hyperlogloglog.Generator.Laws.{
  IsRandom, drawn_pairs, read_jr-generate_jr, drawn_pairs-IsInRange,
}
use hyperlogloglog.Generator.Main as Generator
use hyperlogloglog.Generator.Main.{jr, is_jr, is_str, is_set, value_of, generate}
use hyperlogloglog.HyperLogLogZstd.{Zstd, IsLossless}
use hyperlogloglog.HyperLogLogLog.State.{complete_flags, are_valid_flags}
use hyperlogloglog.Measure.{Farm, Item, Report, Mode}
use hyperlogloglog.Measure.Laws.{pair_of, stream_of}
use hyperlogloglog.Measure.Modes.{measure-estimate}
use hyperlogloglog.Measure.Represent.{hyper_log_log-IsSketch}
use hyperlogloglog.Measure.RepresentZstd.{hyper_log_log_zstd-IsSketch}
use hyperlogloglog.Measure.RepresentLogLogLog.{hyper_log_log_log-IsSketch}
use hyperlogloglog.Measure.Main.{
  AlgorithmName, hyper_log_log, hyper_log_log_zstd, hyper_log_log_log, hash_only, FlagName,
  Arguments, measured, is_hash_only, flags_of, item_of_pair, read_data, measure_data, measure_type,
  run, main, AreAccepted, flags_of-accepted, main-accepts,
}

module _ {ℓ} {F : Type ℓ} (farm : Farm) (d : Floats F) {z : Zstd} (laws : IsLossless z)
    (o : ByteOrder) where
  -- Each of the sketches.
  pub measure_data-estimate :
      (mode : Mode) (algo : AlgorithmName) (k flags : ℕ) (items : List Item)
      → is_hash_only algo ≡ false
      → k ≤ 30
      → are_valid_flags (complete_flags (flags % 2 ^ 8)) ≡ true
      → IsInRange (2 ^ k) (stream_of farm (2 ^ k) items)
      → (r : Report F) × (measure_data farm d z o mode algo (2 ^ k) flags items ≡ some r)
        × (r.estimate
            ≡ estimate_list d
                (2 ^ k)
                (tabulate (λ j. max_rank (stream_of farm (2 ^ k) items) j) (2 ^ k)))
  unfolding measure_data
  measure_data-estimate mode hyper_log_log k flags items h le accepted range =
      measure-estimate farm (hyper_log_log-IsSketch d) mode k flags items le accepted range
  measure_data-estimate mode hyper_log_log_zstd k flags items h le accepted range =
      measure-estimate farm (hyper_log_log_zstd-IsSketch d laws) mode k flags items le accepted
        range
  measure_data-estimate mode hyper_log_log_log k flags items h le accepted range =
      measure-estimate farm (hyper_log_log_log-IsSketch d) mode k flags items le accepted range
  measure_data-estimate mode hash_only k flags items h le accepted range =
      absurd (ground (arith, h))

log_small : (k : ℕ) → 2 ^ k < 2 ^ 31 → k ≤ 30
log_small k h = elim (dec_lt k 31) [
  | yes p ↦ omega arith
  | no p ↦
      absurd
        (omega (arith, h, pow-le-pow_right {n = 2} (omega arith) {i = 31} {j = k} (omega arith)))
]

module _ {ℓ} {F : Type ℓ} (farm : Farm) (d : Floats F) {z : Zstd} (laws : IsLossless z)
    (o : ByteOrder) where
  -- Take a lossless zstd, arguments that `main` accepts, with one of the three sketches and `m`
  -- below 2 ^ 31, and an input whose data have indices below `m` and ranks below 64. `main`
  -- then measures, and in either mode reports the estimate of the list of the greatest ranks
  -- that the data have at the indices below `m`.
  pub main-estimate :
      (a : Arguments) (input : List ℕ)
      → AreAccepted a
      → is_hash_only a.algo ≡ false
      → a.m < 2 ^ 31
      → IsInRange a.m (stream_of farm a.m (read_data o a.dt a.n (value_of a.len) input))
      → (r : Report F) × (main farm d z o (some a) input ≡ measured (some r))
        × (r.estimate
            ≡ estimate_list d a.m (
                tabulate
                  (λ j.
                    max_rank (stream_of farm a.m (read_data o a.dt a.n (value_of a.len) input)) j)
                  a.m))
  unfolding run measure_type
  main-estimate a input ok sketch small range =
      let items = read_data o a.dt a.n (value_of a.len) input in
      let k = log2i a.m in
      let le : k ≤ 30 = log_small k (omega (arith, small, ok.power)) in
      let (r, e, same) =
        measure_data-estimate farm d laws o a.mode a.algo k (flags_of a.flags) items sketch le
          (flags_of-accepted a.flags) (rw (← ok.power) range) in
      let e' : run farm d z o a input ≡ some r =
        subst (λ m. measure_data farm d z o a.mode a.algo m (flags_of a.flags) items ≡ some r)
          (sym ok.power) e in
      (
        r,
        main-accepts farm d z o a input ok ∙ ap measured e',
        subst
            (λ m.
              r.estimate
              ≡ estimate_list d m (tabulate (λ j. max_rank (stream_of farm m items) j) m))
            (sym ok.power) same,
      )

  -- Take a lossless zstd and two sets of arguments that `main` accepts, which differ at most in
  -- the mode, the sketch and the flags, with one of the three sketches each and `m` below 2 ^
  -- 31, and an input whose data have indices below `m` and ranks below 64. The two runs of the
  -- benchmark report the same estimate.
  pub main_agree :
      (a : Arguments) (input : List ℕ) (mode : Mode) (algo : AlgorithmName)
      (flags : Option FlagName)
      → AreAccepted a
      → AreAccepted (record a { mode = mode; algo = algo; flags = flags })
      → is_hash_only a.algo ≡ false
      → is_hash_only algo ≡ false
      → a.m < 2 ^ 31
      → IsInRange a.m (stream_of farm a.m (read_data o a.dt a.n (value_of a.len) input))
      → (r s : Report F) × (main farm d z o (some a) input ≡ measured (some r))
        × (main farm d z o (some (record a { mode = mode; algo = algo; flags = flags })) input
            ≡ measured (some s))
        × (r.estimate ≡ s.estimate)
  main_agree a input mode algo flags ok ok' sketch sketch' small range =
      let b : Arguments = record a { mode = mode; algo = algo; flags = flags } in
      let (r, er, same) = main-estimate a input ok sketch small range in
      let (s, es, same') = main-estimate b input ok' sketch' small range in
      (r, s, er, es, same ∙ sym same')

-- A pair of `int`s that are not negative is what `addJr` is given.
stream_of-pairs :
    (farm : Farm) (m : ℕ) (s : Stream)
    → m < 2 ^ 31
    → IsInRange m s
    → stream_of farm m (map item_of_pair s) ≡ s
unfolding stream_of pair_of
stream_of-pairs farm m [] small range = refl
stream_of-pairs farm m ((j, r) ∷ s) small range =
    ap₂ ◌∷◌ (ap₂ (λ (x y : ℕ). (x, y)) (ground (arith, range.0)) (ground (arith, range.1)))
      (stream_of-pairs farm m s small range.2)

module _ {ℓ κ κ'} {F : Type ℓ} (farm : Farm) (d : Floats F) {z : Zstd} (laws : IsLossless z)
    (o : ByteOrder) (swap : IsByteOrder o) {R : Type κ} {G : Type κ'} (random : Random R G)
    (fair : IsRandom random) (reals : Reals G) (seeded : ℕ → R) where
  -- Take a lossless zstd, a byte order that is undone by itself, draws within their ranges and
  -- ranks below 64. Take arguments of the generator for pairs, and arguments that the `main` of
  -- the benchmark accepts, with one of the three sketches and `m` below 2 ^ 31; both are for
  -- the same numbers of pairs and of registers. On what the generator writes, the benchmark
  -- reports the estimate of the list of the greatest ranks of the drawn pairs.
  pub generated_estimate :
      (g : Generator.Arguments) (a : Arguments)
      → g.dt ≡ jr
      → g.m ≡ some a.m
      → a.dt ≡ jr
      → a.n ≡ g.n
      → AreAccepted a
      → is_hash_only a.algo ≡ false
      → a.m < 2 ^ 31
      → ((c : G) → rank_of random reals o c < 64)
      → (r : Report F) × (main farm d z o (some a) (generate random reals o seeded g)
          ≡ measured (some r))
        × (r.estimate
            ≡ estimate_list d a.m (
                tabulate
                  (λ j. max_rank (drawn_pairs random reals o g.n a.m (seeded g.seed)) j)
                  a.m))
  unfolding generate read_data
  generated_estimate g a dt m dt' n ok sketch small ranks =
      let s = drawn_pairs random reals o g.n a.m (seeded g.seed) in
      let range : IsInRange a.m s =
        drawn_pairs-IsInRange random reals o fair swap g.n a.m (seeded g.seed)
          (omega (arith, ok.power, one-le-pow (log2i a.m) 2 (omega arith))) small ranks in
      let input = generate random reals o seeded g in
      let whole : stream_of farm a.m (read_data o a.dt a.n (value_of a.len) input) ≡ s =
        rw (dt', n, dt, m)
          (ap (λ t. stream_of farm a.m (map item_of_pair t))
              (read_jr-generate_jr random reals o fair swap (seeded g.seed) g.n a.m
                (λ c. omega (arith, ranks c)))
            ∙ stream_of-pairs farm a.m s small range) in
      let (r, e, same) = main-estimate farm d laws o a input ok sketch small (rw whole range) in
      (r, e, same ∙ ap (λ t. estimate_list d a.m (tabulate (λ j. max_rank t j) a.m)) whole)
