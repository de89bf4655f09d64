-- ===== src/Tests/Benchmarks.antt =====
-- The benchmarks on small inputs.
use hyperlogloglog.Base.{ℕ, ◌^◌, ◌≡◌, ◌↔◌, refl, sym, ap, arith, false, none, some, List, [], ◌∷◌}
use hyperlogloglog.Base.Tables.{tabulate}
use hyperlogloglog.Common.Log.{log2i-pow}
use hyperlogloglog.Estimate.{estimate_list}
use hyperlogloglog.Registers.{max_rank, IsInRange}
use hyperlogloglog.Input.{load, read_words, read_pairs, read_jr}
use hyperlogloglog.Generator.{rank_of}
use hyperlogloglog.Generator.Laws.{drawn_pairs}
use hyperlogloglog.Generator.Main as Generator
use hyperlogloglog.Generator.Main.{DataType, uint64, str, jr, is_str, is_set, value_of, generate}
use hyperlogloglog.Measure.{Report, query, merge, pair, word}
use hyperlogloglog.Measure.Laws.{stream_of, pair_of}
use hyperlogloglog.Measure.Main.{
  Arguments, AreAccepted, hyper_log_log, hyper_log_log_log, bottom, measured, main, run, read_data,
}
use hyperlogloglog.Measure.Main.{measure_main_iff}
use hyperlogloglog.Measure.Agree.{main-estimate, main_agree, generated_estimate}
use hyperlogloglog.Measure.Hashed.{stream_of-IsInRange}
use hyperlogloglog.Tests.Systems.{
  little_endian, little_endian-IsByteOrder, counts, store_only, store_only-IsLossless, counter,
  counter-IsRandom, small_reals, farm,
}

-- Two pairs, (1, 5) and (3, 2), as bytes.
abbrev input : List ℕ
input = 0 ∷ 0 ∷ 0 ∷ 1 ∷ 0 ∷ 0 ∷ 0 ∷ 5 ∷ 0 ∷ 0 ∷ 0 ∷ 3 ∷ 0 ∷ 0 ∷ 0 ∷ 2 ∷ []

abbrev arguments : Arguments
arguments = record {
  help = false;
  mode = query;
  algo = hyper_log_log;
  dt = jr;
  m = 4;
  n = 2;
  flags = none;
  len = none;
}

abbrev compressed : Arguments
compressed = record arguments { mode = merge; algo = hyper_log_log_log; flags = some bottom }

arguments-AreAccepted : AreAccepted arguments
arguments-AreAccepted = record {
  help = refl;
  hash_merge = refl;
  hash_jr = refl;
  power = ap (λ k. 2 ^ k) (sym (log2i-pow 2));
  flags = refl;
  len = refl;
}

compressed-AreAccepted : AreAccepted compressed
compressed-AreAccepted = record {
  help = refl;
  hash_merge = refl;
  hash_jr = refl;
  power = ap (λ k. 2 ^ k) (sym (log2i-pow 2));
  flags = refl;
  len = refl;
}

program : Unit {0}
unfolding load read_words read_pairs read_jr read_data stream_of pair_of max_rank
program = tt

input_stream : stream_of farm 4 (read_data little_endian jr 2 0 input) ≡ (1, 5) ∷ (3, 2) ∷ []
unfolding program
input_stream = refl

IsInRange-input : IsInRange 4 (stream_of farm 4 (read_data little_endian jr 2 0 input))
unfolding program
IsInRange-input = (omega arith, omega arith, (omega arith, omega arith, tt))

main-estimate_example :
    (r : Report ℕ) × (main farm counts store_only little_endian (some arguments) input
      ≡ measured (some r))
    × (r.estimate
        ≡ estimate_list counts 4 (
            tabulate (λ j. max_rank (stream_of farm 4 (read_data little_endian jr 2 0 input)) j) 4))
main-estimate_example =
    main-estimate farm counts store_only-IsLossless little_endian arguments input
      arguments-AreAccepted refl (omega arith) IsInRange-input

main_agree_example :
    (r s : Report ℕ) × (main farm counts store_only little_endian (some arguments) input
      ≡ measured (some r))
    × (main farm counts store_only little_endian (some compressed) input ≡ measured (some s))
    × (r.estimate ≡ s.estimate)
main_agree_example =
    main_agree farm counts store_only-IsLossless little_endian arguments input merge
      hyper_log_log_log (some bottom) arguments-AreAccepted compressed-AreAccepted refl refl
      (omega arith) IsInRange-input

abbrev generator_arguments : Generator.Arguments
generator_arguments = record { help = false; n = 2; dt = jr; seed = 1; m = some 4; len = none }

generated_estimate_example :
    (r : Report ℕ) × (main farm counts store_only little_endian
        (some compressed)
        (generate counter small_reals little_endian (λ seed. seed) generator_arguments)
      ≡ measured (some r))
    × (r.estimate
        ≡ estimate_list counts 4
            (tabulate (λ j. max_rank (drawn_pairs counter small_reals little_endian 2 4 1) j) 4))
generated_estimate_example =
    generated_estimate farm counts store_only-IsLossless little_endian little_endian-IsByteOrder
      counter counter-IsRandom small_reals (λ seed. seed) generator_arguments compressed refl refl
      refl refl compressed-AreAccepted refl (omega arith) (λ c. unfold rank_of in omega arith)

measure_main_iff_example :
    (main farm counts store_only little_endian (some arguments) input
      ≡ measured (run farm counts store_only little_endian arguments input))
    ↔ AreAccepted arguments
measure_main_iff_example = measure_main_iff farm counts store_only little_endian arguments input

stream_of-IsInRange_example : IsInRange (2 ^ 2) (stream_of farm (2 ^ 2) (word 7 ∷ pair 3 9 ∷ []))
stream_of-IsInRange_example =
    stream_of-IsInRange farm 2 (word 7 ∷ pair 3 9 ∷ []) (omega arith) (omega arith)
      ((omega arith, omega arith), (omega arith, omega arith, tt))
