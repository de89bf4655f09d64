-- ===== src/Tests/Libraries.antt =====
-- The benchmark of DataSketches with sketches that keep their streams.
use hyperlogloglog.Base.{ℕ, ◌≡◌, refl, arith, false, none, some, List, [], ◌∷◌}
use hyperlogloglog.Measure.{Report, merge}
use hyperlogloglog.Datasketches.Main.{
  Arguments, cpc, uint64, measured, main, read_data, IsReportOf, main-IsReportOf,
}
use hyperlogloglog.Tests.Systems.{
  little_endian, hll_lists, cpc_lists, hll_lists-IsStreamSketch, cpc_lists-IsStreamSketch,
  hll_lists-IsAdmitted, cpc_lists-IsAdmitted,
}

-- A logarithm that is exact at 16.
abbrev log2 : ℕ → ℕ
log2 m = 4

abbrev arguments : Arguments
arguments = record {
  help = false;
  mode = merge;
  algo = cpc;
  dt = uint64;
  m = 16;
  n = 1;
  hll_bits = none;
  len = none;
}

abbrev input : List ℕ
input = 0 ∷ 0 ∷ 0 ∷ 0 ∷ 0 ∷ 0 ∷ 0 ∷ 7 ∷ []

main-IsReportOf_example :
    (r : Report ℕ) × (main hll_lists cpc_lists little_endian log2 (some arguments) input
      ≡ measured (some r))
    × IsReportOf hll_lists cpc_lists hll_lists-IsStreamSketch cpc_lists-IsStreamSketch cpc
        (read_data little_endian uint64 1 0 input)
        r
main-IsReportOf_example =
    main-IsReportOf hll_lists cpc_lists little_endian log2 hll_lists-IsStreamSketch
      cpc_lists-IsStreamSketch arguments input 4 refl (hll_lists-IsAdmitted 4 (omega arith))
      (cpc_lists-IsAdmitted 4 (omega arith)) refl refl refl refl
