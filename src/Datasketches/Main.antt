-- ===== src/Datasketches/Main.antt =====
-- `main` of datasketches/measure.cpp and the functions `measure` that it calls. TCLAP parses the
-- command line and admits the values of the data types, and 4, 6 and 8 for `--hll-bits`; `none`
-- for an option says that it is not set. `std::log2` is a parameter, rounded to an `int`. A
-- negative `m`, whose logarithm is no number, is left out, and so is the check `n < 0`, which no
-- `size_t` meets. A text that goes to `cerr` is a constructor.
use hyperlogloglog.Base.{
  ℕ, ◌^◌, ◌≡◌, ◌↔◌, refl, sym, ap, ◌∙◌, arith, Bool, true, false, not, ◌&&◌, Option, none, some,
  List, map, ◌==◌, if◌then◌else◌,
}
use hyperlogloglog.Common.ByteOrder.{ByteOrder}
use hyperlogloglog.Input.{read_uint64, read_str}
use hyperlogloglog.Generator.Main.{is_set, value_of}
use hyperlogloglog.Measure.{Report, Mode}
use hyperlogloglog.Datasketches.{
  Datum, word, text, TargetHllType, hll_4, hll_6, hll_8, HllLibrary, CpcLibrary, hll_sketch,
  cpc_sketch, report, measure,
}
use hyperlogloglog.Datasketches.Laws.{IsStreamSketch, measure-Holds}

pub data AlgorithmName : Type 0 where
  hll cpc : AlgorithmName

pub data DataType : Type 0 where
  uint64 str : DataType

pub record Arguments : Type 0 where
  pub help : Bool
  pub mode : Mode
  pub algo : AlgorithmName
  pub dt : DataType
  pub m : ℕ
  pub n : ℕ
  pub hll_bits : Option ℕ
  pub len : Option ℕ

pub data Complaint : Type 0 where
  argument_error m_not_power hll_bits_for_cpc hll_bits_not_set len_not_set len_set : Complaint

-- What a run does: print its usage, fail with a message, or measure; `none` is an exception.
pub data Outcome {ℓ} (F : Type ℓ) : Type ℓ where
  usage : Outcome F
  failed : Complaint → Outcome F
  measured : Option (Report F) → Outcome F

abbrev pub is_cpc : AlgorithmName → Bool
is_cpc cpc = true
is_cpc hll = false

abbrev pub is_str : DataType → Bool
is_str str = true
is_str uint64 = false

-- The value of `--hll-bits`, 8 where it is not set.
abbrev pub hll_bits_of : Option ℕ → ℕ
hll_bits_of none = 8
hll_bits_of (some bits) = bits

unfoldable pub hll_type_of : ℕ → TargetHllType
hll_type_of bits = if bits == 4 then hll_4 else if bits == 6 then hll_6 else hll_8

unfoldable pub read_data : ByteOrder → DataType → ℕ → ℕ → List ℕ → List Datum
read_data o uint64 n len input = map word (read_uint64 o n input)
read_data o str n len input = map text (read_str n len input)

module _ {ℓ} {F : Type ℓ} (h : HllLibrary F) (c : CpcLibrary F) where
  -- The second `measure`, after the data are read.
  unfoldable pub measure_data :
      Mode → AlgorithmName → ℕ → TargetHllType → List Datum → Option (Report F)
  measure_data mode hll log_m hll_type items = measure (hll_sketch h) mode items log_m hll_type
  measure_data mode cpc log_m hll_type items = measure (cpc_sketch c) mode items log_m hll_type

module _ {ℓ} {F : Type ℓ} (h : HllLibrary F) (c : CpcLibrary F) (lh : IsStreamSketch (hll_sketch h))
    (lc : IsStreamSketch (cpc_sketch c)) where
  -- The report is that of a sketch of the data.
  abbrev pub IsReportOf : AlgorithmName → List Datum → Report F → Type ℓ
  IsReportOf hll items r = (s : h.Sketch) × lh.Holds items s × (r ≡ report (hll_sketch h) s)
  IsReportOf cpc items r = (s : c.Sketch) × lc.Holds items s × (r ≡ report (cpc_sketch c) s)

  pub measure_data-IsReportOf :
      (mode : Mode) (algo : AlgorithmName) (k : ℕ) (hll_type : TargetHllType) (items : List Datum)
      → lh.IsAdmitted k
      → lc.IsAdmitted k
      → (r : Report F) × (measure_data h c mode algo k hll_type items ≡ some r)
        × IsReportOf algo items r
  unfolding measure_data
  measure_data-IsReportOf mode hll k hll_type items okh okc =
      let (s, e, holds) = measure-Holds lh mode items k hll_type okh in
      (report (hll_sketch h) s, e, (s, holds, refl))
  measure_data-IsReportOf mode cpc k hll_type items okh okc =
      let (s, e, holds) = measure-Holds lc mode items k hll_type okc in
      (report (cpc_sketch c) s, e, (s, holds, refl))

module _ {ℓ} {F : Type ℓ} (h : HllLibrary F) (c : CpcLibrary F) (o : ByteOrder) (log2 : ℕ → ℕ) where
  unfoldable pub run : Arguments → List ℕ → Option (Report F)
  unfolding measure_data
  run a input =
      measure_data h c a.mode a.algo (log2 a.m) (hll_type_of (hll_bits_of a.hll_bits))
        (read_data o a.dt a.n (value_of a.len) input)

  -- `none` is an exception of the parser.
  unfoldable pub main : Option Arguments → List ℕ → Outcome F
  main none input = failed argument_error
  main (some a) input =
      if a.help
      then usage
      else if not (a.m == 2 ^ log2 a.m)
      then failed m_not_power
      else if is_cpc a.algo && is_set a.hll_bits
      then failed hll_bits_for_cpc
      else if not (is_cpc a.algo) && not (is_set a.hll_bits)
      then failed hll_bits_not_set
      else if is_str a.dt && not (is_set a.len)
      then failed len_not_set
      else if not (is_str a.dt) && is_set a.len
      then failed len_set
      else measured (run a input)

  -- `main` goes on to measure exactly if its arguments ask for no help, have the power of two of
  -- its logarithm for `m`, and set the bits of a register exactly for hll and the length exactly
  -- for strings.
  pub datasketches_main_iff :
      (a : Arguments) (input : List ℕ)
      → (main (some a) input ≡ measured (run a input)) ↔ (
          (a.help ≡ false)
          × (a.m ≡ 2 ^ log2 a.m)
          × (is_set a.hll_bits ≡ not (is_cpc a.algo))
          × (is_set a.len ≡ is_str a.dt))
  unfolding main
  datasketches_main_iff a input = ground arith

  -- Take classes of DataSketches whose sketches are sketches of their streams, also of those
  -- that they merge, a size 2 ^ k that both admit and at which the logarithm is exact, and
  -- arguments of this size that ask for no help, set the bits of a register exactly for hll and
  -- the length exactly for strings. The `main` of the benchmark of DataSketches then reports,
  -- in either mode, on a sketch of the whole data.
  pub main-IsReportOf :
      (lh : IsStreamSketch (hll_sketch h)) (lc : IsStreamSketch (cpc_sketch c)) (a : Arguments)
      (input : List ℕ) (k : ℕ)
      → log2 (2 ^ k) ≡ k
      → lh.IsAdmitted k
      → lc.IsAdmitted k
      → a.help ≡ false
      → a.m ≡ 2 ^ k
      → is_set a.hll_bits ≡ not (is_cpc a.algo)
      → is_set a.len ≡ is_str a.dt
      → (r : Report F) × (main (some a) input ≡ measured (some r))
        × IsReportOf h c lh lc a.algo (read_data o a.dt a.n (value_of a.len) input) r
  unfolding run
  main-IsReportOf lh lc a input k exact okh okc help power bits len =
      let items = read_data o a.dt a.n (value_of a.len) input in
      let log_m : log2 a.m ≡ k = ap log2 power ∙ exact in
      let (r, e, is_report) =
        measure_data-IsReportOf h c lh lc a.mode a.algo k (hll_type_of (hll_bits_of a.hll_bits))
          items okh okc in
      let made : run a input ≡ some r = rw log_m e in
      (
        r,
        (datasketches_main_iff a input).1 (help, power ∙ ap (λ e. 2 ^ e) (sym log_m), bits, len)
            ∙ ap measured made,
        is_report,
      )
