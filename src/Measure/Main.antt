-- ===== src/Measure/Main.antt =====
-- `main` of hyperlogloglog/measure.cpp and the functions `measure` that it calls. TCLAP parses the
-- command line and admits the values of the data types only; `none` for an option says that it is
-- not set. A negative `m`, which `main` refuses as it refuses 0, is left out. A text that goes to
-- `cerr` is a constructor.
use hyperlogloglog.Base.{
  ℕ, ◌^◌, ◌%◌, ◌≡◌, ◌↔◌, refl, arith, Bool, true, false, not, ◌&&◌, Option, none, some, List, map,
  ◌==◌, if◌then◌else◌, bit_or,
}
use hyperlogloglog.Common.{log2i}
use hyperlogloglog.Common.ByteOrder.{ByteOrder}
use hyperlogloglog.Estimate.{Floats}
use hyperlogloglog.Input.{read_uint64, read_str, read_jr}
use hyperlogloglog.Generator.Main.{DataType, uint64, str, jr, is_str, is_jr, is_set, value_of}
use hyperlogloglog.HyperLogLogZstd.{Zstd}
use hyperlogloglog.HyperLogLogLog.State as State
use hyperlogloglog.HyperLogLogLog.State.{
  complete_flags, are_valid_flags, compress_default, when_append, type_increase,
}
use hyperlogloglog.Measure.{Farm, Item, word, text, pair, Report, Mode, query, merge, measure}
use hyperlogloglog.Measure.Sketches as Sketches

pub data AlgorithmName : Type 0 where
  hyper_log_log hyper_log_log_zstd hyper_log_log_log hash_only : AlgorithmName

pub data FlagName : Type 0 where
  default append_only increase_only append_increase_only bottom : FlagName

pub record Arguments : Type 0 where
  pub help : Bool
  pub mode : Mode
  pub algo : AlgorithmName
  pub dt : DataType
  pub m : ℕ
  pub n : ℕ
  pub flags : Option FlagName
  pub len : Option ℕ

pub data Complaint : Type 0 where
  argument_error hash_only_merge hash_only_jr m_not_power flags_not_supported len_not_set len_set :
      Complaint

-- What a run does: print its usage, fail with a message, or measure; `none` is an exception or a
-- failed assertion.
pub data Outcome {ℓ} (F : Type ℓ) : Type ℓ where
  usage : Outcome F
  failed : Complaint → Outcome F
  measured : Option (Report F) → Outcome F

abbrev pub is_merge : Mode → Bool
is_merge merge = true
is_merge query = false

abbrev pub is_hash_only : AlgorithmName → Bool
is_hash_only hash_only = true
is_hash_only _ = false

abbrev pub is_hyper_log_log_log : AlgorithmName → Bool
is_hyper_log_log_log hyper_log_log_log = true
is_hyper_log_log_log _ = false

unfoldable pub flags_of : Option FlagName → ℕ
flags_of none = compress_default
flags_of (some default) = compress_default
flags_of (some append_only) = when_append
flags_of (some increase_only) = type_increase
flags_of (some append_increase_only) = bit_or when_append type_increase
flags_of (some bottom) = State.bottom

abbrev pub item_of_pair : ℕ × ℕ → Item
item_of_pair (j, r) = pair j r

unfoldable pub read_data : ByteOrder → DataType → ℕ → ℕ → List ℕ → List Item
read_data o uint64 n len input = map word (read_uint64 o n input)
read_data o str n len input = map text (read_str n len input)
read_data o jr n len input = map item_of_pair (read_jr o n input)

module _ {ℓ} {F : Type ℓ} (farm : Farm) (d : Floats F) (z : Zstd) (o : ByteOrder) where
  -- The second `measure`, after the data are read.
  unfoldable pub measure_data : Mode → AlgorithmName → ℕ → ℕ → List Item → Option (Report F)
  measure_data mode hyper_log_log m flags items =
      measure farm (Sketches.hyper_log_log d) mode m flags items
  measure_data mode hyper_log_log_zstd m flags items =
      measure farm (Sketches.hyper_log_log_zstd d z) mode m flags items
  measure_data mode hyper_log_log_log m flags items =
      measure farm (Sketches.hyper_log_log_log d) mode m flags items
  measure_data mode hash_only m flags items = measure farm (Sketches.hash_only d) mode m flags items

  unfoldable pub measure_type :
      Mode → AlgorithmName → DataType → ℕ → ℕ → ℕ → ℕ → List ℕ → Option (Report F)
  unfolding measure_data read_data
  measure_type mode algo dt m flags n len input =
      measure_data mode algo m flags (read_data o dt n len input)

  unfoldable pub run : Arguments → List ℕ → Option (Report F)
  run a input = measure_type a.mode a.algo a.dt a.m (flags_of a.flags) a.n (value_of a.len) input

  -- `none` is an exception of the parser.
  unfoldable pub main : Option Arguments → List ℕ → Outcome F
  main none input = failed argument_error
  main (some a) input =
      if a.help
      then usage
      else if is_merge a.mode && is_hash_only a.algo
      then failed hash_only_merge
      else if is_hash_only a.algo && is_jr a.dt
      then failed hash_only_jr
      else if not (a.m == 2 ^ log2i a.m)
      then failed m_not_power
      else if is_set a.flags && not (is_hyper_log_log_log a.algo)
      then failed flags_not_supported
      else if is_str a.dt && not (is_set a.len)
      then failed len_not_set
      else if not (is_str a.dt) && is_set a.len
      then failed len_set
      else measured (run a input)

-- What `main` asks of its arguments.
pub record AreAccepted (a : Arguments) : Type 0 where
  pub help : a.help ≡ false
  pub hash_merge : is_merge a.mode && is_hash_only a.algo ≡ false
  pub hash_jr : is_hash_only a.algo && is_jr a.dt ≡ false
  pub power : a.m ≡ 2 ^ log2i a.m
  pub flags : is_set a.flags && not (is_hyper_log_log_log a.algo) ≡ false
  pub len : is_set a.len ≡ is_str a.dt

-- Completed, the flags for every value of the option, and for none, are flags that the
-- constructor accepts.
pub flags_of-accepted :
    (f : Option FlagName) → are_valid_flags (complete_flags (flags_of f % 2 ^ 8)) ≡ true
unfolding flags_of complete_flags are_valid_flags
flags_of-accepted none = refl
flags_of-accepted (some default) = refl
flags_of-accepted (some append_only) = refl
flags_of-accepted (some increase_only) = refl
flags_of-accepted (some append_increase_only) = refl
flags_of-accepted (some bottom) = refl

module _ {ℓ} {F : Type ℓ} (farm : Farm) (d : Floats F) (z : Zstd) (o : ByteOrder) where
  pub main-accepts :
      (a : Arguments) (input : List ℕ)
      → AreAccepted a
      → main farm d z o (some a) input ≡ measured (run farm d z o a input)
  unfolding main
  main-accepts a input ok =
      ground (arith, ok.help, ok.hash_merge, ok.hash_jr, ok.power, ok.flags, ok.len)

  accepts-main :
      (a : Arguments) (input : List ℕ)
      → main farm d z o (some a) input ≡ measured (run farm d z o a input)
      → AreAccepted a
  unfolding main
  accepts-main a input e = record {
    help = ground (arith, e);
    hash_merge = ground (arith, e);
    hash_jr = ground (arith, e);
    power = ground (arith, e);
    flags = ground (arith, e);
    len = ground (arith, e);
  }

  -- The `main` of the benchmark goes on to measure exactly if its arguments ask for no help, do
  -- not merge with hashonly or read pairs with it, have a power of two for `m`, set flags for
  -- hyperlogloglog only, and set the length exactly for strings.
  pub measure_main_iff :
      (a : Arguments) (input : List ℕ)
      → (main farm d z o (some a) input ≡ measured (run farm d z o a input)) ↔ AreAccepted a
  measure_main_iff a input = (accepts-main a input, main-accepts a input)
