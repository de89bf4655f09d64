-- ===== src/Datasketches.antt =====
-- datasketches/measure.cpp: the benchmark of Apache DataSketches. The library is a parameter:
-- what the code calls of `hll_sketch` and `cpc_sketch` and of their unions. `none` is an
-- exception. The clock is left out. A report is the values that are printed, with `int`s as 32-bit
-- patterns.
pub mod Laws
pub mod Main
use hyperlogloglog.Base.{
  ℕ, ◌-◌, ◌*◌, ◌/◌, ◌%◌, ◌^◌, Option, none, some, List, [], ◌∷◌, ◌++◌, length, take, drop,
}
use hyperlogloglog.Measure.{Report, Mode, query, merge, ◌>>=◌}

-- An element of the data.
pub data Datum : Type 0 where
  word : ℕ → Datum
  text : List ℕ → Datum

pub data TargetHllType : Type 0 where
  hll_4 hll_6 hll_8 : TargetHllType

pub record HllLibrary {ℓ} (F : Type ℓ) : Type (ℓ ⊔ 1) where
  pub Sketch : Type 0
  pub Union : Type 0
  pub sketch : ℕ → TargetHllType → Option Sketch
  pub update : Sketch → Datum → Sketch
  pub get_estimate : Sketch → F
  pub serialize_updatable : Sketch → List ℕ
  pub union : ℕ → Option Union
  pub union_update : Union → Sketch → Union
  pub get_result : Union → Sketch

pub record CpcLibrary {ℓ} (F : Type ℓ) : Type (ℓ ⊔ 1) where
  pub Sketch : Type 0
  pub Union : Type 0
  pub sketch : ℕ → Option Sketch
  pub update : Sketch → Datum → Sketch
  pub get_estimate : Sketch → F
  pub serialize : Sketch → List ℕ
  pub union : ℕ → Option Union
  pub union_update : Union → Sketch → Union
  pub get_result : Union → Sketch

-- What the templates call, with the functions that are specialised.
pub record SketchType {ℓ} (F : Type ℓ) : Type (ℓ ⊔ 1) where
  pub Sketch : Type 0
  pub construct_sketch : ℕ → TargetHllType → Option Sketch
  pub update : Sketch → Datum → Sketch
  pub get_estimate : Sketch → F
  pub serialize : Sketch → List ℕ
  pub merge_sketches : Sketch → Sketch → ℕ → Option Sketch

unfoldable pub merge_hll {ℓ} :
    {F : Type ℓ} (lib : HllLibrary F) → lib.Sketch → lib.Sketch → ℕ → Option lib.Sketch
merge_hll lib s₁ s₂ log_m = do
  u ← lib.union log_m
  some (lib.get_result (lib.union_update (lib.union_update u s₁) s₂))

abbrev pub hll_sketch {ℓ} : {F : Type ℓ} → HllLibrary F → SketchType F
hll_sketch lib = record {
  Sketch = lib.Sketch;
  construct_sketch = λ log_m hll_type. lib.sketch log_m hll_type;
  update = lib.update;
  get_estimate = lib.get_estimate;
  serialize = lib.serialize_updatable;
  merge_sketches = merge_hll lib;
}

unfoldable pub merge_cpc {ℓ} :
    {F : Type ℓ} (lib : CpcLibrary F) → lib.Sketch → lib.Sketch → ℕ → Option lib.Sketch
merge_cpc lib s₁ s₂ log_m = do
  u ← lib.union log_m
  some (lib.get_result (lib.union_update (lib.union_update u s₁) s₂))

abbrev pub cpc_sketch {ℓ} : {F : Type ℓ} → CpcLibrary F → SketchType F
cpc_sketch lib = record {
  Sketch = lib.Sketch;
  construct_sketch = λ log_m hll_type. lib.sketch log_m;
  update = lib.update;
  get_estimate = lib.get_estimate;
  serialize = lib.serialize;
  merge_sketches = merge_cpc lib;
}

-- The two functions `add` for a line of text, with `std::stoul` as a parameter.
unfoldable pub add_str : List (List ℕ) → List ℕ → List (List ℕ)
add_str items line = items ++ (line ∷ [])

unfoldable pub add_uint64 : (List ℕ → Option ℕ) → List ℕ → List ℕ → Option (List ℕ)
add_uint64 stoul items line = do x ← stoul line; some (items ++ (x ∷ []))

module _ {ℓ} {F : Type ℓ} (t : SketchType F) where
  -- `oss.tellp() * CHAR_BIT`.
  unfoldable pub get_bit_size : t.Sketch → ℕ
  get_bit_size s = length (t.serialize s) * 8 % 2 ^ 64

  unfoldable pub adds : t.Sketch → List Datum → t.Sketch
  adds s [] = s
  adds s (x ∷ xs) = adds (t.update s x) xs

  unfoldable pub report : t.Sketch → Report F
  unfolding get_bit_size
  report s = record {
    estimate = t.get_estimate s;
    bit_size = get_bit_size s;
    compress_count = 2 ^ 32 - 1;
    rebase_count = 2 ^ 32 - 1;
  }

  unfoldable pub measure_query : List Datum → ℕ → TargetHllType → Option (Report F)
  unfolding adds report
  measure_query items log_m hll_type = do
    s ← t.construct_sketch log_m hll_type
    some (report (adds s items))

  unfoldable pub measure_merge : List Datum → ℕ → TargetHllType → Option (Report F)
  unfolding adds report
  measure_merge items log_m hll_type = do
    let n₁ = length items / 2
    s₁ ← t.construct_sketch log_m hll_type
    s₂ ← t.construct_sketch log_m hll_type
    s ← t.merge_sketches (adds s₁ (take n₁ items)) (adds s₂ (drop n₁ items)) log_m
    some (report s)

  unfoldable pub measure : Mode → List Datum → ℕ → TargetHllType → Option (Report F)
  unfolding measure_query measure_merge
  measure query items log_m hll_type = measure_query items log_m hll_type
  measure merge items log_m hll_type = measure_merge items log_m hll_type
