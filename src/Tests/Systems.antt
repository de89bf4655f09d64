-- ===== src/Tests/Systems.antt =====
-- Concrete libraries and systems, for the parameters of the theorems.
use hyperlogloglog.Estimate.{Floats, estimate_list}
use hyperlogloglog.Base.{
  true, leb, ◌-◌, ◌/◌, ◌^◌, ◌==◌, ◌*◌, ℕ, ◌+◌, ◌-◌, ◌*◌, ◌/◌, ◌%◌, ◌^◌, ◌≤◌, ◌≡◌, refl, ap, ap₂,
  ◌∙◌, arith, none, some, List, [], ◌∷◌, ◌++◌, min, leb, length, take, drop, if◌then◌else◌,
  take-append_left, length-append, length-drop,
}
use hyperlogloglog.Common.ByteOrder.{ByteOrder, IsByteOrder}
use hyperlogloglog.Estimate.{Floats}
use hyperlogloglog.Generator.{Random, Reals}
use hyperlogloglog.Generator.Laws.{IsRandom}
use hyperlogloglog.HyperLogLogZstd.{Zstd, IsLossless}
use hyperlogloglog.Measure.{Farm}
use hyperlogloglog.Datasketches.{
  HllLibrary, CpcLibrary, hll_sketch, cpc_sketch, merge_hll, merge_cpc, Datum,
}
use hyperlogloglog.Datasketches.Laws.{IsStreamSketch}

-- The bytes of a 32-bit word in the other order.
abbrev pub swap_bytes : ℕ → ℕ
swap_bytes x =
    x % 2 ^ 8 * 2 ^ 24
    + x / 2 ^ 8 % 2 ^ 8 * 2 ^ 16
    + x / 2 ^ 16 % 2 ^ 8 * 2 ^ 8
    + x / 2 ^ 24 % 2 ^ 8

abbrev pub little_endian : ByteOrder
little_endian = record { htonl = swap_bytes; ntohl = swap_bytes }

pub little_endian-IsByteOrder : IsByteOrder little_endian
little_endian-IsByteOrder = record {
  htonl-lt = λ x h. omega arith;
  ntohl-htonl = λ x h. omega arith;
  htonl-eq-ntohl = λ x h. refl;
}

-- Natural numbers in place of `double`s.
abbrev pub counts : Floats ℕ
counts = record {
  of_nat = λ n. n;
  decimal = λ n k. n;
  add = λ a b. a + b;
  sub = λ a b. a - b;
  mul = λ a b. a * b;
  div = λ a b. a / b;
  negate = λ a. a;
  log = λ a. a;
  le = leb;
}

-- A compressor that stores what it is given.
abbrev pub stored : List ℕ → List ℕ → List ℕ
stored dst src = if leb (length src) (length dst) then src ++ drop (length src) dst else dst

abbrev pub store_only : Zstd
store_only = record {
  compress_bound = λ n. n;
  compress = λ dst src level. (length src, stored dst src);
  decompress = λ out src. src;
}

pub store_only-IsLossless : IsLossless store_only
store_only-IsLossless = record {
  length-compress = λ dst src level.
      ground (arith, length-append src (drop (length src) dst), length-drop (length src) dst);
  decompress-compress = λ dst src out level bytes room same.
      let kept : stored dst src ≡ src ++ drop (length src) dst = ground (arith, room) in
      ap (take (length src)) kept ∙ take-append_left (length src) src (drop (length src) dst) refl;
}

-- A generator that counts, within the bounds it is given.
abbrev pub counter : Random ℕ ℕ
counter = record { uniform = λ lo hi rng. (min rng hi, rng + 1); real = λ rng. (rng, rng + 1) }

pub counter-IsRandom : IsRandom counter
counter-IsRandom = record { uniform-le = λ lo hi rng le. omega arith }

abbrev pub small_reals : Reals ℕ
small_reals = record {
  one = 1;
  sub = λ a b. a + b;
  log2 = λ a. a;
  negate = λ a. a;
  ceil = λ a. a;
  to_uint32 = λ a. a % 64;
}

abbrev pub farm : Farm
farm = record { hash64 = λ s. length s + 2; fingerprint = λ x. x * 0x9ddfea08eb382d69 % 2 ^ 64 }

-- Sketches that keep their streams.
abbrev pub hll_lists : HllLibrary ℕ
hll_lists = record {
  Sketch = List Datum;
  Union = List Datum;
  sketch = λ k hll_type. if leb k 21 then some [] else none;
  update = λ s x. s ++ x ∷ [];
  get_estimate = λ s. length s;
  serialize_updatable = λ s. [];
  union = λ k. if leb k 21 then some [] else none;
  union_update = λ u s. u ++ s;
  get_result = λ u. u;
}

abbrev pub cpc_lists : CpcLibrary ℕ
cpc_lists = record {
  Sketch = List Datum;
  Union = List Datum;
  sketch = λ k. if leb k 21 then some [] else none;
  update = λ s x. s ++ x ∷ [];
  get_estimate = λ s. length s;
  serialize = λ s. [];
  union = λ k. if leb k 21 then some [] else none;
  union_update = λ u s. u ++ s;
  get_result = λ u. u;
}

pub hll_lists-IsStreamSketch : IsStreamSketch (hll_sketch hll_lists)
unfolding merge_hll
hll_lists-IsStreamSketch = record {
  IsAdmitted = λ k. k ≤ 21;
  Holds = λ xs s. s ≡ xs;
  construct-Holds = λ k hll_type le. ([], ground arith, refl);
  update-Holds = λ xs s x e. ap (λ ys. ys ++ x ∷ []) e;
  merge-Holds = λ k xs ys a b le ea eb. (a ++ b, ground arith, ap₂ ◌++◌ ea eb);
}

pub cpc_lists-IsStreamSketch : IsStreamSketch (cpc_sketch cpc_lists)
unfolding merge_cpc
cpc_lists-IsStreamSketch = record {
  IsAdmitted = λ k. k ≤ 21;
  Holds = λ xs s. s ≡ xs;
  construct-Holds = λ k hll_type le. ([], ground arith, refl);
  update-Holds = λ xs s x e. ap (λ ys. ys ++ x ∷ []) e;
  merge-Holds = λ k xs ys a b le ea eb. (a ++ b, ground arith, ap₂ ◌++◌ ea eb);
}

pub hll_lists-IsAdmitted : (k : ℕ) → k ≤ 21 → hll_lists-IsStreamSketch.IsAdmitted k
unfolding hll_lists-IsStreamSketch
hll_lists-IsAdmitted k le = le

pub cpc_lists-IsAdmitted : (k : ℕ) → k ≤ 21 → cpc_lists-IsStreamSketch.IsAdmitted k
unfolding cpc_lists-IsStreamSketch
cpc_lists-IsAdmitted k le = le

-- Numbers in place of floating-point numbers, all equal to themselves.
abbrev pub small_floats : Floats ℕ
small_floats = record {
  of_nat = λ n. n;
  decimal = λ n k. n / 10 ^ k;
  add = λ a b. a + b;
  sub = λ a b. a - b;
  mul = λ a b. a * b;
  div = λ a b. a / b;
  negate = λ a. a;
  log = λ a. a;
  le = leb;
}

pub equal_to_itself :
    (m : ℕ) (rs : List ℕ)
    → (estimate_list small_floats m rs == estimate_list small_floats m rs) ≡ true
equal_to_itself m rs = same (estimate_list small_floats m rs)
  where
    same : (n : ℕ) → (n == n) ≡ true
    same n = ground arith
