-- ===== src/HyperLogLogZstd.antt =====
-- hyperlogloglog/HyperLogLogZstd.hpp, for `Word = uint64_t`: one `char` for each register, kept
-- compressed by the zstd library, which is a parameter. `temp` is the buffer `Mtemp`, which the
-- code declares `mutable`: methods marked `const` return the changed sketch as well. A `char` is
-- a byte that is signed when it is read. The exception of `merge` is `none`.
pub mod Valid
pub mod Add
pub mod Streams
use hyperlogloglog.Base.{
  ℕ, zero, suc, ◌+◌, ◌-◌, ◌*◌, ◌%◌, ◌^◌, ◌≤◌, ◌<◌, ◌≡◌, Option, none, some, List, [], ◌∷◌, ltb,
  ◌==◌, if◌then◌else◌, length, get_or, set, take, replicate, word_bits,
}
use hyperlogloglog.Common.{log2i, rho}
use hyperlogloglog.Estimate.{Floats, Sum, start, tally, finish}

-- `ZSTD_compressBound`, and what `ZSTD_compress` (the returned size, the buffer) and
-- `ZSTD_decompress` (the buffer) make of a destination buffer and a source.
pub record Zstd : Type 0 where
  pub compress_bound : ℕ → ℕ
  pub compress : List ℕ → List ℕ → ℕ → ℕ × List ℕ
  pub decompress : List ℕ → List ℕ → List ℕ

abbrev pub AreBytes : List ℕ → Type 0
AreBytes bytes = (i : ℕ) → get_or bytes i 0 < 2 ^ 8

-- The library's documented behaviour: with the room of the bound, what was compressed is
-- decompressed to what it was.
pub record IsLossless (z : Zstd) : Type 0 where
  pub length-compress :
      (dst src : List ℕ) (level : ℕ) → length (z.compress dst src level).1 ≡ length dst
  pub decompress-compress :
      (dst src out : List ℕ) (level : ℕ)
      → AreBytes src
      → z.compress_bound (length src) ≤ length dst
      → length out ≡ length src
      → z.decompress out (take (z.compress dst src level).0 (z.compress dst src level).1) ≡ src

pub record HyperLogLogZstd : Type 0 where
  pub m : ℕ
  pub log_m : ℕ
  pub compressed_size : ℕ
  pub compressed : List ℕ
  pub temp : List ℕ
  pub lower_bound : ℕ

-- A `char` as a `Word`: sign extension.
abbrev pub word_of_char : ℕ → ℕ
word_of_char c = if ltb c 128 then c else c + (2 ^ 64 - 2 ^ 8)

-- The order of signed bytes.
abbrev pub max_char : ℕ → ℕ → ℕ
max_char a b = if ltb ((a + 128) % 2 ^ 8) ((b + 128) % 2 ^ 8) then b else a

-- The loop of `compress` for the lower bound.
unfoldable pub least : List ℕ → ℕ → ℕ
least [] l = l
least (c ∷ cs) l = least cs (if ltb (word_of_char c) l then word_of_char c else l)

module _ (z : Zstd) where
  unfoldable pub decompress : HyperLogLogZstd → HyperLogLogZstd
  decompress h = record h { temp = z.decompress h.temp (take h.compressed_size h.compressed) }

  unfoldable pub compress : HyperLogLogZstd → HyperLogLogZstd
  compress h =
      let done = z.compress h.compressed (take h.m h.temp) 1 in
      record h {
        compressed_size = done.0;
        compressed = done.1;
        lower_bound = least h.temp word_bits;
      }

  unfoldable pub new : ℕ → HyperLogLogZstd
  new m = compress (record {
    m = m;
    log_m = log2i m;
    compressed_size = 0;
    compressed = replicate (z.compress_bound m) 0;
    temp = replicate m 0;
    lower_bound = 0;
  })

  unfoldable pub bit_size : HyperLogLogZstd → ℕ
  bit_size h = h.compressed_size * 8 % 2 ^ 64

  unfoldable pub add_jr : HyperLogLogZstd → ℕ → ℕ → HyperLogLogZstd
  add_jr h j r =
      let h' = decompress h in
      if ltb r h.lower_bound
      then h
      else if ltb (word_of_char (get_or h'.temp j 0)) r
      then compress (record h' { temp = set h'.temp j (r % 2 ^ 8) })
      else h'

  unfoldable pub add_hash : HyperLogLogZstd → ℕ → (ℕ → ℕ → ℕ) → HyperLogLogZstd
  add_hash h x f = add_jr h (f x h.log_m) (rho x)

  unfoldable pub add {ℓ} :
      {A : Type ℓ} → HyperLogLogZstd → A → (A → ℕ) → (ℕ → ℕ → ℕ) → HyperLogLogZstd
  add h o hash f = add_hash h (hash o) f

  unfoldable pub export_registers : HyperLogLogZstd → List ℕ × HyperLogLogZstd
  export_registers h = let h' = decompress h in (take h'.m h'.temp, h')

  -- The loop of `merge`, which writes `H.Mtemp`.
  unfoldable pub merge_from : List ℕ → List ℕ → ℕ → ℕ → List ℕ → List ℕ
  merge_from a b zero j result = result
  merge_from a b (suc rounds) j result =
      merge_from a b rounds (j + 1) (set result j (max_char (get_or a j 0) (get_or b j 0)))

  -- The two sketches, which are decompressed, and the merged one.
  unfoldable pub merge :
      HyperLogLogZstd
      → HyperLogLogZstd
      → Option (HyperLogLogZstd × HyperLogLogZstd × HyperLogLogZstd)
  unfolding merge_from
  merge a b =
      let h = new a.m in
      let a' = decompress a in
      let b' = decompress b in
      let h' = compress (record h { temp = merge_from a'.temp b'.temp a.m 0 h.temp }) in
      if a.m == b.m then some (a', b', h') else none

  module _ {ℓ} {F : Type ℓ} (d : Floats F) where
    -- The loop of `estimate`, from `j` on, with the rounds that are left.
    unfoldable pub tally_from : List ℕ → ℕ → ℕ → Sum F → Sum F
    tally_from temp zero j s = s
    tally_from temp (suc rounds) j s =
        tally_from temp rounds (j + 1) (tally d (word_of_char (get_or temp j 0)) s)

    unfoldable pub estimate : HyperLogLogZstd → F × HyperLogLogZstd
    unfolding tally_from
    estimate h = let h' = decompress h in (finish d h'.m (tally_from h'.temp h'.m 0 (start d)), h')
