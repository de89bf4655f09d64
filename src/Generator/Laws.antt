-- ===== src/Generator/Laws.antt =====
-- A benchmark reads what the generator has drawn.
use native.Mathlib.Nat.{mul_comm}
use hyperlogloglog.Base.{
  ◌^◌, ◌<◌, ℕ, zero, suc, ◌+◌, ◌-◌, ◌*◌, ◌%◌, ◌^◌, ◌≤◌, ◌<◌, ◌≡◌, refl, sym, ap, ap₂, ◌∙◌, arith,
  List, [], ◌∷◌, map, length,
}
use hyperlogloglog.Registers.{Stream, IsInRange}
use hyperlogloglog.Common.ByteOrder.{ByteOrder, IsByteOrder, ntohll, htonll-lt, ntohll-htonll}
use hyperlogloglog.Input.{read_str, read_uint64, read_pairs, read_jr}
use hyperlogloglog.Input.Laws.{
  capacity, Below, read_words-write_words, concat, AreStrings, read_str-AreStrings,
}
use hyperlogloglog.Generator.{
  Random, Reals, draw_words, generate_uint64, draw_chars, generate_str, rank_of, draw_pairs,
  generate_jr,
}

-- A draw lies in its range.
pub record IsRandom {ℓ κ} {R : Type ℓ} {F : Type κ} (random : Random R F) : Type ℓ where
  pub uniform-le : (lo hi : ℕ) (rng : R) → lo ≤ hi → (random.uniform lo hi rng).0 ≤ hi

module _ {ℓ κ} {R : Type ℓ} {F : Type κ} (random : Random R F) (reals : Reals F)
    (o : ByteOrder) where
  -- The draws of `generateUint64` and `generateJr`.
  pub drawn_words : ℕ → R → List ℕ
  drawn_words zero rng = []
  drawn_words (suc n) rng =
      let drawn = random.uniform 0 (2 ^ 64 - 1) rng in drawn.0 ∷ drawn_words n drawn.1

  pub drawn_pairs : ℕ → ℕ → R → Stream
  drawn_pairs zero m rng = []
  drawn_pairs (suc n) m rng =
      let j = random.uniform 0 ((m + (2 ^ 32 - 1)) % 2 ^ 32) rng in
      let c = random.real j.1 in (j.0, rank_of random reals o c.0) ∷ drawn_pairs n m c.1

  module _ (fair : IsRandom random) (laws : IsByteOrder o) where
    draw_words-drawn :
        (n : ℕ) (rng : R)
        → (length (draw_words random reals o n rng) ≡ n)
          × Below (capacity 8) (draw_words random reals o n rng)
          × (map (ntohll o) (draw_words random reals o n rng) ≡ drawn_words n rng)
    unfolding draw_words drawn_words
    draw_words-drawn zero rng = (refl, tt, refl)
    draw_words-drawn (suc n) rng =
        let drawn = random.uniform 0 (2 ^ 64 - 1) rng in
        let small : drawn.0 < 2 ^ 64 = omega (arith, fair.uniform-le 0 (2 ^ 64 - 1) rng) in
        let (count, below, back) = draw_words-drawn n drawn.1 in
        (
          ap suc count,
          (htonll-lt laws drawn.0 small, below),
          ap₂ ◌∷◌ (ntohll-htonll laws drawn.0 small) back,
        )

    -- With a byte order that is undone by itself and draws within their ranges, the benchmark
    -- reads from what the generator writes the 64-bit words that were drawn.
    pub read_uint64-generate_uint64 :
        (rng : R) (n : ℕ)
        → read_uint64 o n (generate_uint64 random reals o rng n) ≡ drawn_words n rng
    unfolding read_uint64 generate_uint64
    read_uint64-generate_uint64 rng n =
        let (count, below, back) = draw_words-drawn n rng in
        ap (map (ntohll o)) (read_words-write_words 8 n _ (sym count) below) ∙ back

    draw_pairs-drawn :
        (n m : ℕ) (rng : R)
        → ((c : F) → rank_of random reals o c < 2 ^ 32)
        → (length (draw_pairs random reals o n m rng) ≡ 2 * n)
          × Below (capacity 4) (draw_pairs random reals o n m rng)
          × (read_pairs o n (draw_pairs random reals o n m rng) ≡ drawn_pairs n m rng)
    unfolding draw_pairs drawn_pairs read_pairs
    draw_pairs-drawn zero m rng ranks = (refl, tt, refl)
    draw_pairs-drawn (suc n) m rng ranks =
        let hi = (m + (2 ^ 32 - 1)) % 2 ^ 32 in
        let j = random.uniform 0 hi rng in
        let c = random.real j.1 in
        let small : j.0 < 2 ^ 32 = omega (arith, fair.uniform-le 0 hi rng) in
        let (count, below, back) = draw_pairs-drawn n m c.1 ranks in
        (
          omega (arith, count),
          (laws.htonl-lt j.0 small, (laws.htonl-lt _ (ranks c.0), below)),
          ap₂ ◌∷◌
              (ap₂ (λ (a b : ℕ). (a, b)) (laws.ntohl-htonl j.0 small)
                (laws.ntohl-htonl _ (ranks c.0)))
              back,
        )

    -- With a byte order that is undone by itself, draws within their ranges and ranks below 2 ^
    -- 32, the benchmark reads from what the generator writes the pairs that were drawn.
    pub read_jr-generate_jr :
        (rng : R) (n m : ℕ)
        → ((c : F) → rank_of random reals o c < 2 ^ 32)
        → read_jr o n (generate_jr random reals o rng n m) ≡ drawn_pairs n m rng
    unfolding read_jr generate_jr
    read_jr-generate_jr rng n m ranks =
        let (count, below, back) = draw_pairs-drawn n m rng ranks in
        ap (read_pairs o n) (read_words-write_words 4 (2 * n) _ (sym count) below) ∙ back

    -- With registers to draw from and ranks below 64, the pairs are in range.
    pub drawn_pairs-IsInRange :
        (n m : ℕ) (rng : R)
        → 0 < m
        → m < 2 ^ 31
        → ((c : F) → rank_of random reals o c < 64)
        → IsInRange m (drawn_pairs n m rng)
    unfolding drawn_pairs
    drawn_pairs-IsInRange zero m rng pos small ranks = tt
    drawn_pairs-IsInRange (suc n) m rng pos small ranks =
        let hi = (m + (2 ^ 32 - 1)) % 2 ^ 32 in
        let j = random.uniform 0 hi rng in
        let c = random.real j.1 in
        (
          omega (arith, fair.uniform-le 0 hi rng),
          ranks c.0,
          drawn_pairs-IsInRange n m c.1 pos small ranks,
        )

  length-draw_chars : (n : ℕ) (rng : R) → length (draw_chars random reals o n rng) ≡ n
  unfolding draw_chars
  length-draw_chars zero rng = refl
  length-draw_chars (suc n) rng = ap suc (length-draw_chars n (random.uniform 0 61 rng).1)

  -- From the strings that the generator writes, the benchmark reads as many strings of the
  -- given length, which joined are what was written.
  pub read_str-generate_str :
      (rng : R) (n len : ℕ)
      → n * len < 2 ^ 64
      → AreStrings n len (read_str n len (generate_str random reals o rng n len))
        × (concat (read_str n len (generate_str random reals o rng n len))
            ≡ generate_str random reals o rng n len)
  unfolding generate_str
  read_str-generate_str rng n len small =
      read_str-AreStrings n len _ (length-draw_chars (len * n) rng ∙ mul_comm len n) small
