-- ===== src/Generator.antt =====
-- inputgenerator/inputgenerator.cpp: the three kinds of input. The random number generator and its
-- distributions are a parameter, and so are the functions on `double` values; the clock and its
-- report are left out, and so are a negative length and a negative number of registers. A generator
-- returns the bytes that it writes.
pub mod Laws
pub mod Main
use hyperlogloglog.Base.{ℕ, zero, suc, ◌+◌, ◌-◌, ◌*◌, ◌%◌, ◌^◌, List, [], ◌∷◌, ◌++◌, get_or}
use hyperlogloglog.Common.ByteOrder.{ByteOrder, htonll}
use hyperlogloglog.Input.{store}

-- `uniform` draws from a range of integers, and `real` a `double` from 0 to 1. `rank_of` stands
-- for `static_cast<uint32_t>(ceil(-log2(1 - c)))`.
pub record Random {ℓ κ} (R : Type ℓ) (F : Type κ) : Type (ℓ ⊔ κ) where
  pub uniform : ℕ → ℕ → R → ℕ × R
  pub real : R → F × R

-- The functions of the mathematical library.
pub record Reals {κ} (F : Type κ) : Type κ where
  pub one : F
  pub sub : F → F → F
  pub log2 : F → F
  pub negate : F → F
  pub ceil : F → F
  pub to_uint32 : F → ℕ

unfoldable pub write_words : ℕ → List ℕ → List ℕ
write_words width [] = []
write_words width (x ∷ xs) = store width x ++ write_words width xs

-- `ALPHANUMBERS`: the letters, small and capital, and the digits.
unfoldable pub range_from : ℕ → ℕ → List ℕ
range_from zero c = []
range_from (suc n) c = c ∷ range_from n (c + 1)

abbrev pub alphanumbers : List ℕ
unfolding range_from
alphanumbers = range_from 26 b'a' ++ range_from 26 b'A' ++ range_from 10 b'0'

module _ {ℓ κ} {R : Type ℓ} {F : Type κ} (random : Random R F) (reals : Reals F)
    (o : ByteOrder) where
  -- The loop of `generateUint64`.
  unfoldable pub draw_words : ℕ → R → List ℕ
  draw_words zero rng = []
  draw_words (suc n) rng =
      let drawn = random.uniform 0 (2 ^ 64 - 1) rng in htonll o drawn.0 ∷ draw_words n drawn.1

  unfoldable pub generate_uint64 : R → ℕ → List ℕ
  unfolding draw_words write_words store
  generate_uint64 rng n = write_words 8 (draw_words n rng)

  -- The loop of `generateStr` over the buffer.
  unfoldable pub draw_chars : ℕ → R → List ℕ
  draw_chars zero rng = []
  draw_chars (suc n) rng =
      let drawn = random.uniform 0 61 rng in get_or alphanumbers drawn.0 0 ∷ draw_chars n drawn.1

  unfoldable pub generate_str : R → ℕ → ℕ → List ℕ
  unfolding draw_chars
  generate_str rng n len = draw_chars (len * n) rng

  unfoldable pub rank_of : F → ℕ
  rank_of c = reals.to_uint32 (reals.ceil (reals.negate (reals.log2 (reals.sub reals.one c))))

  -- The loop of `generateJr`; `m - 1` wraps as it is converted to `uint32_t`.
  unfoldable pub draw_pairs : ℕ → ℕ → R → List ℕ
  draw_pairs zero m rng = []
  draw_pairs (suc n) m rng =
      let j = random.uniform 0 ((m + (2 ^ 32 - 1)) % 2 ^ 32) rng in
      let c = random.real j.1 in o.htonl j.0 ∷ o.htonl (rank_of c.0) ∷ draw_pairs n m c.1

  unfoldable pub generate_jr : R → ℕ → ℕ → List ℕ
  unfolding draw_pairs rank_of write_words store
  generate_jr rng n m = write_words 4 (draw_pairs n m rng)
