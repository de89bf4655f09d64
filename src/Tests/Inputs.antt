-- ===== src/Tests/Inputs.antt =====
-- What the generator writes, and what a benchmark reads of it.
use hyperlogloglog.Base.{◌≡◌, ◌↔◌, refl, arith, true, false, none, some, [], ◌∷◌}
use hyperlogloglog.Input.{store, read_uint64, read_jr}
use hyperlogloglog.Generator.{
  range_from, draw_chars, rank_of, draw_pairs, write_words, generate_uint64, generate_str,
  generate_jr,
}
use hyperlogloglog.Generator.Laws.{
  drawn_words, drawn_pairs, read_uint64-generate_uint64, read_jr-generate_jr,
}
use hyperlogloglog.Generator.Main.{Arguments, str, wrote, generate, main, generator_main_iff}
use hyperlogloglog.Tests.Systems.{
  little_endian, little_endian-IsByteOrder, counter, counter-IsRandom, small_reals,
}

-- `abc`, cut from the alphabet.
writes_string : generate_str counter small_reals little_endian 0 1 3 ≡ b'a' ∷ b'b' ∷ b'c' ∷ []
unfolding range_from draw_chars generate_str
writes_string = refl

-- A pair of an index and a rank, most significant bytes first.
writes_pair :
    generate_jr counter small_reals little_endian 3 1 4 ≡ 0 ∷ 0 ∷ 0 ∷ 3 ∷ 0 ∷ 0 ∷ 0 ∷ 5 ∷ []
unfolding store write_words rank_of draw_pairs generate_jr
writes_pair = refl

read_uint64-generate_uint64_example :
    read_uint64 little_endian 3 (generate_uint64 counter small_reals little_endian 5 3)
    ≡ drawn_words counter small_reals little_endian 3 5
read_uint64-generate_uint64_example =
    read_uint64-generate_uint64 counter small_reals little_endian counter-IsRandom
      little_endian-IsByteOrder 5 3

read_jr-generate_jr_example :
    read_jr little_endian 2 (generate_jr counter small_reals little_endian 0 2 4)
    ≡ drawn_pairs counter small_reals little_endian 2 4 0
read_jr-generate_jr_example =
    read_jr-generate_jr counter small_reals little_endian counter-IsRandom little_endian-IsByteOrder
      0 2 4 (λ c. unfold rank_of in omega arith)

abbrev arguments : Arguments
arguments = record { help = false; n = 2; dt = str; seed = 0; m = none; len = some 3 }

generator_main_iff_example :
    (main counter small_reals little_endian (λ seed. seed) (some arguments)
      ≡ wrote (generate counter small_reals little_endian (λ seed. seed) arguments))
    ↔ ((false ≡ false) × (false ≡ false) × (true ≡ true))
generator_main_iff_example =
    generator_main_iff counter small_reals little_endian (λ seed. seed) arguments
