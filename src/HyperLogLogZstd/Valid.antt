-- ===== src/HyperLogLogZstd/Valid.antt =====
-- The invariant of a compressed sketch, which `compress` establishes.
use hyperlogloglog.Base.{
  ℕ, zero, suc, ◌≤◌, ◌<◌, ◌≡◌, refl, ap, ◌∙◌, arith, List, [], ◌∷◌, ltb, if◌then◌else◌, length,
  get_or, take, take_all, length-replicate, get_or-replicate, word_bits,
}
use hyperlogloglog.HyperLogLogZstd.{
  Zstd, IsLossless, HyperLogLogZstd, word_of_char, least, decompress, compress, new,
}

-- The value of a register, as the buffer has it.
abbrev pub register : HyperLogLogZstd → ℕ → ℕ
register h j = get_or h.temp j 0

-- The buffer has the registers, all below 128, and so has what is compressed.
pub record IsValid (z : Zstd) (h : HyperLogLogZstd) : Type 0 where
  pub count : length h.temp ≡ h.m
  pub small : (j : ℕ) → register h j < 128
  pub room : length h.compressed ≡ z.compress_bound h.m
  pub stored :
      (out : List ℕ)
      → length out ≡ h.m
      → z.decompress out (take h.compressed_size h.compressed) ≡ h.temp
  pub lower : (j : ℕ) → j < h.m → h.lower_bound ≤ register h j

-- The lower bound is one.
least-le :
    (cs : List ℕ) (l : ℕ)
    → ((j : ℕ) → get_or cs j 0 < 128)
    → (least cs l ≤ l) × ((j : ℕ) → j < length cs → least cs l ≤ get_or cs j 0)
unfolding least
least-le [] l small = (omega arith, λ j p. absurd (omega arith))
least-le (c ∷ cs) l small =
    let l' = if ltb (word_of_char c) l then word_of_char c else l in
    let rest = least-le cs l' (λ j. small (suc j)) in
    let bound : (l' ≤ l) × (l' ≤ c) = ground (arith, small 0) in (omega arith, each rest bound)
  where
    each :
        ((least cs (if ltb (word_of_char c) l then word_of_char c else l)
            ≤ (if ltb (word_of_char c) l then word_of_char c else l))
          × ((j : ℕ)
              → j < length cs
              → least cs (if ltb (word_of_char c) l then word_of_char c else l) ≤ get_or cs j 0))
        → (((if ltb (word_of_char c) l then word_of_char c else l) ≤ l)
            × ((if ltb (word_of_char c) l then word_of_char c else l) ≤ c))
        → (j : ℕ) → j < length (c ∷ cs)
        → least cs (if ltb (word_of_char c) l then word_of_char c else l) ≤ get_or (c ∷ cs) j 0
    each rest bound zero p = omega arith
    each rest bound (suc j) p = rest.1 j (omega arith)

module _ {z : Zstd} (laws : IsLossless z) where
  -- `compress` stores what the buffer has.
  pub compress-IsValid :
      (h : HyperLogLogZstd)
      → length h.temp ≡ h.m
      → ((j : ℕ) → register h j < 128)
      → length h.compressed ≡ z.compress_bound h.m
      → IsValid z (compress z h)
  unfolding compress
  compress-IsValid h count small room =
      let whole : take h.m h.temp ≡ h.temp = take_all h.m h.temp (omega arith) in
      rw whole (record {
        count = count;
        small = small;
        room = laws.length-compress h.compressed h.temp 1 ∙ room;
        stored = λ out e.
            laws.decompress-compress h.compressed h.temp out 1 (λ i. omega (arith, small i))
              (rw (count, room) (omega arith)) (omega arith);
        lower = λ j p. (least-le h.temp word_bits small).1 j (omega arith);
      })

  -- What `compress` leaves alone.
  pub temp-compress : (h : HyperLogLogZstd) → (compress z h).temp ≡ h.temp
  unfolding compress
  temp-compress h = refl

  pub m-compress : (h : HyperLogLogZstd) → (compress z h).m ≡ h.m
  unfolding compress
  m-compress h = refl

  -- `decompress` of a valid sketch changes nothing.
  pub decompress-same : {h : HyperLogLogZstd} → IsValid z h → decompress z h ≡ h
  unfolding decompress
  decompress-same {h} valid = ap (λ t. record h { temp = t }) (valid.stored h.temp valid.count)

  pub new-IsValid :
      (m : ℕ) → IsValid z (new z m) × ((new z m).m ≡ m) × ((j : ℕ) → register (new z m) j ≡ 0)
  unfolding new
  new-IsValid m = (
    compress-IsValid _ (length-replicate m 0) (λ j. omega (arith, get_or-replicate {A = ℕ} m j 0))
        (length-replicate (z.compress_bound m) 0),
    m-compress _,
    λ j. ap (λ t. get_or t j 0) (temp-compress _) ∙ get_or-replicate {A = ℕ} m j 0,
  )
