-- ===== src/Measure/Laws.antt =====
-- What the benchmark asks of a sketch class, and what it then reports.
use hyperlogloglog.Base.{
  ℕ, ◌%◌, ◌^◌, ◌≤◌, ◌<◌, ◌≡◌, refl, ap, arith, true, some, List, [], ◌∷◌, ◌++◌, max, ◌==◌,
  if◌then◌else◌,
}
use hyperlogloglog.Base.Tables.{tabulate}
use hyperlogloglog.Common.{log2i, rho, fibonacci_hash}
use hyperlogloglog.Estimate.{Floats, estimate_list}
use hyperlogloglog.Registers.{Stream, max_rank, IsInRange}
use hyperlogloglog.HyperLogLogLog.State.{complete_flags, are_valid_flags}
use hyperlogloglog.Measure.{
  Farm, Item, word, text, pair, farmhash_str, farmhash_word, word_of_int, Algorithm, add_item, adds,
}

-- The registers with the one at `j` raised to `r`.
abbrev pub raised : (ℕ → ℕ) → ℕ → ℕ → ℕ → ℕ
raised g j r k = if j == k then max r (g k) else g k

-- The pair of an index and a rank that an element stands for.
unfoldable pub pair_of : Farm → ℕ → Item → ℕ × ℕ
pair_of farm m (word x) =
    (fibonacci_hash (farmhash_word farm x) (log2i m), rho (farmhash_word farm x))
pair_of farm m (text s) =
    (fibonacci_hash (farmhash_str farm s) (log2i m), rho (farmhash_str farm s))
pair_of farm m (pair j r) = (word_of_int j, word_of_int r)

unfoldable pub stream_of : Farm → ℕ → List Item → Stream
stream_of farm m [] = []
stream_of farm m (x ∷ xs) = pair_of farm m x ∷ stream_of farm m xs

-- `Represents m flags g h`: the sketch `h` of `m` registers has the values `g`.
pub record IsSketch {ℓ} {F : Type ℓ} (d : Floats F) (alg : Algorithm F) : Type (ℓ ⊔ 1) where
  pub Represents : ℕ → ℕ → (ℕ → ℕ) → alg.Sketch → Type 0
  pub construct-Represents :
      (k flags : ℕ)
      → k ≤ 30
      → are_valid_flags (complete_flags (flags % 2 ^ 8)) ≡ true
      → (h : alg.Sketch) × (alg.construct (2 ^ k) flags ≡ some h)
        × Represents (2 ^ k) flags (λ j. 0) h
  pub add_jr-Represents :
      (m flags j r : ℕ) (g : ℕ → ℕ) (h : alg.Sketch)
      → Represents m flags g h
      → j < m
      → r < 64
      → (h' : alg.Sketch) × (alg.add_jr h j r ≡ some h') × Represents m flags (raised g j r) h'
  pub add-eq-add_jr :
      (m flags x : ℕ) (g : ℕ → ℕ) (h : alg.Sketch)
      → Represents m flags g h
      → alg.add h x ≡ alg.add_jr h (fibonacci_hash x (log2i m)) (rho x)
  pub merge-Represents :
      (m flags : ℕ) (f g : ℕ → ℕ) (a b : alg.Sketch)
      → Represents m flags f a
      → Represents m flags g b
      → (h : alg.Sketch) × (alg.merge a b ≡ some h) × Represents m flags (λ j. max (f j) (g j)) h
  pub Represents_ext :
      (m flags : ℕ) (f g : ℕ → ℕ) (h : alg.Sketch)
      → ((j : ℕ) → f j ≡ g j)
      → Represents m flags f h
      → Represents m flags g h
  pub estimate-eq-list :
      (m flags : ℕ) (g : ℕ → ℕ) (h : alg.Sketch)
      → Represents m flags g h
      → alg.estimate h ≡ estimate_list d m (tabulate g m)

module _ {ℓ} {F : Type ℓ} (farm : Farm) {d : Floats F} {alg : Algorithm F} (laws : IsSketch d alg)
    (m flags : ℕ) where
  add_item-Represents :
      (x : Item) (g : ℕ → ℕ) (h : alg.Sketch)
      → laws.Represents m flags g h
      → (pair_of farm m x).0 < m
      → (pair_of farm m x).1 < 64
      → (h' : alg.Sketch) × (add_item farm alg h x ≡ some h')
        × laws.Represents m flags (raised g (pair_of farm m x).0 (pair_of farm m x).1) h'
  unfolding add_item pair_of
  add_item-Represents (word x) g h rep hj hr =
      rw (laws.add-eq-add_jr m flags (farmhash_word farm x) g h rep)
        (laws.add_jr-Represents m flags _ _ g h rep hj hr)
  add_item-Represents (text s) g h rep hj hr =
      rw (laws.add-eq-add_jr m flags (farmhash_str farm s) g h rep)
        (laws.add_jr-Represents m flags _ _ g h rep hj hr)
  add_item-Represents (pair j r) g h rep hj hr = laws.add_jr-Represents m flags _ _ g h rep hj hr

  pub adds-Represents :
      (xs : List Item) (g : ℕ → ℕ) (h : alg.Sketch)
      → laws.Represents m flags g h
      → IsInRange m (stream_of farm m xs)
      → (h' : alg.Sketch) × (adds farm alg h xs ≡ some h')
        × laws.Represents m flags (λ k. max (max_rank (stream_of farm m xs) k) (g k)) h'
  unfolding adds stream_of max_rank
  adds-Represents [] g h rep range =
      (h, refl, laws.Represents_ext m flags g _ h (λ j. omega arith) rep)
  adds-Represents (x ∷ xs) g h rep range =
      let p = pair_of farm m x in
      let (h₁, e₁, rep₁) = add_item-Represents x g h rep range.0 range.1 in
      let (h₂, e₂, rep₂) = adds-Represents xs (raised g p.0 p.1) h₁ rep₁ range.2 in
      (h₂, rw e₁ e₂, laws.Represents_ext m flags _ _ h₂ (λ k. ground arith) rep₂)

pub stream_of-append :
    (farm : Farm) (m : ℕ) (xs ys : List Item)
    → stream_of farm m (xs ++ ys) ≡ stream_of farm m xs ++ stream_of farm m ys
unfolding stream_of
stream_of-append farm m [] ys = refl
stream_of-append farm m (x ∷ xs) ys = ap (λ s. pair_of farm m x ∷ s) (stream_of-append farm m xs ys)
