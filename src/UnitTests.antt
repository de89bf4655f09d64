-- ===== src/UnitTests.antt =====
-- The tests of hyperlogloglog/test.cpp that draw their input, as functions of what is drawn: a
-- test is `true` if no `REQUIRE` fails. Tests that have to pass whatever is drawn, as long as no
-- estimate is a NaN, are here, and in Literals some without draws; those that compare with numbers
-- found for one seed are not.
use hyperlogloglog.Base.{
  ℕ, zero, suc, ◌≤◌, ◌<◌, ◌≡◌, refl, arith, Bool, true, false, List, [], ◌∷◌, length, get_or, min,
  not, ◌==◌, if◌then◌else◌, ◌⊎◌, inl, inr, Option, none, some,
}
pub mod Histories
pub mod Vectors
pub mod Literals
pub mod Adds
pub mod Bottom
pub mod Merges
pub mod Compressed
pub mod Cases

-- The loop of `equals`.
unfoldable pub equal_elements : List ℕ → List ℕ → Bool
equal_elements [] rs = true
equal_elements (l ∷ ls) [] = true
equal_elements (l ∷ ls) (r ∷ rs) = if not (l == r) then false else equal_elements ls rs

unfoldable pub equals : List ℕ → List ℕ → Bool
unfolding equal_elements
equals ls rs = if not (length ls == length rs) then false else equal_elements ls rs

-- `minimumM = std::min(minimumM, Mj)` for all registers.
unfoldable pub least : ℕ → List ℕ → ℕ
least minimum [] = minimum
least minimum (r ∷ rs) = least (min minimum r) rs

-- `minimumBits(...) == bits`, if no `int` overflows.
unfoldable pub is_minimum : Option ℕ → ℕ → Bool
is_minimum none bits = false
is_minimum (some minimum) bits = minimum == bits

pub equals_refl : (rs : List ℕ) → equals rs rs ≡ true
unfolding equals
equals_refl rs = ground (arith, elements rs)
  where
    elements : (rs : List ℕ) → equal_elements rs rs ≡ true
    elements [] = refl
    elements (r ∷ rs) = ground (arith, elements rs)

-- The least number of a list is one that occurs and that none is below.
pub least_is :
    (minimum b : ℕ) (rs : List ℕ)
    → b ≤ minimum
    → ((i : ℕ) → i < length rs → b ≤ get_or rs i 0)
    → (minimum ≡ b) ⊎ ((i : ℕ) × (i < length rs) × (get_or rs i 0 ≡ b))
    → least minimum rs ≡ b
unfolding least
least_is minimum b [] le low (inl e) = e
least_is minimum b [] le low (inr (i, p, e)) = absurd (omega arith)
least_is minimum b (r ∷ rs) le low (inl e) =
    least_is (min minimum r) b rs (omega (arith, low 0 (omega arith)))
      (λ i p. low (suc i) (omega arith)) (inl (omega (arith, low 0 (omega arith))))
least_is minimum b (r ∷ rs) le low (inr (zero, p, e)) =
    least_is (min minimum r) b rs (omega (arith, low 0 (omega arith)))
      (λ i p. low (suc i) (omega arith)) (inl (omega (arith, e)))
least_is minimum b (r ∷ rs) le low (inr (suc i, p, e)) =
    least_is (min minimum r) b rs (omega (arith, low 0 (omega arith)))
      (λ i p. low (suc i) (omega arith)) (inr (i, omega arith, e))
