-- ===== src/HyperLogLogLog/Occurrences.antt =====
-- How often a value is among the first values of a function.
use native.Mathlib.Decide.{dec_lt, ℕ_discrete}
use hyperlogloglog.Base.{
  ℕ, zero, suc, ◌+◌, ◌≤◌, ◌<◌, ◌≡◌, ◌≢◌, refl, sym, ap, arith, ◌==◌, if◌then◌else◌,
}

unfoldable pub occurrences : (ℕ → ℕ) → ℕ → ℕ → ℕ
occurrences g l zero = 0
occurrences g l (suc n) = occurrences g l n + (if g n == l then 1 else 0)

pub occurrences-le : (g : ℕ → ℕ) (l n : ℕ) → occurrences g l n ≤ n
unfolding occurrences
occurrences-le g l zero = omega arith
occurrences-le g l (suc n) = ground (arith, occurrences-le g l n)

pub occurrences_ext :
    (f g : ℕ → ℕ) (l n : ℕ) → ((i : ℕ) → i < n → f i ≡ g i) → occurrences f l n ≡ occurrences g l n
unfolding occurrences
occurrences_ext f g l zero same = refl
occurrences_ext f g l (suc n) same =
    ground (arith, occurrences_ext f g l n (λ i p. same i (omega arith)), same n (omega arith))

pub occurrences_pos : (g : ℕ → ℕ) (l n i : ℕ) → i < n → g i ≡ l → 0 < occurrences g l n
unfolding occurrences
occurrences_pos g l zero i p e = absurd (omega arith)
occurrences_pos g l (suc n) i p e = ground (arith, occurrences_pos g l n i, ap g {x = i} {y = n})

pub occurrences_zero : (l n : ℕ) → occurrences (λ i. l) l n ≡ n
unfolding occurrences
occurrences_zero l zero = refl
occurrences_zero l (suc n) = ground (arith, occurrences_zero l n)

-- One value changes to another than `l`.
pub occurrences_raised :
    (f g : ℕ → ℕ) (l n j : ℕ)
    → j < n
    → ((i : ℕ) → i < n → i ≢ j → g i ≡ f i)
    → g j ≢ l
    → occurrences f l n ≡ occurrences g l n + (if f j == l then 1 else 0)
unfolding occurrences
occurrences_raised f g l zero j hj same ne = absurd (omega arith)
occurrences_raised f g l (suc n) j hj same ne = elim (dec_lt j n) [
  | yes p ↦ ground (
    arith,
    occurrences_raised f g l n j p (λ i q. same i (omega arith)) ne,
    same n (omega arith) (omega arith),
  )
  | no p ↦
      let last : j ≡ n = omega arith in
      ground (
        arith,
        occurrences_ext f g l n (λ i q. sym (same i (omega arith) (omega arith))),
        ap f last,
        ap g last,
      )
]

-- A number that occurs is one of the values.
pub occurrences_some : (g : ℕ → ℕ) (l n : ℕ) → 0 < occurrences g l n → (i : ℕ) × (i < n) × (g i ≡ l)
unfolding occurrences
occurrences_some g l zero pos = absurd (omega arith)
occurrences_some g l (suc n) pos = elim (ℕ_discrete (g n) l) [
  | yes e ↦ (n, omega arith, e)
  | no ne ↦ let (i, p, e) = occurrences_some g l n (ground (arith, pos, ne)) in (i, omega arith, e)
]
