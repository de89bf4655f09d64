-- ===== src/HyperLogLogLog/Flags.antt =====
-- The constructor accepts the flags that it has completed, and completes them no further.
use native.Mathlib.Nat.{mod-eq_of_lt}
use hyperlogloglog.Base.{ℕ, ◌%◌, ◌^◌, ◌<◌, ◌≡◌, refl, ap, ◌∙◌, arith, ◌⊎◌, inl, inr, bit_or}
use hyperlogloglog.HyperLogLogLog.State.{complete_flags, type_full, when_always}

-- The flags stay as they are, or are one of the completed pairs.
complete_flags-cases :
    (f : ℕ)
    → (complete_flags f ≡ f)
      ⊎ ((complete_flags f ≡ 5) ⊎ ((complete_flags f ≡ 6) ⊎ (complete_flags f ≡ 9)))
unfolding complete_flags
complete_flags-cases f = ground (
  arith,
  ap (λ (x : ℕ). bit_or x when_always) {x = f} {y = 4},
  ap (λ (x : ℕ). bit_or x when_always) {x = f} {y = 8},
  ap (λ (x : ℕ). bit_or x type_full) {x = f} {y = 1},
  ap (λ (x : ℕ). bit_or x type_full) {x = f} {y = 2},
)

completed :
    (complete_flags (5 % 2 ^ 8) ≡ 5)
    × (complete_flags (6 % 2 ^ 8) ≡ 6)
    × (complete_flags (9 % 2 ^ 8) ≡ 9)
unfolding complete_flags
completed = (refl, refl, refl)

pub complete_flags-complete_flags :
    (f : ℕ) → f < 2 ^ 8 → complete_flags (complete_flags f % 2 ^ 8) ≡ complete_flags f
complete_flags-complete_flags f small = elim (complete_flags-cases f) [
  | inl e ↦ ap complete_flags (ap (λ x. x % 2 ^ 8) e ∙ mod-eq_of_lt small)
  | inr (inl e) ↦ rw e completed.0
  | inr (inr (inl e)) ↦ rw e completed.1
  | inr (inr (inr e)) ↦ rw e completed.2
]
