-- ===== src/Registers.antt =====
-- What a HyperLogLog sketch means: for each index, the greatest rank that was added at it.
use hyperlogloglog.Base.{ℕ, ◌<◌, ◌≡◌, arith, List, [], ◌∷◌, ◌++◌, max, ◌==◌, if◌then◌else◌}

-- The pairs of an index and a rank that were added.
abbrev pub Stream : Type 0
Stream = List (ℕ × ℕ)

unfoldable pub max_rank : Stream → ℕ → ℕ
max_rank [] j = 0
max_rank ((i, r) ∷ s) j = if i == j then max r (max_rank s j) else max_rank s j

-- Each index is below `m`, and each rank below 64: what `addJr` asks of its arguments.
abbrev pub IsInRange : ℕ → Stream → Type 0
IsInRange m [] = Unit {0}
IsInRange m ((i, r) ∷ s) = (i < m) × (r < 64) × IsInRange m s

pub max_rank-append :
    (s t : Stream) (j : ℕ) → max_rank (s ++ t) j ≡ max (max_rank s j) (max_rank t j)
unfolding max_rank
max_rank-append [] t j = omega arith
max_rank-append ((i, r) ∷ s) t j = ground (arith, max_rank-append s t j)

pub IsInRange-append : (m : ℕ) (s t : Stream) → IsInRange m s → IsInRange m t → IsInRange m (s ++ t)
IsInRange-append m [] t h k = k
IsInRange-append m ((i, r) ∷ s) t h k = (h.0, h.1, IsInRange-append m s t h.2 k)
