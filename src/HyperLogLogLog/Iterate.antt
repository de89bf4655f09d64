-- ===== src/HyperLogLogLog/Iterate.antt =====
-- `iterate` runs its function once on each register, in the order of the indices.
use native.Mathlib.Nat.{sub-zero}
use hyperlogloglog.Base.{
  ℕ, zero, suc, ◌+◌, ◌-◌, ◌^◌, ◌≤◌, ◌<◌, ◌≡◌, ◌≢◌, refl, sym, ap, ◌∙◌, arith, ltb, if◌then◌else◌,
}
use hyperlogloglog.PackedVector
use hyperlogloglog.PackedMap
use hyperlogloglog.PackedMap.Lookup.{lookup-key_at, lookup-absent, key_at-lt}
use hyperlogloglog.HyperLogLogLog.State.{HyperLogLogLog}
use hyperlogloglog.HyperLogLogLog.Registers.{get, walk, iterate_from, iterate}
use hyperlogloglog.HyperLogLogLog.Shape.{HasShape, value_or, value_at-lookup}
use hyperlogloglog.HyperLogLogLog.Rebase.{get-value_at}

-- A plain loop over `rounds` registers from `j` on.
unfoldable pub over {ℓ} : {A : Type ℓ} → (ℕ → ℕ → A → A) → (ℕ → ℕ) → ℕ → ℕ → A → A
over f g zero j a = a
over f g (suc rounds) j a = over f g rounds (j + 1) (f j (g j) a)

module _ {ℓ} {A : Type ℓ} (f : ℕ → ℕ → A → A) (g : ℕ → ℕ) where
  over-add :
      (p q j : ℕ) (a : A) (n k : ℕ)
      → n ≡ p + q
      → k ≡ j + p
      → over f g n j a ≡ over f g q k (over f g p j a)
  unfolding over
  over-add zero q j a n k e d =
      let n_q : n ≡ q = omega arith in let k_j : k ≡ j = omega arith in rw (n_q, k_j)
  over-add (suc p) q j a n k e d =
      let n_suc : n ≡ suc (p + q) = omega arith in
      rw n_suc (over-add p q (j + 1) (f j (g j) a) (p + q) k refl (omega arith))

module _ {h : HyperLogLogLog} (shape : HasShape h) where
  -- A register without an exception is read from the offsets.
  pub get-dense :
      (q : ℕ)
      → ((i : ℕ) → i < PackedMap.size h.sparse → PackedMap.key_at h.sparse i ≢ q)
      → get h q ≡ PackedVector.get h.offsets q + h.base
  get-dense q absent =
      get-value_at h q
      ∙ value_at-lookup h h.base q shape
      ∙ ap (λ o. value_or o (PackedVector.get h.offsets q + h.base))
          (lookup-absent h.sparse q shape.map.sorted absent)

  pub get-sparse :
      (i : ℕ)
      → i < PackedMap.size h.sparse
      → get h (PackedMap.key_at h.sparse i) ≡ PackedMap.at h.sparse i
  get-sparse i p =
      let k = PackedMap.key_at h.sparse i in
      get-value_at h k
      ∙ value_at-lookup h h.base k shape
      ∙ ap (λ o. value_or o (PackedVector.get h.offsets k + h.base))
          (lookup-key_at h.sparse k i shape.map.sorted p refl)

module _ {ℓ} {A : Type ℓ} (f : ℕ → ℕ → A → A) {h : HyperLogLogLog} (shape : HasShape h) where
  walk-over :
      (rounds j : ℕ) (a : A)
      → ((q i : ℕ)
          → j ≤ q
          → q < j + rounds
          → i < PackedMap.size h.sparse
          → PackedMap.key_at h.sparse i ≢ q)
      → walk f h rounds j a ≡ over f (get h) rounds j a
  unfolding walk over
  walk-over zero j a absent = refl
  walk-over (suc rounds) j a absent =
      rw (← get-dense shape j (λ i p. absent j i (omega arith) (omega arith) p)) (
        walk-over rounds (j + 1) (f j (get h j) a)
          (λ q i p r. absent q i (omega arith) (omega arith)))

  iterate_from-over :
      (rounds i j : ℕ) (a : A)
      → i + rounds ≡ PackedMap.size h.sparse
      → ((k : ℕ) → k < i → PackedMap.key_at h.sparse k < j)
      → ((k : ℕ) → i ≤ k → k < PackedMap.size h.sparse → j ≤ PackedMap.key_at h.sparse k)
      → j ≤ h.m
      → iterate_from f h rounds i j a ≡ over f (get h) (h.m - j) j a
  unfolding iterate_from
  iterate_from-over zero i j a e before after le =
      walk-over (h.m - j) j a (λ q k p r s d. ground (arith, before k))
  iterate_from-over (suc rounds) i j a e before after le =
      let k = PackedMap.key_at h.sparse i in
      let i_lt : i < PackedMap.size h.sparse = omega arith in
      let j_k : j ≤ k = after i (omega arith) i_lt in
      let k_m : k < h.m = key_lt i i_lt in
      let stays : (if ltb j k then k else j) ≡ k = ground arith in
      let walked : walk f h (k - j) j a ≡ over f (get h) (k - j) j a =
        walk-over (k - j) j a (λ q n p r s d. ground (
          arith,
          before n,
          shape.map.sorted i n,
          ap (PackedMap.key_at h.sparse) {x = i} {y = n},
        )) in
      rw (stays, walked, ← get-sparse shape i i_lt)
        (iterate_from-over rounds (i + 1) (k + 1) (f k (get h k) (over f (get h) (k - j) j a))
            (omega arith)
            (λ n p. ground (arith, before n, ap (PackedMap.key_at h.sparse) {x = i} {y = n}))
            (λ n p r. omega (arith, shape.map.sorted i n (omega arith) r)) (omega arith)
          ∙ sym (over-step k)
          ∙ sym (
              over-add f (get h) (k - j) (suc (h.m - (k + 1))) j a (h.m - j) k (omega arith)
                (omega arith)))
    where
      key_lt : (n : ℕ) → n < PackedMap.size h.sparse → PackedMap.key_at h.sparse n < h.m
      key_lt n p =
          omega (arith, key_at-lt shape.map n p, ap (λ (e : ℕ). 2 ^ e) shape.key_size, shape.power)

      over-step :
          (k : ℕ)
          → over f (get h) (suc (h.m - (k + 1))) k (over f (get h) (k - j) j a)
            ≡ over f (get h) (h.m - (k + 1)) (k + 1) (f k (get h k) (over f (get h) (k - j) j a))
      over-step k = unfold over in refl

  -- In a sketch of the right shape, `iterate` runs its function on the pairs of an index and
  -- its register for all indices below `m`, once each and in ascending order.
  pub iterate-over : (a : A) → iterate f h a ≡ over f (get h) h.m 0 a
  unfolding iterate
  iterate-over a =
      iterate_from-over (PackedMap.size h.sparse) 0 0 a (omega arith) (λ k p. absurd (omega arith))
        (λ k p r. omega arith) (omega arith)
      ∙ ap (λ n. over f (get h) n 0 a) (sub-zero h.m)

-- What every round of the loop keeps, from its start to its end, holds at the end.
pub over_inv {ℓ κ} :
    {A : Type ℓ} (P : ℕ → A → Type κ) (f : ℕ → ℕ → A → A) (g : ℕ → ℕ) (rounds j n : ℕ) (a : A)
    → j + rounds ≡ n
    → ((k : ℕ) (b : A) → k < n → P k b → P (k + 1) (f k (g k) b))
    → P j a
    → P n (over f g rounds j a)
unfolding over
over_inv P f g zero j n a e keep start = let j_n : j ≡ n = omega arith in rw (← j_n) start
over_inv P f g (suc rounds) j n a e keep start =
    over_inv P f g rounds (j + 1) n (f j (g j) a) (omega arith) keep (keep j a (omega arith) start)
