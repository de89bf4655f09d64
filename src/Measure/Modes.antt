-- ===== src/Measure/Modes.antt =====
-- Both modes of the benchmark report the estimate of the whole data.
use hyperlogloglog.Base.{
  ℕ, ◌/◌, ◌%◌, ◌^◌, ◌≤◌, ◌≡◌, refl, sym, ap, ◌∙◌, arith, true, some, List, [], ◌∷◌, ◌++◌, max,
  length, take, drop, take-append-drop,
}
use hyperlogloglog.Base.Tables.{tabulate}
use hyperlogloglog.Estimate.{Floats, estimate_list}
use hyperlogloglog.Registers.{Stream, max_rank, IsInRange, max_rank-append}
use hyperlogloglog.HyperLogLogLog.State.{complete_flags, are_valid_flags}
use hyperlogloglog.Measure.{
  Farm, Item, Algorithm, Report, Mode, query, merge, report, measure_merge_of, measure_merge,
  measure_query_of, measure_query, measure,
}
use hyperlogloglog.Measure.Laws.{IsSketch, stream_of, stream_of-append, adds-Represents}

IsInRange-halves : (m : ℕ) (s t : Stream) → IsInRange m (s ++ t) → IsInRange m s × IsInRange m t
IsInRange-halves m [] t h = (tt, h)
IsInRange-halves m ((j, r) ∷ s) t h =
    let (left, right) = IsInRange-halves m s t h.2 in ((h.0, h.1, left), right)

module _ {ℓ} {F : Type ℓ} (farm : Farm) {d : Floats F} {alg : Algorithm F}
    (laws : IsSketch d alg) where
  -- The registers that the data leave.
  abbrev ranks : ℕ → List Item → ℕ → ℕ
  ranks m xs j = max_rank (stream_of farm m xs) j

  whole_data :
      (m : ℕ) (xs : List Item)
      → stream_of farm m (take (length xs / 2) xs) ++ stream_of farm m (drop (length xs / 2) xs)
        ≡ stream_of farm m xs
  whole_data m xs =
      sym (stream_of-append farm m (take (length xs / 2) xs) (drop (length xs / 2) xs))
      ∙ ap (stream_of farm m) (take-append-drop (length xs / 2) xs)

  measure_merge-estimate :
      (k flags : ℕ) (xs : List Item)
      → k ≤ 30
      → are_valid_flags (complete_flags (flags % 2 ^ 8)) ≡ true
      → IsInRange (2 ^ k) (stream_of farm (2 ^ k) xs)
      → (r : Report F) × (measure_merge farm alg (2 ^ k) flags xs ≡ some r)
        × (r.estimate ≡ estimate_list d (2 ^ k) (tabulate (ranks (2 ^ k) xs) (2 ^ k)))
  unfolding measure_merge measure_merge_of report
  measure_merge-estimate k flags xs le accepted range =
      let m = 2 ^ k in
      let n = length xs / 2 in
      let (h, made, rep) = laws.construct-Represents k flags le accepted in
      let halves =
        IsInRange-halves m (stream_of farm m (take n xs)) (stream_of farm m (drop n xs))
          (rw (whole_data m xs) range) in
      let (a, ea, ra) = adds-Represents farm laws m flags (take n xs) (λ j. 0) h rep halves.0 in
      let (b, eb, rb) = adds-Represents farm laws m flags (drop n xs) (λ j. 0) h rep halves.1 in
      let (c, ec, rc) = laws.merge-Represents m flags _ _ a b ra rb in
      let same : (j : ℕ)
          → max (max (ranks m (take n xs) j) 0) (max (ranks m (drop n xs) j) 0) ≡ ranks m xs j =
        λ j. omega (
          arith,
          max_rank-append (stream_of farm m (take n xs)) (stream_of farm m (drop n xs)) j,
          ap (λ s. max_rank s j) (whole_data m xs),
        ) in
      (
        report farm alg c,
        rw (made, ea, eb, ec) refl,
        laws.estimate-eq-list m flags _ c (laws.Represents_ext m flags _ _ c same rc),
      )

  measure_query-estimate :
      (k flags : ℕ) (xs : List Item)
      → k ≤ 30
      → are_valid_flags (complete_flags (flags % 2 ^ 8)) ≡ true
      → IsInRange (2 ^ k) (stream_of farm (2 ^ k) xs)
      → (r : Report F) × (measure_query farm alg (2 ^ k) flags xs ≡ some r)
        × (r.estimate ≡ estimate_list d (2 ^ k) (tabulate (ranks (2 ^ k) xs) (2 ^ k)))
  unfolding measure_query measure_query_of report
  measure_query-estimate k flags xs le accepted range =
      let m = 2 ^ k in
      let (h, made, rep) = laws.construct-Represents k flags le accepted in
      let (a, ea, ra) = adds-Represents farm laws m flags xs (λ j. 0) h rep range in
      (
        report farm alg a,
        rw (made, ea) refl,
        laws.estimate-eq-list m flags _ a (laws.Represents_ext m flags _ _ a (λ j. omega arith) ra),
      )

  -- Either mode reports the estimate of the list of the greatest ranks of the data.
  pub measure-estimate :
      (mode : Mode) (k flags : ℕ) (xs : List Item)
      → k ≤ 30
      → are_valid_flags (complete_flags (flags % 2 ^ 8)) ≡ true
      → IsInRange (2 ^ k) (stream_of farm (2 ^ k) xs)
      → (r : Report F) × (measure farm alg mode (2 ^ k) flags xs ≡ some r)
        × (r.estimate ≡ estimate_list d (2 ^ k) (tabulate (ranks (2 ^ k) xs) (2 ^ k)))
  unfolding measure
  measure-estimate merge k flags xs le accepted range =
      measure_merge-estimate k flags xs le accepted range
  measure-estimate query k flags xs le accepted range =
      measure_query-estimate k flags xs le accepted range
